-- ===== src/Groups.antt =====
-- The day groups of the feeds (web/src/lib/dayGroups.ts). An item's day key and its label by the
-- preferences are functions of the item; a key is a text.
pub mod Items
pub mod Partition
mod Tests
use pecunia.Prelude.{◌+◌, Bool, true, false, ◌&&◌, List, [], ◌∷◌, ◌++◌, map, ◌==◌, if◌then◌else◌}
use pecunia.Prelude.Text.{Text, codes}

abbrev pub text_eq : Text → Text → Bool
text_eq [] [] = true
text_eq [] (c ∷ t) = false
text_eq (c ∷ s) [] = false
text_eq (c ∷ s) (d ∷ t) = c == d && text_eq s t

pub record DayGroup {ℓ} (T : Type ℓ) : Type ℓ where
  pub label : Text
  pub items : List T

module _ {ℓ} {T : Type ℓ} (day_key : T → Text) where
  -- A bucket under its key; the buckets stand in the order in which their keys were first seen.
  abbrev pub Buckets : Type ℓ
  Buckets = List (Text × List T)

  pub put : T → Buckets → Buckets
  put item [] = (day_key item, item ∷ []) ∷ []
  put item ((key, items) ∷ buckets) =
      let rest = put item buckets in
      if text_eq key (day_key item)
      then (key, items ++ (item ∷ [])) ∷ buckets
      else (key, items) ∷ rest

  pub put_all : List T → Buckets → Buckets
  unfolding put
  put_all [] buckets = buckets
  put_all (item ∷ items) buckets = put_all items (put item buckets)

  -- The label of the first item stands for the group's; a bucket is never empty.
  abbrev label_of : Text → Text → (T → Text) → Text → List T → Text
  label_of today yesterday label key [] = []
  label_of today yesterday label key (item ∷ items) =
      if text_eq key today
      then codes "Today"
      else if text_eq key yesterday
      then codes "Yesterday"
      else label item

  abbrev pub group_of : Text → Text → (T → Text) → Text × List T → DayGroup T
  group_of today yesterday label bucket = record {
    label = label_of today yesterday label bucket.0 bucket.1;
    items = bucket.1;
  }

  pub group_by_day : Text → Text → (T → Text) → List T → List (DayGroup T)
  unfolding put_all
  group_by_day today yesterday label items = map (group_of today yesterday label) (put_all items [])
