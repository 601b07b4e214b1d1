-- ===== src/Hooks/ScheduleOrder.antt =====
-- The order of the schedules (`select` of web/src/features/planned/usePlanned.ts).
use pecunia.Prelude.{ap, ◌∙◌, ◌++◌, String, ◌≡◌, refl, Bool, true, false, not, Option, List, filter}
use pecunia.Prelude.Int.{◌-ℤ◌, ℤ, pos, leb_ℤ}
use pecunia.Prelude.Sort.{sort_by, stays, sort}
use pecunia.Prelude.Sort.Grouped.{sort_by_groups, sort_by_constant}
use pecunia.Hooks.Planned.{ScheduleFrequency}

-- `ScheduledTransactionOut`
pub record ScheduledTransactionOut : Type 0 where
  pub id : String
  pub account_id : String
  pub category_id : Option String
  pub contact_id : Option String
  pub amount_minor : ℤ
  pub currency : String
  pub description : String
  pub frequency : ScheduleFrequency
  pub interval_count : ℤ
  pub next_due : String
  pub end_date : Option String
  pub is_active : Bool
  pub is_demo : Bool
  pub created_at : String
  pub updated_at : String

-- `SchedulePage`
pub record SchedulePage : Type 0 where
  pub items : List ScheduledTransactionOut
  pub next_cursor : Option String

abbrev pub number_of_bool : Bool → ℤ
number_of_bool true = pos 1
number_of_bool false = pos 0

-- The comparator.
abbrev pub compare_schedules : ScheduledTransactionOut → ScheduledTransactionOut → ℤ
compare_schedules a b = number_of_bool b.is_active -ℤ number_of_bool a.is_active

-- `select`
unfoldable pub select_planned : SchedulePage → SchedulePage
select_planned page = record {
  items = sort compare_schedules page.items;
  next_cursor = page.next_cursor;
}

-- Whether one activity may stand in front of another.
abbrev may_lead : Bool → Bool → Bool
may_lead a b = leb_ℤ (number_of_bool b -ℤ number_of_bool a) (pos 0)

active_leads : (a b : Bool) → a ≡ true → b ≡ false → may_lead a b ≡ true
unfolding ◌-ℤ◌
active_leads a b h k = rw (h, k) refl

inactive_follows : (a b : Bool) → a ≡ false → b ≡ true → may_lead a b ≡ false
unfolding ◌-ℤ◌
inactive_follows a b h k = rw (h, k) refl

equals_stay : (a b : Bool) → a ≡ b → may_lead a b ≡ true
unfolding ◌-ℤ◌
equals_stay true true h = refl
equals_stay true false h = refl
equals_stay false true h = h
equals_stay false false h = refl

-- The schedules that are active come first; among the active ones, and among the others, the
-- order of the page stays. The cursor stays.
pub select_planned-groups :
    (page : SchedulePage)
    → ((select_planned page).items
        ≡ filter (λ s. s.is_active) page.items ++ filter (λ s. not s.is_active) page.items)
      × ((select_planned page).next_cursor ≡ page.next_cursor)
unfolding select_planned
select_planned-groups page = (
  sort_by_groups (stays compare_schedules) (λ a b. true) (λ s. s.is_active)
        (λ a b h k. active_leads a.is_active b.is_active h k)
        (λ a b h k. inactive_follows a.is_active b.is_active h k)
        (λ a b h. equals_stay a.is_active b.is_active h) page.items
      ∙ ap (λ l. l ++ sort_by (λ a b. true) (filter (λ s. not s.is_active) page.items))
          (sort_by_constant (filter (λ s. s.is_active) page.items))
      ∙ ap (λ l. filter (λ s. s.is_active) page.items ++ l)
          (sort_by_constant (filter (λ s. not s.is_active) page.items)),
  refl,
)
