-- ===== src/Groups/Items.antt =====
-- The buckets of the days, and what putting an item does to them.
use pecunia.Prelude.{
  true≢false, false≢true, ◌||◌, Bool-cases, inl, inr, ◌≡◌, refl, sym, ap, ap₂, ◌∙◌, Bool, true,
  false, ◌&&◌, List, [], ◌∷◌, ◌++◌, map, append-nil, arith, filter, ◌==◌, if◌then◌else◌, ==_iff,
}
use pecunia.Prelude.Text.{Text}
use pecunia.Groups.{text_eq, Buckets, put}

pub text_eq-eq : (s t : Text) → text_eq s t ≡ true → s ≡ t
text_eq-eq [] [] h = refl
text_eq-eq [] (c ∷ t) h = absurd (false≢true h)
text_eq-eq (c ∷ s) [] h = absurd (false≢true h)
text_eq-eq (c ∷ s) (d ∷ t) h =
    let (e, r) = both (c == d) (text_eq s t) h in
    ap₂ (λ x xs. x ∷ xs) ((==_iff c d).0 e) (text_eq-eq s t r)
  where
    both : (a b : Bool) → (a && b) ≡ true → (a ≡ true) × (b ≡ true)
    both a b k = (ground arith, ground arith)

pub text_eq_refl : (t : Text) → text_eq t t ≡ true
text_eq_refl [] = refl
text_eq_refl (c ∷ t) = rw ((==_iff c c).1 refl) (text_eq_refl t)

-- Whether a day is one of the days.
abbrev pub is_among : Text → List Text → Bool
is_among k [] = false
is_among k (key ∷ keys) = text_eq key k || is_among k keys

module _ {T : Type 0} (day_key : T → Text) where
  abbrev pub of_day : Text → T → Bool
  of_day key item = text_eq key (day_key item)

  -- The days of the items, each where it is first seen.
  abbrev pub add_day : List Text → Text → List Text
  add_day days k = if is_among k days then days else days ++ (k ∷ [])

  abbrev pub days_from : List Text → List T → List Text
  days_from days [] = days
  days_from days (item ∷ items) = days_from (add_day days (day_key item)) items

  abbrev pub days_of : List T → List Text
  days_of items = days_from [] items

  -- One bucket for each day, with the items of that day in their order.
  abbrev pub buckets_of : List Text → List T → Buckets day_key
  buckets_of days items = map (λ k. (k, filter (of_day k) items)) days

  filter-append :
      (k : Text) (xs ys : List T)
      → filter (of_day k) (xs ++ ys) ≡ filter (of_day k) xs ++ filter (of_day k) ys
  filter-append k [] ys = refl
  filter-append k (x ∷ xs) ys = elim (Bool-cases (of_day k x)) [
    | inl e ↦ rw e (ap (λ l. x ∷ l) (filter-append k xs ys))
    | inr e ↦ rw e (filter-append k xs ys)
  ]

  -- A day that is not the item's keeps its bucket.
  pub keeps :
      (k : Text) (xs : List T) (item : T)
      → of_day k item ≡ false
      → filter (of_day k) (xs ++ (item ∷ [])) ≡ filter (of_day k) xs
  keeps k xs item e = filter-append k xs (item ∷ []) ∙ rw e (append-nil (filter (of_day k) xs))

  pub takes :
      (k : Text) (xs : List T) (item : T)
      → of_day k item ≡ true
      → filter (of_day k) (xs ++ (item ∷ [])) ≡ filter (of_day k) xs ++ (item ∷ [])
  takes k xs item e = filter-append k xs (item ∷ []) ∙ rw e refl

  -- No day stands twice.
  abbrev pub AllDistinct : List Text → Type 0
  AllDistinct [] = Unit
  AllDistinct (k ∷ keys) = (is_among k keys ≡ false) × AllDistinct keys

  -- Every item seen has its day among the days.
  abbrev pub Seen : List Text → List T → Type 0
  Seen days xs = (k : Text) → is_among k days ≡ false → filter (of_day k) xs ≡ []

  pub or_parts : (a b : Bool) → (a || b) ≡ false → (a ≡ false) × (b ≡ false)
  or_parts false b h = (refl, h)
  or_parts true b h = absurd (true≢false h)

  -- The buckets of other days do not change.
  pub others :
      (days : List Text) (xs : List T) (item : T)
      → is_among (day_key item) days ≡ false
      → buckets_of days (xs ++ (item ∷ [])) ≡ buckets_of days xs
  others [] xs item h = refl
  others (k ∷ days) xs item h =
      let p = or_parts (of_day k item) (is_among (day_key item) days) h in
      ap₂ (λ (l : List T) (b : Buckets day_key). (k, l) ∷ b) (keeps k xs item p.0)
        (others days xs item p.1)

  -- An item of a new day opens the last bucket.
  pub put_new :
      (days : List Text) (xs : List T) (item : T)
      → is_among (day_key item) days ≡ false
      → put day_key item (buckets_of days xs)
        ≡ buckets_of days xs ++ ((day_key item, item ∷ []) ∷ [])
  unfolding put
  put_new [] xs item h = refl
  put_new (k ∷ days) xs item h =
      let p = or_parts (of_day k item) (is_among (day_key item) days) h in
      rw p.0 (ap (λ b. (k, filter (of_day k) xs) ∷ b) (put_new days xs item p.1))

  -- An item of a day that was seen goes to the end of its bucket.
  pub put_seen :
      (days : List Text) (xs : List T) (item : T)
      → AllDistinct days
      → is_among (day_key item) days ≡ true
      → put day_key item (buckets_of days xs) ≡ buckets_of days (xs ++ (item ∷ []))
  unfolding put
  put_seen [] xs item d h = absurd (false≢true h)
  put_seen (k ∷ days) xs item d h = elim (Bool-cases (of_day k item)) [
    | inl e ↦
        let same = text_eq-eq k (day_key item) e in
        rw e (
          ap₂ (λ (l : List T) (b : Buckets day_key). (k, l) ∷ b) (sym (takes k xs item e))
            (sym (others days xs item (ap (λ z. is_among z days) (sym same) ∙ d.0))))
    | inr e ↦ rw e (
        ap₂ (λ (l : List T) (b : Buckets day_key). (k, l) ∷ b) (sym (keeps k xs item e))
          (put_seen days xs item d.1 (rw e at h)))
  ]

  pub map-append :
      (days more : List Text) (xs : List T)
      → buckets_of (days ++ more) xs ≡ buckets_of days xs ++ buckets_of more xs
  map-append [] more xs = refl
  map-append (k ∷ days) more xs = ap (λ b. (k, filter (of_day k) xs) ∷ b) (map-append days more xs)

  pub is_among-append :
      (k day : Text) (days : List Text)
      → is_among k (days ++ (day ∷ [])) ≡ (is_among k days || text_eq day k)
  is_among-append k day [] = or_false (text_eq day k)
    where
      or_false : (b : Bool) → (b || false) ≡ b
      or_false true = refl
      or_false false = refl
  is_among-append k day (x ∷ days) = elim (Bool-cases (text_eq x k)) [
    | inl e ↦ rw e refl
    | inr e ↦ rw e (is_among-append k day days)
  ]

  pub text_eq_sym : (a b : Text) → text_eq a b ≡ false → text_eq b a ≡ false
  text_eq_sym a b h = elim (Bool-cases (text_eq b a)) [
    | inl e ↦
        absurd
          (false≢true (sym h ∙ ap (λ z. text_eq z b) (sym (text_eq-eq b a e)) ∙ text_eq_refl b))
    | inr e ↦ e
  ]
