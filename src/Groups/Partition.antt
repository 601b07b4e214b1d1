-- ===== src/Groups/Partition.antt =====
-- The groups, against a description of them by their days.
use pecunia.Prelude.{
  false≢true, Bool-cases, inl, inr, ◌≡◌, refl, sym, ap, ap₂, ◌∙◌, true, false, List, [], ◌∷◌, ◌++◌,
  map, append-nil, append_assoc, filter,
}
use pecunia.Prelude.Text.{Text}
use pecunia.Groups.{text_eq, Buckets, put, put_all, group_of, group_by_day}
use pecunia.Groups.Items.{
  text_eq-eq, text_eq_refl, keeps, takes, others, put_new, put_seen, map-append, is_among-append,
  text_eq_sym, or_parts, is_among, of_day, add_day, days_from, days_of, buckets_of, AllDistinct,
  Seen,
}

module _ {T : Type 0} (day_key : T → Text) where
  put-buckets_of :
      (days : List Text) (xs : List T) (item : T)
      → AllDistinct day_key days
      → Seen day_key days xs
      → put day_key item (buckets_of day_key days xs)
        ≡ buckets_of day_key (add_day day_key days (day_key item)) (xs ++ (item ∷ []))
  put-buckets_of days xs item d s = elim (Bool-cases (is_among (day_key item) days)) [
    | inl e ↦ rw e (put_seen day_key days xs item d e)
    | inr e ↦ rw e (
        put_new day_key days xs item e
        ∙ ap₂ (λ (a b : Buckets day_key). a ++ b) (sym (others day_key days xs item e))
            (sym (last_bucket e))
        ∙ sym (map-append day_key days (day_key item ∷ []) (xs ++ (item ∷ []))))
  ]
    where
      last_bucket :
          is_among (day_key item) days ≡ false
          → buckets_of day_key (day_key item ∷ []) (xs ++ (item ∷ []))
            ≡ (day_key item, item ∷ []) ∷ []
      last_bucket e =
          ap (λ (l : List T). (day_key item, l) ∷ [])
            (takes day_key (day_key item) xs item (text_eq_refl (day_key item))
              ∙ ap (λ l. l ++ (item ∷ [])) (s (day_key item) e))

  add_day-AllDistinct :
      (days : List Text) (k : Text)
      → AllDistinct day_key days
      → AllDistinct day_key (add_day day_key days k)
  add_day-AllDistinct days k d = elim (Bool-cases (is_among k days)) [
    | inl e ↦ rw e d
    | inr e ↦ rw e (at_end days d e)
  ]
    where
      at_end :
          (ks : List Text)
          → AllDistinct day_key ks
          → is_among k ks ≡ false
          → AllDistinct day_key (ks ++ (k ∷ []))
      at_end [] c e = (refl, tt)
      at_end (x ∷ ks) c e =
          let p = or_parts day_key (text_eq x k) (is_among k ks) e in
          (
            is_among-append day_key x k ks ∙ rw (c.0, text_eq_sym day_key x k p.0) refl,
            at_end ks c.1 p.1,
          )

  add_day-Seen :
      (days : List Text) (xs : List T) (item : T)
      → Seen day_key days xs
      → Seen day_key (add_day day_key days (day_key item)) (xs ++ (item ∷ []))
  add_day-Seen days xs item s k h = elim (Bool-cases (is_among (day_key item) days)) [
    | inl e ↦
        let before : is_among k days ≡ false = rw e at h in
        keeps day_key k xs item (differs before e) ∙ s k before
    | inr e ↦
        let now : is_among k (days ++ (day_key item ∷ [])) ≡ false = rw e at h in
        let p =
          or_parts day_key (is_among k days) (text_eq (day_key item) k)
            (sym (is_among-append day_key k (day_key item) days) ∙ now) in
        keeps day_key k xs item (text_eq_sym day_key (day_key item) k p.1) ∙ s k p.0
  ]
    where
      differs :
          is_among k days ≡ false
          → is_among (day_key item) days ≡ true
          → of_day day_key k item ≡ false
      differs a b = elim (Bool-cases (of_day day_key k item)) [
        | inl q ↦
            absurd
              (false≢true (sym a ∙ ap (λ z. is_among z days) (text_eq-eq k (day_key item) q) ∙ b))
        | inr q ↦ q
      ]

  put_all-buckets_of :
      (items xs : List T) (days : List Text)
      → AllDistinct day_key days
      → Seen day_key days xs
      → (put_all day_key items (buckets_of day_key days xs)
          ≡ buckets_of day_key (days_from day_key days items) (xs ++ items))
        × AllDistinct day_key (days_from day_key days items)
  unfolding put_all
  put_all-buckets_of [] xs days d s = (ap (buckets_of day_key days) (sym (append-nil xs)), d)
  put_all-buckets_of (item ∷ items) xs days d s =
      let r =
        put_all-buckets_of items (xs ++ (item ∷ [])) (add_day day_key days (day_key item))
          (add_day-AllDistinct days (day_key item) d) (add_day-Seen days xs item s) in
      (
        ap (put_all day_key items) (put-buckets_of days xs item d s)
            ∙ r.0
            ∙ ap
                (buckets_of day_key (days_from day_key (add_day day_key days (day_key item)) items))
                (append_assoc xs (item ∷ []) items),
        r.1,
      )

  -- The items are grouped into one group for each of their days and no other: no day stands twice,
  -- the days come in the order in which they are first seen, and the group of a day holds exactly
  -- the items of that day, in their order, under the label of that day.
  pub group_by_day_lem :
      (today yesterday : Text) (label : T → Text) (items : List T)
      → (group_by_day day_key today yesterday label items
          ≡ map
              (λ k. group_of day_key today yesterday label (k, filter (of_day day_key k) items))
              (days_of day_key items))
        × AllDistinct day_key (days_of day_key items)
  unfolding group_by_day
  group_by_day_lem today yesterday label items =
      let r = put_all-buckets_of items [] [] tt (λ k h. refl) in
      (ap (map (group_of day_key today yesterday label)) r.0 ∙ same (days_of day_key items), r.1)
    where
      same :
          (days : List Text)
          → map (group_of day_key today yesterday label) (buckets_of day_key days items)
            ≡ map
                (λ k. group_of day_key today yesterday label (k, filter (of_day day_key k) items))
                days
      same [] = refl
      same (k ∷ days) =
          ap (λ b. group_of day_key today yesterday label (k, filter (of_day day_key k) items) ∷ b)
            (same days)
