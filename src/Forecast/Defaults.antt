-- ===== src/Forecast/Defaults.antt =====
-- The month that is shown first, and the largest card bill.
use pecunia.Prelude.{
  String, ◌≡◌, refl, sym, ap, ◌∙◌, ◌≢◌, inl, inr, Option, none, some, List, [], ◌∷◌, arith, str_eq,
  str_eq_iff, In, All, if◌then◌else◌, Bool-cases,
}
use pecunia.Prelude.Int.{◌≤ℤ◌}
use pecunia.Prelude.Largest.{largest_of, largest_of-In, largest_of-ge_all}
use pecunia.Forecast.{
  ProjectionPoint, CardBillLabel, find_point_by_date, default_breakdown_date, first_date, is_found,
  biggest_card_bill_label,
}

-- The first point with the date, and no point before it has that date.
find_point-In :
    (points : List ProjectionPoint) (date : String) (p : ProjectionPoint)
    → find_point_by_date points date ≡ some p
    → In p points × (p.date ≡ date)
unfolding find_point_by_date
find_point-In [] date p e = absurd (none_some e)
  where
    none_some : ◌≡◌ {A = Option ProjectionPoint} none (some p) → ⊥
    none_some q = cc
find_point-In (q ∷ points) date p e = elim (Bool-cases (str_eq q.date date)) [
  | inl h ↦ (
    inl (some_inj (ap (λ b. if b then some q else find_point_by_date points date) (sym h) ∙ e)),
    ap (λ (r : ProjectionPoint). r.date)
          (some_inj (ap (λ b. if b then some q else find_point_by_date points date) (sym h) ∙ e))
        ∙ (str_eq_iff q.date date).0 h,
  )
  | inr h ↦
      let (m, d) =
        find_point-In points date p
          (ap (λ b. if b then some q else find_point_by_date points date) (sym h) ∙ e) in
      (inr m, d)
]
  where
    some_inj : ◌≡◌ {A = Option ProjectionPoint} (some q) (some p) → p ≡ q
    some_inj r = cc

find_point-none :
    (points : List ProjectionPoint) (date : String)
    → find_point_by_date points date ≡ none
    → All (λ p. p.date ≢ date) points
unfolding find_point_by_date
find_point-none [] date e = tt
find_point-none (q ∷ points) date e =
    (ground (arith, str_eq_iff q.date date), find_point-none points date (ground arith))

-- What the selected month can be: no month for want of points, the lowest month if it is one of
-- the projected ones, and otherwise the first projected month.
pub data Default (points : List ProjectionPoint) (lowest : String) : Option String → Type 0 where
  no_points : points ≡ [] → Default points lowest none
  at_lowest :
      (p : ProjectionPoint) → In p points → p.date ≡ lowest → Default points lowest (some lowest)
  at_first :
      (p : ProjectionPoint) (rest : List ProjectionPoint)
      → points ≡ p ∷ rest
      → All (λ q. q.date ≢ lowest) points
      → Default points lowest (some p.date)

-- The month selected first is the lowest one if it is projected, otherwise the first projected
-- one, and there is none only without projected months.
pub default_breakdown_date-Default :
    (points : List ProjectionPoint) (lowest : String)
    → Default points lowest (default_breakdown_date points lowest)
unfolding default_breakdown_date
default_breakdown_date-Default points lowest = choose points (find_point_by_date points lowest) refl
  where
    choose :
        (ps : List ProjectionPoint) (o : Option ProjectionPoint)
        → find_point_by_date ps lowest ≡ o
        → Default ps lowest (if is_found o then some lowest else first_date ps)
    choose ps (some p) e = let (m, d) = find_point-In ps lowest p e in at_lowest p m d
    choose [] none e = no_points refl
    choose (p ∷ ps) none e = at_first p ps refl (find_point-none (p ∷ ps) lowest e)

pub record IsBiggest (labels : List CardBillLabel) (biggest : CardBillLabel) : Type 0 where
  pub listed : In biggest labels
  pub greatest : (l : CardBillLabel) → In l labels → l.amount_minor ≤ℤ biggest.amount_minor

-- With at least one label there is a biggest bill; it is one of the labels, and no label has more.
pub biggest_card_bill_label-IsBiggest :
    (label : CardBillLabel) (labels : List CardBillLabel)
    → (b : CardBillLabel) × (biggest_card_bill_label (label ∷ labels) ≡ some b)
      × IsBiggest (label ∷ labels) b
unfolding biggest_card_bill_label
biggest_card_bill_label-IsBiggest label labels = (
  largest_of (λ l. l.amount_minor) label labels,
  refl,
  record {
    listed = largest_of-In (λ l. l.amount_minor) label labels;
    greatest = largest_of-ge_all (λ l. l.amount_minor) label labels;
  },
)
