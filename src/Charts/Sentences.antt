-- ===== src/Charts/Sentences.antt =====
-- What the sentence of a category breakdown says of a ranked response.
use mathlib.Core.Path.{subst}
use pecunia.Prelude.{
  length, filter-In, ◌≡◌, refl, sym, ap, ◌∙◌, inl, inr, true, false, List, [], ◌∷◌, arith, filter,
  In, In-filter, All, if◌then◌else◌, Bool-cases,
}
use pecunia.Prelude.Int.{pos, ◌<ℤ◌, ◌≤ℤ◌}
use pecunia.Charts.{
  DonutDatum, is_positive, Intl, describe_breakdown, String, Option, Text, ranking, codes, add_up,
}

-- Ranked by value, the largest first.
abbrev pub IsRanked : List DonutDatum → Type 0
IsRanked [] = Unit
IsRanked (d ∷ ds) = All (λ e. e.item.value_minor ≤ℤ d.item.value_minor) ds × IsRanked ds

abbrev pub positive_slices : List DonutDatum → List DonutDatum
positive_slices ds = filter (λ d. is_positive d.item.value_minor) ds

All-In {κ} : {A : Type 0} (P : A → Type κ) (xs : List A) → All P xs → (a : A) → In a xs → P a
All-In P [] h a m = absurd m
All-In P (x ∷ xs) h a (inl e) = subst P (sym e) h.0
All-In P (x ∷ xs) h a (inr m) = All-In P xs h.1 a m

-- The first positive slice of a ranked list is a greatest one of the whole list.
first_positive-ge :
    (ds : List DonutDatum) (d : DonutDatum) (rest : List DonutDatum)
    → IsRanked ds
    → positive_slices ds ≡ d ∷ rest
    → (e : DonutDatum) → In e ds
    → e.item.value_minor ≤ℤ d.item.value_minor
first_positive-ge [] d rest h q e m = absurd m
first_positive-ge (c ∷ ds) d rest h q e m = elim (Bool-cases (is_positive c.item.value_minor)) [
  | inl p ↦
      keep
        (head_eq (ap (λ b. if b then c ∷ positive_slices ds else positive_slices ds) (sym p) ∙ q)) m
  | inr p ↦
      let q' = ap (λ b. if b then c ∷ positive_slices ds else positive_slices ds) (sym p) ∙ q in
      skip p (positive_first q') (λ n. first_positive-ge ds d rest h.1 q' e n) m
]
  where
    head_eq : ◌≡◌ {A = List DonutDatum} (c ∷ positive_slices ds) (d ∷ rest) → c ≡ d
    head_eq r = cc

    keep : c ≡ d → In e (c ∷ ds) → e.item.value_minor ≤ℤ d.item.value_minor
    keep r n = subst (λ z. e.item.value_minor ≤ℤ z.item.value_minor) r (below n)
      where
        below : In e (c ∷ ds) → e.item.value_minor ≤ℤ c.item.value_minor
        below (inl t) = subst (λ z. z.item.value_minor ≤ℤ c.item.value_minor) (sym t) (omega arith)
        below (inr n') = All-In (λ z. z.item.value_minor ≤ℤ c.item.value_minor) ds h.0 e n'

    positive_first : positive_slices ds ≡ d ∷ rest → is_positive d.item.value_minor ≡ true
    positive_first r =
        (In-filter (λ z. is_positive z.item.value_minor) d ds (subst (In d) (sym r) (inl refl))).1

    skip :
        is_positive c.item.value_minor ≡ false
        → is_positive d.item.value_minor ≡ true
        → (In e ds → e.item.value_minor ≤ℤ d.item.value_minor)
        → In e (c ∷ ds)
        → e.item.value_minor ≤ℤ d.item.value_minor
    skip p k f (inl t) =
        subst (λ z. z.item.value_minor ≤ℤ d.item.value_minor) (sym t) (ground arith)
    skip p k f (inr n) = f n

-- What the sentence can say of the slices: that there is nothing, or the total and the number of
-- the positive slices with a largest slice.
pub data Describes (intl : Intl) (slices : List DonutDatum) (currency : String)
    (locale : Option String) : Text → Type 0 where
  nothing :
      ((e : DonutDatum) → In e slices → e.item.value_minor ≤ℤ pos 0)
      → Describes intl slices currency locale (codes "Spending by category: No data available.")
  largest :
      (d : DonutDatum)
      → In d slices
      → pos 0 <ℤ d.item.value_minor
      → ((e : DonutDatum) → In e slices → e.item.value_minor ≤ℤ d.item.value_minor)
      → Describes intl slices currency locale (
          ranking intl currency locale
            (codes "Spending by category")
            (add_up (λ e. e.item.value_minor) (pos 0) (positive_slices slices))
            (length (positive_slices slices))
            (codes " categories")
            d.item)

none_positive :
    (slices : List DonutDatum)
    → positive_slices slices ≡ []
    → (e : DonutDatum) → In e slices
    → e.item.value_minor ≤ℤ pos 0
none_positive slices q e m = elim (Bool-cases (is_positive e.item.value_minor)) [
  | inl p ↦ absurd (subst (In e) q (filter-In (λ z. is_positive z.item.value_minor) e slices m p))
  | inr p ↦ ground arith
]

-- For slices ranked from the largest to the smallest, the sentence says that there is no data just
-- where no slice is positive, and otherwise it gives the sum and the number of the positive slices
-- and names a positive slice that no slice exceeds.
pub describe_breakdown-Describes :
    (intl : Intl) (slices : List DonutDatum) (currency : String) (locale : Option String)
    → IsRanked slices
    → Describes intl slices currency locale (describe_breakdown intl slices currency locale)
unfolding describe_breakdown
describe_breakdown-Describes intl slices currency locale h = split (positive_slices slices) refl
  where
    split :
        (l : List DonutDatum)
        → positive_slices slices ≡ l
        → Describes intl slices currency locale (describe_breakdown intl slices currency locale)
    split [] q = rw (q, describe_breakdown) (nothing (none_positive slices q))
    split (d ∷ rest) q =
        let (m, p) =
          In-filter (λ z. is_positive z.item.value_minor) d slices
            (subst (In d) (sym q) (inl refl)) in
        rw (q, describe_breakdown)
          (subst
            (λ l. Describes intl slices currency locale (
              ranking intl currency locale (codes "Spending by category")
                (add_up (λ e. e.item.value_minor) (pos 0) l) (length l) (codes " categories")
                d.item))
            q (largest d m (ground arith) (first_positive-ge slices d rest h q)))
