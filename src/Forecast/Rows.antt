-- ===== src/Forecast/Rows.antt =====
-- Lists of rows: keys of which no two are the same, and amounts that are not zero.
use pecunia.Prelude.{
  true≢false, ℕ, ◌+◌, ◌≤◌, ◌≡◌, sym, ap, ◌∙◌, ◌≢◌, inl, inr, List, [], ◌∷◌, ◌++◌, arith, drop, All,
  Bool-cases,
}
use pecunia.Prelude.Int.{pos, eqb_ℤ_iff}
use pecunia.Prelude.Text.{Text, codes, value}
use pecunia.Prelude.Text.Decimal.{value-show}
use pecunia.Forecast.{
  CardBillLabel, BreakdownRow, negative, row, is_zero, if_nonzero, bill_key, bill_rows,
}

abbrev pub Lacks : Text → List BreakdownRow → Type 0
Lacks key rows = All (λ r. r.key ≢ key) rows

-- No two rows have the same key.
abbrev pub UniqueKeys : List BreakdownRow → Type 0
UniqueKeys [] = Unit
UniqueKeys (r ∷ rows) = Lacks r.key rows × UniqueKeys rows

abbrev pub NonZero : List BreakdownRow → Type 0
NonZero rows = All (λ r. r.minor ≢ pos 0) rows

pub All-append {κ} :
    (P : BreakdownRow → Type κ) (xs ys : List BreakdownRow) → All P xs → All P ys → All P (xs ++ ys)
All-append P [] ys h k = k
All-append P (x ∷ xs) ys h k = (h.0, All-append P xs ys h.1 k)

pub if_nonzero-NonZero : (r : BreakdownRow) → NonZero (if_nonzero r)
if_nonzero-NonZero r = elim (Bool-cases (is_zero r.minor)) [
  | inl e ↦ rw e tt
  | inr e ↦ rw e ((λ z. absurd (true≢false (sym ((eqb_ℤ_iff r.minor (pos 0)).1 z) ∙ e))), tt)
]

pub if_nonzero-All {κ} : (P : BreakdownRow → Type κ) (r : BreakdownRow) → P r → All P (if_nonzero r)
if_nonzero-All P r h = elim (Bool-cases (is_zero r.minor)) [
  | inl e ↦ rw e tt
  | inr e ↦ rw e (h, tt)
]

pub if_nonzero-UniqueKeys :
    (r : BreakdownRow) (rows : List BreakdownRow)
    → Lacks r.key rows
    → UniqueKeys rows
    → UniqueKeys (if_nonzero r ++ rows)
if_nonzero-UniqueKeys r rows h k = elim (Bool-cases (is_zero r.minor)) [
  | inl e ↦ rw e k
  | inr e ↦ rw e (h, k)
]

pub bill_rows-All {κ} :
    (P : BreakdownRow → Type κ) (index : ℕ) (bills : List CardBillLabel)
    → ((i : ℕ) (b : CardBillLabel)
        → index ≤ i
        → P (row (bill_key i) (codes "fatura " ++ b.label) b.amount_minor negative))
    → All P (bill_rows index bills)
unfolding bill_rows
bill_rows-All P index [] h = tt
bill_rows-All P index (b ∷ bills) h =
    All-append P
      (if_nonzero (row (bill_key index) (codes "fatura " ++ b.label) b.amount_minor negative))
      (bill_rows (index + 1) bills)
      (if_nonzero-All P (row (bill_key index) (codes "fatura " ++ b.label) b.amount_minor negative)
        (h index b (omega arith)))
      (bill_rows-All P (index + 1) bills (λ i c le. h i c (omega arith)))

bill_key_inj : (i j : ℕ) → bill_key i ≡ bill_key j → i ≡ j
bill_key_inj i j e = sym (value-show i) ∙ ap (λ (t : Text). value (drop 10 t)) e ∙ value-show j

pub bill_rows-UniqueKeys :
    (index : ℕ) (bills : List CardBillLabel) → UniqueKeys (bill_rows index bills)
unfolding bill_rows
bill_rows-UniqueKeys index [] = tt
bill_rows-UniqueKeys index (b ∷ bills) =
    if_nonzero-UniqueKeys
      (row (bill_key index) (codes "fatura " ++ b.label) b.amount_minor negative)
      (bill_rows (index + 1) bills)
      (bill_rows-All (λ r. r.key ≢ bill_key index) (index + 1) bills
        (λ i c le e. absurd (omega (arith, bill_key_inj i index e))))
      (bill_rows-UniqueKeys (index + 1) bills)

pub bill_rows-NonZero : (index : ℕ) (bills : List CardBillLabel) → NonZero (bill_rows index bills)
unfolding bill_rows
bill_rows-NonZero index [] = tt
bill_rows-NonZero index (b ∷ bills) =
    All-append (λ r. r.minor ≢ pos 0)
      (if_nonzero (row (bill_key index) (codes "fatura " ++ b.label) b.amount_minor negative))
      (bill_rows (index + 1) bills)
      (if_nonzero-NonZero
        (row (bill_key index) (codes "fatura " ++ b.label) b.amount_minor negative))
      (bill_rows-NonZero (index + 1) bills)
