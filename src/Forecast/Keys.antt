-- ===== src/Forecast/Keys.antt =====
-- The rows that are shown are not zero, and no two of them have the same key.
use pecunia.Prelude.{
  false≢true, ◌==◌, ==_iff, ℕ, ◌≡◌, refl, sym, ap, ◌∙◌, ◌≢◌, inl, inr, false, List, [], ◌∷◌, ◌++◌,
  All, Bool-cases,
}
use pecunia.Prelude.Int.{ℤ, pos}
use pecunia.Prelude.Text.{Text, codes}
use pecunia.Forecast.{
  CardBillLabel, BreakdownRow, negative, row, is_zero, if_nonzero, card_rows, breakdown_rows,
  ProjectionComponents, income_row, variable_row, subscriptions_row, loans_row,
}
use pecunia.Forecast.Rows.{
  Lacks, UniqueKeys, NonZero, All-append, if_nonzero-NonZero, if_nonzero-All, if_nonzero-UniqueKeys,
  bill_rows-All, bill_rows-UniqueKeys, bill_rows-NonZero,
}

-- A card row's key begins with a "c".
abbrev first_code : Text → ℕ
first_code [] = 0
first_code (c ∷ s) = c

card_rows-initial :
    (bills : List CardBillLabel) (aggregate : ℤ)
    → All (λ r. first_code r.key ≡ b'c') (card_rows bills aggregate)
unfolding card_rows
card_rows-initial [] aggregate =
    if_nonzero-All (λ r. first_code r.key ≡ b'c')
      (row (codes "card-bills") (codes "fatura") aggregate negative) refl
card_rows-initial (b ∷ bills) aggregate =
    bill_rows-All (λ r. first_code r.key ≡ b'c') 0 (b ∷ bills) (λ i c le. refl)

Lacks-initial :
    (key : Text) (rows : List BreakdownRow)
    → first_code key ≢ b'c'
    → All (λ r. first_code r.key ≡ b'c') rows
    → Lacks key rows
Lacks-initial key [] h k = tt
Lacks-initial key (r ∷ rows) h k =
    ((λ e. h (sym (ap first_code e) ∙ k.0)), Lacks-initial key rows h k.1)

if_nonzero_alone-UniqueKeys : (r : BreakdownRow) → UniqueKeys (if_nonzero r)
if_nonzero_alone-UniqueKeys r = elim (Bool-cases (is_zero r.minor)) [
  | inl e ↦ rw e tt
  | inr e ↦ rw e (tt, tt)
]

card_rows-UniqueKeys :
    (bills : List CardBillLabel) (aggregate : ℤ) → UniqueKeys (card_rows bills aggregate)
unfolding card_rows
card_rows-UniqueKeys [] aggregate =
    if_nonzero_alone-UniqueKeys (row (codes "card-bills") (codes "fatura") aggregate negative)
card_rows-UniqueKeys (b ∷ bills) aggregate = bill_rows-UniqueKeys 0 (b ∷ bills)

card_rows-NonZero :
    (bills : List CardBillLabel) (aggregate : ℤ) → NonZero (card_rows bills aggregate)
unfolding card_rows
card_rows-NonZero [] aggregate =
    if_nonzero-NonZero (row (codes "card-bills") (codes "fatura") aggregate negative)
card_rows-NonZero (b ∷ bills) aggregate = bill_rows-NonZero 0 (b ∷ bills)

All-map {κ} :
    (P Q : BreakdownRow → Type κ) (rows : List BreakdownRow)
    → ((r : BreakdownRow) → P r → Q r)
    → All P rows
    → All Q rows
All-map P Q [] f h = tt
All-map P Q (r ∷ rows) f h = (f r h.0, All-map P Q rows f h.1)

UniqueKeys-append :
    (xs ys : List BreakdownRow)
    → UniqueKeys xs
    → UniqueKeys ys
    → All (λ x. Lacks x.key ys) xs
    → UniqueKeys (xs ++ ys)
UniqueKeys-append [] ys h k l = k
UniqueKeys-append (x ∷ xs) ys h k l =
    (All-append (λ r. r.key ≢ x.key) xs ys h.0 l.0, UniqueKeys-append xs ys h.1 k l.1)

apart : (m n : ℕ) → (m == n) ≡ false → m ≢ n
apart m n h e = false≢true (sym h ∙ (==_iff m n).1 e)

differ : (a b : Text) → (first_code a == first_code b) ≡ false → a ≢ b
differ a b h e = apart (first_code a) (first_code b) h (ap first_code e)

-- A key that does not begin with a "c" is not a card row's.
card_rows-Lacks :
    (key : Text) (bills : List CardBillLabel) (aggregate : ℤ)
    → (first_code key == b'c') ≡ false
    → Lacks key (card_rows bills aggregate)
card_rows-Lacks key bills aggregate h =
    Lacks-initial key (card_rows bills aggregate) (apart (first_code key) b'c' h)
      (card_rows-initial bills aggregate)

-- The variable row's key is none of the card rows' keys.
card_rows-variable :
    (bills : List CardBillLabel) (aggregate : ℤ) (c : ProjectionComponents) (months : ℕ)
    → All (λ x. Lacks x.key (if_nonzero (variable_row c months))) (card_rows bills aggregate)
card_rows-variable bills aggregate c months =
    All-map (λ x. first_code x.key ≡ b'c') (λ x. Lacks x.key (if_nonzero (variable_row c months)))
      (card_rows bills aggregate)
      (λ x e.
        if_nonzero-All (λ r. r.key ≢ x.key) (variable_row c months)
          (λ q. apart b'v' b'c' refl (ap first_code q ∙ e)))
      (card_rows-initial bills aggregate)

abbrev tail_rows : ProjectionComponents → List CardBillLabel → ℕ → List BreakdownRow
tail_rows c bills months = card_rows bills c.card_bills_minor ++ if_nonzero (variable_row c months)

tail_rows-UniqueKeys :
    (c : ProjectionComponents) (bills : List CardBillLabel) (months : ℕ)
    → UniqueKeys (tail_rows c bills months)
tail_rows-UniqueKeys c bills months =
    UniqueKeys-append (card_rows bills c.card_bills_minor) (if_nonzero (variable_row c months))
      (card_rows-UniqueKeys bills c.card_bills_minor)
      (if_nonzero_alone-UniqueKeys (variable_row c months))
      (card_rows-variable bills c.card_bills_minor c months)

tail_rows-Lacks :
    (key : Text) (c : ProjectionComponents) (bills : List CardBillLabel) (months : ℕ)
    → (first_code key == b'c') ≡ false
    → codes "variable" ≢ key
    → Lacks key (tail_rows c bills months)
tail_rows-Lacks key c bills months h k =
    All-append (λ r. r.key ≢ key) (card_rows bills c.card_bills_minor)
      (if_nonzero (variable_row c months)) (card_rows-Lacks key bills c.card_bills_minor h)
      (if_nonzero-All (λ r. r.key ≢ key) (variable_row c months) k)

Lacks-if_nonzero :
    (key : Text) (r : BreakdownRow) (rows : List BreakdownRow)
    → r.key ≢ key
    → Lacks key rows
    → Lacks key (if_nonzero r ++ rows)
Lacks-if_nonzero key r rows h k =
    All-append (λ x. x.key ≢ key) (if_nonzero r) rows (if_nonzero-All (λ x. x.key ≢ key) r h) k

-- No two rows of a breakdown have the same key.
breakdown_rows-UniqueKeys :
    (components : ProjectionComponents) (card_bill_labels : List CardBillLabel)
    (variable_lookback_months : ℕ)
    → UniqueKeys (breakdown_rows components card_bill_labels variable_lookback_months)
unfolding breakdown_rows
breakdown_rows-UniqueKeys c bills months =
    if_nonzero-UniqueKeys (income_row c) _
      (Lacks-if_nonzero (codes "income") (subscriptions_row c) _
        (differ (codes "subscriptions") (codes "income") refl)
        (Lacks-if_nonzero (codes "income") (loans_row c) _
          (differ (codes "loans") (codes "income") refl)
          (tail_rows-Lacks (codes "income") c bills months refl
            (differ (codes "variable") (codes "income") refl))))
      (if_nonzero-UniqueKeys (subscriptions_row c) _
        (Lacks-if_nonzero (codes "subscriptions") (loans_row c) _
          (differ (codes "loans") (codes "subscriptions") refl)
          (tail_rows-Lacks (codes "subscriptions") c bills months refl
            (differ (codes "variable") (codes "subscriptions") refl)))
        (if_nonzero-UniqueKeys (loans_row c) (tail_rows c bills months)
          (tail_rows-Lacks (codes "loans") c bills months refl
            (differ (codes "variable") (codes "loans") refl))
          (tail_rows-UniqueKeys c bills months)))

-- Every row of a breakdown has an amount that is not zero.
breakdown_rows-NonZero :
    (components : ProjectionComponents) (card_bill_labels : List CardBillLabel)
    (variable_lookback_months : ℕ)
    → NonZero (breakdown_rows components card_bill_labels variable_lookback_months)
unfolding breakdown_rows
breakdown_rows-NonZero c bills months =
    All-append (λ r. r.minor ≢ pos 0) (if_nonzero (income_row c)) _
      (if_nonzero-NonZero (income_row c))
      (All-append (λ r. r.minor ≢ pos 0) (if_nonzero (subscriptions_row c)) _
        (if_nonzero-NonZero (subscriptions_row c))
        (All-append (λ r. r.minor ≢ pos 0) (if_nonzero (loans_row c)) (tail_rows c bills months)
          (if_nonzero-NonZero (loans_row c))
          (All-append (λ r. r.minor ≢ pos 0) (card_rows bills c.card_bills_minor)
            (if_nonzero (variable_row c months)) (card_rows-NonZero bills c.card_bills_minor)
            (if_nonzero-NonZero (variable_row c months)))))

-- In every breakdown no two rows have the same key, and no row's amount is zero.
pub breakdown_rows-WellKeyed :
    (components : ProjectionComponents) (card_bill_labels : List CardBillLabel)
    (variable_lookback_months : ℕ)
    → UniqueKeys (breakdown_rows components card_bill_labels variable_lookback_months)
      × NonZero (breakdown_rows components card_bill_labels variable_lookback_months)
breakdown_rows-WellKeyed components labels months = (
  breakdown_rows-UniqueKeys components labels months,
  breakdown_rows-NonZero components labels months,
)
