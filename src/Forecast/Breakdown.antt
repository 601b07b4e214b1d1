-- ===== src/Forecast/Breakdown.antt =====
-- The month's change is what the components say, whichever rows are shown.
use pecunia.Prelude.{ℕ, ◌+◌, ◌≡◌, refl, ap, ◌∙◌, List, [], ◌∷◌, ◌++◌, arith}
use pecunia.Prelude.Int.{ℤ, pos, ◌+ℤ◌, ◌-ℤ◌, neg_ℤ, int_laws}
use pecunia.Prelude.Text.{codes}
use pecunia.Forecast.{
  ProjectionComponents, CardBillLabel, BreakdownRow, negative, row, if_nonzero, bill_key, signed,
  bill_rows, card_rows, breakdown_rows, add_rows, month_delta_minor, income_row, subscriptions_row,
  loans_row, variable_row,
}

add_rows-append :
    (s : ℤ) (xs ys : List BreakdownRow) → add_rows s (xs ++ ys) ≡ add_rows (add_rows s xs) ys
unfolding add_rows
add_rows-append s [] ys = refl
add_rows-append s (x ∷ xs) ys = add_rows-append (s +ℤ signed x) xs ys

-- A row that is left out would add nothing.
add_rows-if_nonzero : (s : ℤ) (r : BreakdownRow) → add_rows s (if_nonzero r) ≡ s +ℤ signed r
unfolding add_rows neg_ℤ ◌+ℤ◌
add_rows-if_nonzero s r = ground arith

abbrev pub bills_total : List CardBillLabel → ℤ
bills_total [] = pos 0
bills_total (bill ∷ bills) = bill.amount_minor +ℤ bills_total bills

add_rows-bill_rows :
    (s : ℤ) (index : ℕ) (bills : List CardBillLabel)
    → add_rows s (bill_rows index bills) ≡ s -ℤ bills_total bills
unfolding bill_rows add_rows
add_rows-bill_rows s index [] = omega int_laws
add_rows-bill_rows s index (bill ∷ bills) =
    add_rows-append s
      (if_nonzero (row (bill_key index) (codes "fatura " ++ bill.label) bill.amount_minor negative))
      (bill_rows (index + 1) bills)
    ∙ ap (λ (n : ℤ). add_rows n (bill_rows (index + 1) bills))
        (add_rows-if_nonzero s
          (row (bill_key index) (codes "fatura " ++ bill.label) bill.amount_minor negative))
    ∙ add_rows-bill_rows (s +ℤ neg_ℤ bill.amount_minor) (index + 1) bills
    ∙ omega int_laws

-- What the card bills of the month come to: the labels' sum, or the aggregate with no label.
abbrev pub card_total : List CardBillLabel → ℤ → ℤ
card_total [] aggregate = aggregate
card_total (bill ∷ bills) aggregate = bills_total (bill ∷ bills)

add_rows-card_rows :
    (s : ℤ) (bills : List CardBillLabel) (aggregate : ℤ)
    → add_rows s (card_rows bills aggregate) ≡ s -ℤ card_total bills aggregate
unfolding card_rows
add_rows-card_rows s [] aggregate =
    add_rows-if_nonzero s (row (codes "card-bills") (codes "fatura") aggregate negative)
    ∙ omega int_laws
add_rows-card_rows s (bill ∷ bills) aggregate = add_rows-bill_rows s 0 (bill ∷ bills)

-- One row that may be left out, before the others.
after :
    (s : ℤ) (r : BreakdownRow) (rows : List BreakdownRow) (s' : ℤ)
    → s +ℤ signed r ≡ s'
    → add_rows s (if_nonzero r ++ rows) ≡ add_rows s' rows
after s r rows s' e =
    add_rows-append s (if_nonzero r) rows
    ∙ ap (λ (n : ℤ). add_rows n rows) (add_rows-if_nonzero s r ∙ e)

-- The month's change is the income less the subscriptions, the loans, the card bills (the labels'
-- sum, or the aggregate if there is no label) and the variable spend, also where rows are left out
-- because they are zero.
pub month_delta_minor-breakdown_rows :
    (c : ProjectionComponents) (labels : List CardBillLabel) (months : ℕ)
    → month_delta_minor (breakdown_rows c labels months)
      ≡ c.income_minor
        -ℤ c.subscriptions_minor
        -ℤ c.loans_minor
        -ℤ card_total labels c.card_bills_minor
        -ℤ c.variable_minor
unfolding month_delta_minor breakdown_rows
month_delta_minor-breakdown_rows c labels months =
    after (pos 0) (income_row c) _ (c.income_minor) (omega int_laws)
    ∙ after c.income_minor (subscriptions_row c) _ (c.income_minor -ℤ c.subscriptions_minor)
        (omega int_laws)
    ∙ after (c.income_minor -ℤ c.subscriptions_minor) (loans_row c) _
        (c.income_minor -ℤ c.subscriptions_minor -ℤ c.loans_minor) (omega int_laws)
    ∙ add_rows-append (c.income_minor -ℤ c.subscriptions_minor -ℤ c.loans_minor)
        (card_rows labels c.card_bills_minor) (if_nonzero (variable_row c months))
    ∙ ap (λ (n : ℤ). add_rows n (if_nonzero (variable_row c months)))
        (add_rows-card_rows (c.income_minor -ℤ c.subscriptions_minor -ℤ c.loans_minor) labels
          c.card_bills_minor)
    ∙ add_rows-if_nonzero _ (variable_row c months)
    ∙ omega int_laws
