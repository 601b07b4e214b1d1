-- ===== src/Forecast.antt =====
-- The forecast tab's copy (web/src/features/forecast/forecastCopy.ts, with the shapes of
-- useForecast.ts beside it). Labels are texts of code units.
pub mod Breakdown
pub mod Rows
pub mod Keys
pub mod Defaults
mod Tests
use pecunia.Prelude.{
  ℕ, ◌+◌, ◌-◌, String, Bool, true, false, Option, none, some, List, [], ◌∷◌, ◌++◌, str_eq, ◌==◌,
  if◌then◌else◌,
}
use pecunia.Prelude.Int.{ℤ, pos, ◌+ℤ◌, neg_ℤ, eqb_ℤ}
use pecunia.Prelude.Text.{Text, codes, show}
use pecunia.Prelude.Largest.{reduce_largest}

pub record ProjectionComponents : Type 0 where
  pub income_minor : ℤ
  pub subscriptions_minor : ℤ
  pub loans_minor : ℤ
  pub card_bills_minor : ℤ
  pub variable_minor : ℤ

pub record CardBillLabel : Type 0 where
  pub label : Text
  pub amount_minor : ℤ

pub record ProjectionPoint : Type 0 where
  pub date : String
  pub optimistic_minor : ℤ
  pub realistic_minor : ℤ
  pub components : ProjectionComponents
  pub card_bill_labels : List CardBillLabel

pub find_point_by_date : List ProjectionPoint → String → Option ProjectionPoint
find_point_by_date [] date = none
find_point_by_date (point ∷ points) date =
    if str_eq point.date date then some point else find_point_by_date points date

pub biggest_card_bill_label : List CardBillLabel → Option CardBillLabel
biggest_card_bill_label labels = reduce_largest (λ l. l.amount_minor) labels

abbrev pub first_date : List ProjectionPoint → Option String
first_date [] = none
first_date (point ∷ points) = some point.date

abbrev pub is_found {ℓ} : {A : Type ℓ} → Option A → Bool
is_found none = false
is_found (some a) = true

pub default_breakdown_date : List ProjectionPoint → String → Option String
default_breakdown_date points lowest_point_date =
    if is_found (find_point_by_date points lowest_point_date)
    then some lowest_point_date
    else first_date points

pub data BreakdownTone : Type 0 where
  positive negative : BreakdownTone

pub record BreakdownRow : Type 0 where
  pub key : Text
  pub label : Text
  pub minor : ℤ
  pub tone : BreakdownTone
  pub caption : Option Text

abbrev pub row : Text → Text → ℤ → BreakdownTone → BreakdownRow
row key label minor tone = record {
  key = key;
  label = label;
  minor = minor;
  tone = tone;
  caption = none;
}

abbrev pub is_zero : ℤ → Bool
is_zero n = eqb_ℤ n (pos 0)

-- "mês" and "meses"
abbrev pub month_word : ℕ → Text
month_word n = if n == 1 then codes "mês" else codes "meses"

-- `if (row.minor !== 0) rows.push(row)`
abbrev pub if_nonzero : BreakdownRow → List BreakdownRow
if_nonzero r = if is_zero r.minor then [] else r ∷ []

abbrev pub bill_key : ℕ → Text
bill_key index = codes "card-bill-" ++ show index

-- The loop over the labels from the given index.
pub bill_rows : ℕ → List CardBillLabel → List BreakdownRow
bill_rows index [] = []
bill_rows index (bill ∷ bills) =
    if_nonzero (row (bill_key index) (codes "fatura " ++ bill.label) bill.amount_minor negative)
    ++ bill_rows (index + 1) bills

pub card_rows : List CardBillLabel → ℤ → List BreakdownRow
unfolding bill_rows
card_rows [] card_bills_minor =
    if_nonzero (row (codes "card-bills") (codes "fatura") card_bills_minor negative)
card_rows (bill ∷ bills) card_bills_minor = bill_rows 0 (bill ∷ bills)

abbrev pub income_row : ProjectionComponents → BreakdownRow
income_row c = row (codes "income") (codes "renda") c.income_minor positive

abbrev pub subscriptions_row : ProjectionComponents → BreakdownRow
subscriptions_row c =
    row (codes "subscriptions") (codes "assinaturas e recorrentes") c.subscriptions_minor negative

abbrev pub loans_row : ProjectionComponents → BreakdownRow
loans_row c = row (codes "loans") (codes "empréstimos") c.loans_minor negative

abbrev pub variable_row : ProjectionComponents → ℕ → BreakdownRow
variable_row c months = record {
  key = codes "variable";
  label = codes "variável médio";
  minor = c.variable_minor;
  tone = negative;
  caption = some (codes "média de " ++ (show months ++ (codes " " ++ month_word months)));
}

pub breakdown_rows : ProjectionComponents → List CardBillLabel → ℕ → List BreakdownRow
unfolding card_rows
breakdown_rows components card_bill_labels variable_lookback_months =
    if_nonzero (income_row components)
    ++ (if_nonzero (subscriptions_row components)
        ++ (if_nonzero (loans_row components)
            ++ (card_rows card_bill_labels components.card_bills_minor
                ++ if_nonzero (variable_row components variable_lookback_months))))

abbrev pub signed : BreakdownRow → ℤ
signed r = elim r.tone [ positive ↦ r.minor | negative ↦ neg_ℤ r.minor ]

-- `rows.reduce((sum, row) => sum + …, 0)` from a sum
pub add_rows : ℤ → List BreakdownRow → ℤ
add_rows sum [] = sum
add_rows sum (r ∷ rows) = add_rows (sum +ℤ signed r) rows

pub month_delta_minor : List BreakdownRow → ℤ
unfolding add_rows
month_delta_minor rows = add_rows (pos 0) rows
