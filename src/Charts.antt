-- ===== src/Charts.antt =====
-- The charts' data helpers (web/src/components/charts/chartMath.ts), less the two sentences that
-- format dates. An optional property of a row is an `Option`; a breakdown row's extra properties
-- ride along untouched in the source and are left out.
pub mod Lines
pub mod Merge
pub mod Trend
pub mod Sentences
mod Tests
use pecunia.Prelude.{
  ℕ, ◌+◌, ◌-◌, String, Bool, true, false, ◌||◌, Option, none, some, List, [], ◌∷◌, ◌++◌, map,
  length, last?, take, filter, ltb, if◌then◌else◌,
}
use pecunia.Prelude.Int.{ℤ, pos, ◌+ℤ◌, ◌-ℤ◌, ltb_ℤ}
use pecunia.Prelude.Text.{Text, codes, show}
use pecunia.Prelude.Largest.{largest_of}
use pecunia.Money.{Intl, format_money}

pub record ChartPoint : Type 0 where
  pub date : String
  pub value_minor : ℤ

abbrev pub point : String → ℤ → ChartPoint
point date value_minor = record { date = date; value_minor = value_minor }

pub data TrendDirection : Type 0 where
  up down flat : TrendDirection

abbrev pub direction_of : ℤ → ℤ → TrendDirection
direction_of first last = if ltb_ℤ first last then up else if ltb_ℤ last first then down else flat

-- A list of one point has that point first and last, and so no movement either.
pub trend_direction : List ChartPoint → TrendDirection
trend_direction [] = flat
trend_direction (p ∷ points) =
    if ltb (length (p ∷ points)) 2 then flat else elim (last? (p ∷ points)) [
      | none ↦ flat
      | some last ↦ direction_of p.value_minor last.value_minor
    ]

pub record CashflowBar : Type 0 where
  pub period_start : String
  pub income_minor : ℤ
  pub spend_minor : ℤ

-- A row of a breakdown: an item of the ranked bars, or a slice of the donut.
pub record BreakdownItem : Type 0 where
  pub key : String
  pub label : Text
  pub value_minor : ℤ

pub record DonutDatum : Type 0 where
  pub item : BreakdownItem
  pub color : Option String

-- `xs.reduce((sum, x) => sum + f(x), 0)`
abbrev pub add_up {ℓ} : {A : Type ℓ} → (A → ℤ) → ℤ → List A → ℤ
add_up f sum [] = sum
add_up f sum (x ∷ xs) = add_up f (sum +ℤ f x) xs

abbrev pub is_positive : ℤ → Bool
is_positive n = ltb_ℤ (pos 0) n

-- What a breakdown's sentence says of the total, the number of rows and the largest row.
abbrev pub ranking : Intl → String → Option String → Text → ℤ → ℕ → Text → BreakdownItem → Text
ranking intl currency locale label total count noun largest =
    label
    ++ (codes ", "
        ++ (format_money intl total currency locale
            ++ (codes " across "
                ++ (show count
                    ++ (noun
                        ++ (codes ": largest is "
                            ++ (largest.label
                                ++ (codes " at "
                                    ++ (format_money intl largest.value_minor currency locale
                                        ++ codes ".")))))))))

pub describe_breakdown_bars : Intl → Text → List BreakdownItem → String → Option String → Text
describe_breakdown_bars intl label items currency locale =
    elim (filter (λ i. is_positive i.value_minor) items) [
      | [] ↦ label ++ codes ": No data available."
      | item ∷ rest ↦
          ranking intl currency locale label (add_up (λ i. i.value_minor) (pos 0) (item ∷ rest))
            (length (item ∷ rest)) [] (largest_of (λ i. i.value_minor) item rest)
    ]

pub describe_cashflow : Intl → List CashflowBar → String → Option String → Text
describe_cashflow intl [] currency locale = codes "Income vs spend: No data available."
describe_cashflow intl (bar ∷ bars) currency locale =
    let income = add_up (λ b. b.income_minor) (pos 0) (bar ∷ bars) in
    let spend = add_up (λ b. b.spend_minor) (pos 0) (bar ∷ bars) in
    codes "Income vs spend across "
    ++ (show (length (bar ∷ bars))
        ++ (codes " months: "
            ++ (format_money intl income currency locale
                ++ (codes " income, "
                    ++ (format_money intl spend currency locale ++ codes " spend.")))))

pub describe_breakdown : Intl → List DonutDatum → String → Option String → Text
describe_breakdown intl slices currency locale =
    elim (filter (λ d. is_positive d.item.value_minor) slices) [
      | [] ↦ codes "Spending by category: No data available."
      | largest ∷ rest ↦
          ranking intl currency locale (codes "Spending by category")
            (add_up (λ d. d.item.value_minor) (pos 0) (largest ∷ rest)) (length (largest ∷ rest))
            (codes " categories") largest.item
    ]

pub record ForecastChartPoint : Type 0 where
  pub date : String
  pub value_minor : ℤ
  pub lower_minor : ℤ
  pub upper_minor : ℤ

pub record MergedForecastPoint : Type 0 where
  pub date : String
  pub history_value : Option ℤ
  pub projected_value : Option ℤ
  pub lower : Option ℤ
  pub band_width : Option ℤ

abbrev pub history_row : ChartPoint → MergedForecastPoint
history_row p = record {
  date = p.date;
  history_value = some p.value_minor;
  projected_value = none;
  lower = none;
  band_width = none;
}

abbrev pub projected_row : ForecastChartPoint → MergedForecastPoint
projected_row p = record {
  date = p.date;
  history_value = none;
  projected_value = some p.value_minor;
  lower = some p.lower_minor;
  band_width = some (p.upper_minor -ℤ p.lower_minor);
}

abbrev pub bridged : MergedForecastPoint → MergedForecastPoint
bridged r = record {
  date = r.date;
  history_value = r.history_value;
  projected_value = r.history_value;
  lower = r.lower;
  band_width = r.band_width;
}

-- The history rows with the last one replaced by the bridge.
pub bridge_last : List MergedForecastPoint → List MergedForecastPoint
bridge_last rows = elim (last? rows) [
  | none ↦ []
  | some r ↦ take (length rows - 1) rows ++ (bridged r ∷ [])
]

abbrev pub is_empty {ℓ} : {A : Type ℓ} → List A → Bool
is_empty [] = true
is_empty (x ∷ xs) = false

pub merge_forecast_series : List ChartPoint → List ForecastChartPoint → List MergedForecastPoint
unfolding bridge_last
merge_forecast_series history projected =
    let history_rows = map history_row history in
    let projected_rows = map projected_row projected in
    if is_empty history_rows || is_empty projected_rows
    then history_rows ++ projected_rows
    else bridge_last history_rows ++ projected_rows
