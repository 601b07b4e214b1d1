-- ===== src/Charts/Tests.antt =====
-- The charts' helpers on concrete series.
use pecunia.Prelude.{String, ◌≡◌, ◌↔◌, none, some, List, [], ◌∷◌, ◌++◌}
use pecunia.Prelude.Int.{ℤ, pos, negsuc, ◌<ℤ◌}
use pecunia.Prelude.Text.{codes}
use pecunia.Money.{Intl}
use pecunia.Charts.{
  ChartPoint, point, ForecastChartPoint, DonutDatum, merge_forecast_series, trend_direction, up,
  down,
}
use pecunia.Charts.Merge.{DrawsForecast, bridge_of, merge_forecast_series-DrawsForecast}
use pecunia.Charts.Trend.{trend_direction_iff}

abbrev january : ChartPoint
january = point "2026-01-01" (pos 100)

abbrev february : ChartPoint
february = point "2026-02-01" (pos 250)

abbrev march : ForecastChartPoint
march = record {
  date = "2026-03-01";
  value_minor = pos 300;
  lower_minor = negsuc 9;
  upper_minor = pos 500;
}

merge_example :
    DrawsForecast
      (january ∷ february ∷ [])
      (march ∷ [])
      (bridge_of (january ∷ february ∷ []) (march ∷ []))
      (merge_forecast_series (january ∷ february ∷ []) (march ∷ []))
merge_example = merge_forecast_series-DrawsForecast (january ∷ february ∷ []) (march ∷ [])

trend_example :
    ((trend_direction (january ∷ ([] ++ (february ∷ []))) ≡ up) ↔ (pos 100 <ℤ pos 250))
    × ((trend_direction (january ∷ ([] ++ (february ∷ []))) ≡ down) ↔ (pos 250 <ℤ pos 100))
trend_example = trend_direction_iff january february []

abbrev slice : String → ℤ → DonutDatum
slice key value_minor = record {
  item = record { key = key; label = codes key; value_minor = value_minor };
  color = none;
}

abbrev intl : Intl
intl = record {
  minimum_fraction_digits = λ locale currency. some 2;
  format = λ locale currency r. codes currency;
}

abbrev slices : List DonutDatum
slices = slice "food" (pos 90) ∷ slice "rent" (pos 40) ∷ slice "refunds" (negsuc 4) ∷ []
