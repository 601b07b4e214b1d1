-- ===== src/Charts/Merge.antt =====
-- What each line and the band of the forecast chart draw from the merged rows.
use pecunia.Prelude.{◌≡◌, refl, sym, ap₂, ◌∙◌, List, [], ◌∷◌, ◌++◌, map, append-nil}
use pecunia.Prelude.Int.{◌-ℤ◌}
use pecunia.Charts.{
  ChartPoint, ForecastChartPoint, MergedForecastPoint, history_row, projected_row, bridge_last,
  merge_forecast_series,
}
use pecunia.Charts.Lines.{
  line, line-append, of_projected, line-projected, line-missing, line-history, line-bridge_history,
  bridge_point, line-bridge_projected, line-bridge_missing, row_dates, row_dates-append,
  row_dates-history, row_dates-projected, row_dates-bridge,
}

-- What the chart draws of a history and a projection.
pub record DrawsForecast (history : List ChartPoint) (projected : List ForecastChartPoint)
    (bridge : List ChartPoint) (rows : List MergedForecastPoint) : Type 0 where
  pub one_row_per_point : row_dates rows ≡ map (λ p. p.date) history ++ map (λ p. p.date) projected
  pub solid : line (λ r. r.history_value) rows ≡ history
  pub dashed :
      line (λ r. r.projected_value) rows
      ≡ bridge ++ map (of_projected (λ p. p.value_minor)) projected
  pub band_bottom : line (λ r. r.lower) rows ≡ map (of_projected (λ p. p.lower_minor)) projected
  pub band_width :
      line (λ r. r.band_width) rows
      ≡ map (of_projected (λ p. p.upper_minor -ℤ p.lower_minor)) projected

projected-Draws :
    (projected : List ForecastChartPoint)
    → DrawsForecast [] projected [] (map projected_row projected)
projected-Draws projected = record {
  one_row_per_point = row_dates-projected projected;
  solid = line-missing (λ r. r.history_value) projected_row (λ p. refl) projected;
  dashed = line-projected (λ r. r.projected_value) (λ p. p.value_minor) (λ p. refl) projected;
  band_bottom = line-projected (λ r. r.lower) (λ p. p.lower_minor) (λ p. refl) projected;
  band_width =
      line-projected (λ r. r.band_width) (λ p. p.upper_minor -ℤ p.lower_minor) (λ p. refl)
        projected;
}

-- Rows that draw the history and a bridge, before the projected rows.
append-Draws :
    (history : List ChartPoint) (bridge : List ChartPoint) (rows : List MergedForecastPoint)
    (projected : List ForecastChartPoint)
    → DrawsForecast history [] bridge rows
    → DrawsForecast history projected bridge (rows ++ map projected_row projected)
append-Draws history bridge rows projected d =
    let e = projected-Draws projected in
    record {
      one_row_per_point =
          row_dates-append rows (map projected_row projected)
          ∙ ap₂ (λ x y. x ++ y) (d.one_row_per_point ∙ append-nil _) e.one_row_per_point;
      solid =
          line-append (λ r. r.history_value) rows (map projected_row projected)
          ∙ ap₂ (λ x y. x ++ y) d.solid e.solid
          ∙ append-nil history;
      dashed =
          line-append (λ r. r.projected_value) rows (map projected_row projected)
          ∙ ap₂ (λ x y. x ++ y) (d.dashed ∙ append-nil bridge) e.dashed;
      band_bottom =
          line-append (λ r. r.lower) rows (map projected_row projected)
          ∙ ap₂ (λ x y. x ++ y) d.band_bottom e.band_bottom;
      band_width =
          line-append (λ r. r.band_width) rows (map projected_row projected)
          ∙ ap₂ (λ x y. x ++ y) d.band_width e.band_width;
    }

history-Draws : (history : List ChartPoint) → DrawsForecast history [] [] (map history_row history)
history-Draws history = record {
  one_row_per_point = row_dates-history history ∙ sym (append-nil _);
  solid = line-history history;
  dashed = line-missing (λ r. r.projected_value) history_row (λ p. refl) history;
  band_bottom = line-missing (λ r. r.lower) history_row (λ p. refl) history;
  band_width = line-missing (λ r. r.band_width) history_row (λ p. refl) history;
}

bridge-Draws :
    (p : ChartPoint) (history : List ChartPoint)
    → DrawsForecast
        (p ∷ history)
        []
        (bridge_point (p ∷ history))
        (bridge_last (map history_row (p ∷ history)))
bridge-Draws p history = record {
  one_row_per_point = row_dates-bridge p history ∙ sym (append-nil _);
  solid = line-bridge_history p history;
  dashed = line-bridge_projected p history ∙ sym (append-nil _);
  band_bottom = line-bridge_missing (λ r. r.lower) (λ q. refl) (λ q. refl) p history;
  band_width = line-bridge_missing (λ r. r.band_width) (λ q. refl) (λ q. refl) p history;
}

-- The bridge that a chart of both series has.
abbrev pub bridge_of : List ChartPoint → List ForecastChartPoint → List ChartPoint
bridge_of history [] = []
bridge_of history (q ∷ projected) = bridge_point history

-- The merged rows have one row per point, the history's points first; the solid line goes through
-- exactly the history, the dashed line through the last point of the history (only where there is
-- a history and a projection) and then exactly the projection, and the band's bottom and width are
-- the projection's lower bound and its upper less its lower bound, at the projected dates only.
pub merge_forecast_series-DrawsForecast :
    (history : List ChartPoint) (projected : List ForecastChartPoint)
    → DrawsForecast history projected
        (bridge_of history projected)
        (merge_forecast_series history projected)
unfolding merge_forecast_series
merge_forecast_series-DrawsForecast [] [] = projected-Draws []
merge_forecast_series-DrawsForecast [] (q ∷ projected) = projected-Draws (q ∷ projected)
merge_forecast_series-DrawsForecast (p ∷ history) [] =
    append-Draws (p ∷ history) [] (map history_row (p ∷ history)) [] (history-Draws (p ∷ history))
merge_forecast_series-DrawsForecast (p ∷ history) (q ∷ projected) =
    append-Draws (p ∷ history) (bridge_point (p ∷ history))
      (bridge_last (map history_row (p ∷ history))) (q ∷ projected) (bridge-Draws p history)
