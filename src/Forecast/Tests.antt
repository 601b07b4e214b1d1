-- ===== src/Forecast/Tests.antt =====
-- A projection at concrete amounts.
use pecunia.Prelude.{◌≡◌, [], ◌∷◌}
use pecunia.Prelude.Int.{pos, ◌-ℤ◌}
use pecunia.Prelude.Text.{codes}
use pecunia.Forecast.{
  ProjectionComponents, CardBillLabel, ProjectionPoint, breakdown_rows, month_delta_minor,
}
use pecunia.Forecast.Breakdown.{card_total, month_delta_minor-breakdown_rows}

abbrev components : ProjectionComponents
components = record {
  income_minor = pos 5000;
  subscriptions_minor = pos 300;
  loans_minor = pos 0;
  card_bills_minor = pos 900;
  variable_minor = pos 700;
}

abbrev visa : CardBillLabel
visa = record { label = codes "visa"; amount_minor = pos 400 }

abbrev master : CardBillLabel
master = record { label = codes "master"; amount_minor = pos 500 }

abbrev june : ProjectionPoint
june = record {
  date = "2025-06";
  optimistic_minor = pos 10;
  realistic_minor = pos 5;
  components = components;
  card_bill_labels = visa ∷ master ∷ [];
}

month_delta_example :
    month_delta_minor (breakdown_rows components (visa ∷ master ∷ []) 3)
    ≡ pos 5000 -ℤ pos 300 -ℤ pos 0 -ℤ card_total (visa ∷ master ∷ []) (pos 900) -ℤ pos 700
month_delta_example = month_delta_minor-breakdown_rows components (visa ∷ master ∷ []) 3
