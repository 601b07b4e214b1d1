-- ===== src/Dashboard/BalanceSeries/Tests.antt =====
-- A run of the balance history, and its theorem at concrete transactions.
use pecunia.Prelude.{◌≡◌, refl, List, [], ◌∷◌, reverse}
use pecunia.Prelude.Int.{pos, negsuc, ◌-ℤ◌}
use pecunia.Charts.{point}
use pecunia.Dashboard.BalanceSeries.{
  TransactionLite, build_balance_series, total_amount, ledger, build_balance_series_lem,
}

abbrev transactions : List TransactionLite
transactions =
    record { occurred_on = "2026-03-03"; amount_minor = negsuc 199 }
    ∷ record { occurred_on = "2026-03-02"; amount_minor = pos 500 }
    ∷ record { occurred_on = "2026-03-01"; amount_minor = pos 50 }
    ∷ []

build_balance_series_run :
    build_balance_series (pos 1000) transactions
    ≡ point "2026-03-01" (pos 700)
      ∷ point "2026-03-02" (pos 1200)
      ∷ point "2026-03-03" (pos 1000)
      ∷ []
unfolding build_balance_series ◌-ℤ◌
build_balance_series_run = refl

build_balance_series_example :
    build_balance_series (pos 1000) transactions
    ≡ ledger (pos 1000 -ℤ total_amount transactions) (reverse transactions)
build_balance_series_example = build_balance_series_lem (pos 1000) transactions
