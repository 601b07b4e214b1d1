-- ===== src/Period/Tests.antt =====
-- A month before the end of March, in a leap year.
use pecunia.Prelude.{◌≡◌, refl, arith}
use pecunia.Prelude.Text.{codes, show}
use pecunia.Period.{UtcDate, days_in_month, start_of, compute_period_range}
use pecunia.Period.Window.{IsDate, StartsWindow, start_of-StartsWindow}

abbrev march : UtcDate
march = record { year = 2024; month = 2; day = 31 }

march-IsDate : IsDate march
unfolding days_in_month
march-IsDate = record { month_in = omega arith; day_from = omega arith; day_to = omega arith }

window_example : StartsWindow 1 march (start_of 1 march)
window_example = start_of-StartsWindow 1 march march-IsDate (omega arith) (omega arith)

february : (compute_period_range 1 march).from ≡ codes "2024-02-29"
unfolding compute_period_range show
february = refl
