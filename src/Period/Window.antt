-- ===== src/Period/Window.antt =====
-- The window starts on a valid day, the given number of calendar months earlier.
use pecunia.Prelude.{ℕ, ◌+◌, ◌-◌, ◌/◌, ◌%◌, ◌≤◌, ◌<◌, ◌≡◌, arith}
use pecunia.Period.{utc_year, UtcDate, days_in_month, month_count, start_of}

-- A date of the calendar.
pub record IsDate (d : UtcDate) : Type 0 where
  pub month_in : d.month < 12
  pub day_from : 1 ≤ d.day
  pub day_to : d.day ≤ days_in_month d.year d.month

days_in_month-ge : (year month : ℕ) → 28 ≤ days_in_month year month
unfolding days_in_month
days_in_month-ge year month = ground arith

-- How the window's start relates to the day it ends on.
pub record StartsWindow (months : ℕ) (today start : UtcDate) : Type 0 where
  pub valid : IsDate start
  pub months_earlier : month_count start + months ≡ month_count today
  pub same_day : today.day ≤ days_in_month start.year start.month → start.day ≡ today.day
  pub clamped :
      days_in_month start.year start.month < today.day
      → start.day ≡ days_in_month start.year start.month

later_year : (year : ℕ) → 100 ≤ year → utc_year year ≡ year
unfolding utc_year
later_year year h = ground arith

-- For a date of the calendar in the year 100 or later, and months that do not lead before the year
-- 0, the window starts on a date of the calendar exactly that many calendar months earlier: on the
-- same day of the month if that month has it, and otherwise on that month's last day.
pub start_of-StartsWindow :
    (months : ℕ) (today : UtcDate)
    → IsDate today
    → 100 ≤ today.year
    → months ≤ month_count today
    → StartsWindow months today (start_of months today)
unfolding start_of
start_of-StartsWindow months today h y k = rw (later_year today.year y) (record {
  valid = record {
    month_in = omega arith;
    day_from = omega (
      arith,
      h.day_from,
      days_in_month-ge ((month_count today - months) / 12) ((month_count today - months) % 12),
    );
    day_to = omega arith;
  };
  months_earlier = omega arith;
  same_day = λ l. omega arith;
  clamped = λ l. omega arith;
})
