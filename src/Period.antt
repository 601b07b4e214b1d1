-- ===== src/Period.antt =====
-- The analytics window (web/src/features/analytics/period.ts). A `Date` is read by its UTC year,
-- month from 0 and day. `Date.UTC` takes a year from 0 to 99 as one from 1900 to 1999. A window that
-- would start before the year 0 is out of range (the count of its months then stops at 0).
pub mod Window
mod Tests
use pecunia.Prelude.{
  ltb, ℕ, ◌+◌, ◌-◌, ◌*◌, ◌/◌, ◌%◌, min, String, Bool, not, ◌&&◌, ◌||◌, List, [], ◌∷◌, ◌++◌, ◌==◌,
  if◌then◌else◌,
}
use pecunia.Prelude.Text.{Text, codes, show, pad_start}

pub record UtcDate : Type 0 where
  pub year : ℕ
  pub month : ℕ
  pub day : ℕ

pub record PeriodOption : Type 0 where
  pub months : ℕ
  pub label : String

abbrev option : ℕ → String → PeriodOption
option months label = record { months = months; label = label }

abbrev pub period_options : List PeriodOption
period_options =
    option 3 "3 months" ∷ option 6 "6 months" ∷ option 12 "12 months" ∷ option 24 "24 months" ∷ []

pub data PeriodSelection : Type 0 where
  bounded : ℕ → PeriodSelection
  all_time : PeriodSelection

abbrev pub default_period_selection : PeriodSelection
default_period_selection = bounded 12

abbrev pub is_leap : ℕ → Bool
is_leap year = year % 4 == 0 && (not (year % 100 == 0) || year % 400 == 0)

abbrev pub has_thirty : ℕ → Bool
has_thirty month = month == 3 || month == 5 || month == 8 || month == 10

-- The days of a month in the calendar of `Date`.
pub days_in_month : ℕ → ℕ → ℕ
days_in_month year month =
    if month == 1 then if is_leap year then 29 else 28 else if has_thirty month then 30 else 31

abbrev pub pad : ℕ → Text
pad n = pad_start 2 b'0' (show n)

pub to_iso_date : UtcDate → Text
to_iso_date d = show d.year ++ (codes "-" ++ (pad (d.month + 1) ++ (codes "-" ++ pad d.day)))

-- The year that `Date.UTC` takes a year for.
unfoldable pub utc_year : ℕ → ℕ
utc_year year = if ltb year 100 then 1900 + year else year

-- The months since the start of the year 0. `Date.UTC` takes a month that is out of its year's
-- range by this count.
abbrev pub month_count : UtcDate → ℕ
month_count d = d.year * 12 + d.month

abbrev pub last_day : ℕ → ℕ
last_day count = days_in_month (count / 12) (count % 12)

-- The start of the window.
pub start_of : ℕ → UtcDate → UtcDate
unfolding days_in_month utc_year
start_of months today =
    let target = utc_year today.year * 12 + today.month - months in
    record { year = target / 12; month = target % 12; day = min today.day (last_day target) }

pub record AnalyticsWindow : Type 0 where
  pub from : Text
  pub to : Text

pub compute_period_range : ℕ → UtcDate → AnalyticsWindow
unfolding to_iso_date start_of
compute_period_range months today = record {
  from = to_iso_date (start_of months today);
  to = to_iso_date today;
}
