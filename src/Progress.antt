-- ===== src/Progress.antt =====
-- The progress bars' arithmetic (web/src/features/budgets/budgetProgress.ts,
-- projects/funding.ts, loans/payoff.ts, goals/goalProgress.ts, forecast/debtPayoff.ts,
-- dashboard/creditCardUsage.ts and dashboard/safeToSpendBar.ts beside it). Amounts are integers;
-- a percentage is an exact fraction.
pub mod Bounds
pub mod Flags
pub mod Segments
mod Tests
use pecunia.Prelude.{
  ◌+◌, Bool, true, false, Option, none, some, String, if◌then◌else◌, ◌++◌, str_eq,
}
use pecunia.Prelude.Text.{Text, codes}
use pecunia.Prelude.Int.{ℤ, pos, pos_part, abs_ℤ, ltb_ℤ, leb_ℤ, eqb_ℤ, ◌-ℤ◌}
use pecunia.Prelude.Ratio.{Ratio, over, of_ℕ, scale, divide, minus, min_ratio, max_ratio}

-- `Math.max(0, Math.min(100, raw))`
abbrev clamp_percent : Ratio → Ratio
clamp_percent raw = max_ratio (of_ℕ 0) (min_ratio (of_ℕ 100) raw)

-- `(part / whole) * 100` for a positive whole
abbrev percent_of : ℤ → ℤ → Ratio
percent_of part whole = scale (over part (pos_part whole)) 100

pub record BudgetProgress : Type 0 where
  pub percent : Ratio
  pub over_budget : Bool
  pub has_actual : Bool

pub budget_progress : Option ℤ → ℤ → BudgetProgress
budget_progress none amount_minor = record {
  percent = of_ℕ 0;
  over_budget = false;
  has_actual = false;
}
budget_progress (some actual_minor) amount_minor =
    let over_budget = ltb_ℤ amount_minor actual_minor in
    if leb_ℤ amount_minor (pos 0)
    then record {
      percent = if ltb_ℤ (pos 0) actual_minor then of_ℕ 100 else of_ℕ 0;
      over_budget = over_budget;
      has_actual = true;
    }
    else record {
      percent = clamp_percent (percent_of actual_minor amount_minor);
      over_budget = over_budget;
      has_actual = true;
    }

pub record FundingProgress : Type 0 where
  pub percent : Ratio
  pub target_reached : Bool
  pub over_target : Bool
  pub has_target : Bool

abbrev no_target : FundingProgress
no_target = record {
  percent = of_ℕ 0;
  target_reached = false;
  over_target = false;
  has_target = false;
}

pub funding_progress : ℤ → Option ℤ → FundingProgress
funding_progress actual_minor none = no_target
funding_progress actual_minor (some target_amount_minor) =
    if leb_ℤ target_amount_minor (pos 0) then no_target else record {
      percent = clamp_percent (percent_of actual_minor target_amount_minor);
      target_reached = leb_ℤ target_amount_minor actual_minor;
      over_target = ltb_ℤ target_amount_minor actual_minor;
      has_target = true;
    }

pub record PayoffProgress : Type 0 where
  pub percent : Ratio
  pub paid_off : Bool
  pub has_principal : Bool

pub payoff_progress : ℤ → ℤ → ℤ → PayoffProgress
payoff_progress paid_total_minor principal_minor remaining_minor =
    if leb_ℤ principal_minor (pos 0)
    then record { percent = of_ℕ 0; paid_off = false; has_principal = false }
    else record {
      percent = clamp_percent (percent_of paid_total_minor principal_minor);
      paid_off = eqb_ℤ remaining_minor (pos 0);
      has_principal = true;
    }

-- `debtPayoffFraction`, a fraction of 1
pub debt_payoff_fraction : ℤ → ℤ → Ratio
unfolding payoff_progress
debt_payoff_fraction principal_minor remaining_minor =
    let paid_total_minor = principal_minor -ℤ remaining_minor in
    divide (payoff_progress paid_total_minor principal_minor remaining_minor).percent 100

pub record GoalRingProgress : Type 0 where
  pub percent : Ratio
  pub reached : Bool

pub goal_ring_progress : ℤ → GoalRingProgress
goal_ring_progress pct_bps = record {
  percent = clamp_percent (over pct_bps 100);
  reached = leb_ℤ (pos 10000) pct_bps;
}

pub record GoalEta : Type 0 where
  pub reached_on : Option String
  pub on_track : Bool

abbrev on_track_text : (String → Option String → Text) → Option String → Option String → Text
on_track_text month_year_label none locale = codes "Not on track within 6 months"
on_track_text month_year_label (some reached_on) locale =
    if str_eq reached_on ""
    then codes "Not on track within 6 months"
    else codes "On track — by " ++ month_year_label reached_on locale

-- `describeGoalEta`; the label of a month and year is the browser's date format.
pub describe_goal_eta : (String → Option String → Text) → Bool → GoalEta → Option String → Text
describe_goal_eta month_year_label reached eta locale =
    if reached
    then codes "Goal reached"
    else if eta.on_track
    then on_track_text month_year_label eta.reached_on locale
    else codes "Not on track within 6 months"

pub record CreditCardUsage : Type 0 where
  pub percent : Ratio
  pub over_limit : Bool

pub credit_card_usage : ℤ → Option ℤ → Option CreditCardUsage
credit_card_usage derived_balance_minor none = none
credit_card_usage derived_balance_minor (some credit_limit_minor) =
    let used = pos (abs_ℤ derived_balance_minor) in
    if leb_ℤ credit_limit_minor (pos 0)
    then none
    else some (record {
      percent = clamp_percent (percent_of used credit_limit_minor);
      over_limit = ltb_ℤ credit_limit_minor used;
    })

pub record SafeToSpendSegmentsInput : Type 0 where
  pub expected_income_minor : ℤ
  pub spent_mtd_minor : ℤ
  pub committed_remaining_minor : ℤ
  pub displayed_safe_minor : ℤ
  pub monthly_budget_minor : Option ℤ

pub record SafeToSpendSegments : Type 0 where
  pub spent_pct : Ratio
  pub committed_pct : Ratio
  pub free_pct : Ratio
  pub budget_marker_pct : Option Ratio

abbrev empty_segments : SafeToSpendSegments
empty_segments = record {
  spent_pct = of_ℕ 0;
  committed_pct = of_ℕ 0;
  free_pct = of_ℕ 0;
  budget_marker_pct = none;
}

pub clamp : Ratio → Ratio → Ratio → Ratio
clamp value lo hi = max_ratio lo (min_ratio hi value)

abbrev budget_marker : Option ℤ → ℤ → Option Ratio
budget_marker none income = none
budget_marker (some budget) income = some (clamp (percent_of budget income) (of_ℕ 0) (of_ℕ 100))

pub safe_to_spend_segments : SafeToSpendSegmentsInput → SafeToSpendSegments
safe_to_spend_segments input =
    if leb_ℤ input.expected_income_minor (pos 0)
    then empty_segments
    else let income = input.expected_income_minor in
      let spent = clamp (percent_of input.spent_mtd_minor income) (of_ℕ 0) (of_ℕ 100) in
      let room_after_spent = minus (of_ℕ 100) spent in
      let committed =
        clamp (percent_of input.committed_remaining_minor income) (of_ℕ 0) room_after_spent in
      record {
        spent_pct = spent;
        committed_pct = committed;
        free_pct = max_ratio (of_ℕ 0) (minus (minus (of_ℕ 100) spent) committed);
        budget_marker_pct = budget_marker input.monthly_budget_minor income;
      }
