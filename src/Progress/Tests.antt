-- ===== src/Progress/Tests.antt =====
-- The bars at concrete amounts.
use pecunia.Prelude.{some, arith}
use pecunia.Prelude.Int.{pos, negsuc}
use pecunia.Progress.{
  SafeToSpendSegmentsInput, safe_to_spend_segments, funding_progress, payoff_progress,
  goal_ring_progress, budget_progress, credit_card_usage,
}
use pecunia.Progress.Bounds.{IsPercent, IsDrawable, bars-IsPercent}
use pecunia.Progress.Segments.{FillsBar, safe_to_spend_segments-FillsBar}

-- 250 spent and 300 committed of 1000, with a budget of 600.
abbrev month : SafeToSpendSegmentsInput
month = record {
  expected_income_minor = pos 1000;
  spent_mtd_minor = pos 250;
  committed_remaining_minor = pos 300;
  displayed_safe_minor = pos 450;
  monthly_budget_minor = some (pos 600);
}

segments_example : FillsBar (safe_to_spend_segments month)
segments_example = safe_to_spend_segments-FillsBar month (omega arith)

bars_example :
    IsPercent (budget_progress (some (pos 150)) (pos 100)).percent
    × IsPercent (funding_progress (negsuc 4) (some (pos 10))).percent
    × IsPercent (payoff_progress (pos 5) (pos 10) (pos 5)).percent
    × IsPercent (goal_ring_progress (pos 12500)).percent
    × IsDrawable (credit_card_usage (negsuc 99) (some (pos 50)))
bars_example =
    bars-IsPercent (some (pos 150)) (pos 100) (negsuc 4) (some (pos 10)) (pos 5) (pos 10) (pos 5)
      (pos 12500) (negsuc 99) (some (pos 50))
