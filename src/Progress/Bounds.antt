-- ===== src/Progress/Bounds.antt =====
-- Every bar's percentage lies between 0 and 100.
use pecunia.Prelude.{Option, none, some, arith, Bool-cases, inl, inr}
use pecunia.Prelude.Int.{ℤ, pos, abs_ℤ, leb_ℤ}
use pecunia.Prelude.Ratio.{Ratio, over, of_ℕ, AtMost, IsProper}
use pecunia.Progress.{
  clamp_percent, percent_of, budget_progress, funding_progress, payoff_progress, goal_ring_progress,
  credit_card_usage, CreditCardUsage,
}

-- A drawable percentage: a proper fraction between 0 and 100.
pub record IsPercent (x : Ratio) : Type 0 where
  pub proper : IsProper x
  pub at_least : AtMost (of_ℕ 0) x
  pub at_most : AtMost x (of_ℕ 100)

pub clamp_percent-IsPercent : (x : Ratio) → IsProper x → IsPercent (clamp_percent x)
clamp_percent-IsPercent x h = ground arith

budget_progress-IsPercent :
    (actual : Option ℤ) (amount : ℤ) → IsPercent (budget_progress actual amount).percent
unfolding budget_progress
budget_progress-IsPercent none amount = ground arith
budget_progress-IsPercent (some actual) amount =
    ground (arith, clamp_percent-IsPercent (percent_of actual amount))

funding_progress-IsPercent :
    (actual : ℤ) (target : Option ℤ) → IsPercent (funding_progress actual target).percent
unfolding funding_progress
funding_progress-IsPercent actual none = ground arith
funding_progress-IsPercent actual (some target) =
    ground (arith, clamp_percent-IsPercent (percent_of actual target))

pub payoff_progress-IsPercent :
    (paid principal remaining : ℤ) → IsPercent (payoff_progress paid principal remaining).percent
unfolding payoff_progress
payoff_progress-IsPercent paid principal remaining =
    ground (arith, clamp_percent-IsPercent (percent_of paid principal))

goal_ring_progress-IsPercent : (bps : ℤ) → IsPercent (goal_ring_progress bps).percent
unfolding goal_ring_progress
goal_ring_progress-IsPercent bps = clamp_percent-IsPercent (over bps 100) (omega arith)

-- The usage, where there is one, has a drawable percentage.
abbrev pub IsDrawable : Option CreditCardUsage → Type 0
IsDrawable none = Unit
IsDrawable (some usage) = IsPercent usage.percent

credit_card_usage-IsDrawable :
    (balance : ℤ) (limit : Option ℤ) → IsDrawable (credit_card_usage balance limit)
unfolding credit_card_usage
credit_card_usage-IsDrawable balance none = tt
credit_card_usage-IsDrawable balance (some limit) = elim (Bool-cases (leb_ℤ limit (pos 0))) [
  | inl e ↦ rw e tt
  | inr e ↦ rw e (clamp_percent-IsPercent (percent_of (pos (abs_ℤ balance)) limit) (ground arith))
]

-- Whatever the amounts, negative and zero ones included, the percentages of the budget bar, the
-- funding bar, the payoff bar, the goal ring and, where one is drawn, the card's usage bar are
-- proper fractions between 0 and 100.
pub bars-IsPercent :
    (actual : Option ℤ) (amount funded : ℤ) (target : Option ℤ) (paid principal remaining : ℤ)
    (bps balance : ℤ) (limit : Option ℤ)
    → IsPercent (budget_progress actual amount).percent
      × IsPercent (funding_progress funded target).percent
      × IsPercent (payoff_progress paid principal remaining).percent
      × IsPercent (goal_ring_progress bps).percent
      × IsDrawable (credit_card_usage balance limit)
bars-IsPercent actual amount funded target paid principal remaining bps balance limit = (
  budget_progress-IsPercent actual amount,
  funding_progress-IsPercent funded target,
  payoff_progress-IsPercent paid principal remaining,
  goal_ring_progress-IsPercent bps,
  credit_card_usage-IsDrawable balance limit,
)
