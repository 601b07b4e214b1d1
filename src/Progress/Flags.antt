-- ===== src/Progress/Flags.antt =====
-- The bars' flags say when a bar is full.
use pecunia.Prelude.{if◌then◌else◌, ◌≡◌, ◌↔◌, true, some, arith}
use pecunia.Prelude.Int.{ℤ, pos, pos_part, abs_ℤ, ◌≤ℤ◌, ◌<ℤ◌, ◌-ℤ◌, -ℤ_parts, ltb_ℤ}
use pecunia.Prelude.Ratio.{divide-scale, over, of_ℕ, scale, Equals, AtMost}
use pecunia.Progress.{
  clamp_percent, percent_of, BudgetProgress, budget_progress, funding_progress, payoff_progress,
  debt_payoff_fraction, goal_ring_progress, CreditCardUsage, credit_card_usage,
}

-- For a positive target the reached flag is set just when the funding bar is full.
funding_reached_iff :
    (actual target : ℤ)
    → pos 0 <ℤ target
    → ((funding_progress actual (some target)).target_reached ≡ true)
      ↔ Equals (funding_progress actual (some target)).percent (of_ℕ 100)
unfolding funding_progress
funding_reached_iff actual target h = (λ e. ground arith, λ e. ground arith)

-- For a positive target the over flag is set just when more than the target is there.
funding_over_iff :
    (actual target : ℤ)
    → pos 0 <ℤ target
    → ((funding_progress actual (some target)).over_target ≡ true) ↔ (target <ℤ actual)
unfolding funding_progress
funding_over_iff actual target h = (λ e. ground arith, λ e. ground arith)

-- `max(principal − paid, 0)`, as the server computes what remains.
abbrev pub remaining_of : ℤ → ℤ → ℤ
remaining_of principal paid = if ltb_ℤ paid principal then principal -ℤ paid else pos 0

-- For a positive principal, with what remains computed as the server does, a loan shows as paid
-- off just when its bar is full.
paid_off_iff :
    (paid principal : ℤ)
    → pos 0 <ℤ principal
    → ((payoff_progress paid principal (remaining_of principal paid)).paid_off ≡ true)
      ↔ Equals (payoff_progress paid principal (remaining_of principal paid)).percent (of_ℕ 100)
unfolding payoff_progress ◌-ℤ◌
paid_off_iff paid principal h = (λ e. ground arith, λ e. ground arith)

-- A goal's ring shows as reached just when it is full.
goal_reached_iff :
    (bps : ℤ)
    → ((goal_ring_progress bps).reached ≡ true) ↔ Equals (goal_ring_progress bps).percent (of_ℕ 100)
unfolding goal_ring_progress
goal_reached_iff bps = (λ e. ground arith, λ e. ground arith)

pub record ShowsBudget (actual amount : ℤ) (p : BudgetProgress) : Type 0 where
  pub shown : p.has_actual ≡ true
  pub over_iff : (p.over_budget ≡ true) ↔ (amount <ℤ actual)
  pub full : amount <ℤ actual → Equals p.percent (of_ℕ 100)
  pub share :
      pos 0 ≤ℤ actual
      → actual ≤ℤ amount
      → Equals p.percent (scale (over actual (pos_part amount)) 100)
  pub refunded : actual <ℤ pos 0 → Equals p.percent (of_ℕ 0)

-- With a known spend and a positive amount, the actual spend shows, a budget is over just when
-- the spend exceeds the amount, an overspent budget draws a full bar, spending from 0 up to the
-- amount draws its exact share, and a negative spend draws an empty bar.
pub budget_progress-ShowsBudget :
    (actual amount : ℤ)
    → pos 0 <ℤ amount
    → ShowsBudget actual amount (budget_progress (some actual) amount)
unfolding budget_progress
budget_progress-ShowsBudget actual amount h = record {
  shown = ground arith;
  over_iff = (λ e. ground arith, λ e. ground arith);
  full = λ e. ground arith;
  share = λ lo hi. ground arith;
  refunded = λ e. ground arith;
}

-- The debt's bar is a fraction between 0 and 1, whatever the amounts.
pub debt_payoff_fraction_bounds :
    (principal remaining : ℤ)
    → AtMost (of_ℕ 0) (debt_payoff_fraction principal remaining)
      × AtMost (debt_payoff_fraction principal remaining) (of_ℕ 1)
unfolding debt_payoff_fraction
debt_payoff_fraction_bounds principal remaining = ground arith

payoff_percent_exact :
    (paid principal remaining : ℤ)
    → pos 0 <ℤ principal
    → pos 0 ≤ℤ paid
    → paid ≤ℤ principal
    → Equals (payoff_progress paid principal remaining).percent (percent_of paid principal)
unfolding payoff_progress
payoff_percent_exact paid principal remaining h lo hi = ground arith

-- With a positive principal of which between nothing and all remains, the debt's bar is exactly
-- the share of the principal that is paid.
pub debt_payoff_fraction_exact :
    (principal remaining : ℤ)
    → pos 0 <ℤ principal
    → pos 0 ≤ℤ remaining
    → remaining ≤ℤ principal
    → Equals
        (debt_payoff_fraction principal remaining)
        (over (principal -ℤ remaining) (pos_part principal))
unfolding debt_payoff_fraction
debt_payoff_fraction_exact principal remaining h lo hi =
    divide-scale _ (principal -ℤ remaining) (pos_part principal) (
      payoff_percent_exact (principal -ℤ remaining) principal remaining h
        (omega (arith, -ℤ_parts principal remaining)) (omega (arith, -ℤ_parts principal remaining)))

pub record ShowsCard (balance limit : ℤ) (u : CreditCardUsage) : Type 0 where
  pub over_iff : (u.over_limit ≡ true) ↔ (limit <ℤ pos (abs_ℤ balance))
  pub full_iff : Equals u.percent (of_ℕ 100) ↔ (limit ≤ℤ pos (abs_ℤ balance))

-- A card with a positive limit has a bar; it is over the limit just when the balance's magnitude
-- exceeds the limit, and the bar is full just when the magnitude is at least the limit.
pub credit_card_usage-ShowsCard :
    (balance limit : ℤ)
    → pos 0 <ℤ limit
    → (u : CreditCardUsage) × (credit_card_usage balance (some limit) ≡ some u)
      × ShowsCard balance limit u
unfolding credit_card_usage
credit_card_usage-ShowsCard balance limit h = (
  record {
    percent = clamp_percent (percent_of (pos (abs_ℤ balance)) limit);
    over_limit = ltb_ℤ limit (pos (abs_ℤ balance));
  },
  ground arith,
  record {
    over_iff = (λ e. ground arith, λ e. ground arith);
    full_iff = (λ e. ground arith, λ e. ground arith);
  },
)

-- For a positive funding target and a positive principal, with what remains computed as the server
-- does: the funding bar, the payoff bar and the goal's ring are full just when their flags, target
-- reached, paid off and reached, are set, and the funding's over flag is set just when more than
-- the target is there.
pub full_bars_iff :
    (actual target paid principal bps : ℤ)
    → pos 0 <ℤ target
    → pos 0 <ℤ principal
    → (((funding_progress actual (some target)).target_reached ≡ true)
        ↔ Equals (funding_progress actual (some target)).percent (of_ℕ 100))
      × (((funding_progress actual (some target)).over_target ≡ true) ↔ (target <ℤ actual))
      × (((payoff_progress paid principal (remaining_of principal paid)).paid_off ≡ true)
          ↔ Equals
              (payoff_progress paid principal (remaining_of principal paid)).percent
              (of_ℕ 100))
      × (((goal_ring_progress bps).reached ≡ true)
          ↔ Equals (goal_ring_progress bps).percent (of_ℕ 100))
full_bars_iff actual target paid principal bps h k = (
  funding_reached_iff actual target h,
  funding_over_iff actual target h,
  paid_off_iff paid principal k,
  goal_reached_iff bps,
)
