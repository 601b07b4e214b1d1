-- ===== src/Progress/Segments.antt =====
-- The segmented month bar of `safeToSpendSegments`.
use native.Mathlib.Nat.{mul-le-mul_right, le_of_mul-le-mul_left}
use pecunia.Prelude.{ℕ, ◌+◌, ◌≡◌, false, Option, arith, ◌*◌, ap}
use pecunia.Prelude.Int.{pos, pos_part, neg_part, ◌<ℤ◌, leb_ℤ}
use pecunia.Prelude.Ratio.{
  Ratio, of_ℕ, minus, plus, AtMost, Equals, IsProper, max_ratio, diff_parts,
}
use pecunia.Progress.{
  percent_of, clamp, SafeToSpendSegmentsInput, SafeToSpendSegments, safe_to_spend_segments,
}
use pecunia.Progress.Bounds.{IsPercent}

-- `clamp` into an interval that is not empty lands in it.
clamp-IsProper :
    (v lo hi : Ratio) → IsProper v → IsProper lo → IsProper hi → IsProper (clamp v lo hi)
unfolding clamp
clamp-IsProper v lo hi a b c = ground arith

clamp-ge : (v lo hi : Ratio) → AtMost lo (clamp v lo hi)
unfolding clamp
clamp-ge v lo hi = ground arith

clamp-le : (v lo hi : Ratio) → AtMost lo hi → AtMost (clamp v lo hi) hi
unfolding clamp
clamp-le v lo hi h = ground arith

minus_nonneg : (x y : Ratio) → AtMost y x → AtMost (of_ℕ 0) (minus x y)
minus_nonneg x y h = omega (arith, diff_parts)

minus-IsProper : (x y : Ratio) → IsProper x → IsProper y → IsProper (minus x y)
minus-IsProper x y a b = grind arith

minus-le : (x y : Ratio) → AtMost (of_ℕ 0) y → AtMost (minus x y) x
minus-le x y h =
    let e =
      diff_parts (pos_part x.num * y.den + neg_part y.num * x.den)
        (neg_part x.num * y.den + pos_part y.num * x.den) in
    omega (arith, ap (λ (t : ℕ). t * x.den) e, mul-le-mul_right (x.den * x.den) h)

AtMost-trans : (x y z : Ratio) → IsProper y → AtMost x y → AtMost y z → AtMost x z
AtMost-trans x y z p a b =
    le_of_mul-le-mul_left {k = y.den}
      (omega (arith, mul-le-mul_right z.den a, mul-le-mul_right x.den b)) p

max_zero : (x : Ratio) → AtMost (of_ℕ 0) x → max_ratio (of_ℕ 0) x ≡ x
max_zero x h = ground arith

-- s + c + ((h - s) - c) = h
three_parts : (h s c : Ratio) → Equals (plus (plus s c) (minus (minus h s) c)) h
three_parts h s c = omega (
  arith,
  ap (λ (t : ℕ). t * (c.den * (s.den * c.den) * h.den))
      (diff_parts (pos_part h.num * s.den + neg_part s.num * h.den)
        (neg_part h.num * s.den + pos_part s.num * h.den)),
  ap (λ (t : ℕ). t * (s.den * c.den * h.den))
      (diff_parts (pos_part (minus h s).num * c.den + neg_part c.num * (minus h s).den)
        (neg_part (minus h s).num * c.den + pos_part c.num * (minus h s).den)),
  ap (λ (t : ℕ). t * (h.den * s.den * c.den * h.den))
      (diff_parts (pos_part s.num * c.den + pos_part c.num * s.den)
        (neg_part s.num * c.den + neg_part c.num * s.den)),
  ap (λ (t : ℕ). t * h.den)
      (diff_parts
        (pos_part (plus s c).num * (minus (minus h s) c).den
          + pos_part (minus (minus h s) c).num * (plus s c).den)
        (neg_part (plus s c).num * (minus (minus h s) c).den
          + neg_part (minus (minus h s) c).num * (plus s c).den)),
)

pub record FillsBar (g : SafeToSpendSegments) : Type 0 where
  pub spent_in : IsPercent g.spent_pct
  pub committed_in : IsPercent g.committed_pct
  pub free_in : IsPercent g.free_pct
  pub total : Equals (plus (plus g.spent_pct g.committed_pct) g.free_pct) (of_ℕ 100)

module _ (v w : Ratio) (pv : IsProper v) (pw : IsProper w) where
  abbrev spent : Ratio
  spent = clamp v (of_ℕ 0) (of_ℕ 100)

  abbrev committed : Ratio
  committed = clamp w (of_ℕ 0) (minus (of_ℕ 100) spent)

  spent-IsPercent : IsPercent spent
  spent-IsPercent = record {
    proper = clamp-IsProper v (of_ℕ 0) (of_ℕ 100) pv (omega arith) (omega arith);
    at_least = clamp-ge v (of_ℕ 0) (of_ℕ 100);
    at_most = clamp-le v (of_ℕ 0) (of_ℕ 100) (omega arith);
  }

  room_nonneg : AtMost (of_ℕ 0) (minus (of_ℕ 100) spent)
  room_nonneg = minus_nonneg (of_ℕ 100) spent spent-IsPercent.at_most

  room-IsProper : IsProper (minus (of_ℕ 100) spent)
  room-IsProper = minus-IsProper (of_ℕ 100) spent (omega arith) spent-IsPercent.proper

  committed-IsProper : IsProper committed
  committed-IsProper =
      clamp-IsProper w (of_ℕ 0) (minus (of_ℕ 100) spent) pw (omega arith) room-IsProper

  committed-le : AtMost committed (minus (of_ℕ 100) spent)
  committed-le = clamp-le w (of_ℕ 0) (minus (of_ℕ 100) spent) room_nonneg

  committed-IsPercent : IsPercent committed
  committed-IsPercent = record {
    proper = committed-IsProper;
    at_least = clamp-ge w (of_ℕ 0) (minus (of_ℕ 100) spent);
    at_most =
        AtMost-trans committed (minus (of_ℕ 100) spent) (of_ℕ 100) room-IsProper committed-le
          (minus-le (of_ℕ 100) spent spent-IsPercent.at_least);
  }

  abbrev free : Ratio
  free = minus (minus (of_ℕ 100) spent) committed

  free_nonneg : AtMost (of_ℕ 0) free
  free_nonneg = minus_nonneg (minus (of_ℕ 100) spent) committed committed-le

  free-IsPercent : IsPercent free
  free-IsPercent = record {
    proper = minus-IsProper (minus (of_ℕ 100) spent) committed room-IsProper committed-IsProper;
    at_least = free_nonneg;
    at_most =
        AtMost-trans free (minus (of_ℕ 100) spent) (of_ℕ 100) room-IsProper
          (minus-le (minus (of_ℕ 100) spent) committed committed-IsPercent.at_least)
          (minus-le (of_ℕ 100) spent spent-IsPercent.at_least);
  }

  segments-FillsBar :
      (m : Option Ratio)
      → FillsBar (record {
        spent_pct = spent;
        committed_pct = committed;
        free_pct = max_ratio (of_ℕ 0) free;
        budget_marker_pct = m;
      })
  segments-FillsBar m = record {
    spent_in = spent-IsPercent;
    committed_in = committed-IsPercent;
    free_in = rw (max_zero free free_nonneg) free-IsPercent;
    total = rw (max_zero free free_nonneg) (three_parts (of_ℕ 100) spent committed);
  }

-- For a positive month total the three segments are drawable percentages that add up to exactly
-- 100, whatever was spent, committed or budgeted.
pub safe_to_spend_segments-FillsBar :
    (input : SafeToSpendSegmentsInput)
    → pos 0 <ℤ input.expected_income_minor
    → FillsBar (safe_to_spend_segments input)
unfolding safe_to_spend_segments
safe_to_spend_segments-FillsBar input h =
    let e : leb_ℤ input.expected_income_minor (pos 0) ≡ false = ground arith in
    rw e (
      segments-FillsBar (percent_of input.spent_mtd_minor input.expected_income_minor)
        (percent_of input.committed_remaining_minor input.expected_income_minor) (omega arith)
        (omega arith) _)
