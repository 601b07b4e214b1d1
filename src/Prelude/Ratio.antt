-- ===== src/Prelude/Ratio.antt =====
-- Quotients of integers, for the places where the program divides: exact fractions, compared by
-- cross-multiplication. JavaScript's rounding of a quotient to a double is not modelled.
use pecunia.Prelude.Int.{ℤ, pos, negsuc, pos_part, neg_part, sub_ℕ}
use pecunia.Prelude.Tests.{leb, if◌then◌else◌}
use Prim.Native.Nat.{ℕ, suc, ◌+◌, ◌*◌, ◌≤◌, ◌<◌}
use mathlib.Core.Path.{◌≡◌, ap}
use mathlib.Core.Bool.{Bool}
use native.Mathlib.Omega.{arith}

-- The number num / den, where den is positive.
pub record Ratio : Type 0 where
  pub num : ℤ
  pub den : ℕ

abbrev pub over : ℤ → ℕ → Ratio
over a b = record { num = a; den = b }

abbrev pub of_ℕ : ℕ → Ratio
of_ℕ n = over (pos n) 1

abbrev times : ℤ → ℕ → ℤ
times (pos a) n = pos (a * n)
times (negsuc a) n = sub_ℕ 0 (suc a * n)

-- `q * n`
abbrev pub scale : Ratio → ℕ → Ratio
scale q n = over (times q.num n) q.den

-- `q / n`
abbrev pub divide : Ratio → ℕ → Ratio
divide q n = over q.num (q.den * n)

-- a - b, shut: `diff_parts` says what it is.
unfoldable pub diff : ℕ → ℕ → ℤ
diff a b = sub_ℕ a b

pub diff_parts : (a b : ℕ) → pos_part (diff a b) + b ≡ neg_part (diff a b) + a
unfolding diff
diff_parts a b = ground arith

abbrev pub minus : Ratio → Ratio → Ratio
minus x y =
    over
      (diff (pos_part x.num * y.den + neg_part y.num * x.den)
        (neg_part x.num * y.den + pos_part y.num * x.den))
      (x.den * y.den)

abbrev pub plus : Ratio → Ratio → Ratio
plus x y =
    over
      (diff (pos_part x.num * y.den + pos_part y.num * x.den)
        (neg_part x.num * y.den + neg_part y.num * x.den))
      (x.den * y.den)

-- The two sides of a cross-multiplied comparison of x with y.
abbrev left_side : Ratio → Ratio → ℕ
left_side x y = pos_part x.num * y.den + neg_part y.num * x.den

abbrev right_side : Ratio → Ratio → ℕ
right_side x y = pos_part y.num * x.den + neg_part x.num * y.den

abbrev pub AtMost : Ratio → Ratio → Type 0
AtMost x y = left_side x y ≤ right_side x y

abbrev pub Equals : Ratio → Ratio → Type 0
Equals x y = left_side x y ≡ right_side x y

sub_parts : (a b : ℕ) → pos_part (sub_ℕ a b) + b ≡ neg_part (sub_ℕ a b) + a
sub_parts a b = ground arith

pub divide-scale :
    (x : Ratio) (a : ℤ) (b : ℕ) → Equals x (scale (over a b) 100) → Equals (divide x 100) (over a b)
divide-scale x (pos a) b h = omega arith
divide-scale x (negsuc a) b h =
    omega (arith, h, ap (λ (t : ℕ). t * x.den) (sub_parts 0 (suc a * 100)))

abbrev pub leb_ratio : Ratio → Ratio → Bool
leb_ratio x y = leb (left_side x y) (right_side x y)

-- `Math.min` and `Math.max` of two numbers
abbrev pub min_ratio : Ratio → Ratio → Ratio
min_ratio x y = if leb_ratio x y then x else y

abbrev pub max_ratio : Ratio → Ratio → Ratio
max_ratio x y = if leb_ratio x y then y else x

abbrev pub IsProper : Ratio → Type 0
IsProper x = 0 < x.den
