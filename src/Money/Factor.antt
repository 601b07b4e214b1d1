-- ===== src/Money/Factor.antt =====
-- The number of minor digits that a currency's factor stands for.
use native.Mathlib.Nat.{pow-suc, pow-zero, mul-pos, mul-le-mul_left}
use pecunia.Prelude.{
  ℕ, zero, suc, ◌*◌, ◌^◌, ◌<◌, ◌≡◌, refl, ap, ap₂, ◌∙◌, true, false, leb, arith, none, String, ◌≤◌,
}
use pecunia.Money.{Intl, get_digits, minor_unit_factor, log_steps, round_log10, digits_for_currency}

pow_pos : (b d : ℕ) → 0 < b → 0 < b ^ d
pow_pos b zero h = rw (pow-zero b) (omega arith)
pow_pos b (suc d) h = rw (pow-suc b d) (mul-pos (pow_pos b d h) h)

-- The bound starts at 10 * b and the square is b * 100 ^ d: the loop makes d rounds.
log_steps_lem : (d fuel b : ℕ) → 0 < b → d < fuel → log_steps fuel (10 * b) (b * 100 ^ d) ≡ d
unfolding log_steps
log_steps_lem d zero b pos h = absurd (omega arith)
log_steps_lem zero (suc fuel) b pos h =
    let e : leb (10 * b) (b * 100 ^ zero) ≡ false = ground arith in rw e
log_steps_lem (suc d) (suc fuel) b pos h =
    let same : b * 100 ^ suc d ≡ b * 100 * 100 ^ d =
      omega (arith, ap (λ (t : ℕ). b * t) (pow-suc 100 d)) in
    let big : b * 1 ≤ b * 100 ^ d = mul-le-mul_left b (pow_pos 100 d (omega arith)) in
    let e : leb (10 * b) (b * 100 ^ suc d) ≡ true = rw same (ground (arith, big)) in
    let start : 10 * b * 100 ≡ 10 * (b * 100) = omega arith in
    rw e (
      ap suc (
        ap₂ (log_steps fuel) start same
        ∙ log_steps_lem d fuel (b * 100) (omega arith) (omega arith)))

square_pow : (d : ℕ) → 10 ^ d * 10 ^ d ≡ 1 * 100 ^ d
square_pow zero = refl
square_pow (suc d) =
    rw (pow-suc 10 d, pow-suc 100 d) (omega (arith, ap (λ (t : ℕ). t * 100) (square_pow d)))

exponent-lt : (d : ℕ) → d < 10 ^ d
exponent-lt zero = omega arith
exponent-lt (suc d) = rw (pow-suc 10 d) (omega (arith, exponent-lt d))

round_log10-pow : (d : ℕ) → round_log10 (10 ^ d) ≡ d
unfolding round_log10
round_log10-pow d =
    ap (log_steps (10 ^ d) 10) (square_pow d)
    ∙ log_steps_lem d (10 ^ d) 1 (omega arith) (exponent-lt d)

-- The digit count that `amountToMinor` works with is the one that the platform reports for the
-- currency (2, if it reports none): `Math.round(Math.log10(10 ** digits))` loses nothing.
pub digits_for_currency_lem :
    (intl : Intl) (currency : String)
    → digits_for_currency intl currency ≡ get_digits (intl.minimum_fraction_digits none currency)
unfolding digits_for_currency minor_unit_factor
digits_for_currency_lem intl currency = round_log10-pow _
