-- ===== src/Prelude/Text/Decimal.antt =====
-- Printing a number and reading its digits.
use native.Mathlib.Nat.{pow-suc, mul-le-mul_right}
use pecunia.Prelude.Tests.{ltb, Bool-cases}
use pecunia.Prelude.Lists.{take, drop, length, All, replicate}
use pecunia.Prelude.Text.{Text, is_digit, value_from, value, show_from, show}
use Prim.Native.Nat.{ℕ, zero, suc, ◌+◌, ◌-◌, ◌*◌, ◌/◌, ◌%◌, ◌^◌, ◌≤◌, ◌<◌}
use mathlib.Core.Path.{◌≡◌, refl, ap, ◌∙◌, ◌≡⟨◌⟩◌, ◌∎}
use mathlib.Core.Logic.{inl, inr}
use mathlib.Core.Bool.{true}
use mathlib.Core.List.{[], ◌∷◌, ◌++◌}
use native.Mathlib.Omega.{arith}

abbrev pub IsDigit : ℕ → Type 0
IsDigit c = is_digit c ≡ true

abbrev pub Digits : Text → Type 0
Digits s = All IsDigit s

pub value_from_lem : (acc : ℕ) (s : Text) → value_from acc s ≡ acc * 10 ^ length s + value s
value_from_lem acc [] = omega arith
value_from_lem acc (c ∷ s) =
    value_from (acc * 10 + (c - b'0')) s
    ≡⟨ value_from_lem (acc * 10 + (c - b'0')) s ⟩ (acc * 10 + (c - b'0')) * 10 ^ length s + value s
    ≡⟨ omega (
      arith,
      pow-suc 10 (length s),
      ap (λ (t : ℕ). acc * t) (pow-suc 10 (length s)),
      value_from_lem (0 * 10 + (c - b'0')) s,
    ) ⟩
      acc * 10 ^ suc (length s) + value_from (0 * 10 + (c - b'0')) s ∎

value_from-append :
    (acc : ℕ) (s t : Text) → value_from acc (s ++ t) ≡ value_from (value_from acc s) t
value_from-append acc [] t = refl
value_from-append acc (c ∷ s) t = value_from-append (acc * 10 + (c - b'0')) s t

pub value-append : (s t : Text) → value (s ++ t) ≡ value s * 10 ^ length t + value t
value-append s t = value_from-append 0 s t ∙ value_from_lem (value s) t

digit_value : (acc n : ℕ) (s : Text) → value_from acc ((b'0' + n) ∷ s) ≡ value_from (acc * 10 + n) s
digit_value acc n s = ap (λ (d : ℕ). value_from (acc * 10 + d) s) (omega arith)

value-show_from : (fuel n : ℕ) (s : Text) → n < fuel → value (show_from fuel n s) ≡ value_from n s
unfolding show_from
value-show_from zero n s h = absurd (omega arith)
value-show_from (suc fuel) n s h = elim (Bool-cases (ltb n 10)) [
  | inl e ↦ rw e (digit_value 0 n s ∙ ap (λ (d : ℕ). value_from d s) (omega arith))
  | inr e ↦ rw e (
      value-show_from fuel (n / 10) ((b'0' + n % 10) ∷ s) (ground arith)
      ∙ digit_value (n / 10) (n % 10) s
      ∙ ap (λ (d : ℕ). value_from d s) (omega arith))
]

-- Reading the digits that `show` prints gives the number back.
pub value-show : (n : ℕ) → value (show n) ≡ n
unfolding show
value-show n = value-show_from (suc n) n [] (omega arith)

show_from-Digits : (fuel n : ℕ) (s : Text) → Digits s → Digits (show_from fuel n s)
unfolding show_from
show_from-Digits zero n s h = h
show_from-Digits (suc fuel) n s h =
    ground (arith, show_from-Digits fuel (n / 10) ((b'0' + n % 10) ∷ s))

pub show-Digits : (n : ℕ) → Digits (show n)
unfolding show
show-Digits n = show_from-Digits (suc n) n [] tt

pub Digits-append : (s t : Text) → Digits s → Digits t → Digits (s ++ t)
Digits-append [] t h k = k
Digits-append (c ∷ s) t h k = (h.0, Digits-append s t h.1 k)

pub Digits-replicate : (n : ℕ) → Digits (replicate n b'0')
Digits-replicate zero = tt
Digits-replicate (suc n) = (refl, Digits-replicate n)

pub Digits-take : (n : ℕ) (s : Text) → Digits s → Digits (take n s)
Digits-take zero s h = tt
Digits-take (suc n) [] h = tt
Digits-take (suc n) (c ∷ s) h = (h.0, Digits-take n s h.1)

pub Digits-drop : (n : ℕ) (s : Text) → Digits s → Digits (drop n s)
Digits-drop zero s h = h
Digits-drop (suc n) [] h = tt
Digits-drop (suc n) (c ∷ s) h = Digits-drop n s h.1

pub value_zeros : (n : ℕ) → value (replicate n b'0') ≡ 0
value_zeros zero = refl
value_zeros (suc n) = value_zeros n

-- A string of n digits is worth less than 10 ^ n.
pub value-lt : (s : Text) → Digits s → value s < 10 ^ length s
value-lt [] h = omega arith
value-lt (c ∷ s) h =
    let e = value_from_lem (0 * 10 + (c - b'0')) s in
    let d : c - b'0' ≤ 9 = ground arith in
    let lt : value s < 10 ^ length s = value-lt s h.1 in
    let m = mul-le-mul_right (10 ^ length s) d in
    rw (e, pow-suc 10 (length s)) (omega (arith, lt, m))
