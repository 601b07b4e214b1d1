-- ===== src/Money/Amount/Rounding.antt =====
-- `amountToMinor` rounds the typed decimal half up to the currency's minor unit, exactly.
use pecunia.Prelude.{
  suc, ℕ, ◌+◌, ◌-◌, ◌*◌, ◌^◌, ◌≤◌, ◌<◌, ◌≡◌, ap, ◌∙◌, inl, inr, none, some, [], ◌∷◌, ◌++◌, arith,
  length, take, replicate, length-append, leb, if◌then◌else◌, Bool-cases, String,
}
use native.Mathlib.Nat.{pow-suc, mul-le-mul_left, mul-le-mul_right, mul_comm}
use mathlib.Core.Path.{subst, sym}
use pecunia.Money.Amount.Shape.{pattern-Decimal, DigitsIn, Decimal, digits_after}
use native.Mathlib.Decide.{dec_le}
use pecunia.Prelude.Text.{Text, value}
use pecunia.Prelude.Text.Decimal.{Digits, IsDigit, value-append, value-lt, value_from_lem}
use pecunia.Money.{Intl, get_digits, digits_for_currency}
use pecunia.Money.Factor.{digits_for_currency_lem}
use pecunia.Money.Amount.{
  amount_to_minor, or_zero, length, take, ◌∷◌, none, some, [], convert, to_minor, Option, rejected,
  trim, decimal_input_pattern, true, false,
}
use pecunia.Money.Amount.Pieces.{
  pow_ten_add, pow_ten_pos, cut, take-append_front, value-or_zero, minor_of, minor_of_short,
  convert-written,
}

-- r is n / 10 ^ k in units of 1 / 10 ^ d, rounded half up.
pub record HalfUp (n k d r : ℕ) : Type 0 where
  pub at_least : 2 * (r * 10 ^ k) ≤ 2 * (n * 10 ^ d) + 10 ^ k
  pub below : 2 * (n * 10 ^ d) + 10 ^ k < 2 * (r * 10 ^ k) + 2 * 10 ^ k

-- The rounding digit decides on its own: what follows it is worth less than one of it.
round_up-lt :
    (base x b m : ℕ)
    → 5 ≤ x
    → x ≤ 9
    → b < m
    → (2 * ((base + 1) * (10 * m)) ≤ 2 * (base * (10 * m) + x * m + b) + 10 * m)
      × (2 * (base * (10 * m) + x * m + b) + 10 * m < 2 * ((base + 1) * (10 * m)) + 2 * (10 * m))
round_up-lt base x b m lo hi h =
    let l = mul-le-mul_right m lo in
    let u = mul-le-mul_right m hi in (omega (arith, l), omega (arith, u))

round_down-lt :
    (base x b m : ℕ)
    → x ≤ 4
    → b < m
    → (2 * (base * (10 * m)) ≤ 2 * (base * (10 * m) + x * m + b) + 10 * m)
      × (2 * (base * (10 * m) + x * m + b) + 10 * m < 2 * (base * (10 * m)) + 2 * (10 * m))
round_down-lt base x b m hi h = let u = mul-le-mul_right m hi in (omega arith, omega (arith, u))

-- Bounds in units of the last digit typed give bounds in units of 1 / 10 ^ d.
scaled-HalfUp :
    (n k d r m : ℕ)
    → 10 ^ k ≡ 10 ^ d * (10 * m)
    → (2 * (r * (10 * m)) ≤ 2 * n + 10 * m)
    → (2 * n + 10 * m < 2 * (r * (10 * m)) + 2 * (10 * m))
    → HalfUp n k d r
scaled-HalfUp n k d r m e lo hi = record {
  at_least = omega (arith, mul-le-mul_left (10 ^ d) lo, ap (λ (t : ℕ). r * t) e, e);
  below = omega (arith, mul-le-mul_left (10 ^ d) hi, ap (λ (t : ℕ). r * t) e, e, pow_ten_pos d);
}

module _ (w a b : Text) (x d : ℕ) (la : length a ≡ d) (hx : IsDigit x) (hb : Digits b) where
  abbrev base : ℕ
  base = value w * 10 ^ d + value a

  abbrev digit : ℕ
  digit = x - b'0'

  abbrev unit : ℕ
  unit = 10 ^ length b

  abbrev typed : ℕ
  typed = value (w ++ (a ++ x ∷ b))

  tail_value : value (x ∷ b) ≡ digit * unit + value b
  tail_value = value_from_lem (0 * 10 + digit) b ∙ omega arith

  long_lem : length (a ++ x ∷ b) ≡ d + suc (length b)
  long_lem = length-append a (x ∷ b) ∙ omega (arith, la)

  typed-value : typed ≡ base * (10 * unit) + digit * unit + value b
  typed-value =
      value-append w (a ++ x ∷ b)
      ∙ rw
          (
            long_lem,
            pow_ten_add d (suc (length b)),
            pow-suc 10 (length b),
            value-append a (x ∷ b),
            tail_value,
          )
          (rw (pow-suc 10 (length b)) (omega arith))

  scale_lem : 10 ^ length (a ++ x ∷ b) ≡ 10 ^ d * (10 * unit)
  scale_lem =
      ap (λ (n : ℕ). 10 ^ n) long_lem
      ∙ pow_ten_add d (suc (length b))
      ∙ ap (λ (t : ℕ). 10 ^ d * t) (pow-suc 10 (length b) ∙ mul_comm unit 10)

  b-lt : value b < unit
  b-lt = value-lt b hb

  long-HalfUp : HalfUp typed (length (a ++ x ∷ b)) d (if leb 5 digit then base + 1 else base)
  long-HalfUp = elim (Bool-cases (leb 5 digit)) [
    | inl e ↦ rw e (
        let (lo, hi) =
          round_up-lt base digit (value b) unit (ground arith) (ground (arith, hx)) b-lt in
        scaled-HalfUp typed _ d (base + 1) unit scale_lem (rw typed-value lo) (rw typed-value hi))
    | inr e ↦ rw e (
        let (lo, hi) = round_down-lt base digit (value b) unit (ground arith) b-lt in
        scaled-HalfUp typed _ d base unit scale_lem (rw typed-value lo) (rw typed-value hi))
  ]

Digits-suffix : (a b : Text) (x : ℕ) → Digits (a ++ x ∷ b) → IsDigit x × Digits b
Digits-suffix [] b x h = h
Digits-suffix (c ∷ a) b x h = Digits-suffix a b x h.1

minor_of_long :
    (w f : Text) (d : ℕ)
    → Digits f
    → d < length f
    → HalfUp (value (w ++ f)) (length f) d (minor_of w f d)
minor_of_long w f d h lt =
    let c = cut f d lt in
    let (hx, hb) = Digits-suffix c.front c.back c.here (subst (λ g. Digits g) c.joined h) in
    let front : take d (f ++ replicate (d - length f) b'0') ≡ c.front =
      take-append_front f _ d (omega arith) ∙ c.front_is in
    let total : value (or_zero w ++ c.front) ≡ value w * 10 ^ d + value c.front =
      value-or_zero w c.front ∙ ap (λ (n : ℕ). value w * 10 ^ n + value c.front) c.front_long in
    rw (c.here_is, front, total)
      (subst
        (λ g. HalfUp (value (w ++ g)) (length g) d (
          if leb 5 (c.here - b'0')
          then value w * 10 ^ d + value c.front + 1
          else value w * 10 ^ d + value c.front))
        (sym c.joined) (long-HalfUp w c.front c.back c.here d c.front_long hx hb))

exact-HalfUp : (n k d r : ℕ) → r * 10 ^ k ≡ n * 10 ^ d → HalfUp n k d r
exact-HalfUp n k d r e = record { at_least = omega arith; below = omega (arith, pow_ten_pos k) }

minor_of-HalfUp :
    (w f : Text) (d : ℕ) → Digits f → HalfUp (value (w ++ f)) (length f) d (minor_of w f d)
minor_of-HalfUp w f d h = elim (dec_le (length f) d) [
  | yes p ↦ exact-HalfUp (value (w ++ f)) (length f) d (minor_of w f d) (minor_of_short w f d p)
  | no p ↦ minor_of_long w f d h (omega arith)
]

digits_after-Digits : (f : Option Text) → DigitsIn f → Digits (digits_after f)
digits_after-Digits none h = tt
digits_after-Digits (some f) h = h

abbrev pub typed_value_of : {t : Text} → Decimal t → ℕ
typed_value_of t = value (t.whole ++ digits_after t.fraction)

abbrev pub typed_digits : {t : Text} → Decimal t → ℕ
typed_digits t = length (digits_after t.fraction)

convert-HalfUp :
    (t : Text) (c : Decimal t) (d : ℕ) → HalfUp (typed_value_of c) (typed_digits c) d (convert t d)
convert-HalfUp t c d =
    rw
      (ap (λ s. convert s d) c.spelled
        ∙ convert-written c.negative c.whole c.fraction d c.whole_digits c.fraction_digits)
      (minor_of-HalfUp c.whole (digits_after c.fraction) d
        (digits_after-Digits c.fraction c.fraction_digits))

accepted : (t : Text) → rejected t ≡ false → decimal_input_pattern t ≡ true
unfolding rejected
accepted t h = ground arith

pub to_minor-eq-some :
    (input : Text) (d r : ℕ)
    → to_minor input d ≡ some r
    → (rejected (trim input) ≡ false) × (convert (trim input) d ≡ r)
unfolding to_minor
to_minor-eq-some input d r e = ground arith

to_minor-HalfUp :
    (input : Text) (digits r : ℕ)
    → to_minor input digits ≡ some r
    → (t : Decimal (trim input)) × HalfUp (typed_value_of t) (typed_digits t) digits r
to_minor-HalfUp input digits r e =
    let (ok, result) = to_minor-eq-some input digits r e in
    let t = pattern-Decimal (trim input) (accepted (trim input) ok) in
    (
      t,
      subst (HalfUp (typed_value_of t) (typed_digits t) digits) result
          (convert-HalfUp (trim input) t digits),
    )

-- An input that `amountToMinor` accepts is, once trimmed, a decimal, and the result is its
-- magnitude rounded half up to as many fraction digits as the platform reports for the currency,
-- however many digits are typed.
pub amount_to_minor-HalfUp :
    (intl : Intl) (input : Text) (currency : String) (r : ℕ)
    → amount_to_minor intl input currency ≡ some r
    → (t : Decimal (trim input)) × HalfUp
        (typed_value_of t)
        (typed_digits t)
        (get_digits (intl.minimum_fraction_digits none currency))
        r
unfolding amount_to_minor
amount_to_minor-HalfUp intl input currency r e =
    rw (← digits_for_currency_lem intl currency)
      (to_minor-HalfUp input (digits_for_currency intl currency) r e)
