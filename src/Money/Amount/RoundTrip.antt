-- ===== src/Money/Amount/RoundTrip.antt =====
-- An amount that is printed for editing reads back as itself.
use pecunia.Prelude.{
  ℕ, ◌+◌, ◌-◌, ◌*◌, ◌^◌, ◌≤◌, ◌<◌, String, ◌≡◌, refl, sym, ap, ◌∙◌, inl, inr, false, Option, none,
  some, [], ◌∷◌, ◌++◌, reverse, append-nil, arith, length, take, drop, replicate, length-append,
  take-append-drop, length-take, length-drop, length-replicate, All, ◌==◌, Bool-cases,
}
use pecunia.Prelude.Int.{ℤ, abs_ℤ}
use native.Mathlib.Nat.{mul_comm, eq_of_mul-eq-mul_left}
use mathlib.Core.List.{reverse-append, reverse-reverse}
use pecunia.Prelude.Text.{Text, is_space, trim, trim_start, value, show, pad_start}
use pecunia.Prelude.Text.Decimal.{
  Digits, IsDigit, value-append, value_zeros, value-show, show-Digits, Digits-append,
  Digits-replicate, Digits-take, Digits-drop,
}
use pecunia.Money.{Intl, digits_for_currency}
use pecunia.Money.Amount.{
  rejected, to_minor, to_amount_input, amount_to_minor, minor_to_amount_input, point_at,
}
use pecunia.Money.Amount.Shape.{written, DigitsIn, digits_after, pattern-written}
use pecunia.Money.Amount.Pieces.{minor_of, minor_of_short, convert-written, pow_ten_pos}

abbrev pub IsInk : ℕ → Type 0
IsInk c = is_space c ≡ false

trim_start_ink : (s : Text) → All IsInk s → trim_start s ≡ s
unfolding trim_start
trim_start_ink [] h = refl
trim_start_ink (c ∷ s) h = ground (arith, h.0)

All-append : (s t : Text) → All IsInk s → All IsInk t → All IsInk (s ++ t)
All-append [] t h k = k
All-append (c ∷ s) t h k = (h.0, All-append s t h.1 k)

All-reverse : (s : Text) → All IsInk s → All IsInk (reverse s)
All-reverse [] h = tt
All-reverse (c ∷ s) h =
    rw (reverse-append (c ∷ []) s) (All-append (reverse s) (c ∷ []) (All-reverse s h.1) (h.0, tt))

pub trim_ink : (s : Text) → All IsInk s → trim s ≡ s
unfolding trim
trim_ink s h =
    rw (trim_start_ink s h, trim_start_ink (reverse s) (All-reverse s h)) (reverse-reverse s)

IsInk-of_digit : (c : ℕ) → IsDigit c → IsInk c
unfolding is_space
IsInk-of_digit c h = ground arith

pub IsInk-of_Digits : (s : Text) → Digits s → All IsInk s
IsInk-of_Digits [] h = tt
IsInk-of_Digits (c ∷ s) h = (IsInk-of_digit c h.0, IsInk-of_Digits s h.1)

written-IsInk : (w : Text) (f : Option Text) → Digits w → DigitsIn f → All IsInk (written false w f)
unfolding is_space
written-IsInk w none h k = All-append w [] (IsInk-of_Digits w h) tt
written-IsInk w (some f) h k =
    All-append w (b'.' ∷ f) (IsInk-of_Digits w h) (refl, IsInk-of_Digits f k)

accepted_written :
    (w : Text) (f : Option Text)
    → Digits w
    → DigitsIn f
    → 0 < length w
    → rejected (written false w f) ≡ false
unfolding rejected
accepted_written [] f h k lt = elim lt [ ]
accepted_written (c ∷ w) f h k lt = ground (arith, pattern-written false (c ∷ w) f h k, h.0)

-- An unsigned decimal with exactly d fraction digits reads as the number that its digits spell.
to_minor-written :
    (w : Text) (f : Option Text) (d : ℕ)
    → Digits w
    → DigitsIn f
    → 0 < length w
    → length (digits_after f) ≡ d
    → to_minor (written false w f) d ≡ some (value (w ++ digits_after f))
unfolding to_minor
to_minor-written w f d h k lt e =
    let exact : minor_of w (digits_after f) d ≡ value (w ++ digits_after f) =
      eq_of_mul-eq-mul_left (10 ^ d) (pow_ten_pos d) _ _ (
        mul_comm (10 ^ d) _
        ∙ ap (λ (n : ℕ). minor_of w (digits_after f) d * 10 ^ n) (sym e)
        ∙ minor_of_short w (digits_after f) d (omega arith)
        ∙ mul_comm _ (10 ^ d)) in
    rw (trim_ink _ (written-IsInk w f h k), accepted_written w f h k lt)
      (ap some (convert-written false w f d h k ∙ exact))

padded-Digits : (n : ℕ) (s : Text) → Digits s → Digits (pad_start n b'0' s)
padded-Digits n s h =
    Digits-append (replicate (n - length s) b'0') s (Digits-replicate (n - length s)) h

padded_length : (n : ℕ) (s : Text) → n ≤ length (pad_start n b'0' s)
padded_length n s = omega (
  arith,
  length-append (replicate (n - length s) b'0') s,
  length-replicate {A = ℕ} (n - length s) b'0',
)

padded_value : (n : ℕ) (s : Text) → value (pad_start n b'0' s) ≡ value s
padded_value n s =
    value-append (replicate (n - length s) b'0') s
    ∙ omega (arith, ap (λ (z : ℕ). z * 10 ^ length s) (value_zeros (n - length s)))

to_minor-point_at :
    (s : Text) (d : ℕ) → Digits s → d + 1 ≤ length s → to_minor (point_at s d) d ≡ some (value s)
unfolding point_at
to_minor-point_at s d h long = elim (Bool-cases (d == 0)) [
  | inl e ↦ rw e (
      ap (λ (t : Text). to_minor t d) (sym (append-nil s))
      ∙ to_minor-written' s none (append-nil s) h tt (omega arith) (ground arith))
  | inr e ↦ rw e (
      to_minor-written' (take (length s - d) s) (some (drop (length s - d) s))
        (take-append-drop (length s - d) s) (Digits-take (length s - d) s h)
        (Digits-drop (length s - d) s h) (omega (arith, length-take (length s - d) s))
        (omega (arith, length-drop (length s - d) s)))
]
  where
    to_minor-written' :
        (w : Text) (f : Option Text)
        → w ++ digits_after f ≡ s
        → Digits w
        → DigitsIn f
        → 0 < length w
        → length (digits_after f) ≡ d
        → to_minor (written false w f) d ≡ some (value s)
    to_minor-written' w f e a b c l =
        to_minor-written w f d a b c l ∙ ap (λ (t : Text). some (value t)) e

to_minor-to_amount_input :
    (minor : ℤ) (d : ℕ) → to_minor (to_amount_input minor d) d ≡ some (abs_ℤ minor)
unfolding to_amount_input
to_minor-to_amount_input minor d =
    to_minor-point_at _ d (padded-Digits (d + 1) (show (abs_ℤ minor)) (show-Digits (abs_ℤ minor)))
      (padded_length (d + 1) (show (abs_ℤ minor)))
    ∙ ap some (padded_value (d + 1) (show (abs_ℤ minor)) ∙ value-show (abs_ℤ minor))

-- For every currency: the text that prefills the field reads back as the amount's magnitude.
pub amount_to_minor-minor_to_amount_input :
    (intl : Intl) (minor : ℤ) (currency : String)
    → amount_to_minor intl (minor_to_amount_input intl minor currency) currency ≡ some (abs_ℤ minor)
unfolding amount_to_minor minor_to_amount_input
amount_to_minor-minor_to_amount_input intl minor currency =
    to_minor-to_amount_input minor (digits_for_currency intl currency)
