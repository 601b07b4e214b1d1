-- ===== src/Forms/Schedule/Interval.antt =====
-- The interval of a schedule: the number that the field's text starts with, and at least one.
use pecunia.Prelude.{
  ℕ, zero, suc, ◌+◌, ◌≡◌, refl, ap, inl, inr, true, false, Option, none, some, [], ◌∷◌, arith, leb,
  ◌==◌, Bool-cases,
}
use pecunia.Prelude.Int.{ℤ, pos, negsuc, abs_ℤ, ◌≤ℤ◌, ltb_ℤ, leb_ℤ}
use mathlib.Core.Option
use pecunia.Prelude.Text.{Text, is_digit, is_space, value, show, trim_start}
use pecunia.Prelude.Text.Decimal.{Digits, show-Digits, value-show}
use pecunia.Forms.Schedule.{
  digits_front, number_of, parse_int, at_least_one, interval_count, text_of,
}

above : (n : ℤ) → leb_ℤ n (pos 1) ≡ false → pos 1 ≤ℤ n
above (pos n) h = ground arith
above (negsuc n) h = ground arith

at_least_one_positive : (o : Option ℤ) → pos 1 ≤ℤ at_least_one o
at_least_one_positive none = omega arith
at_least_one_positive (some n) = elim (Bool-cases (leb_ℤ n (pos 1))) [
  | inl e ↦ rw e (omega arith)
  | inr e ↦ rw e (above n e)
]

-- The interval that is sent is at least one, whatever the field's text is.
pub interval_count_positive : (interval : Text) → pos 1 ≤ℤ interval_count interval
unfolding interval_count
interval_count_positive interval = at_least_one_positive (parse_int interval)

digits_front_all : (t : Text) → Digits t → digits_front t ≡ t
digits_front_all [] h = refl
digits_front_all (c ∷ t) h = rw (h.0, digits_front_all t h.1) refl

-- A digit is no white space and no sign.
digit_plain :
    (c : ℕ)
    → is_digit c ≡ true
    → (is_space c ≡ false) × (((c == b'-') ≡ false) × ((c == b'+') ≡ false))
unfolding is_space
digit_plain c h = (ground (arith, h), (ground (arith, h), ground (arith, h)))

parse_int-Digits : (t : Text) → Digits t → parse_int t ≡ Option.map pos (number_of t)
unfolding parse_int trim_start
parse_int-Digits [] h = refl
parse_int-Digits (c ∷ t) h =
    let p = digit_plain c h.0 in rw (p.0, p.1.0, p.1.1, h.0, digits_front_all t h.1) refl

number_of_value : (t : Text) (n : ℕ) → value t ≡ suc n → number_of t ≡ some (suc n)
number_of_value [] n h = absurd (omega (arith, h))
number_of_value (c ∷ t) n h = ap some h

shown_positive : (n : ℕ) → text_of (pos (suc n)) ≡ show (suc n)
shown_positive n = rw (not_below n, same n) refl
  where
    not_below : (m : ℕ) → ltb_ℤ (pos (suc m)) (pos 0) ≡ false
    not_below m = ground arith

    same : (m : ℕ) → abs_ℤ (pos (suc m)) ≡ suc m
    same m = omega arith

-- An interval that is at least one comes back from its text.
pub interval_count-text_of : (n : ℕ) → interval_count (text_of (pos (suc n))) ≡ pos (suc n)
unfolding interval_count
interval_count-text_of n =
    rw
      (
        shown_positive n,
        parse_int-Digits (show (suc n)) (show-Digits (suc n)),
        number_of_value (show (suc n)) n (value-show (suc n)),
      )
      (at_least n)
  where
    greater : (m : ℕ) → leb (suc (suc m) + 0) 1 ≡ false
    greater m = ground arith

    at_least : (m : ℕ) → at_least_one (some (pos (suc m))) ≡ pos (suc m)
    at_least zero = refl
    at_least (suc m) = rw (greater m) refl
