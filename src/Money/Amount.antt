-- ===== src/Money/Amount.antt =====
-- The amount fields' conversions between typed decimals and minor units
-- (web/src/lib/amount.ts). Text is a list of code units; `BigInt` is exact, and so is
-- `Number(minor)` up to 2 ^ 53.
pub mod Shape
pub mod Pieces
pub mod Rounding
pub mod RoundTrip
pub mod Signed
pub mod Errors
mod Tests
use pecunia.Prelude.{
  ℕ, ◌+◌, ◌-◌, Bool, true, false, Option, none, some, List, [], ◌∷◌, ◌++◌, ◌||◌, not, if◌then◌else◌,
  length, take, drop, get_elem?, leb, ◌==◌, String, ◌&&◌,
}
use mathlib.Core.Option
use pecunia.Prelude.Int.{ℤ, pos, neg_ℤ, abs_ℤ}
use pecunia.Prelude.Text.{Text, is_digit, trim, split_on, pad_start, pad_end, value, show}
use pecunia.Money.{Intl, digits_for_currency}

abbrev pub is_empty : Text → Bool
is_empty [] = true
is_empty (_ ∷ _) = false

abbrev pub starts_with_minus : Text → Bool
starts_with_minus [] = false
starts_with_minus (c ∷ s) = c == b'-'

-- `s.slice(1)`
abbrev pub tail_of : Text → Text
tail_of [] = []
tail_of (c ∷ s) = s

-- `\d*`
abbrev pub skip_digits : Text → Text
skip_digits [] = []
skip_digits (c ∷ s) = let rest = skip_digits s in if is_digit c then rest else c ∷ s

-- `\.?`
abbrev pub skip_dot : Text → Text
skip_dot [] = []
skip_dot (c ∷ s) = if c == b'.' then s else c ∷ s

-- `-?`
abbrev pub skip_minus : Text → Text
skip_minus s = if starts_with_minus s then tail_of s else s

-- `DECIMAL_INPUT_PATTERN`, /^-?\d*\.?\d*$/
pub decimal_input_pattern : Text → Bool
decimal_input_pattern s = is_empty (skip_digits (skip_dot (skip_digits (skip_minus s))))

abbrev is_char : ℕ → Text → Bool
is_char d [] = false
is_char d (c ∷ s) = c == d && is_empty s

-- The `null` case of `amountToMinor`, for a trimmed input.
pub rejected : Text → Bool
unfolding decimal_input_pattern
rejected trimmed =
    is_empty trimmed
    || is_char b'-' trimmed
    || is_char b'.' trimmed
    || not (decimal_input_pattern trimmed)

-- `unsigned.split(".")[1]`, "" if there is none
abbrev pub fraction_of : Text × List Text → Text
fraction_of (whole, []) = []
fraction_of (whole, fraction ∷ others) = fraction

-- `wholePart || "0"`
abbrev pub or_zero : Text → Text
or_zero [] = b'0' ∷ []
or_zero (c ∷ s) = c ∷ s

abbrev pub rounds_up : Option ℕ → Bool
rounds_up none = false
rounds_up (some rounding_digit) = leb 5 (rounding_digit - b'0')

-- The conversion of an accepted input.
pub convert : Text → ℕ → ℕ
unfolding split_on
convert trimmed digits =
    let unsigned = skip_minus trimmed in
    let parts = split_on b'.' unsigned in
    let fraction = fraction_of parts in
    let minor = value (or_zero parts.0 ++ take digits (pad_end digits b'0' fraction)) in
    if rounds_up (get_elem? fraction digits) then minor + 1 else minor

pub to_minor : Text → ℕ → Option ℕ
unfolding rejected convert trim
to_minor input digits =
    let trimmed = trim input in if rejected trimmed then none else some (convert trimmed digits)

pub amount_to_minor : Intl → Text → String → Option ℕ
unfolding to_minor digits_for_currency
amount_to_minor intl input currency = to_minor input (digits_for_currency intl currency)

abbrev pub with_sign : Bool → ℕ → ℤ
with_sign negative magnitude = if negative then neg_ℤ (pos magnitude) else pos magnitude

pub signed_to_minor : Text → ℕ → Option ℤ
signed_to_minor input digits =
    let trimmed = trim input in
    let negative = starts_with_minus trimmed in
    Option.map (with_sign negative)
      (to_minor (if negative then tail_of trimmed else trimmed) digits)

pub signed_amount_to_minor : Intl → Text → String → Option ℤ
unfolding signed_to_minor digits_for_currency
signed_amount_to_minor intl input currency =
    signed_to_minor input (digits_for_currency intl currency)

-- A point before the last `digits` code units.
pub point_at : Text → ℕ → Text
point_at abs_minor digits =
    let split_at = length abs_minor - digits in
    if digits == 0 then abs_minor else take split_at abs_minor ++ b'.' ∷ drop split_at abs_minor

-- `minorToAmountInput` of an integer, for which `Math.trunc` does nothing.
pub to_amount_input : ℤ → ℕ → Text
unfolding show point_at
to_amount_input minor digits = point_at (pad_start (digits + 1) b'0' (show (abs_ℤ minor))) digits

pub minor_to_amount_input : Intl → ℤ → String → Text
unfolding to_amount_input digits_for_currency
minor_to_amount_input intl minor currency =
    to_amount_input minor (digits_for_currency intl currency)
