-- ===== src/Quantity.antt =====
-- The quantity of a holding (web/src/features/portfolio/quantity.ts): `parseQuantity`. A number is
-- finite as a double when it is less than 2 ^ 1024 - 2 ^ 970, which rounds to infinity.
pub mod Accepted
use pecunia.Prelude.{
  Bool, false, Option, none, some, [], ◌∷◌, if◌then◌else◌, length, leb, ltb, ◌==◌, String, ◌&&◌,
  ◌||◌, not, ◌^◌, ◌-◌,
}
use pecunia.Prelude.Text.{Text, codes, split_on, value}
use pecunia.Money.Amount.{is_empty, skip_digits, skip_dot, fraction_of}
use pecunia.Forms.{trimmed}

-- `\d{0,8}$`
abbrev pub short_digits : Text → Bool
short_digits t = is_empty (skip_digits t) && leb (length t) 8

-- `QUANTITY_PATTERN`, /^\d*\.?\d{0,8}$/
abbrev pub quantity_pattern : Text → Bool
quantity_pattern t = short_digits (skip_dot (skip_digits t))

abbrev pub is_point : Text → Bool
is_point [] = false
is_point (c ∷ t) = c == b'.' && is_empty t

abbrev pub is_finite : Text → Bool
is_finite whole = ltb (value whole) (2 ^ 1024 - 2 ^ 970)

abbrev pub is_positive : Text → Text → Bool
is_positive whole fraction = not (value whole == 0) || not (value fraction == 0)

-- What `parseQuantity` asks of a trimmed text.
unfoldable pub accepts : Text → Bool
accepts t =
    let parts = split_on b'.' t in
    not (is_empty t)
    && (not (is_point t)
        && (quantity_pattern t && (is_finite parts.0 && is_positive parts.0 (fraction_of parts))))

unfoldable pub parse_quantity : String → Option String
parse_quantity input = let t = trimmed input in if accepts (codes t) then some t else none
