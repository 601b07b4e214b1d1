-- ===== src/Money/Amount/Tests.antt =====
-- Runs of the amount fields' conversions, and the theorems at concrete amounts.
use pecunia.Prelude.{◌≡◌, refl, ◌↔◌, ◌⊎◌, none, some, ◌∷◌, str_eq, if◌then◌else◌}
use pecunia.Prelude.Int.{pos, negsuc, pos_part, neg_ℤ, abs_ℤ}
use pecunia.Prelude.Text.{codes, show, trim, is_space}
use pecunia.Money.{Intl, minor_unit_factor, round_log10, digits_for_currency, get_digits}
use pecunia.Money.Amount.{
  to_minor, amount_to_minor, signed_amount_to_minor, minor_to_amount_input, to_amount_input,
  signed_to_minor,
}
use pecunia.Money.Amount.Shape.{Decimal}
use pecunia.Money.Amount.Rounding.{HalfUp, typed_value_of, typed_digits, amount_to_minor-HalfUp}
use pecunia.Money.Amount.RoundTrip.{amount_to_minor-minor_to_amount_input}
use pecunia.Money.Amount.Signed.{signed_amount_to_minor_double_minus}
use pecunia.Money.Amount.Errors.{IsBlank, amount_to_minor-eq-none}

abbrev intl : Intl
intl = record {
  minimum_fraction_digits = λ locale currency.
      if str_eq currency "JPY" then some 0 else if str_eq currency "BHD" then some 3 else some 2;
  format = λ locale currency amount. show (pos_part amount.num);
}

conversions : Unit {0}
unfolding amount_to_minor signed_amount_to_minor minor_to_amount_input minor_unit_factor round_log10
    digits_for_currency to_minor signed_to_minor to_amount_input
conversions = tt

usd_runs :
    (amount_to_minor intl (codes "84.99") "USD" ≡ some 8499)
    × (amount_to_minor intl (codes " 1.005 ") "USD" ≡ some 101)
    × (amount_to_minor intl (codes "12.5") "JPY" ≡ some 13)
    × (amount_to_minor intl (codes "1.2.3") "USD" ≡ none)
    × (signed_amount_to_minor intl (codes "-5") "BHD" ≡ some (negsuc 4999))
    × (minor_to_amount_input intl (negsuc 6) "USD" ≡ codes "0.07")
unfolding conversions neg_ℤ
usd_runs = (refl, refl, refl, refl, refl, refl)

-- A lone point is refused, a point after a minus sign is read as zero.
minus_point :
    (amount_to_minor intl (codes ".") "USD" ≡ none)
    × (amount_to_minor intl (codes "-.") "USD" ≡ some 0)
unfolding conversions
minus_point = (refl, refl)

round_trip_example :
    amount_to_minor intl (minor_to_amount_input intl (negsuc 123456) "BHD") "BHD"
    ≡ some (abs_ℤ (negsuc 123456))
round_trip_example = amount_to_minor-minor_to_amount_input intl (negsuc 123456) "BHD"

rounding_example :
    (t : Decimal (trim (codes "1.005"))) × HalfUp
      (typed_value_of t)
      (typed_digits t)
      (get_digits (intl.minimum_fraction_digits none "USD"))
      101
unfolding conversions
rounding_example = amount_to_minor-HalfUp intl (codes "1.005") "USD" 101 refl

double_minus_example :
    signed_amount_to_minor intl (b'-' ∷ b'-' ∷ codes "5") "USD" ≡ some (neg_ℤ (pos 500))
unfolding conversions is_space
double_minus_example =
    signed_amount_to_minor_double_minus intl "USD" (codes "5") 500 (refl, tt) refl refl

null_example :
    (amount_to_minor intl (codes "1,5") "USD" ≡ none)
    ↔ (IsBlank (trim (codes "1,5")) ⊎ ¬ Decimal (trim (codes "1,5")))
null_example = amount_to_minor-eq-none intl (codes "1,5") "USD"
