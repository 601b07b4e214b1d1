-- ===== src/Money.antt =====
-- Money in integer minor units (web/src/lib/money.ts). What `Intl.NumberFormat` knows of a
-- currency and a locale is a parameter.
pub mod Factor
pub mod Amount
use pecunia.Prelude.{ℕ, zero, suc, ◌^◌, ◌*◌, leb, if◌then◌else◌, String, Option, none, some}
use pecunia.Prelude.Int.{ℤ}
use pecunia.Prelude.Ratio.{Ratio, over}
use pecunia.Prelude.Text.{Text}

-- The platform's number formatter for a locale (`none` is the default one) and a currency.
pub record Intl : Type 0 where
  -- `resolvedOptions().minimumFractionDigits`
  pub minimum_fraction_digits : Option String → String → Option ℕ
  pub format : Option String → String → Ratio → Text

abbrev pub get_digits : Option ℕ → ℕ
get_digits none = 2
get_digits (some digits) = digits

pub factor_from_formatter : Intl → Option String → String → ℕ
factor_from_formatter intl locale currency =
    10 ^ get_digits (intl.minimum_fraction_digits locale currency)

pub minor_unit_factor : Intl → String → Option String → ℕ
unfolding factor_from_formatter
minor_unit_factor intl currency locale = factor_from_formatter intl locale currency

unfoldable pub format_money : Intl → ℤ → String → Option String → Text
unfolding factor_from_formatter
format_money intl minor currency locale =
    let factor = factor_from_formatter intl locale currency in
    intl.format locale currency (over minor factor)

log_steps : ℕ → ℕ → ℕ → ℕ
log_steps zero bound square = 0
log_steps (suc fuel) bound square =
    let more = log_steps fuel (bound * 100) square in if leb bound square then suc more else 0

-- `Math.round(Math.log10(n))`: how many of 10, 1000, 100000, … (the squares of the half powers of
-- ten) are at most n * n. There are fewer than n, so the fuel suffices.
pub round_log10 : ℕ → ℕ
unfolding log_steps
round_log10 n = log_steps n 10 (n * n)

-- `digitsForCurrency` of amount.ts
pub digits_for_currency : Intl → String → ℕ
unfolding round_log10 minor_unit_factor
digits_for_currency intl currency = round_log10 (minor_unit_factor intl currency none)
