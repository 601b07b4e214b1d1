-- ===== src/Money/Amount/Errors.antt =====
-- When `amountToMinor` has nothing to convert.
use pecunia.Prelude.{
  true≢false, ℕ, String, ◌≡◌, refl, sym, ◌∙◌, ◌↔◌, ◌⊎◌, inl, inr, true, false, none, [], ◌∷◌, arith,
  Bool-cases,
}
use pecunia.Prelude.Text.{Text, trim}
use pecunia.Money.{Intl, digits_for_currency}
use pecunia.Money.Amount.{rejected, to_minor, amount_to_minor, decimal_input_pattern}
use pecunia.Money.Amount.Shape.{Decimal, pattern-Decimal, pattern-written}

-- Nothing, a lone minus sign or a lone point.
abbrev pub IsBlank : Text → Type 0
IsBlank t = (t ≡ []) ⊎ ((t ≡ b'-' ∷ []) ⊎ (t ≡ b'.' ∷ []))

Decimal-pattern : (t : Text) → Decimal t → decimal_input_pattern t ≡ true
Decimal-pattern t d =
    rw d.spelled (pattern-written d.negative d.whole d.fraction d.whole_digits d.fraction_digits)

rejected-cases : (t : Text) → rejected t ≡ true → IsBlank t ⊎ (decimal_input_pattern t ≡ false)
unfolding rejected
rejected-cases [] h = inl (inl refl)
rejected-cases (c ∷ []) h = ground arith
rejected-cases (c ∷ e ∷ s) h = inr (ground arith)

rejected_blank : (t : Text) → IsBlank t → rejected t ≡ true
unfolding rejected
rejected_blank t (inl e) = rw e
rejected_blank t (inr (inl e)) = rw e
rejected_blank t (inr (inr e)) = rw e

rejected_other : (t : Text) → decimal_input_pattern t ≡ false → rejected t ≡ true
unfolding rejected
rejected_other t h = ground arith

to_minor-eq-none :
    (input : Text) (d : ℕ) → (to_minor input d ≡ none) ↔ (rejected (trim input) ≡ true)
unfolding to_minor
to_minor-eq-none input d = (λ e. ground arith, λ e. ground arith)

no_Decimal : (t : Text) → ¬ Decimal t → decimal_input_pattern t ≡ false
no_Decimal t h = elim (Bool-cases (decimal_input_pattern t)) [
  | inl e ↦ absurd (h (pattern-Decimal t e))
  | inr e ↦ e
]

-- `amountToMinor` returns null exactly for an input that, once trimmed, is empty, a lone minus
-- sign, a lone point or no decimal.
pub amount_to_minor-eq-none :
    (intl : Intl) (input : Text) (currency : String)
    → (amount_to_minor intl input currency ≡ none) ↔ (IsBlank (trim input) ⊎ ¬ Decimal (trim input))
unfolding amount_to_minor
amount_to_minor-eq-none intl input currency = (
  λ e. to_cases (rejected-cases (trim input) ((to_minor-eq-none input d).0 e)),
  λ c. (to_minor-eq-none input d).1 (of_cases c),
)
  where
    d : ℕ
    d = digits_for_currency intl currency

    to_cases :
        IsBlank (trim input) ⊎ (decimal_input_pattern (trim input) ≡ false)
        → IsBlank (trim input) ⊎ ¬ Decimal (trim input)
    to_cases (inl b) = inl b
    to_cases (inr f) = inr (λ c. absurd (true≢false (sym (Decimal-pattern (trim input) c) ∙ f)))

    of_cases : IsBlank (trim input) ⊎ ¬ Decimal (trim input) → rejected (trim input) ≡ true
    of_cases (inl b) = rejected_blank (trim input) b
    of_cases (inr f) = rejected_other (trim input) (no_Decimal (trim input) f)
