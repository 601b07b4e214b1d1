-- ===== src/Money/Amount/Signed.antt =====
-- `signedAmountToMinor`, the field whose sign is typed.
use pecunia.Prelude.{ℕ, String, ◌≡◌, refl, sym, ap, ◌∙◌, true, false, some, ◌∷◌, arith, All}
use pecunia.Prelude.Int.{pos, neg_ℤ}
use mathlib.Core.Option
use pecunia.Prelude.Text.{Text, is_space}
use pecunia.Money.{Intl, digits_for_currency}
use pecunia.Money.Amount.{
  rejected, convert, to_minor, signed_to_minor, with_sign, starts_with_minus, amount_to_minor,
  signed_amount_to_minor,
}
use pecunia.Money.Amount.RoundTrip.{trim_ink, IsInk}
use pecunia.Money.Amount.Rounding.{to_minor-eq-some}

module _ (t : Text) (d : ℕ) (ink : All IsInk t) where
  -- A typed minus sign negates what follows it.
  signed_minus : signed_to_minor (b'-' ∷ t) d ≡ Option.map (with_sign true) (to_minor t d)
  unfolding signed_to_minor is_space
  signed_minus = rw (trim_ink (b'-' ∷ t) (refl, ink))

  signed_plain :
      starts_with_minus t ≡ false
      → signed_to_minor t d ≡ Option.map (with_sign false) (to_minor t d)
  unfolding signed_to_minor
  signed_plain h = rw (trim_ink t ink, h)

  rejected_minus : starts_with_minus t ≡ false → rejected t ≡ false → rejected (b'-' ∷ t) ≡ false
  unfolding rejected
  rejected_minus h k = ground arith

  -- The unsigned field drops one leading minus sign.
  to_minor_minus :
      starts_with_minus t ≡ false → rejected t ≡ false → to_minor (b'-' ∷ t) d ≡ to_minor t d
  unfolding to_minor convert is_space
  to_minor_minus h k =
      rw (trim_ink (b'-' ∷ t) (refl, ink), trim_ink t ink, rejected_minus h k, k, h)

accepted_ink : (t : Text) (d m : ℕ) → All IsInk t → to_minor t d ≡ some m → rejected t ≡ false
accepted_ink t d m ink e = ap rejected (sym (trim_ink t ink)) ∙ (to_minor-eq-some t d m e).0

-- For a text without white space that is accepted and has no sign: typed as it is the signed
-- field gives the amount, and with a minus sign before it the amount negated.
pub signed_amount_to_minor_signs :
    (intl : Intl) (currency : String) (t : Text) (m : ℕ)
    → All IsInk t
    → starts_with_minus t ≡ false
    → amount_to_minor intl t currency ≡ some m
    → (signed_amount_to_minor intl t currency ≡ some (pos m))
      × (signed_amount_to_minor intl (b'-' ∷ t) currency ≡ some (neg_ℤ (pos m)))
unfolding signed_amount_to_minor amount_to_minor
signed_amount_to_minor_signs intl currency t m ink h e = (
  signed_plain t (digits_for_currency intl currency) ink h ∙ ap (Option.map (with_sign false)) e,
  signed_minus t (digits_for_currency intl currency) ink ∙ ap (Option.map (with_sign true)) e,
)

-- A text with two minus signs is not refused by the signed field: if what follows them is a text
-- without white space that has no sign of its own and is accepted as an amount, the two signs are
-- read as one, and the field gives that amount negated.
pub signed_amount_to_minor_double_minus :
    (intl : Intl) (currency : String) (t : Text) (m : ℕ)
    → All IsInk t
    → starts_with_minus t ≡ false
    → amount_to_minor intl t currency ≡ some m
    → signed_amount_to_minor intl (b'-' ∷ b'-' ∷ t) currency ≡ some (neg_ℤ (pos m))
unfolding signed_amount_to_minor amount_to_minor is_space
signed_amount_to_minor_double_minus intl currency t m ink h e =
    let d = digits_for_currency intl currency in
    signed_minus (b'-' ∷ t) d (refl, ink)
    ∙ ap (Option.map (with_sign true)) (to_minor_minus t d ink h (accepted_ink t d m ink e) ∙ e)
