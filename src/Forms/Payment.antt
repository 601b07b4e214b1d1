-- ===== src/Forms/Payment.antt =====
-- The form of a loan's payment (web/src/features/loans/PaymentForm.tsx).
use pecunia.Prelude.{
  ℕ, ◌<◌, String, ◌≡◌, refl, sym, ap, ◌∙◌, ◌↔◌, Bool, true, false, Option, none, some, [], ◌∷◌,
  arith, str_eq, ◌==◌, if◌then◌else◌,
}
use pecunia.Prelude.Int.{pos}
use pecunia.Prelude.Text.{Text}
use pecunia.Money.{Intl}
use pecunia.Money.Amount.{amount_to_minor}
use pecunia.Api.{Outcome}
use pecunia.Hooks.{Mutation}
use pecunia.Hooks.Transactions.{TransactionOut}
use pecunia.Hooks.Loans.{RecordPaymentPayload, loan_mutation, record_payment}
use pecunia.Forms.{
  FormErrors, with_amount_error, with_error, Submission, stays, refused, sends, Ending, unchanged,
  shows, succeeded, detail_of, message_of, or_null, trimmed,
}

pub record PaymentForm : Type 0 where
  pub amount : Text
  pub paid_on : String
  pub note : String
  pub linked_transaction : Option TransactionOut
  pub show_picker : Bool

abbrev pub linked_id : Option TransactionOut → Option (Option String)
linked_id none = none
linked_id (some t) = some (some t.id)

abbrev pub payment_payload : PaymentForm → ℕ → RecordPaymentPayload
payment_payload form amount_minor = record {
  amount_minor = pos amount_minor;
  paid_on = form.paid_on;
  note = some (or_null (trimmed form.note));
  transaction_id = linked_id form.linked_transaction;
}

abbrev pub with_payment : String → PaymentForm → Option ℕ → Submission
with_payment loan_id form none = refused (with_amount_error "Enter an amount greater than zero.")
with_payment loan_id form (some amount_minor) =
    if amount_minor == 0
    then refused (with_amount_error "Enter an amount greater than zero.")
    else sends (loan_mutation (record_payment loan_id (payment_payload form amount_minor)))

-- `handleSubmit` up to what it sends, for a loan in the currency.
unfoldable pub payment_submission : Intl → String → String → PaymentForm → Submission
payment_submission intl loan_id currency form =
    if str_eq form.paid_on ""
    then stays
    else with_payment loan_id form (amount_to_minor intl form.amount currency)

abbrev cleared_form : PaymentForm → PaymentForm
cleared_form form = record {
  amount = [];
  paid_on = form.paid_on;
  note = "";
  linked_transaction = none;
  show_picker = false;
}

-- The fields after a submit that ended so: all but the date are cleared after a success.
pub after_submit : Ending → PaymentForm → PaymentForm
after_submit unchanged form = form
after_submit (shows errors) form = form
after_submit (succeeded j) form = cleared_form form

-- What the `catch` shows (`paymentErrorMessage`).
pub payment_errors : Outcome → FormErrors
payment_errors outcome = with_error (
    message_of (("LOAN_PAYMENT_NONPOSITIVE", "Enter a payment amount greater than zero.") ∷ [])
      "Couldn't record this payment. Please try again." (detail_of outcome))

module _ (intl : Intl) (loan_id currency : String) (form : PaymentForm) where
  sends_inj : (m n : Mutation) → sends m ≡ sends n → m ≡ n
  sends_inj m n e = cc

  of_amount :
      (m : Mutation) (o : Option ℕ)
      → amount_to_minor intl form.amount currency ≡ o
      → with_payment loan_id form o ≡ sends m
      → (n : ℕ) × (0 < n)
        × (amount_to_minor intl form.amount currency ≡ some n)
        × (m ≡ loan_mutation (record_payment loan_id (payment_payload form n)))
  of_amount m none k e = absurd (clash e)
    where
      clash : refused (with_amount_error "Enter an amount greater than zero.") ≡ sends m → ⊥
      clash z = cc
  of_amount m (some n) k e = by_zero (n == 0) refl e
    where
      by_zero :
          (b : Bool)
          → (n == 0) ≡ b
          → (if b
              then refused (with_amount_error "Enter an amount greater than zero.")
              else sends (loan_mutation (record_payment loan_id (payment_payload form n))))
            ≡ sends m
          → (x : ℕ) × (0 < x)
            × (amount_to_minor intl form.amount currency ≡ some x)
            × (m ≡ loan_mutation (record_payment loan_id (payment_payload form x)))
      by_zero true q z = absurd (clash z)
        where
          clash : refused (with_amount_error "Enter an amount greater than zero.") ≡ sends m → ⊥
          clash y = cc
      by_zero false q z = (n, positive n q, k, sends_inj m _ (sym z))
        where
          positive : (x : ℕ) → (x == 0) ≡ false → 0 < x
          positive x p = ground arith

  sent_payment :
      (m : Mutation)
      → payment_submission intl loan_id currency form ≡ sends m
      → (str_eq form.paid_on "" ≡ false)
        × ((n : ℕ) × (0 < n)
            × (amount_to_minor intl form.amount currency ≡ some n)
            × (m ≡ loan_mutation (record_payment loan_id (payment_payload form n))))
  unfolding payment_submission
  sent_payment m e = by_date (str_eq form.paid_on "") refl e
    where
      by_date :
          (b : Bool)
          → str_eq form.paid_on "" ≡ b
          → (if b
              then stays
              else with_payment loan_id form (amount_to_minor intl form.amount currency))
            ≡ sends m
          → (str_eq form.paid_on "" ≡ false)
            × ((n : ℕ) × (0 < n)
                × (amount_to_minor intl form.amount currency ≡ some n)
                × (m ≡ loan_mutation (record_payment loan_id (payment_payload form n))))
      by_date true h z = absurd (clash z)
        where
          clash : stays ≡ sends m → ⊥
          clash y = cc
      by_date false h z = (h, of_amount m (amount_to_minor intl form.amount currency) refl z)

  with_positive :
      (n : ℕ)
      → 0 < n
      → with_payment loan_id form (some n)
        ≡ sends (loan_mutation (record_payment loan_id (payment_payload form n)))
  with_positive n h = rw (not_zero n h) refl
    where
      not_zero : (x : ℕ) → 0 < x → (x == 0) ≡ false
      not_zero x p = ground arith

  -- A payment is sent exactly with a date and a positive amount in the loan's currency, to that
  -- loan; it names a transaction exactly when one is linked, and its note is null when it is blank.
  pub payment_submission_lem :
      (m : Mutation)
      → (payment_submission intl loan_id currency form ≡ sends m) ↔ (
          (str_eq form.paid_on "" ≡ false)
          × ((n : ℕ) × (0 < n)
              × (amount_to_minor intl form.amount currency ≡ some n)
              × (m ≡ loan_mutation (record_payment loan_id (payment_payload form n)))))
  unfolding payment_submission
  payment_submission_lem m = (
    λ e. sent_payment m e,
    λ r.
        rw r.0
          (ap (with_payment loan_id form) r.1.2 ∙ with_positive r.1.0 r.1.1 ∙ ap sends (sym r.1.3)),
  )
