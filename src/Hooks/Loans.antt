-- ===== src/Hooks/Loans.antt =====
-- The mutations of loans and their payments (web/src/features/loans/useLoans.ts).
use pecunia.Prelude.{String, Option, none, List, [], ◌∷◌}
use pecunia.Prelude.Int.{ℤ}
use pecunia.Api.{number, string}
use pecunia.Queries.{Key, key_of, transactions, goals, loans}
use pecunia.Hooks.{
  Mutation, Entries, given, optional, nullable, template, analytics_prefix, post_to, patch_to,
  delete_at,
}

pub data LoanDirection : Type 0 where
  borrowed lent : LoanDirection

abbrev pub word_of_loan_direction : LoanDirection → String
word_of_loan_direction borrowed = "borrowed"
word_of_loan_direction lent = "lent"

pub data PaymentFrequency : Type 0 where
  weekly monthly quarterly yearly : PaymentFrequency

abbrev pub word_of_payment_frequency : PaymentFrequency → String
word_of_payment_frequency weekly = "weekly"
word_of_payment_frequency monthly = "monthly"
word_of_payment_frequency quarterly = "quarterly"
word_of_payment_frequency yearly = "yearly"

-- `CreateLoanPayload`
pub record CreateLoanPayload : Type 0 where
  pub name : String
  pub direction : LoanDirection
  pub principal_minor : ℤ
  pub currency : String
  pub interest_rate_bps : Option (Option ℤ)
  pub planned_payment_minor : Option (Option ℤ)
  pub payment_frequency : Option (Option PaymentFrequency)
  pub next_due : Option (Option String)
  pub opened_on : Option (Option String)
  pub description : Option (Option String)
  pub contact_id : Option (Option String)

abbrev pub entries_of_create_loan : CreateLoanPayload → Entries
entries_of_create_loan p =
    given "name" (string p.name)
    ∷ given "direction" (string (word_of_loan_direction p.direction))
    ∷ given "principal_minor" (number p.principal_minor)
    ∷ given "currency" (string p.currency)
    ∷ optional "interest_rate_bps" (nullable number) p.interest_rate_bps
    ∷ optional "planned_payment_minor" (nullable number) p.planned_payment_minor
    ∷ optional "payment_frequency" (nullable (λ x. string (word_of_payment_frequency x)))
        p.payment_frequency
    ∷ optional "next_due" (nullable string) p.next_due
    ∷ optional "opened_on" (nullable string) p.opened_on
    ∷ optional "description" (nullable string) p.description
    ∷ optional "contact_id" (nullable string) p.contact_id
    ∷ []

-- `UpdateLoanPayload`
pub record UpdateLoanPayload : Type 0 where
  pub name : Option String
  pub direction : Option LoanDirection
  pub principal_minor : Option ℤ
  pub currency : Option String
  pub interest_rate_bps : Option (Option ℤ)
  pub planned_payment_minor : Option (Option ℤ)
  pub payment_frequency : Option (Option PaymentFrequency)
  pub next_due : Option (Option String)
  pub opened_on : Option (Option String)
  pub description : Option (Option String)
  pub contact_id : Option (Option String)

abbrev pub entries_of_update_loan : UpdateLoanPayload → Entries
entries_of_update_loan p =
    optional "name" string p.name
    ∷ optional "direction" (λ x. string (word_of_loan_direction x)) p.direction
    ∷ optional "principal_minor" number p.principal_minor
    ∷ optional "currency" string p.currency
    ∷ optional "interest_rate_bps" (nullable number) p.interest_rate_bps
    ∷ optional "planned_payment_minor" (nullable number) p.planned_payment_minor
    ∷ optional "payment_frequency" (nullable (λ x. string (word_of_payment_frequency x)))
        p.payment_frequency
    ∷ optional "next_due" (nullable string) p.next_due
    ∷ optional "opened_on" (nullable string) p.opened_on
    ∷ optional "description" (nullable string) p.description
    ∷ optional "contact_id" (nullable string) p.contact_id
    ∷ []

-- `RecordPaymentPayload`
pub record RecordPaymentPayload : Type 0 where
  pub amount_minor : ℤ
  pub paid_on : String
  pub note : Option (Option String)
  pub transaction_id : Option (Option String)

abbrev pub entries_of_record_payment : RecordPaymentPayload → Entries
entries_of_record_payment p =
    given "amount_minor" (number p.amount_minor)
    ∷ given "paid_on" (string p.paid_on)
    ∷ optional "note" (nullable string) p.note
    ∷ optional "transaction_id" (nullable string) p.transaction_id
    ∷ []

-- `UpdateLoanPaymentPayload`
pub record UpdateLoanPaymentPayload : Type 0 where
  pub amount_minor : Option ℤ
  pub paid_on : Option String
  pub note : Option (Option String)
  pub transaction_id : Option (Option String)

abbrev pub entries_of_update_loan_payment : UpdateLoanPaymentPayload → Entries
entries_of_update_loan_payment p =
    optional "amount_minor" number p.amount_minor
    ∷ optional "paid_on" string p.paid_on
    ∷ optional "note" (nullable string) p.note
    ∷ optional "transaction_id" (nullable string) p.transaction_id
    ∷ []

abbrev pub invalidate_loans : List Key
invalidate_loans = key_of loans ∷ analytics_prefix ∷ key_of goals ∷ []

abbrev pub invalidate_loans_and_transactions : List Key
invalidate_loans_and_transactions =
    key_of loans ∷ analytics_prefix ∷ key_of goals ∷ key_of (transactions none) ∷ []

-- The mutations, with the arguments of their hooks and the variables they are fired with.
pub data LoanMutation : Type 0 where
  create_loan : CreateLoanPayload → LoanMutation
  update_loan : String → UpdateLoanPayload → LoanMutation
  delete_loan : String → LoanMutation
  record_payment : String → RecordPaymentPayload → LoanMutation
  update_loan_payment : String → String → UpdateLoanPaymentPayload → LoanMutation
  delete_payment : String → String → LoanMutation

abbrev pub loan_mutation : LoanMutation → Mutation
loan_mutation (create_loan payload) =
    post_to "/loans" (entries_of_create_loan payload) invalidate_loans
loan_mutation (update_loan id payload) =
    patch_to (template ("/loans/" ∷ id ∷ [])) (entries_of_update_loan payload) invalidate_loans
loan_mutation (delete_loan id) = delete_at (template ("/loans/" ∷ id ∷ [])) invalidate_loans
loan_mutation (record_payment loan_id payload) =
    post_to (template ("/loans/" ∷ loan_id ∷ "/payments" ∷ [])) (entries_of_record_payment payload)
      invalidate_loans_and_transactions
loan_mutation (update_loan_payment loan_id payment_id payload) =
    patch_to (template ("/loans/" ∷ loan_id ∷ "/payments/" ∷ payment_id ∷ []))
      (entries_of_update_loan_payment payload) invalidate_loans_and_transactions
loan_mutation (delete_payment loan_id payment_id) =
    delete_at (template ("/loans/" ∷ loan_id ∷ "/payments/" ∷ payment_id ∷ [])) invalidate_loans
