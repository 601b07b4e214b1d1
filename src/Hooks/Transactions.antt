-- ===== src/Hooks/Transactions.antt =====
-- The mutations of transactions (web/src/features/transactions/useTransactions.ts).
use pecunia.Prelude.Int.{ℤ}
use pecunia.Prelude.{Bool, Option, String, none, List, [], ◌∷◌}
use pecunia.Api.{number, string}
use pecunia.Queries.{Key, key_of, transactions, accounts, goals, loans}
use pecunia.Hooks.{
  Mutation, Entries, given, optional, nullable, template, analytics_prefix, post_to, patch_to,
  delete_at, post_empty,
}

-- `TransactionOut`
pub record TransactionOut : Type 0 where
  pub id : String
  pub account_id : String
  pub category_id : Option String
  pub contact_id : Option String
  pub project_id : Option String
  pub transfer_id : Option String
  pub amount_minor : ℤ
  pub currency : String
  pub description : String
  pub occurred_on : String
  pub is_demo : Bool
  pub is_imported : Bool
  pub deleted_at : Option String
  pub created_at : String
  pub updated_at : String

-- `CreateTransactionPayload`
pub record CreateTransactionPayload : Type 0 where
  pub account_id : String
  pub category_id : Option (Option String)
  pub contact_id : Option (Option String)
  pub project_id : Option (Option String)
  pub amount_minor : ℤ
  pub currency : String
  pub description : String
  pub occurred_on : String

abbrev pub entries_of_create_transaction : CreateTransactionPayload → Entries
entries_of_create_transaction p =
    given "account_id" (string p.account_id)
    ∷ optional "category_id" (nullable string) p.category_id
    ∷ optional "contact_id" (nullable string) p.contact_id
    ∷ optional "project_id" (nullable string) p.project_id
    ∷ given "amount_minor" (number p.amount_minor)
    ∷ given "currency" (string p.currency)
    ∷ given "description" (string p.description)
    ∷ given "occurred_on" (string p.occurred_on)
    ∷ []

-- `UpdateTransactionPayload`
pub record UpdateTransactionPayload : Type 0 where
  pub account_id : Option String
  pub category_id : Option (Option String)
  pub contact_id : Option (Option String)
  pub project_id : Option (Option String)
  pub amount_minor : Option ℤ
  pub currency : Option String
  pub description : Option String
  pub occurred_on : Option String

abbrev pub entries_of_update_transaction : UpdateTransactionPayload → Entries
entries_of_update_transaction p =
    optional "account_id" string p.account_id
    ∷ optional "category_id" (nullable string) p.category_id
    ∷ optional "contact_id" (nullable string) p.contact_id
    ∷ optional "project_id" (nullable string) p.project_id
    ∷ optional "amount_minor" number p.amount_minor
    ∷ optional "currency" string p.currency
    ∷ optional "description" string p.description
    ∷ optional "occurred_on" string p.occurred_on
    ∷ []

abbrev pub invalidate_after_transaction_change : List Key
invalidate_after_transaction_change =
    key_of (transactions none) ∷ key_of accounts ∷ analytics_prefix ∷ key_of goals ∷ []

abbrev pub after_apply_to_loan : List Key
after_apply_to_loan = key_of (transactions none) ∷ key_of loans ∷ []

-- The mutations, with the arguments of their hooks and the variables they are fired with.
pub data TransactionMutation : Type 0 where
  create_transaction : CreateTransactionPayload → TransactionMutation
  update_transaction : String → UpdateTransactionPayload → TransactionMutation
  delete_transaction : String → TransactionMutation
  restore_transaction : String → TransactionMutation
  apply_to_loan : String → String → TransactionMutation

abbrev pub transaction_mutation : TransactionMutation → Mutation
transaction_mutation (create_transaction payload) =
    post_to "/transactions" (entries_of_create_transaction payload)
      invalidate_after_transaction_change
transaction_mutation (update_transaction id payload) =
    patch_to (template ("/transactions/" ∷ id ∷ [])) (entries_of_update_transaction payload)
      invalidate_after_transaction_change
transaction_mutation (delete_transaction id) =
    delete_at (template ("/transactions/" ∷ id ∷ [])) invalidate_after_transaction_change
transaction_mutation (restore_transaction id) =
    post_empty (template ("/transactions/" ∷ id ∷ "/restore" ∷ []))
      invalidate_after_transaction_change
transaction_mutation (apply_to_loan transaction_id loan_id) =
    post_to (template ("/transactions/" ∷ transaction_id ∷ "/apply-to-loan" ∷ []))
      (given "loan_id" (string loan_id) ∷ []) after_apply_to_loan
