-- ===== src/Hooks/Transfers.antt =====
-- The mutations of transfers (web/src/features/transfers/useTransfers.ts).
use pecunia.Prelude.Int.{ℤ}
use pecunia.Prelude.{Bool, Option, String, none, List, [], ◌∷◌}
use pecunia.Api.{number, string}
use pecunia.Queries.{Key, key_of, transfers, transactions, accounts}
use pecunia.Hooks.{Mutation, Entries, given, optional, template, post_to, patch_to, delete_at}

-- `TransferOut`
pub record TransferOut : Type 0 where
  pub id : String
  pub from_account_id : String
  pub to_account_id : String
  pub amount_minor : ℤ
  pub currency : String
  pub description : String
  pub occurred_on : String
  pub is_demo : Bool
  pub created_at : String

-- `CreateTransferPayload`
pub record CreateTransferPayload : Type 0 where
  pub from_account_id : String
  pub to_account_id : String
  pub amount_minor : ℤ
  pub currency : String
  pub description : String
  pub occurred_on : String

abbrev pub entries_of_create_transfer : CreateTransferPayload → Entries
entries_of_create_transfer p =
    given "from_account_id" (string p.from_account_id)
    ∷ given "to_account_id" (string p.to_account_id)
    ∷ given "amount_minor" (number p.amount_minor)
    ∷ given "currency" (string p.currency)
    ∷ given "description" (string p.description)
    ∷ given "occurred_on" (string p.occurred_on)
    ∷ []

-- `UpdateTransferPayload`
pub record UpdateTransferPayload : Type 0 where
  pub from_account_id : Option String
  pub to_account_id : Option String
  pub amount_minor : Option ℤ
  pub description : Option String
  pub occurred_on : Option String

abbrev pub entries_of_update_transfer : UpdateTransferPayload → Entries
entries_of_update_transfer p =
    optional "from_account_id" string p.from_account_id
    ∷ optional "to_account_id" string p.to_account_id
    ∷ optional "amount_minor" number p.amount_minor
    ∷ optional "description" string p.description
    ∷ optional "occurred_on" string p.occurred_on
    ∷ []

abbrev pub invalidate_after_transfer : List Key
invalidate_after_transfer = key_of transfers ∷ key_of (transactions none) ∷ key_of accounts ∷ []

-- The mutations, with the arguments of their hooks and the variables they are fired with.
pub data TransferMutation : Type 0 where
  create_transfer : CreateTransferPayload → TransferMutation
  update_transfer : String → UpdateTransferPayload → TransferMutation
  delete_transfer : String → TransferMutation

abbrev pub transfer_mutation : TransferMutation → Mutation
transfer_mutation (create_transfer payload) =
    post_to "/transfers" (entries_of_create_transfer payload) invalidate_after_transfer
transfer_mutation (update_transfer id payload) =
    patch_to (template ("/transfers/" ∷ id ∷ [])) (entries_of_update_transfer payload)
      invalidate_after_transfer
transfer_mutation (delete_transfer id) =
    delete_at (template ("/transfers/" ∷ id ∷ [])) invalidate_after_transfer
