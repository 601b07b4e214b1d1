-- ===== src/Hooks/Accounts.antt =====
-- The mutations of accounts (web/src/features/accounts/useAccounts.ts). Each hook writes out the same
-- two invalidations.
use pecunia.Prelude.Int.{ℤ}
use pecunia.Prelude.{Bool, Option, String, List, [], ◌∷◌}
use pecunia.Api.{number, string}
use pecunia.Queries.{Key, key_of, accounts, goals}
use pecunia.Hooks.{Mutation, Entries, given, optional, template, post_to, patch_to, post_empty}

pub data AccountType : Type 0 where
  checking savings credit_card cash brokerage wallet : AccountType

abbrev pub word_of_account_type : AccountType → String
word_of_account_type checking = "checking"
word_of_account_type savings = "savings"
word_of_account_type credit_card = "credit_card"
word_of_account_type cash = "cash"
word_of_account_type brokerage = "brokerage"
word_of_account_type wallet = "wallet"

-- `AccountOut`
pub record AccountOut : Type 0 where
  pub id : String
  pub name : String
  pub type : AccountType
  pub currency : String
  pub initial_balance_minor : ℤ
  pub balance_minor : ℤ
  pub is_demo : Bool
  pub archived_at : Option String
  pub created_at : String
  pub updated_at : String

-- `CreateAccountPayload`
pub record CreateAccountPayload : Type 0 where
  pub name : String
  pub type : AccountType
  pub currency : String
  pub initial_balance_minor : Option ℤ

abbrev pub entries_of_create_account : CreateAccountPayload → Entries
entries_of_create_account p =
    given "name" (string p.name)
    ∷ given "type" (string (word_of_account_type p.type))
    ∷ given "currency" (string p.currency)
    ∷ optional "initial_balance_minor" number p.initial_balance_minor
    ∷ []

-- `UpdateAccountPayload`
pub record UpdateAccountPayload : Type 0 where
  pub name : Option String
  pub type : Option AccountType
  pub currency : Option String

abbrev pub entries_of_update_account : UpdateAccountPayload → Entries
entries_of_update_account p =
    optional "name" string p.name
    ∷ optional "type" (λ x. string (word_of_account_type x)) p.type
    ∷ optional "currency" string p.currency
    ∷ []

abbrev pub after_account_change : List Key
after_account_change = key_of accounts ∷ key_of goals ∷ []

-- The mutations, with the arguments of their hooks and the variables they are fired with.
pub data AccountMutation : Type 0 where
  create_account : CreateAccountPayload → AccountMutation
  update_account : String → UpdateAccountPayload → AccountMutation
  archive_account : String → AccountMutation

abbrev pub account_mutation : AccountMutation → Mutation
account_mutation (create_account payload) =
    post_to "/accounts" (entries_of_create_account payload) after_account_change
account_mutation (update_account id payload) =
    patch_to (template ("/accounts/" ∷ id ∷ [])) (entries_of_update_account payload)
      after_account_change
account_mutation (archive_account id) =
    post_empty (template ("/accounts/" ∷ id ∷ "/archive" ∷ [])) after_account_change
