-- ===== src/Hooks/BankSync.antt =====
-- The mutations of the bank synchronisation (web/src/features/banksync/useBankSync.ts).
use pecunia.Prelude.{String, Option, none, List, [], ◌∷◌}
use pecunia.Api.{Json, string, array, object, Items, no_items, item, no_fields, field}
use pecunia.Queries.{Key, key_of, bank_sync, transactions, accounts}
use pecunia.Hooks.{
  Mutation, Entries, given, optional, template, analytics_prefix, post_to, put_to, delete_at,
  post_empty,
}

-- `new_account` of a `LinkPayload`
pub record NewAccount : Type 0 where
  pub name : String
  pub currency : String

abbrev pub json_of_new_account : NewAccount → Json
json_of_new_account a =
    object (field "name" (string a.name) (field "currency" (string a.currency) no_fields))

pub record CategoryMappingOut : Type 0 where
  pub pluggy_category : String
  pub category_id : String

abbrev pub json_of_mapping : CategoryMappingOut → Json
json_of_mapping m = object (
    field "pluggy_category" (string m.pluggy_category)
      (field "category_id" (string m.category_id) no_fields))

abbrev pub items_of_mappings : List CategoryMappingOut → Items
items_of_mappings [] = no_items
items_of_mappings (m ∷ ms) = item (json_of_mapping m) (items_of_mappings ms)

-- `LinkPayload`
pub record LinkPayload : Type 0 where
  pub pluggy_item_id : String
  pub pluggy_account_id : String
  pub sync_from : String
  pub account_id : Option String
  pub new_account : Option NewAccount

abbrev pub entries_of_link : LinkPayload → Entries
entries_of_link p =
    given "pluggy_item_id" (string p.pluggy_item_id)
    ∷ given "pluggy_account_id" (string p.pluggy_account_id)
    ∷ given "sync_from" (string p.sync_from)
    ∷ optional "account_id" string p.account_id
    ∷ optional "new_account" json_of_new_account p.new_account
    ∷ []

abbrev pub invalidate_bank_sync : List Key
invalidate_bank_sync = key_of bank_sync ∷ []

abbrev pub invalidate_bank_sync_and_balances : List Key
invalidate_bank_sync_and_balances =
    key_of bank_sync ∷ key_of accounts ∷ key_of (transactions none) ∷ analytics_prefix ∷ []

-- The mutations, with the arguments of their hooks and the variables they are fired with.
pub data BankSyncMutation : Type 0 where
  link_account : LinkPayload → BankSyncMutation
  unlink_account : String → BankSyncMutation
  delete_connection : String → BankSyncMutation
  sync_now : BankSyncMutation
  reconcile : String → BankSyncMutation
  replace_mappings : List CategoryMappingOut → BankSyncMutation

abbrev pub bank_sync_mutation : BankSyncMutation → Mutation
bank_sync_mutation (link_account payload) =
    post_to "/bank-sync/links" (entries_of_link payload) invalidate_bank_sync_and_balances
bank_sync_mutation (unlink_account link_id) =
    delete_at (template ("/bank-sync/links/" ∷ link_id ∷ [])) invalidate_bank_sync
bank_sync_mutation (delete_connection connection_id) =
    delete_at (template ("/bank-sync/connections/" ∷ connection_id ∷ [])) invalidate_bank_sync
bank_sync_mutation sync_now = post_empty "/bank-sync/sync" invalidate_bank_sync_and_balances
bank_sync_mutation (reconcile link_id) =
    post_empty (template ("/bank-sync/links/" ∷ link_id ∷ "/reconcile" ∷ []))
      invalidate_bank_sync_and_balances
bank_sync_mutation (replace_mappings mappings) =
    put_to "/bank-sync/category-mappings"
      (given "mappings" (array (items_of_mappings mappings)) ∷ []) invalidate_bank_sync
