-- ===== src/Hooks.antt =====
-- The query and mutation hooks (the use*.ts files under web/src/features/). A mutation is what its
-- hook passes on: the call of `apiFetch` and the keys that `onSuccess` invalidates. A payload is a
-- record in which `none` is an absent key and, for a key that may be null, `some none` is null; its
-- keys are sent in the order of its interface.
pub mod Accounts
pub mod Assets
pub mod Budgets
pub mod Categories
pub mod Contacts
pub mod Goals
pub mod Planned
pub mod Transactions
pub mod Loans
pub mod Subscriptions
pub mod Portfolios
pub mod Projects
pub mod Transfers
pub mod BankSync
pub mod Settings
pub mod Refresh
pub mod Reads
pub mod SubscriptionOrder
pub mod ScheduleOrder
mod Tests
use pecunia.Prelude.{String, false, Option, none, some, List, [], ◌∷◌, str_append}
use pecunia.Api.{Json, null, object, Fields, no_fields, field, ApiFetchOptions, Outcome}
use pecunia.Auth.{World, api_fetch}
use pecunia.Queries.{Key, words}

-- A template string, by its parts.
abbrev pub template : List String → String
template [] = ""
template (part ∷ parts) = str_append part (template parts)

-- The keys of an object with their values, where `none` is a key that is absent.
abbrev pub Entries : Type 0
Entries = List (String × Option Json)

abbrev pub given : String → Json → String × Option Json
given key j = (key, some j)

abbrev pub encoded_if : {A : Type 0} → (A → Json) → Option A → Option Json
encoded_if encode none = none
encoded_if encode (some a) = some (encode a)

abbrev pub optional : {A : Type 0} → String → (A → Json) → Option A → String × Option Json
optional key encode o = (key, encoded_if encode o)

abbrev pub nullable : {A : Type 0} → (A → Json) → Option A → Json
nullable encode none = null
nullable encode (some a) = encode a

abbrev pub fields_of : Entries → Fields
fields_of [] = no_fields
fields_of ((key, none) ∷ entries) = fields_of entries
fields_of ((key, some j) ∷ entries) = field key j (fields_of entries)

-- `["analytics"]`
abbrev pub analytics_prefix : Key
analytics_prefix = words ("analytics" ∷ [])

pub record Mutation : Type 0 where
  pub path : String
  pub method : String
  pub body : Option Entries
  pub invalidates : List Key

abbrev pub post_to : String → Entries → List Key → Mutation
post_to path body invalidates = record {
  path = path;
  method = "POST";
  body = some body;
  invalidates = invalidates;
}

abbrev pub patch_to : String → Entries → List Key → Mutation
patch_to path body invalidates = record {
  path = path;
  method = "PATCH";
  body = some body;
  invalidates = invalidates;
}

abbrev pub put_to : String → Entries → List Key → Mutation
put_to path body invalidates = record {
  path = path;
  method = "PUT";
  body = some body;
  invalidates = invalidates;
}

abbrev pub post_empty : String → List Key → Mutation
post_empty path invalidates = record {
  path = path;
  method = "POST";
  body = none;
  invalidates = invalidates;
}

abbrev pub delete_at : String → List Key → Mutation
delete_at path invalidates = record {
  path = path;
  method = "DELETE";
  body = none;
  invalidates = invalidates;
}

abbrev pub json_of_body : Option Entries → Option Json
json_of_body none = none
json_of_body (some entries) = some (object (fields_of entries))

-- The options of the mutation's call of `apiFetch`.
abbrev pub options_of : Mutation → ApiFetchOptions
options_of m = record {
  method = some m.method;
  headers = [];
  body = none;
  json = json_of_body m.body;
  skip_auth_retry = false;
}

-- `mutationFn`
unfoldable pub mutation_fn : Mutation → World → Outcome × World
mutation_fn m w = api_fetch m.path (options_of m) w
