-- ===== src/Setup.antt =====
-- The setup wizard's draft (web/src/features/setup/useSetupDraft.ts). The storage holds the JSON
-- value that its string parses to, or `none` where the string is not JSON; a write to a storage
-- that is not available is dropped. The name of an index of an array is an argument.
pub mod Draft
mod Tests
use pecunia.Prelude.{ℕ, ◌+◌, String, Bool, true, Option, none, some, str_eq, if◌then◌else◌}
use pecunia.Api.{
  Json, null, boolean, number, string, array, object, Items, no_items, item, Fields, no_fields,
  field, find_field,
}

pub record SetupDraft : Type 0 where
  pub owner_name : String
  pub owner_email : String
  pub preferences : Json

abbrev pub empty_draft : SetupDraft
empty_draft = record { owner_name = ""; owner_email = ""; preferences = object no_fields }

pub record Storage : Type 0 where
  pub available : Bool
  -- No item, or an item with what its text parses to.
  pub stored : Option (Option Json)

-- `typeof value === "string" ? value : ""`
abbrev pub string_or_empty : Option Json → String
string_or_empty (some (string s)) = s
string_or_empty (some null) = ""
string_or_empty (some (boolean b)) = ""
string_or_empty (some (number n)) = ""
string_or_empty (some (array elements)) = ""
string_or_empty (some (object entries)) = ""
string_or_empty none = ""

-- `isRecord(value) ? value : {}`: an array is a record too.
abbrev pub record_or_empty : Option Json → Json
record_or_empty (some (object entries)) = object entries
record_or_empty (some (array elements)) = array elements
record_or_empty (some null) = object no_fields
record_or_empty (some (boolean b)) = object no_fields
record_or_empty (some (number n)) = object no_fields
record_or_empty (some (string s)) = object no_fields
record_or_empty none = object no_fields

abbrev pub draft_of : Fields → SetupDraft
draft_of parsed = record {
  owner_name = string_or_empty (find_field "ownerName" parsed);
  owner_email = string_or_empty (find_field "ownerEmail" parsed);
  preferences = record_or_empty (find_field "preferences" parsed);
}

-- The draft of what was parsed; an array has none of the three properties.
abbrev pub draft_of_json : Json → SetupDraft
draft_of_json (object entries) = draft_of entries
draft_of_json (array elements) = draft_of no_fields
draft_of_json null = empty_draft
draft_of_json (boolean b) = empty_draft
draft_of_json (number n) = empty_draft
draft_of_json (string s) = empty_draft

abbrev pub draft_of_stored : Option (Option Json) → SetupDraft
draft_of_stored none = empty_draft
draft_of_stored (some none) = empty_draft
draft_of_stored (some (some parsed)) = draft_of_json parsed

pub read_stored_draft : Storage → SetupDraft
read_stored_draft storage =
    if storage.available then draft_of_stored storage.stored else empty_draft

abbrev pub json_of : SetupDraft → Json
json_of draft = object (
    field "ownerName" (string draft.owner_name) (
      field "ownerEmail" (string draft.owner_email)
        (field "preferences" draft.preferences no_fields)))

pub persist_draft : SetupDraft → Storage → Storage
persist_draft draft storage =
    if storage.available
    then record { available = true; stored = some (some (json_of draft)) }
    else storage

-- A property is set where it stands, or else at the end.
abbrev pub set_field : String → Json → Fields → Fields
set_field key value no_fields = field key value no_fields
set_field key value (field k j entries) =
    let rest = set_field key value entries in
    if str_eq k key then field k value entries else field k j rest

-- `{ ...a, ...b }`
abbrev pub spread_onto : Fields → Fields → Fields
spread_onto a no_fields = a
spread_onto a (field k j entries) = spread_onto (set_field k j a) entries

abbrev pub index_fields : (ℕ → String) → ℕ → Items → Fields
index_fields index_name i no_items = no_fields
index_fields index_name i (item j elements) =
    field (index_name i) j (index_fields index_name (i + 1) elements)

-- The properties that a spread copies.
abbrev pub own_fields : (ℕ → String) → Json → Fields
own_fields index_name (object entries) = entries
own_fields index_name (array elements) = index_fields index_name 0 elements
own_fields index_name null = no_fields
own_fields index_name (boolean b) = no_fields
own_fields index_name (number n) = no_fields
own_fields index_name (string s) = no_fields

pub record PartialDraft : Type 0 where
  pub owner_name : Option String
  pub owner_email : Option String
  pub preferences : Option Fields

abbrev pub or_previous : Option String → String → String
or_previous none previous = previous
or_previous (some s) previous = s

abbrev pub spread_partial : Fields → Option Fields → Fields
spread_partial a none = a
spread_partial a (some b) = spread_onto a b

-- The hook's state with the storage beside it.
pub record Wizard : Type 0 where
  pub draft : SetupDraft
  pub storage : Storage

pub next_draft : (ℕ → String) → PartialDraft → SetupDraft → SetupDraft
next_draft index_name partial previous = record {
  owner_name = or_previous partial.owner_name previous.owner_name;
  owner_email = or_previous partial.owner_email previous.owner_email;
  preferences =
      object (spread_partial (own_fields index_name previous.preferences) partial.preferences);
}

pub update : (ℕ → String) → PartialDraft → Wizard → Wizard
unfolding next_draft persist_draft
update index_name partial w =
    let next = next_draft index_name partial w.draft in
    record { draft = next; storage = persist_draft next w.storage }

pub clear : Wizard → Wizard
clear w = record {
  draft = empty_draft;
  storage = if w.storage.available then record { available = true; stored = none } else w.storage;
}
