-- ===== src/Hooks/Contacts.antt =====
-- The mutations of contacts (web/src/features/contacts/useContacts.ts).
use pecunia.Prelude.{String, Option, List, [], ◌∷◌}
use pecunia.Api.{string}
use pecunia.Queries.{Key, key_of, contacts}
use pecunia.Hooks.{
  Mutation, Entries, given, optional, nullable, template, post_to, patch_to, post_empty,
}

pub data ContactType : Type 0 where
  person company : ContactType

abbrev pub word_of_contact_type : ContactType → String
word_of_contact_type person = "person"
word_of_contact_type company = "company"

-- `CreateContactPayload`
pub record CreateContactPayload : Type 0 where
  pub name : String
  pub type : Option ContactType
  pub avatar : Option (Option String)
  pub default_category_id : Option (Option String)

abbrev pub entries_of_create_contact : CreateContactPayload → Entries
entries_of_create_contact p =
    given "name" (string p.name)
    ∷ optional "type" (λ x. string (word_of_contact_type x)) p.type
    ∷ optional "avatar" (nullable string) p.avatar
    ∷ optional "default_category_id" (nullable string) p.default_category_id
    ∷ []

-- `UpdateContactPayload`
pub record UpdateContactPayload : Type 0 where
  pub name : Option String
  pub type : Option ContactType
  pub avatar : Option (Option String)
  pub default_category_id : Option (Option String)

abbrev pub entries_of_update_contact : UpdateContactPayload → Entries
entries_of_update_contact p =
    optional "name" string p.name
    ∷ optional "type" (λ x. string (word_of_contact_type x)) p.type
    ∷ optional "avatar" (nullable string) p.avatar
    ∷ optional "default_category_id" (nullable string) p.default_category_id
    ∷ []

abbrev pub after_contact_change : List Key
after_contact_change = key_of contacts ∷ []

-- The mutations, with the arguments of their hooks and the variables they are fired with.
pub data ContactMutation : Type 0 where
  create_contact : CreateContactPayload → ContactMutation
  update_contact : String → UpdateContactPayload → ContactMutation
  archive_contact : String → ContactMutation

abbrev pub contact_mutation : ContactMutation → Mutation
contact_mutation (create_contact payload) =
    post_to "/contacts" (entries_of_create_contact payload) after_contact_change
contact_mutation (update_contact id payload) =
    patch_to (template ("/contacts/" ∷ id ∷ [])) (entries_of_update_contact payload)
      after_contact_change
contact_mutation (archive_contact id) =
    post_empty (template ("/contacts/" ∷ id ∷ "/archive" ∷ [])) after_contact_change
