-- ===== src/Hooks/Categories.antt =====
-- The mutations of categories (web/src/features/categories/useCategories.ts).
use pecunia.Prelude.{String, Option, List, [], ◌∷◌}
use pecunia.Api.{string}
use pecunia.Queries.{Key, key_of, categories}
use pecunia.Hooks.{
  Mutation, Entries, given, optional, nullable, template, post_to, patch_to, post_empty,
}

pub data CategoryKind : Type 0 where
  income expense : CategoryKind

abbrev pub word_of_category_kind : CategoryKind → String
word_of_category_kind income = "income"
word_of_category_kind expense = "expense"

-- `CreateCategoryPayload`
pub record CreateCategoryPayload : Type 0 where
  pub name : String
  pub kind : CategoryKind
  pub color : String
  pub icon : Option (Option String)

abbrev pub entries_of_create_category : CreateCategoryPayload → Entries
entries_of_create_category p =
    given "name" (string p.name)
    ∷ given "kind" (string (word_of_category_kind p.kind))
    ∷ given "color" (string p.color)
    ∷ optional "icon" (nullable string) p.icon
    ∷ []

-- `UpdateCategoryPayload`
pub record UpdateCategoryPayload : Type 0 where
  pub name : Option String
  pub kind : Option CategoryKind
  pub color : Option String
  pub icon : Option (Option String)

abbrev pub entries_of_update_category : UpdateCategoryPayload → Entries
entries_of_update_category p =
    optional "name" string p.name
    ∷ optional "kind" (λ x. string (word_of_category_kind x)) p.kind
    ∷ optional "color" string p.color
    ∷ optional "icon" (nullable string) p.icon
    ∷ []

abbrev pub after_category_change : List Key
after_category_change = key_of categories ∷ []

-- The mutations, with the arguments of their hooks and the variables they are fired with.
pub data CategoryMutation : Type 0 where
  create_category : CreateCategoryPayload → CategoryMutation
  update_category : String → UpdateCategoryPayload → CategoryMutation
  archive_category : String → CategoryMutation

abbrev pub category_mutation : CategoryMutation → Mutation
category_mutation (create_category payload) =
    post_to "/categories" (entries_of_create_category payload) after_category_change
category_mutation (update_category id payload) =
    patch_to (template ("/categories/" ∷ id ∷ [])) (entries_of_update_category payload)
      after_category_change
category_mutation (archive_category id) =
    post_empty (template ("/categories/" ∷ id ∷ "/archive" ∷ [])) after_category_change
