-- ===== src/Hooks/Projects.antt =====
-- The mutations of projects and their items (web/src/features/projects/useProjects.ts).
use pecunia.Prelude.Int.{ℤ}
use pecunia.Prelude.{Bool, Option, String, none, List, [], ◌∷◌}
use pecunia.Api.{number, string}
use pecunia.Queries.{Key, key_of, projects, transactions}
use pecunia.Hooks.{
  Mutation, Entries, given, optional, nullable, template, post_to, patch_to, delete_at, post_empty,
}

pub data ProjectStatus : Type 0 where
  active completed archived : ProjectStatus

abbrev pub word_of_project_status : ProjectStatus → String
word_of_project_status active = "active"
word_of_project_status completed = "completed"
word_of_project_status archived = "archived"

pub data ProjectType : Type 0 where
  saving spending : ProjectType

abbrev pub word_of_project_type : ProjectType → String
word_of_project_type saving = "saving"
word_of_project_type spending = "spending"

-- `ProjectItemOut`
pub record ProjectItemOut : Type 0 where
  pub id : String
  pub project_id : String
  pub transaction_id : Option String
  pub name : String
  pub amount_minor : ℤ
  pub actual_minor : Option ℤ
  pub is_demo : Bool
  pub created_at : String
  pub updated_at : String

-- `CreateProjectPayload`
pub record CreateProjectPayload : Type 0 where
  pub name : String
  pub description : Option (Option String)
  pub target_amount_minor : Option (Option ℤ)
  pub currency : String
  pub status : Option ProjectStatus
  pub type : Option ProjectType

abbrev pub entries_of_create_project : CreateProjectPayload → Entries
entries_of_create_project p =
    given "name" (string p.name)
    ∷ optional "description" (nullable string) p.description
    ∷ optional "target_amount_minor" (nullable number) p.target_amount_minor
    ∷ given "currency" (string p.currency)
    ∷ optional "status" (λ x. string (word_of_project_status x)) p.status
    ∷ optional "type" (λ x. string (word_of_project_type x)) p.type
    ∷ []

-- `UpdateProjectPayload`
pub record UpdateProjectPayload : Type 0 where
  pub name : Option String
  pub description : Option (Option String)
  pub target_amount_minor : Option (Option ℤ)
  pub currency : Option String
  pub status : Option ProjectStatus
  pub type : Option ProjectType

abbrev pub entries_of_update_project : UpdateProjectPayload → Entries
entries_of_update_project p =
    optional "name" string p.name
    ∷ optional "description" (nullable string) p.description
    ∷ optional "target_amount_minor" (nullable number) p.target_amount_minor
    ∷ optional "currency" string p.currency
    ∷ optional "status" (λ x. string (word_of_project_status x)) p.status
    ∷ optional "type" (λ x. string (word_of_project_type x)) p.type
    ∷ []

-- `CreateProjectItemPayload`
pub record CreateProjectItemPayload : Type 0 where
  pub name : String
  pub amount_minor : ℤ

abbrev pub entries_of_create_project_item : CreateProjectItemPayload → Entries
entries_of_create_project_item p =
    given "name" (string p.name) ∷ given "amount_minor" (number p.amount_minor) ∷ []

-- `UpdateProjectItemPayload`
pub record UpdateProjectItemPayload : Type 0 where
  pub name : Option String
  pub amount_minor : Option ℤ

abbrev pub entries_of_update_project_item : UpdateProjectItemPayload → Entries
entries_of_update_project_item p =
    optional "name" string p.name ∷ optional "amount_minor" number p.amount_minor ∷ []

abbrev pub after_project_change : List Key
after_project_change = key_of projects ∷ []

abbrev pub invalidate_projects_and_transactions : List Key
invalidate_projects_and_transactions = key_of projects ∷ key_of (transactions none) ∷ []

-- The mutations, with the arguments of their hooks and the variables they are fired with.
pub data ProjectMutation : Type 0 where
  create_project : CreateProjectPayload → ProjectMutation
  update_project : String → UpdateProjectPayload → ProjectMutation
  delete_project : String → ProjectMutation
  add_project_item : String → CreateProjectItemPayload → ProjectMutation
  update_project_item : String → String → UpdateProjectItemPayload → ProjectMutation
  attach_item_transaction : String → String → String → ProjectMutation
  detach_item_transaction : String → String → ProjectMutation

abbrev pub project_mutation : ProjectMutation → Mutation
project_mutation (create_project payload) =
    post_to "/projects" (entries_of_create_project payload) after_project_change
project_mutation (update_project id payload) =
    patch_to (template ("/projects/" ∷ id ∷ [])) (entries_of_update_project payload)
      after_project_change
project_mutation (delete_project id) =
    delete_at (template ("/projects/" ∷ id ∷ [])) after_project_change
project_mutation (add_project_item project_id payload) =
    post_to (template ("/projects/" ∷ project_id ∷ "/items" ∷ []))
      (entries_of_create_project_item payload) after_project_change
project_mutation (update_project_item project_id item_id payload) =
    patch_to (template ("/projects/" ∷ project_id ∷ "/items/" ∷ item_id ∷ []))
      (entries_of_update_project_item payload) after_project_change
project_mutation (attach_item_transaction project_id item_id transaction_id) =
    post_to (template ("/projects/" ∷ project_id ∷ "/items/" ∷ item_id ∷ "/attach" ∷ []))
      (given "transaction_id" (string transaction_id) ∷ []) invalidate_projects_and_transactions
project_mutation (detach_item_transaction project_id item_id) =
    post_empty (template ("/projects/" ∷ project_id ∷ "/items/" ∷ item_id ∷ "/detach" ∷ []))
      invalidate_projects_and_transactions
