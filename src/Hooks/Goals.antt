-- ===== src/Hooks/Goals.antt =====
-- The mutations of goals (web/src/features/goals/useGoals.ts).
use pecunia.Prelude.{String, Option, List, [], ◌∷◌}
use pecunia.Prelude.Int.{ℤ}
use pecunia.Api.{number, string}
use pecunia.Queries.{Key, key_of, goals}
use pecunia.Hooks.{
  Mutation, Entries, given, optional, nullable, template, post_to, patch_to, delete_at,
}

pub data GoalSourceKind : Type 0 where
  account portfolio net_worth manual : GoalSourceKind

abbrev pub word_of_goal_source_kind : GoalSourceKind → String
word_of_goal_source_kind account = "account"
word_of_goal_source_kind portfolio = "portfolio"
word_of_goal_source_kind net_worth = "net_worth"
word_of_goal_source_kind manual = "manual"

-- `CreateGoalPayload`
pub record CreateGoalPayload : Type 0 where
  pub name : String
  pub target_minor : ℤ
  pub currency : String
  pub target_date : Option (Option String)
  pub source_kind : Option GoalSourceKind
  pub source_id : Option (Option String)
  pub manual_current_minor : Option (Option ℤ)

abbrev pub entries_of_create_goal : CreateGoalPayload → Entries
entries_of_create_goal p =
    given "name" (string p.name)
    ∷ given "target_minor" (number p.target_minor)
    ∷ given "currency" (string p.currency)
    ∷ optional "target_date" (nullable string) p.target_date
    ∷ optional "source_kind" (λ x. string (word_of_goal_source_kind x)) p.source_kind
    ∷ optional "source_id" (nullable string) p.source_id
    ∷ optional "manual_current_minor" (nullable number) p.manual_current_minor
    ∷ []

-- `UpdateGoalPayload`
pub record UpdateGoalPayload : Type 0 where
  pub name : Option String
  pub target_minor : Option ℤ
  pub currency : Option String
  pub target_date : Option (Option String)
  pub source_kind : Option GoalSourceKind
  pub source_id : Option (Option String)
  pub manual_current_minor : Option (Option ℤ)

abbrev pub entries_of_update_goal : UpdateGoalPayload → Entries
entries_of_update_goal p =
    optional "name" string p.name
    ∷ optional "target_minor" number p.target_minor
    ∷ optional "currency" string p.currency
    ∷ optional "target_date" (nullable string) p.target_date
    ∷ optional "source_kind" (λ x. string (word_of_goal_source_kind x)) p.source_kind
    ∷ optional "source_id" (nullable string) p.source_id
    ∷ optional "manual_current_minor" (nullable number) p.manual_current_minor
    ∷ []

abbrev pub invalidate_goals : List Key
invalidate_goals = key_of goals ∷ []

-- The mutations, with the arguments of their hooks and the variables they are fired with.
pub data GoalMutation : Type 0 where
  create_goal : CreateGoalPayload → GoalMutation
  update_goal : String → UpdateGoalPayload → GoalMutation
  delete_goal : String → GoalMutation

abbrev pub goal_mutation : GoalMutation → Mutation
goal_mutation (create_goal payload) =
    post_to "/goals" (entries_of_create_goal payload) invalidate_goals
goal_mutation (update_goal id payload) =
    patch_to (template ("/goals/" ∷ id ∷ [])) (entries_of_update_goal payload) invalidate_goals
goal_mutation (delete_goal id) = delete_at (template ("/goals/" ∷ id ∷ [])) invalidate_goals
