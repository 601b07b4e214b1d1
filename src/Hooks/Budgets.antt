-- ===== src/Hooks/Budgets.antt =====
-- The mutations of budgets (web/src/features/budgets/useBudgets.ts).
use pecunia.Prelude.Int.{ℤ}
use pecunia.Prelude.{Bool, Option, String, List, [], ◌∷◌}
use pecunia.Api.{number, string}
use pecunia.Queries.{Key, key_of, budgets}
use pecunia.Hooks.{
  Mutation, Entries, given, optional, nullable, template, post_to, patch_to, delete_at,
}

pub data BudgetPeriod : Type 0 where
  weekly monthly quarterly yearly : BudgetPeriod

abbrev pub word_of_budget_period : BudgetPeriod → String
word_of_budget_period weekly = "weekly"
word_of_budget_period monthly = "monthly"
word_of_budget_period quarterly = "quarterly"
word_of_budget_period yearly = "yearly"

-- `BudgetOut`
pub record BudgetOut : Type 0 where
  pub id : String
  pub name : String
  pub category_id : Option String
  pub period : BudgetPeriod
  pub amount_minor : ℤ
  pub currency : String
  pub actual_minor : Option ℤ
  pub remaining_minor : Option ℤ
  pub is_demo : Bool
  pub created_at : String
  pub updated_at : String

-- `CreateBudgetPayload`
pub record CreateBudgetPayload : Type 0 where
  pub name : String
  pub category_id : Option (Option String)
  pub period : BudgetPeriod
  pub amount_minor : ℤ
  pub currency : String

abbrev pub entries_of_create_budget : CreateBudgetPayload → Entries
entries_of_create_budget p =
    given "name" (string p.name)
    ∷ optional "category_id" (nullable string) p.category_id
    ∷ given "period" (string (word_of_budget_period p.period))
    ∷ given "amount_minor" (number p.amount_minor)
    ∷ given "currency" (string p.currency)
    ∷ []

-- `UpdateBudgetPayload`
pub record UpdateBudgetPayload : Type 0 where
  pub name : Option String
  pub category_id : Option (Option String)
  pub period : Option BudgetPeriod
  pub amount_minor : Option ℤ
  pub currency : Option String

abbrev pub entries_of_update_budget : UpdateBudgetPayload → Entries
entries_of_update_budget p =
    optional "name" string p.name
    ∷ optional "category_id" (nullable string) p.category_id
    ∷ optional "period" (λ x. string (word_of_budget_period x)) p.period
    ∷ optional "amount_minor" number p.amount_minor
    ∷ optional "currency" string p.currency
    ∷ []

abbrev pub after_budget_change : List Key
after_budget_change = key_of budgets ∷ []

-- The mutations, with the arguments of their hooks and the variables they are fired with.
pub data BudgetMutation : Type 0 where
  create_budget : CreateBudgetPayload → BudgetMutation
  update_budget : String → UpdateBudgetPayload → BudgetMutation
  delete_budget : String → BudgetMutation

abbrev pub budget_mutation : BudgetMutation → Mutation
budget_mutation (create_budget payload) =
    post_to "/budgets" (entries_of_create_budget payload) after_budget_change
budget_mutation (update_budget id payload) =
    patch_to (template ("/budgets/" ∷ id ∷ [])) (entries_of_update_budget payload)
      after_budget_change
budget_mutation (delete_budget id) =
    delete_at (template ("/budgets/" ∷ id ∷ [])) after_budget_change
