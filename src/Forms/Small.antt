-- ===== src/Forms/Small.antt =====
-- The forms with one amount: of a valuation (web/src/features/assets/ValuationForm.tsx), of a price
-- (web/src/features/portfolio/PriceUpdateForm.tsx), of a part of a project
-- (web/src/features/projects/ProjectItemForm.tsx) and of a budget
-- (web/src/features/budgets/BudgetForm.tsx). In the last two an id makes the submit an edit.
pub mod Sent
use pecunia.Prelude.{ℕ, String, Option, none, some, [], ◌∷◌, str_eq, if◌then◌else◌}
use pecunia.Prelude.Int.{pos}
use pecunia.Prelude.Text.{Text}
use pecunia.Money.{Intl}
use pecunia.Money.Amount.{amount_to_minor}
use pecunia.Api.{Outcome}
use pecunia.Hooks.{Mutation}
use pecunia.Hooks.Assets.{asset_mutation, add_valuation}
use pecunia.Hooks.Portfolios.{portfolio_mutation, record_price}
use pecunia.Hooks.Projects.{project_mutation, add_project_item, update_project_item}
use pecunia.Hooks.Budgets.{BudgetPeriod, budget_mutation, create_budget, update_budget}
use pecunia.Forms.{
  FormErrors, with_amount_error, with_error, Submission, stays, refused, sends, detail_of,
  message_of, or_null, trimmed,
}

-- What the four submits share: nothing is sent from an incomplete form, and an amount that cannot
-- be read is shown.
abbrev pub with_read : (ℕ → Mutation) → Option ℕ → Submission
with_read mutation none = refused (with_amount_error "Enter a valid amount.")
with_read mutation (some minor) = sends (mutation minor)

pub record ValuationForm : Type 0 where
  pub value : Text
  pub as_of : String
  pub source : String

abbrev pub valuation_by : String → ValuationForm → ℕ → Mutation
valuation_by asset_id form value_minor = asset_mutation (
    add_valuation asset_id (record {
      value_minor = pos value_minor;
      as_of = form.as_of;
      source = some (or_null (trimmed form.source));
    }))

-- `handleSubmit` of a valuation, for an asset in the currency.
unfoldable pub valuation_submission : Intl → String → String → ValuationForm → Submission
valuation_submission intl asset_id currency form =
    if str_eq form.as_of ""
    then stays
    else with_read (valuation_by asset_id form) (amount_to_minor intl form.value currency)

pub record PriceForm : Type 0 where
  pub price : Text
  pub as_of : String
  pub source : String

abbrev pub price_by : String → String → PriceForm → ℕ → Mutation
price_by portfolio_id holding_id form unit_price_minor = portfolio_mutation (
    record_price portfolio_id holding_id (record {
      unit_price_minor = pos unit_price_minor;
      as_of = form.as_of;
      source = some (or_null (trimmed form.source));
    }))

-- `handleSubmit` of a price, for a holding in the currency.
unfoldable pub price_submission : Intl → String → String → String → PriceForm → Submission
price_submission intl portfolio_id holding_id currency form =
    if str_eq form.as_of ""
    then stays
    else with_read (price_by portfolio_id holding_id form)
        (amount_to_minor intl form.price currency)

pub record ItemForm : Type 0 where
  pub item_id : Option String
  pub name : String
  pub amount : Text

abbrev pub item_by : String → ItemForm → Option String → ℕ → Mutation
item_by project_id form none amount_minor = project_mutation (
    add_project_item project_id
      (record { name = trimmed form.name; amount_minor = pos amount_minor }))
item_by project_id form (some item_id) amount_minor = project_mutation (
    update_project_item project_id item_id
      (record { name = some (trimmed form.name); amount_minor = some (pos amount_minor) }))

-- `handleSubmit` of a part, for a project in the currency.
unfoldable pub item_submission : Intl → String → String → ItemForm → Submission
item_submission intl project_id currency form =
    if str_eq (trimmed form.name) ""
    then stays
    else with_read (item_by project_id form form.item_id)
        (amount_to_minor intl form.amount currency)

pub record BudgetForm : Type 0 where
  pub budget_id : Option String
  pub name : String
  pub category_id : String
  pub period : BudgetPeriod
  pub currency : String
  pub amount : Text

abbrev pub budget_by : BudgetForm → Option String → ℕ → Mutation
budget_by form none amount_minor = budget_mutation (
    create_budget (record {
      name = trimmed form.name;
      category_id = some (or_null form.category_id);
      period = form.period;
      amount_minor = pos amount_minor;
      currency = form.currency;
    }))
budget_by form (some budget_id) amount_minor = budget_mutation (
    update_budget budget_id (record {
      name = some (trimmed form.name);
      category_id = some (or_null form.category_id);
      period = some form.period;
      amount_minor = some (pos amount_minor);
      currency = some form.currency;
    }))

-- `handleSubmit` of a budget.
unfoldable pub budget_submission : Intl → BudgetForm → Submission
budget_submission intl form =
    if str_eq (trimmed form.name) ""
    then stays
    else with_read (budget_by form form.budget_id) (amount_to_minor intl form.amount form.currency)

-- What the `catch` of a budget shows (`budgetErrorMessage`).
pub budget_errors : Outcome → FormErrors
budget_errors outcome = with_error (
    message_of
      (("CATEGORY_NOT_FOUND", "Couldn't find that category. It may have been removed.") ∷ [])
      "Couldn't save this budget. Please try again." (detail_of outcome))
