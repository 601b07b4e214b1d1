-- ===== src/Forms/Goal.antt =====
-- The form of a goal (web/src/features/goals/GoalForm.tsx).
pub mod Sent
pub mod Description
pub mod Built
pub mod Described
use pecunia.Prelude.{
  ℕ, String, Bool, true, false, not, ◌&&◌, Option, none, some, List, [], ◌∷◌, str_eq, if◌then◌else◌,
}
use pecunia.Prelude.Int.{ℤ, pos}
use pecunia.Prelude.Text.{Text, trim}
use pecunia.Money.{Intl}
use pecunia.Money.Amount.{amount_to_minor}
use pecunia.Api.{Outcome}
use pecunia.Hooks.{Mutation}
use pecunia.Hooks.Accounts.{AccountOut}
use pecunia.Hooks.Portfolios.{PortfolioOut}
use pecunia.Hooks.Goals.{
  GoalSourceKind, account, portfolio, net_worth, manual, CreateGoalPayload, UpdateGoalPayload,
  goal_mutation, create_goal, update_goal,
}
use pecunia.Forms.{
  FormErrors, with_amount_error, with_second_error, with_error, Submission, stays, refused, sends,
  detail_of, message_of, or_null, trimmed,
}
use pecunia.Forms.Transaction.{find_account}

pub record GoalForm : Type 0 where
  -- The id of the goal that is edited.
  pub goal_id : Option String
  pub accounts : List AccountOut
  pub portfolios : List PortfolioOut
  pub name : String
  pub source_kind : GoalSourceKind
  pub account_id : String
  pub portfolio_id : String
  pub free_currency : String
  pub target : Text
  pub target_date : String
  pub manual_current : Text

abbrev pub find_portfolio : String → List PortfolioOut → Option PortfolioOut
find_portfolio id [] = none
find_portfolio id (p ∷ portfolios) =
    let rest = find_portfolio id portfolios in if str_eq p.id id then some p else rest

abbrev pub account_currency : Option AccountOut → String → String
account_currency none free_currency = free_currency
account_currency (some a) free_currency = a.currency

abbrev pub portfolio_currency : Option PortfolioOut → String → String
portfolio_currency none free_currency = free_currency
portfolio_currency (some p) free_currency = p.currency

abbrev pub currency_by : GoalSourceKind → GoalForm → String
currency_by account form =
    account_currency (find_account form.account_id form.accounts) form.free_currency
currency_by portfolio form =
    portfolio_currency (find_portfolio form.portfolio_id form.portfolios) form.free_currency
currency_by net_worth form = form.free_currency
currency_by manual form = form.free_currency

-- `effectiveCurrency`
unfoldable pub effective_currency : GoalForm → String
effective_currency form = currency_by form.source_kind form

abbrev pub source_by : GoalSourceKind → GoalForm → Option String
source_by account form = or_null form.account_id
source_by portfolio form = or_null form.portfolio_id
source_by net_worth form = none
source_by manual form = none

-- `sourceId`
abbrev pub source_id : GoalForm → Option String
source_id form = source_by form.source_kind form

-- A present key for a value, and no key for null.
abbrev pub unless_null : {A : Type 0} → Option A → Option (Option A)
unless_null none = none
unless_null (some a) = some (some a)

abbrev pub update_payload : GoalForm → ℕ → Option ℤ → UpdateGoalPayload
update_payload form target_minor manual_current_minor = record {
  name = some (trimmed form.name);
  target_minor = some (pos target_minor);
  currency = some (effective_currency form);
  target_date = some (or_null form.target_date);
  source_kind = some form.source_kind;
  source_id = some (source_id form);
  manual_current_minor = some manual_current_minor;
}

abbrev pub create_payload : GoalForm → ℕ → Option ℤ → CreateGoalPayload
create_payload form target_minor manual_current_minor = record {
  name = trimmed form.name;
  target_minor = pos target_minor;
  currency = effective_currency form;
  target_date = unless_null (or_null form.target_date);
  source_kind = some form.source_kind;
  source_id = unless_null (source_id form);
  manual_current_minor = unless_null manual_current_minor;
}

abbrev pub mutation_by : GoalForm → Option String → ℕ → Option ℤ → Mutation
mutation_by form none target_minor manual_current_minor =
    goal_mutation (create_goal (create_payload form target_minor manual_current_minor))
mutation_by form (some id) target_minor manual_current_minor =
    goal_mutation (update_goal id (update_payload form target_minor manual_current_minor))

abbrev pub is_manual : GoalSourceKind → Bool
is_manual manual = true
is_manual account = false
is_manual portfolio = false
is_manual net_worth = false

abbrev pub is_empty : Text → Bool
is_empty [] = true
is_empty (c ∷ t) = false

abbrev pub with_parsed : GoalForm → ℕ → Option ℕ → Submission
with_parsed form target_minor none = refused (with_second_error "Enter a valid amount.")
with_parsed form target_minor (some n) =
    sends (mutation_by form form.goal_id target_minor (some (pos n)))

-- The current progress counts only for a manual goal whose field is not blank.
abbrev pub with_target : Intl → GoalForm → Option ℕ → Submission
with_target intl form none = refused (with_amount_error "Enter a valid amount.")
with_target intl form (some target_minor) =
    if is_manual form.source_kind && not (is_empty (trim form.manual_current))
    then with_parsed form target_minor
        (amount_to_minor intl form.manual_current (effective_currency form))
    else sends (mutation_by form form.goal_id target_minor none)

-- `handleSubmit` up to what it sends.
unfoldable pub goal_submission : Intl → GoalForm → Submission
goal_submission intl form =
    if str_eq (trimmed form.name) ""
    then stays
    else with_target intl form (amount_to_minor intl form.target (effective_currency form))

abbrev goal_copy : List (String × String)
goal_copy =
    ("GOAL_CURRENCY_MISMATCH", "This goal's currency must match its source's own currency.")
    ∷ ("GOAL_SOURCE_REQUIRED", "Choose an account or portfolio for this goal.")
    ∷ ("ACCOUNT_NOT_FOUND", "Couldn't find that source. It may have been removed.")
    ∷ ("PORTFOLIO_NOT_FOUND", "Couldn't find that source. It may have been removed.")
    ∷ ("GOAL_NOT_FOUND", "Couldn't find that goal. It may have been removed.")
    ∷ []

-- What the `catch` shows (`goalErrorMessage`).
pub goal_errors : Outcome → FormErrors
goal_errors outcome =
    with_error
      (message_of goal_copy "Couldn't save this goal. Please try again." (detail_of outcome))
