-- ===== src/Forms/Worth.antt =====
-- The forms with a name and an optional amount: of an account
-- (web/src/features/accounts/AccountForm.tsx), of an asset (web/src/features/assets/AssetForm.tsx)
-- and of a project (web/src/features/projects/ProjectForm.tsx). An id makes the submit an edit.
pub mod Sent
use pecunia.Prelude.{String, Option, none, some, [], ◌∷◌, map, str_eq, if◌then◌else◌}
use pecunia.Prelude.Int.{ℤ, pos}
use mathlib.Core.Option
use pecunia.Prelude.Text.{Text, trim}
use pecunia.Money.{Intl}
use pecunia.Money.Amount.{amount_to_minor, signed_amount_to_minor}
use pecunia.Api.{Outcome}
use pecunia.Hooks.{Mutation}
use pecunia.Hooks.Accounts.{AccountType, account_mutation, create_account, update_account}
use pecunia.Hooks.Assets.{AssetType, asset_mutation, create_asset, update_asset}
use pecunia.Hooks.Projects.{
  ProjectStatus, ProjectType, project_mutation, create_project, update_project,
}
use pecunia.Forms.{
  FormErrors, with_amount_error, with_error, Submission, stays, detail_of, message_of, or_null,
  trimmed,
}
use pecunia.Forms.Goal.{is_empty, unless_null}
use pecunia.Forms.Reading.{send_read}

-- An optional amount: there is none in a blank field, and else it is to be read.
abbrev pub optional_amount : Text → Option ℤ → Option (Option ℤ)
optional_amount field parsed = if is_empty (trim field) then some none else Option.map some parsed

-- The result of `amountToMinor` as a number of either sign.
abbrev pub unsigned_amount : Intl → Text → String → Option ℤ
unsigned_amount intl field currency = Option.map pos (amount_to_minor intl field currency)

-- Nothing is read by an edit.
abbrev pub only_when_new : Option String → Option (Option ℤ) → Option (Option ℤ)
only_when_new none reading = reading
only_when_new (some id) reading = some none

abbrev pub invalid_amount : FormErrors
invalid_amount = with_amount_error "Enter a valid amount."

pub record AccountForm : Type 0 where
  pub account_id : Option String
  pub name : String
  pub type : AccountType
  pub currency : String
  pub initial_balance : Text

abbrev pub account_by : AccountForm → Option String → Option ℤ → Mutation
account_by form none initial_balance_minor = account_mutation (
    create_account (record {
      name = trimmed form.name;
      type = form.type;
      currency = form.currency;
      initial_balance_minor = initial_balance_minor;
    }))
account_by form (some id) initial_balance_minor = account_mutation (
    update_account id (record {
      name = some (trimmed form.name);
      type = some form.type;
      currency = some form.currency;
    }))

abbrev pub account_reading : Intl → AccountForm → Option (Option ℤ)
account_reading intl form = only_when_new form.account_id (
    optional_amount form.initial_balance
      (signed_amount_to_minor intl form.initial_balance form.currency))

-- `handleSubmit` of an account.
unfoldable pub account_submission : Intl → AccountForm → Submission
account_submission intl form =
    if str_eq (trimmed form.name) ""
    then stays
    else send_read invalid_amount (account_by form form.account_id) (account_reading intl form)

-- What the `catch` of an account shows (`accountErrorMessage`).
pub account_errors : Outcome → FormErrors
account_errors outcome = with_error (
    message_of
      ((
        "ACCOUNT_HAS_TRANSACTIONS",
        "This account already has transactions — its currency can't be changed.",
      )
        ∷ [])
      "Couldn't save this account. Please try again." (detail_of outcome))

pub record AssetForm : Type 0 where
  pub asset_id : Option String
  pub name : String
  pub type : AssetType
  pub currency : String
  pub acquired_on : String
  pub value : Text
  pub as_of : String

-- A first value comes with its date.
abbrev pub date_of_value : String → Option ℤ → Option String
date_of_value as_of none = none
date_of_value as_of (some value_minor) = some as_of

abbrev pub asset_by : AssetForm → Option String → Option ℤ → Mutation
asset_by form none value_minor = asset_mutation (
    create_asset (record {
      name = trimmed form.name;
      type = form.type;
      currency = form.currency;
      acquired_on = unless_null (or_null form.acquired_on);
      value_minor = value_minor;
      as_of = date_of_value form.as_of value_minor;
    }))
asset_by form (some id) value_minor = asset_mutation (
    update_asset id (record {
      name = some (trimmed form.name);
      type = some form.type;
      currency = some form.currency;
      acquired_on = some (or_null form.acquired_on);
    }))

abbrev pub asset_reading : Intl → AssetForm → Option (Option ℤ)
asset_reading intl form =
    only_when_new form.asset_id
      (optional_amount form.value (unsigned_amount intl form.value form.currency))

-- `handleSubmit` of an asset.
unfoldable pub asset_submission : Intl → AssetForm → Submission
asset_submission intl form =
    if str_eq (trimmed form.name) ""
    then stays
    else send_read invalid_amount (asset_by form form.asset_id) (asset_reading intl form)

pub record ProjectForm : Type 0 where
  pub project_id : Option String
  pub name : String
  pub currency : String
  pub status : ProjectStatus
  pub type : ProjectType
  pub target_amount : Text

abbrev pub project_by : ProjectForm → Option String → Option ℤ → Mutation
project_by form none target_amount_minor = project_mutation (
    create_project (record {
      name = trimmed form.name;
      description = none;
      target_amount_minor = unless_null target_amount_minor;
      currency = form.currency;
      status = some form.status;
      type = some form.type;
    }))
project_by form (some id) target_amount_minor = project_mutation (
    update_project id (record {
      name = some (trimmed form.name);
      description = none;
      target_amount_minor = unless_null target_amount_minor;
      currency = some form.currency;
      status = some form.status;
      type = some form.type;
    }))

abbrev pub project_reading : Intl → ProjectForm → Option (Option ℤ)
project_reading intl form =
    optional_amount form.target_amount (unsigned_amount intl form.target_amount form.currency)

-- `handleSubmit` of a project.
unfoldable pub project_submission : Intl → ProjectForm → Submission
project_submission intl form =
    if str_eq (trimmed form.name) ""
    then stays
    else send_read invalid_amount (project_by form form.project_id) (project_reading intl form)
