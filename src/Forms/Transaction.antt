-- ===== src/Forms/Transaction.antt =====
-- The form of a transaction (web/src/features/transactions/TransactionForm.tsx).
pub mod Resubmitted
use pecunia.Prelude.{
  ℕ, String, Bool, not, ◌&&◌, ◌||◌, Option, none, some, List, [], ◌∷◌, str_eq, if◌then◌else◌,
}
use pecunia.Prelude.Int.{ℤ, pos, neg_ℤ, ltb_ℤ}
use pecunia.Prelude.Text.{Text}
use pecunia.Money.{Intl}
use pecunia.Money.Amount.{amount_to_minor, minor_to_amount_input}
use pecunia.Api.{Outcome}
use pecunia.Hooks.{Mutation}
use pecunia.Hooks.Accounts.{AccountOut}
use pecunia.Hooks.Transactions.{
  TransactionOut, CreateTransactionPayload, UpdateTransactionPayload, transaction_mutation,
  create_transaction, update_transaction,
}
use pecunia.Forms.{
  FormErrors, with_amount_error, with_error, Submission, stays, refused, sends, detail_of,
  message_of, or_null, trimmed,
}

pub data Direction : Type 0 where
  inflow outflow : Direction

pub record TransactionForm : Type 0 where
  -- The transaction that is edited.
  pub transaction : Option TransactionOut
  pub accounts : List AccountOut
  pub account_id : String
  pub direction : Direction
  pub category_id : String
  pub contact_id : String
  pub project_id : String
  pub amount : Text
  pub description : String
  pub occurred_on : String

abbrev pub find_account : String → List AccountOut → Option AccountOut
find_account id [] = none
find_account id (a ∷ accounts) =
    let rest = find_account id accounts in if str_eq a.id id then some a else rest

abbrev pub currency_or_usd : Option AccountOut → String
currency_or_usd none = "USD"
currency_or_usd (some a) = a.currency

abbrev pub form_currency : TransactionForm → String
form_currency form = currency_or_usd (find_account form.account_id form.accounts)

-- `o ?? fallback`
abbrev pub or_else : Option String → String → String
or_else none fallback = fallback
or_else (some s) fallback = s

abbrev pub first_id : List AccountOut → String
first_id [] = ""
first_id (a ∷ accounts) = a.id

abbrev pub direction_of : ℤ → Direction
direction_of amount_minor = if ltb_ℤ amount_minor (pos 0) then outflow else inflow

-- The form as it opens, for the ids of a locked and of a preselected account.
unfoldable pub open_form :
    Intl
    → Option TransactionOut
    → List AccountOut
    → Option String
    → Option String
    → String
    → TransactionForm
open_form intl (some t) accounts locked_account_id default_account_id today = record {
  transaction = some t;
  accounts = accounts;
  account_id = t.account_id;
  direction = direction_of t.amount_minor;
  category_id = or_else t.category_id "";
  contact_id = or_else t.contact_id "";
  project_id = or_else t.project_id "";
  amount = minor_to_amount_input intl t.amount_minor t.currency;
  description = t.description;
  occurred_on = t.occurred_on;
}
open_form intl none accounts locked_account_id default_account_id today = record {
  transaction = none;
  accounts = accounts;
  account_id = or_else locked_account_id (or_else default_account_id (first_id accounts));
  direction = outflow;
  category_id = "";
  contact_id = "";
  project_id = "";
  amount = [];
  description = "";
  occurred_on = today;
}

abbrev pub filled_category : Option String → String → String
filled_category none category_id = category_id
filled_category (some default) category_id =
    if not (str_eq default "") && str_eq category_id "" then default else category_id

-- `handleContactChange`, with the default category of the contact that was chosen.
unfoldable pub handle_contact_change : String → Option String → TransactionForm → TransactionForm
handle_contact_change id default_category_id form = record {
  transaction = form.transaction;
  accounts = form.accounts;
  account_id = form.account_id;
  direction = form.direction;
  category_id = filled_category default_category_id form.category_id;
  contact_id = id;
  project_id = form.project_id;
  amount = form.amount;
  description = form.description;
  occurred_on = form.occurred_on;
}

abbrev pub signed_by : Direction → ℕ → ℤ
signed_by outflow magnitude = neg_ℤ (pos magnitude)
signed_by inflow magnitude = pos magnitude

-- What an edit sends.
abbrev pub update_payload : TransactionForm → ℤ → UpdateTransactionPayload
update_payload form amount_minor = record {
  account_id = some form.account_id;
  category_id = some (or_null form.category_id);
  contact_id = some (or_null form.contact_id);
  project_id = some (or_null form.project_id);
  amount_minor = some amount_minor;
  currency = some (form_currency form);
  description = some (trimmed form.description);
  occurred_on = some form.occurred_on;
}

abbrev pub create_payload : TransactionForm → ℤ → CreateTransactionPayload
create_payload form amount_minor = record {
  account_id = form.account_id;
  category_id = some (or_null form.category_id);
  contact_id = some (or_null form.contact_id);
  project_id = some (or_null form.project_id);
  amount_minor = amount_minor;
  currency = form_currency form;
  description = trimmed form.description;
  occurred_on = form.occurred_on;
}

abbrev pub mutation_by : TransactionForm → Option TransactionOut → ℤ → Mutation
mutation_by form none amount_minor =
    transaction_mutation (create_transaction (create_payload form amount_minor))
mutation_by form (some t) amount_minor =
    transaction_mutation (update_transaction t.id (update_payload form amount_minor))

abbrev pub with_magnitude : TransactionForm → Option ℕ → Submission
with_magnitude form none = refused (with_amount_error "Enter a valid amount.")
with_magnitude form (some magnitude) =
    sends (mutation_by form form.transaction (signed_by form.direction magnitude))

abbrev pub is_incomplete : TransactionForm → Bool
is_incomplete form =
    str_eq form.account_id ""
    || (str_eq (trimmed form.description) "" || str_eq form.occurred_on "")

-- `handleSubmit` up to what it sends.
unfoldable pub transaction_submission : Intl → TransactionForm → Submission
transaction_submission intl form =
    if is_incomplete form
    then stays
    else with_magnitude form (amount_to_minor intl form.amount (form_currency form))

abbrev pub callout_copy : List (String × String)
callout_copy =
    ("ACCOUNT_NOT_FOUND", "Couldn't find that account. It may have been removed.")
    ∷ ("CATEGORY_NOT_FOUND", "Couldn't find that category. It may have been removed.")
    ∷ ("CONTACT_NOT_FOUND", "Couldn't find that contact. It may have been removed.")
    ∷ ("PROJECT_NOT_FOUND", "Couldn't find that project. It may have been removed.")
    ∷ []

-- What the `catch` shows (`amountFieldError`, `calloutError`).
abbrev pub errors_of_detail : Option String → FormErrors
errors_of_detail none = with_error "Couldn't save this transaction. Please try again."
errors_of_detail (some detail) =
    if str_eq detail "CURRENCY_MISMATCH"
    then with_amount_error "This amount's currency doesn't match the selected account."
    else with_error
        (message_of callout_copy "Couldn't save this transaction. Please try again." (some detail))

unfoldable pub transaction_errors : Outcome → FormErrors
transaction_errors outcome = errors_of_detail (detail_of outcome)
