-- ===== src/Forms/Transfer.antt =====
-- The form of a transfer (web/src/features/transfers/TransferForm.tsx).
pub mod Guards
pub mod Picking
use pecunia.Prelude.{
  ℕ, zero, String, Bool, false, not, ◌&&◌, Option, none, some, List, [], ◌∷◌, str_eq, filter, ◌==◌,
  if◌then◌else◌,
}
use pecunia.Prelude.Int.{pos}
use pecunia.Prelude.Text.{Text}
use pecunia.Money.{Intl}
use pecunia.Money.Amount.{amount_to_minor, minor_to_amount_input}
use pecunia.Api.{Outcome}
use pecunia.Hooks.{Mutation}
use pecunia.Hooks.Accounts.{AccountOut}
use pecunia.Hooks.Transfers.{
  TransferOut, CreateTransferPayload, UpdateTransferPayload, transfer_mutation, create_transfer,
  update_transfer,
}
use pecunia.Forms.{
  FormErrors, with_amount_error, with_error, Submission, stays, refused, sends, detail_of,
  message_of, trimmed,
}
use pecunia.Forms.Transaction.{find_account, currency_or_usd, or_else, first_id}

pub record TransferForm : Type 0 where
  -- The transfer that is edited.
  pub transfer : Option TransferOut
  pub accounts : List AccountOut
  pub from_id : String
  pub to_id : String
  pub amount : Text
  pub description : String
  pub occurred_on : String

-- `accounts.find((a) => a.id !== defaultFrom)?.id ?? ""`
abbrev pub first_other : String → List AccountOut → String
first_other id [] = ""
first_other id (a ∷ accounts) =
    let rest = first_other id accounts in if str_eq a.id id then rest else a.id

-- The form as it opens, for the id of a preselected account.
unfoldable pub open_form :
    Intl → Option TransferOut → List AccountOut → Option String → String → TransferForm
open_form intl (some t) accounts default_from_account_id today = record {
  transfer = some t;
  accounts = accounts;
  from_id = t.from_account_id;
  to_id = t.to_account_id;
  amount = minor_to_amount_input intl t.amount_minor t.currency;
  description = t.description;
  occurred_on = t.occurred_on;
}
open_form intl none accounts default_from_account_id today = record {
  transfer = none;
  accounts = accounts;
  from_id = or_else default_from_account_id (first_id accounts);
  to_id = first_other (or_else default_from_account_id (first_id accounts)) accounts;
  amount = [];
  description = "";
  occurred_on = today;
}

-- The accounts that the two selects offer: each leaves out the other side's.
abbrev pub options_without : String → List AccountOut → List AccountOut
options_without id accounts = filter (λ a. not (str_eq a.id id)) accounts

abbrev pub from_options : TransferForm → List AccountOut
from_options form = options_without form.to_id form.accounts

abbrev pub to_options : TransferForm → List AccountOut
to_options form = options_without form.from_id form.accounts

abbrev pub same_account : TransferForm → Bool
same_account form = not (str_eq form.from_id "") && str_eq form.from_id form.to_id

abbrev pub differ : Option AccountOut → Option AccountOut → Bool
differ none to_account = false
differ (some a) none = false
differ (some a) (some b) = not (str_eq a.currency b.currency)

abbrev pub currency_mismatch : TransferForm → Bool
currency_mismatch form =
    differ (find_account form.from_id form.accounts) (find_account form.to_id form.accounts)

-- `guard`
abbrev pub guard_of : TransferForm → Option String
guard_of form =
    if same_account form
    then some "Choose two different accounts to transfer between."
    else if currency_mismatch form
    then some "Both accounts must use the same currency — Pecunia doesn't convert currencies."
    else none

-- `canSubmit`
unfoldable pub can_submit : TransferForm → Bool
can_submit form =
    not (str_eq form.from_id "")
    && (not (str_eq form.to_id "")
        && (not (same_account form)
            && (not (currency_mismatch form)
                && (not (str_eq (trimmed form.description) "")
                    && not (str_eq form.occurred_on "")))))

abbrev pub currency_of : TransferForm → String
currency_of form = currency_or_usd (find_account form.from_id form.accounts)

abbrev pub create_payload : TransferForm → ℕ → CreateTransferPayload
create_payload form amount_minor = record {
  from_account_id = form.from_id;
  to_account_id = form.to_id;
  amount_minor = pos amount_minor;
  currency = currency_of form;
  description = trimmed form.description;
  occurred_on = form.occurred_on;
}

abbrev pub update_payload : TransferForm → ℕ → UpdateTransferPayload
update_payload form amount_minor = record {
  from_account_id = some form.from_id;
  to_account_id = some form.to_id;
  amount_minor = some (pos amount_minor);
  description = some (trimmed form.description);
  occurred_on = some form.occurred_on;
}

abbrev pub mutation_by : TransferForm → Option TransferOut → ℕ → Mutation
mutation_by form none amount_minor =
    transfer_mutation (create_transfer (create_payload form amount_minor))
mutation_by form (some t) amount_minor =
    transfer_mutation (update_transfer t.id (update_payload form amount_minor))

abbrev pub with_amount : TransferForm → Option ℕ → Submission
with_amount form none = refused (with_amount_error "Enter a valid amount.")
with_amount form (some amount_minor) =
    if amount_minor == 0
    then refused (with_amount_error "Enter an amount greater than zero.")
    else sends (mutation_by form form.transfer amount_minor)

-- `handleSubmit` up to what it sends.
unfoldable pub transfer_submission : Intl → TransferForm → Submission
transfer_submission intl form =
    if can_submit form
    then with_amount form (amount_to_minor intl form.amount (currency_of form))
    else stays

abbrev pub transfer_copy : List (String × String)
transfer_copy =
    (
      "TRANSFER_CURRENCY_MISMATCH",
      "Both accounts must use the same currency — Pecunia doesn't convert currencies.",
    )
    ∷ ("TRANSFER_SAME_ACCOUNT", "Choose two different accounts to transfer between.")
    ∷ ("TRANSFER_NONPOSITIVE", "Enter an amount greater than zero.")
    ∷ ("ACCOUNT_NOT_FOUND", "Couldn't find one of those accounts. It may have been removed.")
    ∷ []

-- What the `catch` shows (`transferError`).
unfoldable pub transfer_errors : Outcome → FormErrors
transfer_errors outcome =
    with_error (
      message_of transfer_copy "Couldn't save this transfer. Please try again." (detail_of outcome))
