-- ===== src/Forms/Schedule.antt =====
-- The form of a schedule (web/src/features/planned/ScheduleForm.tsx): how it opens and what a submit
-- sends. An id makes the submit an edit. An interval is the number that its digits write, where the
-- source has the double nearest to it.
pub mod Interval
pub mod Resubmitted
use pecunia.Prelude.{
  ℕ, String, Bool, ◌||◌, Option, none, some, List, [], ◌∷◌, str_eq, ◌==◌, if◌then◌else◌,
}
use pecunia.Prelude.Int.{ℤ, pos, neg_ℤ, leb_ℤ, ltb_ℤ, abs_ℤ}
use mathlib.Core.Option
use pecunia.Prelude.Text.{Text, is_digit, value, trim_start, show}
use pecunia.Money.{Intl}
use pecunia.Money.Amount.{amount_to_minor, minor_to_amount_input}
use pecunia.Api.{Outcome}
use pecunia.Hooks.{Mutation}
use pecunia.Hooks.Accounts.{AccountOut}
use pecunia.Hooks.Planned.{
  ScheduleFrequency, schedule_mutation, create_schedule, update_schedule, monthly,
}
use pecunia.Forms.{
  FormErrors, with_amount_error, Submission, stays, detail_of, message_of, or_null, trimmed,
}
use pecunia.Forms.Transaction.{find_account, currency_or_usd, or_else, first_id, filled_category}
use pecunia.Hooks.ScheduleOrder.{ScheduledTransactionOut}
use pecunia.Forms.Reading.{send_read, field_message, shown_errors}

pub data Direction : Type 0 where
  expense income : Direction

pub record ScheduleForm : Type 0 where
  pub schedule_id : Option String
  pub accounts : List AccountOut
  pub account_id : String
  pub direction : Direction
  pub category_id : String
  pub contact_id : String
  pub amount : Text
  pub description : String
  pub frequency : ScheduleFrequency
  pub interval : Text
  pub next_due : String
  pub end_date : String

abbrev pub direction_of : ℤ → Direction
direction_of amount_minor = if ltb_ℤ amount_minor (pos 0) then expense else income

-- `String(n)` of an integer.
abbrev pub text_of : ℤ → Text
text_of n = if ltb_ℤ n (pos 0) then b'-' ∷ show (abs_ℤ n) else show (abs_ℤ n)

-- The form as it opens, for the id of a preselected account.
unfoldable pub open_form :
    Intl → Option ScheduledTransactionOut → List AccountOut → Option String → ScheduleForm
open_form intl (some s) accounts default_account_id = record {
  schedule_id = some s.id;
  accounts = accounts;
  account_id = s.account_id;
  direction = direction_of s.amount_minor;
  category_id = or_else s.category_id "";
  contact_id = or_else s.contact_id "";
  amount = minor_to_amount_input intl s.amount_minor s.currency;
  description = s.description;
  frequency = s.frequency;
  interval = text_of s.interval_count;
  next_due = s.next_due;
  end_date = or_else s.end_date "";
}
open_form intl none accounts default_account_id = record {
  schedule_id = none;
  accounts = accounts;
  account_id = or_else default_account_id (first_id accounts);
  direction = expense;
  category_id = "";
  contact_id = "";
  amount = [];
  description = "";
  frequency = monthly;
  interval = text_of (pos 1);
  next_due = "";
  end_date = "";
}

-- `handleContactChange`, with the default category of the contact that was chosen.
unfoldable pub handle_contact_change : String → Option String → ScheduleForm → ScheduleForm
handle_contact_change id default_category_id form = record {
  schedule_id = form.schedule_id;
  accounts = form.accounts;
  account_id = form.account_id;
  direction = form.direction;
  category_id = filled_category default_category_id form.category_id;
  contact_id = id;
  amount = form.amount;
  description = form.description;
  frequency = form.frequency;
  interval = form.interval;
  next_due = form.next_due;
  end_date = form.end_date;
}

-- The account's currency, or else USD.
abbrev pub schedule_currency : ScheduleForm → String
schedule_currency form = currency_or_usd (find_account form.account_id form.accounts)

abbrev pub digits_front : Text → Text
digits_front [] = []
digits_front (c ∷ t) = let rest = digits_front t in if is_digit c then c ∷ rest else []

abbrev pub number_of : Text → Option ℕ
number_of [] = none
number_of (c ∷ t) = some (value (c ∷ t))

-- A sign and then digits; whatever follows them is left.
abbrev pub signed_number : Text → Option ℤ
signed_number [] = none
signed_number (c ∷ t) =
    if c == b'-'
    then Option.map (λ n. neg_ℤ (pos n)) (number_of (digits_front t))
    else if c == b'+'
    then Option.map pos (number_of (digits_front t))
    else Option.map pos (number_of (digits_front (c ∷ t)))

-- `Number.parseInt(text, 10)`, none for NaN.
unfoldable pub parse_int : Text → Option ℤ
parse_int t = signed_number (trim_start t)

-- `Math.max(1, n || 1)`
abbrev pub at_least_one : Option ℤ → ℤ
at_least_one none = pos 1
at_least_one (some n) = if leb_ℤ n (pos 1) then pos 1 else n

unfoldable pub interval_count : Text → ℤ
interval_count interval = at_least_one (parse_int interval)

abbrev pub signed_by : Direction → ℕ → ℤ
signed_by expense magnitude = neg_ℤ (pos magnitude)
signed_by income magnitude = pos magnitude

abbrev pub schedule_by : ScheduleForm → Option String → ℕ → Mutation
schedule_by form none magnitude = schedule_mutation (
    create_schedule (record {
      account_id = form.account_id;
      category_id = some (or_null form.category_id);
      contact_id = some (or_null form.contact_id);
      amount_minor = signed_by form.direction magnitude;
      currency = schedule_currency form;
      description = trimmed form.description;
      frequency = form.frequency;
      interval_count = some (interval_count form.interval);
      next_due = form.next_due;
      end_date = some (or_null form.end_date);
    }))
schedule_by form (some id) magnitude = schedule_mutation (
    update_schedule id (record {
      account_id = some form.account_id;
      category_id = some (or_null form.category_id);
      contact_id = some (or_null form.contact_id);
      amount_minor = some (signed_by form.direction magnitude);
      currency = some (schedule_currency form);
      description = some (trimmed form.description);
      frequency = some form.frequency;
      interval_count = some (interval_count form.interval);
      next_due = some form.next_due;
      end_date = some (or_null form.end_date);
      is_active = none;
    }))

abbrev pub schedule_incomplete : ScheduleForm → Bool
schedule_incomplete form =
    str_eq form.account_id "" || (str_eq (trimmed form.description) "" || str_eq form.next_due "")

-- `handleSubmit` of a schedule.
unfoldable pub schedule_submission : Intl → ScheduleForm → Submission
schedule_submission intl form =
    if schedule_incomplete form
    then stays
    else send_read (with_amount_error "Enter a valid amount.") (schedule_by form form.schedule_id)
        (amount_to_minor intl form.amount (schedule_currency form))

abbrev schedule_field_copy : List (String × String)
schedule_field_copy =
    ("SCHEDULE_ZERO_AMOUNT", "The amount can't be zero.")
    ∷ ("CURRENCY_MISMATCH", "This amount's currency doesn't match the selected account.")
    ∷ []

abbrev schedule_copy : List (String × String)
schedule_copy =
    ("ACCOUNT_NOT_FOUND", "Couldn't find that account. It may have been removed.")
    ∷ ("CATEGORY_NOT_FOUND", "Couldn't find that category. It may have been removed.")
    ∷ ("CONTACT_NOT_FOUND", "Couldn't find that contact. It may have been removed.")
    ∷ []

-- What the `catch` of a schedule shows.
pub schedule_errors : Outcome → FormErrors
schedule_errors outcome =
    shown_errors (field_message schedule_field_copy (detail_of outcome)) (
      message_of schedule_copy "Couldn't save this schedule. Please try again." (detail_of outcome))
