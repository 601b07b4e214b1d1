-- ===== src/Forms/Subscription.antt =====
-- The form of a subscription (web/src/features/subscriptions/SubscriptionForm.tsx): how the
-- form of an edit opens, and what a submit sends. An id makes the submit an edit.
pub mod Resubmitted
use pecunia.Prelude.{
  ℕ, String, Bool, ◌||◌, Option, none, some, List, [], ◌∷◌, str_eq, if◌then◌else◌,
}
use pecunia.Prelude.Int.{pos}
use pecunia.Prelude.Text.{Text}
use pecunia.Money.{Intl}
use pecunia.Money.Amount.{amount_to_minor, minor_to_amount_input}
use pecunia.Api.{Outcome}
use pecunia.Hooks.{Mutation}
use pecunia.Hooks.Subscriptions.{
  BillingFrequency, SubscriptionStatus, subscription_mutation, create_subscription,
  update_subscription,
}
use pecunia.Forms.{
  FormErrors, with_amount_error, Submission, stays, detail_of, message_of, or_null, trimmed,
}
use pecunia.Forms.Goal.{unless_null}
use pecunia.Hooks.SubscriptionOrder.{SubscriptionOut}
use pecunia.Forms.Transaction.{or_else}
use pecunia.Forms.Reading.{send_read, field_message, shown_errors}

pub record SubscriptionForm : Type 0 where
  pub subscription_id : Option String
  pub name : String
  pub logo : Option String
  pub currency : String
  pub amount : Text
  pub frequency : BillingFrequency
  pub next_renewal : String
  pub started_on : String
  pub contact_id : String
  pub account_id : String
  pub category_id : String
  pub status : SubscriptionStatus

-- The form of an edit as it opens.
unfoldable pub open_edit : Intl → SubscriptionOut → SubscriptionForm
open_edit intl s = record {
  subscription_id = some s.id;
  name = s.name;
  logo = s.logo;
  currency = s.currency;
  amount = minor_to_amount_input intl s.amount_minor s.currency;
  frequency = s.billing_frequency;
  next_renewal = s.next_renewal;
  started_on = or_else s.started_on "";
  contact_id = or_else s.contact_id "";
  account_id = or_else s.account_id "";
  category_id = or_else s.category_id "";
  status = s.status;
}

-- `logo ? { logo } : {}`
abbrev pub present : Option String → Option (Option String)
present none = none
present (some s) = unless_null (or_null s)

abbrev pub subscription_by : SubscriptionForm → Option String → ℕ → Mutation
subscription_by form none amount_minor = subscription_mutation (
    create_subscription (record {
      name = trimmed form.name;
      amount_minor = pos amount_minor;
      currency = form.currency;
      billing_frequency = form.frequency;
      next_renewal = form.next_renewal;
      logo = present form.logo;
      started_on = unless_null (or_null form.started_on);
      status = some form.status;
      contact_id = unless_null (or_null form.contact_id);
      account_id = unless_null (or_null form.account_id);
      category_id = unless_null (or_null form.category_id);
    }))
subscription_by form (some id) amount_minor = subscription_mutation (
    update_subscription id (record {
      name = some (trimmed form.name);
      amount_minor = some (pos amount_minor);
      currency = some form.currency;
      billing_frequency = some form.frequency;
      next_renewal = some form.next_renewal;
      status = some form.status;
      logo = some form.logo;
      started_on = some (or_null form.started_on);
      contact_id = some (or_null form.contact_id);
      account_id = some (or_null form.account_id);
      category_id = some (or_null form.category_id);
    }))

abbrev pub subscription_incomplete : SubscriptionForm → Bool
subscription_incomplete form = str_eq (trimmed form.name) "" || str_eq form.next_renewal ""

-- `handleSubmit` of a subscription.
unfoldable pub subscription_submission : Intl → SubscriptionForm → Submission
subscription_submission intl form =
    if subscription_incomplete form
    then stays
    else send_read (with_amount_error "Enter a valid amount.")
        (subscription_by form form.subscription_id) (amount_to_minor intl form.amount form.currency)

abbrev subscription_copy : List (String × String)
subscription_copy =
    (
      "LOGO_INVALID",
      "That image couldn't be saved. Please try a smaller one (PNG, JPEG, or WebP under 64KB).",
    )
    ∷ ("CONTACT_NOT_FOUND", "Couldn't find that contact. It may have been removed.")
    ∷ ("ACCOUNT_NOT_FOUND", "Couldn't find that account. It may have been removed.")
    ∷ ("CATEGORY_NOT_FOUND", "Couldn't find that category. It may have been removed.")
    ∷ ("SUBSCRIPTION_NOT_FOUND", "Couldn't find that subscription. It may have been removed.")
    ∷ []

abbrev subscription_field_copy : List (String × String)
subscription_field_copy = ("SUBSCRIPTION_NONPOSITIVE", "Enter an amount greater than zero.") ∷ []

-- What the `catch` of a subscription shows.
pub subscription_errors : Outcome → FormErrors
subscription_errors outcome =
    shown_errors (field_message subscription_field_copy (detail_of outcome)) (
      message_of subscription_copy "Couldn't save this subscription. Please try again."
        (detail_of outcome))
