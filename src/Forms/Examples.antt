-- ===== src/Forms/Examples.antt =====
-- The forms of the resources on concrete fields.
use pecunia.Prelude.{◌≡◌, refl, ◌↔◌, true, false, none, some, [], ◌∷◌}
use pecunia.Prelude.Int.{neg_ℤ, pos, negsuc, pos_part}
use pecunia.Prelude.Text.{codes, is_space, show, trim, trim_start, split_on}
use pecunia.Money.{Intl}
use pecunia.Hooks.Accounts.{AccountOut, checking}
use pecunia.Hooks.Planned.{monthly, schedule_mutation, update_schedule}
use pecunia.Hooks.ScheduleOrder.{ScheduledTransactionOut}
use pecunia.Hooks.Projects.{active, saving}
use pecunia.Hooks.Categories.{expense}
use pecunia.Hooks.Contacts.{person}
use pecunia.Quantity.{parse_quantity, accepts}
use pecunia.Quantity.Accepted.{IsQuantity, parse_quantity-IsQuantity}
use pecunia.Forms.{sends, trimmed}
use pecunia.Forms.Named.{PortfolioForm, HoldingForm, CategoryForm, ContactForm}
use pecunia.Forms.Worth.{ProjectForm, project_by, project_submission}
use pecunia.Forms.Worth.Sent.{in_body, project_blank_target}
use pecunia.Hooks.Subscriptions.{
  BillingFrequency, active as live, subscription_mutation, update_subscription,
}
use pecunia.Hooks.SubscriptionOrder.{SubscriptionOut}
use pecunia.Forms.Subscription.{open_edit, subscription_submission}
use pecunia.Forms.Subscription.Resubmitted.{
  IsShown as IsShownSubscription, own_payload as own_subscription,
  subscription_submission-open_edit,
}
use pecunia.Forms.Schedule.{open_form, schedule_submission, interval_count, parse_int}
use pecunia.Forms.Schedule.Resubmitted.{IsShown, own_payload, schedule_submission-open_form}

abbrev intl : Intl
intl = record {
  minimum_fraction_digits = λ locale currency. some 2;
  format = λ locale currency amount. show (pos_part amount.num);
}

quantity_test :
    (parse_quantity " 12.50 " ≡ some "12.50")
    × (parse_quantity "0.0" ≡ none)
    × (parse_quantity ".5" ≡ some ".5")
unfolding parse_quantity accepts trimmed is_space split_on
quantity_test = (refl, refl, refl)

intervals :
    (interval_count (codes " 12x") ≡ pos 12)
    × (interval_count (codes "-3") ≡ pos 1)
    × (interval_count [] ≡ pos 1)
unfolding interval_count parse_int trim_start is_space neg_ℤ
intervals = (refl, refl, refl)

quantity_example :
    (parse_quantity " 2.5" ≡ some "2.5") ↔ (("2.5" ≡ trimmed " 2.5") × IsQuantity (codes "2.5"))
quantity_example = parse_quantity-IsQuantity " 2.5" "2.5"

abbrev portfolio : PortfolioForm
portfolio = record { portfolio_id = none; name = "stocks"; currency = "BRL"; description = " " }

abbrev category : CategoryForm
category = record { category_id = some "c1"; name = ""; kind = expense; color = "red"; icon = "" }

abbrev contact : ContactForm
contact = record {
  contact_id = none;
  name = " Ana ";
  type = person;
  default_category_id = "";
  avatar = none;
}

abbrev holding : HoldingForm
holding = record {
  holding_id = none;
  name = "coin";
  symbol = "";
  quantity = " 2.5";
  coingecko_id = "";
}

abbrev project : ProjectForm
project = record {
  project_id = some "j1";
  name = "roof";
  currency = "BRL";
  status = active;
  type = saving;
  target_amount = codes " ";
}

saved_project : project_submission intl project ≡ sends (project_by project (some "j1") none)
unfolding project_submission trimmed is_space trim
saved_project = refl

blank_target_example :
    in_body "target_amount_minor" (project_by project (some "j1") none).body ≡ none
unfolding trim is_space
blank_target_example =
    project_blank_target intl project (project_by project (some "j1") none) refl saved_project

abbrev account : AccountOut
account = record {
  id = "a1";
  name = "bank";
  type = checking;
  currency = "BRL";
  initial_balance_minor = pos 0;
  balance_minor = pos 0;
  is_demo = false;
  archived_at = none;
  created_at = "";
  updated_at = "";
}

abbrev rent : ScheduledTransactionOut
rent = record {
  id = "s1";
  account_id = "a1";
  category_id = some "c1";
  contact_id = none;
  amount_minor = negsuc 124999;
  currency = "BRL";
  description = "rent";
  frequency = monthly;
  interval_count = pos 3;
  next_due = "2026-01-05";
  end_date = none;
  is_active = true;
  is_demo = false;
  created_at = "";
  updated_at = "";
}

rent-IsShown : IsShown (account ∷ []) rent
unfolding trimmed is_space
rent-IsShown = record {
  own_account = account;
  found = refl;
  same_currency = refl;
  below_interval = 2;
  at_least_one = refl;
  trimmed_text = refl;
  set_account = refl;
  set_text = refl;
  set_due = refl;
  set_category = refl;
  set_contact = _;
  set_end = _;
}

schedule_example :
    schedule_submission intl (open_form intl (some rent) (account ∷ []) none)
    ≡ sends (schedule_mutation (update_schedule "s1" (own_payload rent)))
schedule_example = schedule_submission-open_form intl (account ∷ []) rent none rent-IsShown

abbrev music : SubscriptionOut
music = record {
  id = "u1";
  name = "music";
  logo = none;
  amount_minor = pos 990;
  currency = "BRL";
  billing_frequency = BillingFrequency.monthly;
  next_renewal = "2026-01-01";
  started_on = none;
  status = live;
  contact_id = none;
  account_id = some "a1";
  category_id = none;
  is_demo = false;
  created_at = "";
  monthly_minor = pos 990;
  annual_minor = pos 11880;
}

music-IsShown : IsShownSubscription music
unfolding trimmed is_space
music-IsShown = record {
  own_amount = 990;
  not_negative = refl;
  trimmed_name = refl;
  set_name = refl;
  set_renewal = refl;
  set_start = _;
  set_contact = _;
  set_account = refl;
  set_category = _;
}

subscription_example :
    subscription_submission intl (open_edit intl music)
    ≡ sends (subscription_mutation (update_subscription "u1" (own_subscription music)))
subscription_example = subscription_submission-open_edit intl music music-IsShown
