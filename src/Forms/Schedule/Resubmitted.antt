-- ===== src/Forms/Schedule/Resubmitted.antt =====
-- An edit of a schedule that changes nothing.
use pecunia.Prelude.{
  ℕ, suc, ◌+◌, String, ◌≡◌, refl, sym, ap, ◌∙◌, true, false, Option, none, some, List, arith,
  str_eq, leb,
}
use pecunia.Prelude.Int.{ℤ, pos, negsuc, neg_ℤ, abs_ℤ, ltb_ℤ}
use pecunia.Money.{Intl}
use pecunia.Money.Amount.{amount_to_minor, minor_to_amount_input}
use pecunia.Money.Amount.RoundTrip.{amount_to_minor-minor_to_amount_input}
use pecunia.Hooks.Accounts.{AccountOut}
use pecunia.Hooks.Planned.{UpdateSchedulePayload, schedule_mutation, update_schedule}
use pecunia.Hooks.ScheduleOrder.{ScheduledTransactionOut}
use pecunia.Forms.{sends, trimmed, with_amount_error}
use pecunia.Forms.Transaction.{find_account, currency_or_usd}
use pecunia.Forms.Transaction.Resubmitted.{IsNonEmpty, or_null-or_else, no_part}
use pecunia.Forms.Reading.{send_read}
use pecunia.Forms.Schedule.{
  ScheduleForm, direction_of, text_of, open_form, schedule_currency, interval_count, signed_by,
  schedule_by, schedule_incomplete, schedule_submission,
}
use pecunia.Forms.Schedule.Interval.{interval_count-text_of}

-- The sign that the form's direction gives the magnitude back.
signed_by-abs : (n : ℤ) → signed_by (direction_of n) (abs_ℤ n) ≡ n
unfolding neg_ℤ
signed_by-abs (pos n) = rw (not_below n) (ap pos (omega arith))
  where
    not_below : (m : ℕ) → ltb_ℤ (pos m) (pos 0) ≡ false
    not_below m = ground arith
signed_by-abs (negsuc n) = rw (below n, positive n) (ap negsuc (omega arith))
  where
    below : (m : ℕ) → ltb_ℤ (negsuc m) (pos 0) ≡ true
    below m = ground arith

    positive : (m : ℕ) → leb (0 + suc m) 0 ≡ false
    positive m = ground arith

-- The values of a schedule that an edit sends back.
abbrev pub own_payload : ScheduledTransactionOut → UpdateSchedulePayload
own_payload s = record {
  account_id = some s.account_id;
  category_id = some s.category_id;
  contact_id = some s.contact_id;
  amount_minor = some s.amount_minor;
  currency = some s.currency;
  description = some s.description;
  frequency = some s.frequency;
  interval_count = some s.interval_count;
  next_due = some s.next_due;
  end_date = some s.end_date;
  is_active = none;
}

-- A schedule that the form can show as it is: it is on one of the accounts, in that account's
-- currency; its interval is at least one; its text is trimmed; and no text, date or id is empty.
pub record IsShown (accounts : List AccountOut) (s : ScheduledTransactionOut) : Type 0 where
  pub own_account : AccountOut
  pub found : find_account s.account_id accounts ≡ some own_account
  pub same_currency : own_account.currency ≡ s.currency
  pub below_interval : ℕ
  pub at_least_one : s.interval_count ≡ pos (suc below_interval)
  pub trimmed_text : trimmed s.description ≡ s.description
  pub set_account : str_eq s.account_id "" ≡ false
  pub set_text : str_eq s.description "" ≡ false
  pub set_due : str_eq s.next_due "" ≡ false
  pub set_category : IsNonEmpty s.category_id
  pub set_contact : IsNonEmpty s.contact_id
  pub set_end : IsNonEmpty s.end_date

-- An update by its values.
abbrev payload_of :
    ScheduledTransactionOut
    → ℤ
    → String
    → String
    → ℤ
    → Option String
    → Option String
    → Option String
    → UpdateSchedulePayload
payload_of s amount_minor currency description interval category_id contact_id end_date = record {
  account_id = some s.account_id;
  category_id = some category_id;
  contact_id = some contact_id;
  amount_minor = some amount_minor;
  currency = some currency;
  description = some description;
  frequency = some s.frequency;
  interval_count = some interval;
  next_due = some s.next_due;
  end_date = some end_date;
  is_active = none;
}

payload_of-own :
    (s : ScheduledTransactionOut) (amount_minor : ℤ) (currency description : String) (interval : ℤ)
    (category_id contact_id end_date : Option String)
    → amount_minor ≡ s.amount_minor
    → currency ≡ s.currency
    → description ≡ s.description
    → interval ≡ s.interval_count
    → category_id ≡ s.category_id
    → contact_id ≡ s.contact_id
    → end_date ≡ s.end_date
    → payload_of s amount_minor currency description interval category_id contact_id end_date
      ≡ own_payload s
payload_of-own s a c d i g k n e1 e2 e3 e4 e5 e6 e7 = rw (e1, e2, e3, e4, e5, e6, e7) refl

submission_complete :
    (intl : Intl) (form : ScheduleForm) (n : ℕ)
    → schedule_incomplete form ≡ false
    → amount_to_minor intl form.amount (schedule_currency form) ≡ some n
    → schedule_submission intl form ≡ sends (schedule_by form form.schedule_id n)
unfolding schedule_submission
submission_complete intl form n h e = rw h (
    ap (send_read (with_amount_error "Enter a valid amount.") (schedule_by form form.schedule_id))
      e)

module _ (intl : Intl) (accounts : List AccountOut) (s : ScheduledTransactionOut)
    (default_account_id : Option String) (shown : IsShown accounts s) where
  abbrev opened : ScheduleForm
  opened = open_form intl (some s) accounts default_account_id

  opened_currency : currency_or_usd (find_account s.account_id accounts) ≡ s.currency
  opened_currency = ap currency_or_usd shown.found ∙ shown.same_currency

  -- A schedule that is on one of the accounts, in that account's currency, with an interval of at
  -- least one, a trimmed text and no empty text, date or id, is sent back as it is by an edit that
  -- changes nothing: with its signed amount, currency, text, frequency, interval, dates and links.
  pub schedule_submission-open_form :
      schedule_submission intl opened
      ≡ sends (schedule_mutation (update_schedule s.id (own_payload s)))
  unfolding open_form
  schedule_submission-open_form =
      submission_complete intl opened (abs_ℤ s.amount_minor)
        (no_part (str_eq s.account_id "") (str_eq (trimmed s.description) "") (str_eq s.next_due "")
          shown.set_account (ap (λ x. str_eq x "") shown.trimmed_text ∙ shown.set_text)
          shown.set_due)
        (ap (amount_to_minor intl (minor_to_amount_input intl s.amount_minor s.currency))
            opened_currency
          ∙ amount_to_minor-minor_to_amount_input intl s.amount_minor s.currency)
      ∙ ap (λ p. sends (schedule_mutation (update_schedule s.id p)))
          (payload_of-own s _ _ _ _ _ _ _ (signed_by-abs s.amount_minor) opened_currency
            shown.trimmed_text
            (ap (λ n. interval_count (text_of n)) shown.at_least_one
              ∙ interval_count-text_of shown.below_interval
              ∙ sym shown.at_least_one)
            (or_null-or_else s.category_id shown.set_category)
            (or_null-or_else s.contact_id shown.set_contact)
            (or_null-or_else s.end_date shown.set_end))
