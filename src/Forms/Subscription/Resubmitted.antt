-- ===== src/Forms/Subscription/Resubmitted.antt =====
-- An edit of a subscription that changes nothing.
use pecunia.Prelude.{ℕ, String, ◌≡◌, refl, sym, ap, ◌∙◌, false, Option, some, arith, str_eq}
use pecunia.Prelude.Int.{ℤ, pos, abs_ℤ}
use pecunia.Money.{Intl}
use pecunia.Money.Amount.{amount_to_minor}
use pecunia.Money.Amount.RoundTrip.{amount_to_minor-minor_to_amount_input}
use pecunia.Hooks.Subscriptions.{
  UpdateSubscriptionPayload, subscription_mutation, update_subscription,
}
use pecunia.Hooks.SubscriptionOrder.{SubscriptionOut}
use pecunia.Forms.{sends, trimmed, with_amount_error}
use pecunia.Forms.Transaction.Resubmitted.{IsNonEmpty, or_null-or_else}
use pecunia.Forms.Reading.{send_read}
use pecunia.Forms.Subscription.{
  SubscriptionForm, open_edit, subscription_by, subscription_submission,
}

-- The values of a subscription that an edit sends back.
abbrev pub own_payload : SubscriptionOut → UpdateSubscriptionPayload
own_payload s = record {
  name = some s.name;
  amount_minor = some s.amount_minor;
  currency = some s.currency;
  billing_frequency = some s.billing_frequency;
  next_renewal = some s.next_renewal;
  status = some s.status;
  logo = some s.logo;
  started_on = some s.started_on;
  contact_id = some s.contact_id;
  account_id = some s.account_id;
  category_id = some s.category_id;
}

-- A subscription that the form can show as it is: its amount is not negative, its name is trimmed,
-- and no text, date or id is empty.
pub record IsShown (s : SubscriptionOut) : Type 0 where
  pub own_amount : ℕ
  pub not_negative : s.amount_minor ≡ pos own_amount
  pub trimmed_name : trimmed s.name ≡ s.name
  pub set_name : str_eq s.name "" ≡ false
  pub set_renewal : str_eq s.next_renewal "" ≡ false
  pub set_start : IsNonEmpty s.started_on
  pub set_contact : IsNonEmpty s.contact_id
  pub set_account : IsNonEmpty s.account_id
  pub set_category : IsNonEmpty s.category_id

-- An update by its values.
abbrev payload_of :
    SubscriptionOut
    → ℤ
    → String
    → Option String
    → Option String
    → Option String
    → Option String
    → UpdateSubscriptionPayload
payload_of s amount_minor name started_on contact_id account_id category_id = record {
  name = some name;
  amount_minor = some amount_minor;
  currency = some s.currency;
  billing_frequency = some s.billing_frequency;
  next_renewal = some s.next_renewal;
  status = some s.status;
  logo = some s.logo;
  started_on = some started_on;
  contact_id = some contact_id;
  account_id = some account_id;
  category_id = some category_id;
}

payload_of-own :
    (s : SubscriptionOut) (amount_minor : ℤ) (name : String)
    (started_on contact_id account_id category_id : Option String)
    → amount_minor ≡ s.amount_minor
    → name ≡ s.name
    → started_on ≡ s.started_on
    → contact_id ≡ s.contact_id
    → account_id ≡ s.account_id
    → category_id ≡ s.category_id
    → payload_of s amount_minor name started_on contact_id account_id category_id ≡ own_payload s
payload_of-own s a n d k l c e1 e2 e3 e4 e5 e6 = rw (e1, e2, e3, e4, e5, e6) refl

submission_complete :
    (intl : Intl) (form : SubscriptionForm) (n : ℕ)
    → str_eq (trimmed form.name) "" ≡ false
    → str_eq form.next_renewal "" ≡ false
    → amount_to_minor intl form.amount form.currency ≡ some n
    → subscription_submission intl form ≡ sends (subscription_by form form.subscription_id n)
unfolding subscription_submission
submission_complete intl form n h k e =
    rw (h, k)
      (ap
        (send_read (with_amount_error "Enter a valid amount.")
          (subscription_by form form.subscription_id))
        e)

-- A subscription with an amount that is not negative, a trimmed name and no empty text, date or id
-- is sent back as it is by an edit that changes nothing.
pub subscription_submission-open_edit :
    (intl : Intl) (s : SubscriptionOut)
    → IsShown s
    → subscription_submission intl (open_edit intl s)
      ≡ sends (subscription_mutation (update_subscription s.id (own_payload s)))
unfolding open_edit
subscription_submission-open_edit intl s shown =
    submission_complete intl (open_edit intl s) (abs_ℤ s.amount_minor)
      (ap (λ x. str_eq x "") shown.trimmed_name ∙ shown.set_name) shown.set_renewal
      (amount_to_minor-minor_to_amount_input intl s.amount_minor s.currency)
    ∙ ap (λ p. sends (subscription_mutation (update_subscription s.id p)))
        (payload_of-own s _ _ _ _ _ _ same_amount shown.trimmed_name
          (or_null-or_else s.started_on shown.set_start)
          (or_null-or_else s.contact_id shown.set_contact)
          (or_null-or_else s.account_id shown.set_account)
          (or_null-or_else s.category_id shown.set_category))
  where
    abs_pos : (n : ℕ) → abs_ℤ (pos n) ≡ n
    abs_pos n = omega arith

    same_amount : pos (abs_ℤ s.amount_minor) ≡ s.amount_minor
    same_amount =
        ap (λ n. pos (abs_ℤ n)) shown.not_negative
        ∙ ap pos (abs_pos shown.own_amount)
        ∙ sym shown.not_negative
