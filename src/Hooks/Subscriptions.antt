-- ===== src/Hooks/Subscriptions.antt =====
-- The mutations of subscriptions (web/src/features/subscriptions/useSubscriptions.ts).
use pecunia.Prelude.{String, Option, List, [], ◌∷◌}
use pecunia.Prelude.Int.{ℤ}
use pecunia.Api.{number, string}
use pecunia.Queries.{Key, key_of, subscriptions}
use pecunia.Hooks.{
  Mutation, Entries, given, optional, nullable, template, post_to, patch_to, delete_at, post_empty,
}

pub data BillingFrequency : Type 0 where
  weekly monthly quarterly yearly : BillingFrequency

abbrev pub word_of_billing_frequency : BillingFrequency → String
word_of_billing_frequency weekly = "weekly"
word_of_billing_frequency monthly = "monthly"
word_of_billing_frequency quarterly = "quarterly"
word_of_billing_frequency yearly = "yearly"

pub data SubscriptionStatus : Type 0 where
  active canceled : SubscriptionStatus

abbrev pub word_of_subscription_status : SubscriptionStatus → String
word_of_subscription_status active = "active"
word_of_subscription_status canceled = "canceled"

-- `CreateSubscriptionPayload`
pub record CreateSubscriptionPayload : Type 0 where
  pub name : String
  pub amount_minor : ℤ
  pub currency : String
  pub billing_frequency : BillingFrequency
  pub next_renewal : String
  pub logo : Option (Option String)
  pub started_on : Option (Option String)
  pub status : Option SubscriptionStatus
  pub contact_id : Option (Option String)
  pub account_id : Option (Option String)
  pub category_id : Option (Option String)

abbrev pub entries_of_create_subscription : CreateSubscriptionPayload → Entries
entries_of_create_subscription p =
    given "name" (string p.name)
    ∷ given "amount_minor" (number p.amount_minor)
    ∷ given "currency" (string p.currency)
    ∷ given "billing_frequency" (string (word_of_billing_frequency p.billing_frequency))
    ∷ given "next_renewal" (string p.next_renewal)
    ∷ optional "logo" (nullable string) p.logo
    ∷ optional "started_on" (nullable string) p.started_on
    ∷ optional "status" (λ x. string (word_of_subscription_status x)) p.status
    ∷ optional "contact_id" (nullable string) p.contact_id
    ∷ optional "account_id" (nullable string) p.account_id
    ∷ optional "category_id" (nullable string) p.category_id
    ∷ []

-- `UpdateSubscriptionPayload`
pub record UpdateSubscriptionPayload : Type 0 where
  pub name : Option String
  pub amount_minor : Option ℤ
  pub currency : Option String
  pub billing_frequency : Option BillingFrequency
  pub next_renewal : Option String
  pub status : Option SubscriptionStatus
  pub logo : Option (Option String)
  pub started_on : Option (Option String)
  pub contact_id : Option (Option String)
  pub account_id : Option (Option String)
  pub category_id : Option (Option String)

abbrev pub entries_of_update_subscription : UpdateSubscriptionPayload → Entries
entries_of_update_subscription p =
    optional "name" string p.name
    ∷ optional "amount_minor" number p.amount_minor
    ∷ optional "currency" string p.currency
    ∷ optional "billing_frequency" (λ x. string (word_of_billing_frequency x)) p.billing_frequency
    ∷ optional "next_renewal" string p.next_renewal
    ∷ optional "status" (λ x. string (word_of_subscription_status x)) p.status
    ∷ optional "logo" (nullable string) p.logo
    ∷ optional "started_on" (nullable string) p.started_on
    ∷ optional "contact_id" (nullable string) p.contact_id
    ∷ optional "account_id" (nullable string) p.account_id
    ∷ optional "category_id" (nullable string) p.category_id
    ∷ []

abbrev pub invalidate_subscriptions : List Key
invalidate_subscriptions = key_of subscriptions ∷ []

-- The mutations, with the arguments of their hooks and the variables they are fired with.
pub data SubscriptionMutation : Type 0 where
  create_subscription : CreateSubscriptionPayload → SubscriptionMutation
  update_subscription : String → UpdateSubscriptionPayload → SubscriptionMutation
  delete_subscription : String → SubscriptionMutation
  renew_subscription : String → SubscriptionMutation
  set_subscription_status : String → SubscriptionStatus → SubscriptionMutation

abbrev pub subscription_mutation : SubscriptionMutation → Mutation
subscription_mutation (create_subscription payload) =
    post_to "/subscriptions" (entries_of_create_subscription payload) invalidate_subscriptions
subscription_mutation (update_subscription id payload) =
    patch_to (template ("/subscriptions/" ∷ id ∷ [])) (entries_of_update_subscription payload)
      invalidate_subscriptions
subscription_mutation (delete_subscription id) =
    delete_at (template ("/subscriptions/" ∷ id ∷ [])) invalidate_subscriptions
subscription_mutation (renew_subscription id) =
    post_empty (template ("/subscriptions/" ∷ id ∷ "/renew" ∷ [])) invalidate_subscriptions
subscription_mutation (set_subscription_status id status) =
    patch_to (template ("/subscriptions/" ∷ id ∷ []))
      (given "status" (string (word_of_subscription_status status)) ∷ []) invalidate_subscriptions
