-- ===== src/Hooks/Planned.antt =====
-- The mutations of recurring schedules (web/src/features/planned/usePlanned.ts).
use pecunia.Prelude.{String, Bool, Option, none, List, [], ◌∷◌}
use pecunia.Prelude.Int.{ℤ}
use pecunia.Api.{boolean, number, string}
use pecunia.Queries.{Key, key_of, planned, transactions, accounts}
use pecunia.Hooks.{
  Mutation, Entries, given, optional, nullable, template, analytics_prefix, post_to, patch_to,
  delete_at, post_empty,
}

pub data ScheduleFrequency : Type 0 where
  weekly monthly quarterly yearly : ScheduleFrequency

abbrev pub word_of_schedule_frequency : ScheduleFrequency → String
word_of_schedule_frequency weekly = "weekly"
word_of_schedule_frequency monthly = "monthly"
word_of_schedule_frequency quarterly = "quarterly"
word_of_schedule_frequency yearly = "yearly"

-- `CreateSchedulePayload`
pub record CreateSchedulePayload : Type 0 where
  pub account_id : String
  pub category_id : Option (Option String)
  pub contact_id : Option (Option String)
  pub amount_minor : ℤ
  pub currency : String
  pub description : String
  pub frequency : ScheduleFrequency
  pub interval_count : Option ℤ
  pub next_due : String
  pub end_date : Option (Option String)

abbrev pub entries_of_create_schedule : CreateSchedulePayload → Entries
entries_of_create_schedule p =
    given "account_id" (string p.account_id)
    ∷ optional "category_id" (nullable string) p.category_id
    ∷ optional "contact_id" (nullable string) p.contact_id
    ∷ given "amount_minor" (number p.amount_minor)
    ∷ given "currency" (string p.currency)
    ∷ given "description" (string p.description)
    ∷ given "frequency" (string (word_of_schedule_frequency p.frequency))
    ∷ optional "interval_count" number p.interval_count
    ∷ given "next_due" (string p.next_due)
    ∷ optional "end_date" (nullable string) p.end_date
    ∷ []

-- `UpdateSchedulePayload`
pub record UpdateSchedulePayload : Type 0 where
  pub account_id : Option String
  pub category_id : Option (Option String)
  pub contact_id : Option (Option String)
  pub amount_minor : Option ℤ
  pub currency : Option String
  pub description : Option String
  pub frequency : Option ScheduleFrequency
  pub interval_count : Option ℤ
  pub next_due : Option String
  pub end_date : Option (Option String)
  pub is_active : Option Bool

abbrev pub entries_of_update_schedule : UpdateSchedulePayload → Entries
entries_of_update_schedule p =
    optional "account_id" string p.account_id
    ∷ optional "category_id" (nullable string) p.category_id
    ∷ optional "contact_id" (nullable string) p.contact_id
    ∷ optional "amount_minor" number p.amount_minor
    ∷ optional "currency" string p.currency
    ∷ optional "description" string p.description
    ∷ optional "frequency" (λ x. string (word_of_schedule_frequency x)) p.frequency
    ∷ optional "interval_count" number p.interval_count
    ∷ optional "next_due" string p.next_due
    ∷ optional "end_date" (nullable string) p.end_date
    ∷ optional "is_active" boolean p.is_active
    ∷ []

abbrev pub invalidate_planned : List Key
invalidate_planned = key_of planned ∷ []

abbrev pub invalidate_after_post_or_skip : List Key
invalidate_after_post_or_skip =
    key_of planned ∷ key_of (transactions none) ∷ key_of accounts ∷ analytics_prefix ∷ []

-- The mutations, with the arguments of their hooks and the variables they are fired with.
pub data ScheduleMutation : Type 0 where
  create_schedule : CreateSchedulePayload → ScheduleMutation
  update_schedule : String → UpdateSchedulePayload → ScheduleMutation
  post_schedule : String → ScheduleMutation
  skip_schedule : String → ScheduleMutation
  delete_schedule : String → ScheduleMutation

abbrev pub schedule_mutation : ScheduleMutation → Mutation
schedule_mutation (create_schedule payload) =
    post_to "/planned" (entries_of_create_schedule payload) invalidate_planned
schedule_mutation (update_schedule id payload) =
    patch_to (template ("/planned/" ∷ id ∷ [])) (entries_of_update_schedule payload)
      invalidate_planned
schedule_mutation (post_schedule id) =
    post_empty (template ("/planned/" ∷ id ∷ "/post" ∷ [])) invalidate_after_post_or_skip
schedule_mutation (skip_schedule id) =
    post_empty (template ("/planned/" ∷ id ∷ "/skip" ∷ [])) invalidate_after_post_or_skip
schedule_mutation (delete_schedule id) =
    delete_at (template ("/planned/" ∷ id ∷ [])) invalidate_planned
