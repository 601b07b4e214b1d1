-- ===== src/Hooks/Tests.antt =====
-- The hooks on concrete payloads, pages and keys.
use pecunia.Hooks.Reads.{transactions_query_key}
use pecunia.Transactions.{key_filters}
use pecunia.Prelude.{String, ◌≡◌, refl, Bool, true, false, not, none, some, [], ◌∷◌, ◌++◌, filter}
use pecunia.Prelude.Int.{ℤ, pos}
use pecunia.Prelude.Sort.{sort}
use pecunia.Queries.{Key, word, key_of, account, only_account, loan}
use pecunia.Queries.Coverage.{QueryClient, MatchesPrefix, begins_with}
use pecunia.Hooks.Transfers.{delete_transfer, transfer_mutation}
use pecunia.Hooks.Planned.{monthly, schedule_mutation, post_schedule, skip_schedule}
use pecunia.Hooks.Subscriptions.{SubscriptionStatus, active, canceled, BillingFrequency}
use pecunia.Hooks.Refresh.{MissesGoals, moved_balances-goals, moved_sources-goals}
use pecunia.Hooks.Transactions.{transaction_mutation, apply_to_loan}
use pecunia.Hooks.BankSync.{LinkPayload, bank_sync_mutation, link_account, sync_now, reconcile}
use pecunia.Hooks.Reads.Every.{source_of, read_key, account_transactions, transactions_list}
use pecunia.Hooks.Reads.Keys.{AsksSame}
use pecunia.Hooks.Reads.Agreement.{read_key-AsksSame}
use pecunia.Hooks.ScheduleOrder.{
  select_planned, select_planned-groups, SchedulePage, ScheduledTransactionOut,
}
use pecunia.Hooks.SubscriptionOrder.{
  SubscriptionPage, SubscriptionOut, select_subscriptions, select_subscriptions-groups, is_live,
  by_renewal,
}

abbrev starts : Key → Key → Bool
starts [] key = true
starts (word w ∷ rest) key = begins_with w key
starts (slot ∷ rest) key = false

abbrev client : QueryClient
client = record { reaches = starts }

matches : MatchesPrefix client
matches w key = refl

balances_example :
    MissesGoals client matches (transfer_mutation (delete_transfer "t1")) (account "a1")
    × MissesGoals client matches (schedule_mutation (post_schedule "s1")) (account "a1")
    × MissesGoals client matches (schedule_mutation (skip_schedule "s1")) (account "a1")
balances_example = moved_balances-goals client matches (delete_transfer "t1") "s1" "a1"

abbrev link : LinkPayload
link = record {
  pluggy_item_id = "i1";
  pluggy_account_id = "b1";
  sync_from = "2026-01-01";
  account_id = some "a1";
  new_account = none;
}

sources_example :
    MissesGoals client matches (transaction_mutation (apply_to_loan "x1" "l1")) (loan "l1")
    × MissesGoals client matches (bank_sync_mutation (link_account link)) (account "a1")
    × MissesGoals client matches (bank_sync_mutation sync_now) (account "a1")
    × MissesGoals client matches (bank_sync_mutation (reconcile "k1")) (account "a1")
sources_example = moved_sources-goals client matches "x1" "l1" "k1" "a1" link

shared_key_example :
    AsksSame
      (source_of (account_transactions "a1"))
      (source_of (transactions_list (only_account "a1")))
unfolding read_key key_filters transactions_query_key key_of
shared_key_example =
    read_key-AsksSame (account_transactions "a1") (transactions_list (only_account "a1")) refl refl
      refl

abbrev schedule : String → Bool → ScheduledTransactionOut
schedule id is_active = record {
  id = id;
  account_id = "a1";
  category_id = none;
  contact_id = none;
  amount_minor = pos 500;
  currency = "BRL";
  description = "rent";
  frequency = monthly;
  interval_count = pos 1;
  next_due = "2026-01-01";
  end_date = none;
  is_active = is_active;
  is_demo = false;
  created_at = "";
  updated_at = "";
}

abbrev schedules : SchedulePage
schedules = record {
  items = schedule "s1" false ∷ schedule "s2" true ∷ schedule "s3" false ∷ [];
  next_cursor = none;
}

schedule_order_example :
    ((select_planned schedules).items
      ≡ filter (λ s. s.is_active) schedules.items ++ filter (λ s. not s.is_active) schedules.items)
    × ((select_planned schedules).next_cursor ≡ schedules.next_cursor)
schedule_order_example = select_planned-groups schedules

abbrev subscription : String → SubscriptionStatus → SubscriptionOut
subscription id status = record {
  id = id;
  name = "music";
  logo = none;
  amount_minor = pos 990;
  currency = "BRL";
  billing_frequency = BillingFrequency.monthly;
  next_renewal = "2026-01-01";
  started_on = none;
  status = status;
  contact_id = none;
  account_id = none;
  category_id = none;
  is_demo = false;
  created_at = "";
  monthly_minor = pos 990;
  annual_minor = pos 11880;
}

abbrev page : SubscriptionPage
page = record {
  items = subscription "u1" canceled ∷ subscription "u2" active ∷ [];
  next_cursor = none;
}

abbrev same_date : String → String → ℤ
same_date a b = pos 0

subscription_order_example :
    ((select_subscriptions same_date page).items
      ≡ sort (by_renewal same_date) (filter (λ s. is_live s.status) page.items)
        ++ sort (by_renewal same_date) (filter (λ s. not (is_live s.status)) page.items))
    × ((select_subscriptions same_date page).next_cursor ≡ page.next_cursor)
subscription_order_example = select_subscriptions-groups same_date page
