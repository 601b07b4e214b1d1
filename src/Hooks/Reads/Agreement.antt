-- ===== src/Hooks/Reads/Agreement.antt =====
-- Queries that share a key ask for the same.
use pecunia.Prelude.{◌≡◌, refl, sym, ap, ◌∙◌, true, none, some}
use pecunia.Prelude.Text.{codes, show}
use pecunia.Transactions.{filter_params}
use pecunia.Queries.{key_of}
use pecunia.Hooks.Subscriptions.{active, canceled}
use pecunia.Hooks.Reads.{Source}
use pecunia.Hooks.Reads.Every.{
  Read, read_key, source_of, use_accounts, accounts_to_link, accounts_on_dashboard, accounts_list,
  use_account, use_assets, assets_on_dashboard, assets_list, use_asset, valuations_chart,
  valuations_list, budgets_list, use_categories, categories_to_map, use_contacts, use_contact,
  planned_by_contact, subscriptions_by_contact, loans_by_contact, use_contact_overview, use_goals,
  use_goal, use_planned, use_subscriptions, use_subscription_suggestions, use_subscription_totals,
  use_portfolios, use_portfolio, use_holdings, use_loans, use_loan, use_loan_payments,
  use_project_list, projects_list, use_project, items_list, use_transfers, use_transaction_list,
  transactions_list, account_transactions, contact_transactions, transactions_on_dashboard,
  use_bank_connections, use_category_mappings, use_bank_discovery, activity_list,
  activity_on_dashboard, use_sessions, use_demo, use_preferences, use_analytics, use_coin_search,
  use_setup_status, audit_log,
}
use pecunia.Hooks.Reads.Keys.{
  has_plain_ids, AsksSame, AsksSame-refl, AsksSame-of_eq, source_at, plain_parts,
}
use pecunia.Hooks.Reads.Asked.{
  swapped_pages, item_under, item_under_dashboard, analytics_read, transactions_list_read,
  account_list_read,
}

read_at : (r : Read) → has_plain_ids r ≡ true → AsksSame (source_at (read_key r)) (source_of r)
unfolding read_key source_of key_of filter_params
read_at (use_accounts a) h = AsksSame-refl _
read_at accounts_to_link h = AsksSame-refl _
read_at accounts_on_dashboard h = AsksSame-refl _
read_at (accounts_list a) h = AsksSame-refl _
read_at (use_account a) h = item_under_dashboard a "/accounts/" _ _ h
read_at use_assets h = AsksSame-refl _
read_at assets_on_dashboard h = AsksSame-refl _
read_at assets_list h = AsksSame-refl _
read_at (use_asset a) h = item_under_dashboard a "/assets/" _ _ h
read_at (valuations_chart a) h = AsksSame-refl _
read_at (valuations_list a) h = AsksSame-refl _
read_at budgets_list h = AsksSame-refl _
read_at (use_categories a) h = AsksSame-refl _
read_at categories_to_map h = AsksSame-refl _
read_at (use_contacts a) h = AsksSame-refl _
read_at (use_contact a) h = AsksSame-refl _
read_at (planned_by_contact a) h = AsksSame-refl _
read_at (subscriptions_by_contact a) h = AsksSame-refl _
read_at (loans_by_contact a) h = AsksSame-refl _
read_at (use_contact_overview a none) h = AsksSame-refl _
read_at (use_contact_overview a (some b)) h = AsksSame-refl _
read_at use_goals h = AsksSame-refl _
read_at (use_goal a) h = item_under a "/goals/" _ h
read_at use_planned h = AsksSame-refl _
read_at use_subscriptions h = AsksSame-refl _
read_at use_subscription_suggestions h = AsksSame-refl _
read_at (use_subscription_totals active) h = AsksSame-refl _
read_at (use_subscription_totals canceled) h = AsksSame-refl _
read_at use_portfolios h = AsksSame-refl _
read_at (use_portfolio a) h = item_under a "/portfolios/" _ h
read_at (use_holdings a) h = AsksSame-refl _
read_at use_loans h = AsksSame-refl _
read_at (use_loan a) h = item_under a "/loans/" _ h
read_at (use_loan_payments a) h = AsksSame-refl _
read_at use_project_list h = AsksSame-refl _
read_at projects_list h = AsksSame-refl _
read_at (use_project a) h = item_under a "/projects/" _ h
read_at (items_list a) h = AsksSame-refl _
read_at use_transfers h = AsksSame-refl _
read_at use_transaction_list h = AsksSame-refl _
read_at (transactions_list a) h = transactions_list_read a
read_at (account_transactions a) h = account_list_read a h
read_at (contact_transactions a) h =
    swapped_pages "/transactions" "limit" "contact_id" (show 20) (codes a) refl
read_at (transactions_on_dashboard a) h = rw (plain_parts a h).0 (AsksSame-refl _)
read_at use_bank_connections h = AsksSame-refl _
read_at use_category_mappings h = AsksSame-refl _
read_at (use_bank_discovery a) h = AsksSame-refl _
read_at activity_list h = AsksSame-refl _
read_at activity_on_dashboard h = AsksSame-refl _
read_at use_sessions h = AsksSame-refl _
read_at use_demo h = AsksSame-refl _
read_at use_preferences h = AsksSame-refl _
read_at (use_analytics a) h = analytics_read a
read_at (use_coin_search q) h = AsksSame-refl _
read_at use_setup_status h = AsksSame-refl _
read_at (audit_log filters) h = AsksSame-refl _

AsksSame-sym : {s t : Source} → AsksSame s t → AsksSame t s
AsksSame-sym e = record {
  same_endless = sym e.same_endless;
  same_path = sym e.same_path;
  same_params = λ name. sym (e.same_params name);
}

AsksSame-trans : {s t u : Source} → AsksSame s t → AsksSame t u → AsksSame s u
AsksSame-trans e f = record {
  same_endless = e.same_endless ∙ f.same_endless;
  same_path = e.same_path ∙ f.same_path;
  same_params = λ name. e.same_params name ∙ f.same_params name;
}

-- Two queries of the client that share a key, and whose ids are none of the words "", "flat" and
-- "dashboard", are read both at once or both page by page, from the same path and with the same
-- parameters up to their order; so no query finds another's shape of data under its key.
pub read_key-AsksSame :
    (r s : Read)
    → has_plain_ids r ≡ true
    → has_plain_ids s ≡ true
    → read_key r ≡ read_key s
    → AsksSame (source_of r) (source_of s)
read_key-AsksSame r s h k e =
    AsksSame-trans (AsksSame-sym (read_at r h))
      (AsksSame-trans (AsksSame-of_eq (ap source_at e)) (read_at s k))
