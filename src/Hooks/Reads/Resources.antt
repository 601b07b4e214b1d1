-- ===== src/Hooks/Reads/Resources.antt =====
-- The queries of the resources' hooks, each as it stands in its file.
use pecunia.Prelude.{String, Bool, Option, none, [], ◌∷◌, ◌++◌}
use pecunia.Prelude.Text.{codes}
use pecunia.Queries.{
  coins, AnalyticsRange, word, archived_slot, words, AnalyticsQuery, key_of, me, accounts, assets,
  projects, portfolios, loans, subscriptions, categories, contacts, goals, planned, bank_sync,
  transfers, sessions, demo, account, asset, project, portfolio, holdings, loan, loan_payments,
  transactions, analytics,
}
use pecunia.Hooks.{template}
use pecunia.Hooks.Subscriptions.{SubscriptionStatus, word_of_subscription_status}
use pecunia.Hooks.Reads.{
  once, limit, text_of_bool, range_params, analytics_source, range_or_null, ClientQuery,
}

abbrev pub use_accounts_query : Bool → ClientQuery
use_accounts_query include_archived = record {
  key = key_of accounts ++ (word "flat" ∷ archived_slot include_archived ∷ []);
  source = once "/accounts" (("include_archived", text_of_bool include_archived) ∷ limit 200);
}

abbrev pub use_account_query : String → ClientQuery
use_account_query id = record {
  key = key_of (account id);
  source = once (template ("/accounts/" ∷ id ∷ [])) [];
}

abbrev pub use_assets_query : ClientQuery
use_assets_query = record {
  key = key_of assets ++ words ("flat" ∷ []);
  source = once "/assets" (limit 200);
}

abbrev pub use_asset_query : String → ClientQuery
use_asset_query id = record {
  key = key_of (asset id);
  source = once (template ("/assets/" ∷ id ∷ [])) [];
}

abbrev pub use_categories_query : Bool → ClientQuery
use_categories_query include_archived = record {
  key = key_of categories ++ (word "flat" ∷ archived_slot include_archived ∷ []);
  source = once "/categories" (("include_archived", text_of_bool include_archived) ∷ limit 200);
}

abbrev pub use_contacts_query : Bool → ClientQuery
use_contacts_query include_archived = record {
  key = key_of contacts ++ (word "flat" ∷ archived_slot include_archived ∷ []);
  source = once "/contacts" (("include_archived", text_of_bool include_archived) ∷ limit 200);
}

abbrev pub use_contact_query : String → ClientQuery
use_contact_query id = record {
  key = key_of contacts ++ words (id ∷ []);
  source = once (template ("/contacts/" ∷ id ∷ [])) [];
}

abbrev pub use_contact_overview_query : String → Option AnalyticsRange → ClientQuery
use_contact_overview_query id range = record {
  key = key_of contacts ++ (word id ∷ word "overview" ∷ range_or_null range ∷ []);
  source = once (template ("/contacts/" ∷ id ∷ "/overview" ∷ [])) (range_params range);
}

abbrev pub use_goals_query : ClientQuery
use_goals_query = record {
  key = key_of goals ++ words ("flat" ∷ []);
  source = once "/goals" (limit 200);
}

abbrev pub use_goal_query : String → ClientQuery
use_goal_query id = record {
  key = key_of goals ++ words (id ∷ []);
  source = once (template ("/goals/" ∷ id ∷ [])) [];
}

abbrev pub use_planned_query : ClientQuery
use_planned_query = record {
  key = key_of planned ++ words ("flat" ∷ []);
  source = once "/planned" (limit 200);
}

abbrev pub use_subscriptions_query : ClientQuery
use_subscriptions_query = record {
  key = key_of subscriptions ++ words ("flat" ∷ []);
  source = once "/subscriptions" (limit 200);
}

abbrev pub use_subscription_suggestions_query : ClientQuery
use_subscription_suggestions_query = record {
  key = key_of subscriptions ++ words ("suggestions" ∷ []);
  source = once "/subscriptions/suggestions" [];
}

abbrev pub use_subscription_totals_query : SubscriptionStatus → ClientQuery
use_subscription_totals_query status = record {
  key = key_of subscriptions ++ words ("totals" ∷ word_of_subscription_status status ∷ []);
  source =
      once "/subscriptions/totals" (("status", codes (word_of_subscription_status status)) ∷ []);
}

abbrev pub use_portfolios_query : ClientQuery
use_portfolios_query = record {
  key = key_of portfolios ++ words ("flat" ∷ []);
  source = once "/portfolios" (limit 200);
}

abbrev pub use_portfolio_query : String → ClientQuery
use_portfolio_query id = record {
  key = key_of (portfolio id);
  source = once (template ("/portfolios/" ∷ id ∷ [])) [];
}

abbrev pub use_holdings_query : String → ClientQuery
use_holdings_query id = record {
  key = key_of (holdings id) ++ words ("flat" ∷ []);
  source = once (template ("/portfolios/" ∷ id ∷ "/holdings" ∷ [])) (limit 200);
}

abbrev pub use_loans_query : ClientQuery
use_loans_query = record {
  key = key_of loans ++ words ("flat" ∷ []);
  source = once "/loans" (limit 200);
}

abbrev pub use_loan_query : String → ClientQuery
use_loan_query id = record {
  key = key_of (loan id);
  source = once (template ("/loans/" ∷ id ∷ [])) [];
}

abbrev pub use_loan_payments_query : String → ClientQuery
use_loan_payments_query id = record {
  key = key_of (loan_payments id) ++ words ("flat" ∷ []);
  source = once (template ("/loans/" ∷ id ∷ "/payments" ∷ [])) (limit 200);
}

abbrev pub use_project_list_query : ClientQuery
use_project_list_query = record {
  key = key_of projects ++ words ("flat" ∷ []);
  source = once "/projects" (limit 200);
}

abbrev pub use_project_query : String → ClientQuery
use_project_query id = record {
  key = key_of (project id);
  source = once (template ("/projects/" ∷ id ∷ [])) [];
}

abbrev pub use_transfers_query : ClientQuery
use_transfers_query = record {
  key = key_of transfers ++ words ("flat" ∷ []);
  source = once "/transfers" (limit 200);
}

abbrev pub use_transaction_list_query : ClientQuery
use_transaction_list_query = record {
  key = key_of (transactions none) ++ words ("flat" ∷ []);
  source = once "/transactions" (limit 200);
}

abbrev pub use_bank_connections_query : ClientQuery
use_bank_connections_query = record {
  key = key_of bank_sync;
  source = once "/bank-sync/connections" (limit 200);
}

abbrev pub use_category_mappings_query : ClientQuery
use_category_mappings_query = record {
  key = key_of bank_sync ++ words ("category-mappings" ∷ []);
  source = once "/bank-sync/category-mappings" [];
}

abbrev pub use_bank_discovery_query : String → ClientQuery
use_bank_discovery_query item_id = record {
  key = key_of bank_sync ++ words ("discovery" ∷ item_id ∷ []);
  source = once "/bank-sync/discovery" (("item_id", codes item_id) ∷ []);
}

abbrev pub use_sessions_query : ClientQuery
use_sessions_query = record { key = key_of sessions; source = once "/auth/sessions" [] }

abbrev pub use_demo_query : ClientQuery
use_demo_query = record { key = key_of demo; source = once "/demo" [] }

abbrev pub use_preferences_query : ClientQuery
use_preferences_query = record { key = key_of me; source = once "/auth/me" [] }

abbrev pub use_analytics_query : AnalyticsQuery → ClientQuery
use_analytics_query query = record {
  key = key_of (analytics query);
  source = analytics_source query;
}

abbrev pub use_coin_search_query : String → ClientQuery
use_coin_search_query q = record {
  key = key_of (coins q);
  source = once "/portfolios/coins" (("q", codes q) ∷ []);
}

abbrev pub use_setup_status_query : ClientQuery
use_setup_status_query = record {
  key = words ("setup-status" ∷ []);
  source = once "/setup/status" [];
}
