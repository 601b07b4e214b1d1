-- ===== src/Hooks/Reads/Every.antt =====
-- The queries of the client, in one type.
use pecunia.Prelude.{String, Bool, Option}
use pecunia.Transactions.{TransactionFilters}
use pecunia.Queries.{AuditEventFilters, AnalyticsRange, Key, AnalyticsQuery}
use pecunia.Hooks.Subscriptions.{SubscriptionStatus}
use pecunia.Hooks.Reads.{Source, ClientQuery}
use pecunia.Hooks.Reads.Resources.{
  use_coin_search_query, use_setup_status_query, use_accounts_query, use_account_query,
  use_assets_query, use_asset_query, use_categories_query, use_contacts_query, use_contact_query,
  use_contact_overview_query, use_goals_query, use_goal_query, use_planned_query,
  use_subscriptions_query, use_subscription_suggestions_query, use_subscription_totals_query,
  use_portfolios_query, use_portfolio_query, use_holdings_query, use_loans_query, use_loan_query,
  use_loan_payments_query, use_project_list_query, use_project_query, use_transfers_query,
  use_transaction_list_query, use_bank_connections_query, use_category_mappings_query,
  use_bank_discovery_query, use_sessions_query, use_demo_query, use_preferences_query,
  use_analytics_query,
}
use pecunia.Hooks.Reads.Screens.{
  audit_log_query, accounts_to_link_query, accounts_on_dashboard_query, accounts_list_query,
  assets_on_dashboard_query, assets_list_query, valuations_chart_query, valuations_list_query,
  budgets_list_query, categories_to_map_query, planned_by_contact_query,
  subscriptions_by_contact_query, loans_by_contact_query, projects_list_query, items_list_query,
  transactions_list_query, account_transactions_query, contact_transactions_query,
  transactions_on_dashboard_query, activity_list_query, activity_on_dashboard_query,
}

pub data Read : Type 0 where
  use_accounts : Bool → Read
  accounts_to_link accounts_on_dashboard : Read
  accounts_list : Bool → Read
  use_account : String → Read
  use_assets assets_on_dashboard assets_list : Read
  use_asset valuations_chart valuations_list : String → Read
  budgets_list : Read
  use_categories : Bool → Read
  categories_to_map : Read
  use_contacts : Bool → Read
  use_contact planned_by_contact subscriptions_by_contact loans_by_contact : String → Read
  use_contact_overview : String → Option AnalyticsRange → Read
  use_goals : Read
  use_goal : String → Read
  use_planned use_subscriptions use_subscription_suggestions : Read
  use_subscription_totals : SubscriptionStatus → Read
  use_portfolios : Read
  use_portfolio use_holdings : String → Read
  use_loans : Read
  use_loan use_loan_payments : String → Read
  use_project_list projects_list : Read
  use_project items_list : String → Read
  use_transfers use_transaction_list : Read
  transactions_list : TransactionFilters → Read
  account_transactions contact_transactions transactions_on_dashboard : String → Read
  use_bank_connections use_category_mappings : Read
  use_bank_discovery : String → Read
  activity_list activity_on_dashboard use_sessions use_demo use_preferences : Read
  use_analytics : AnalyticsQuery → Read
  use_coin_search : String → Read
  use_setup_status : Read
  audit_log : AuditEventFilters → Read

abbrev pub query_of : Read → ClientQuery
query_of (use_accounts include_archived) = use_accounts_query include_archived
query_of accounts_to_link = accounts_to_link_query
query_of accounts_on_dashboard = accounts_on_dashboard_query
query_of (accounts_list include_archived) = accounts_list_query include_archived
query_of (use_account id) = use_account_query id
query_of use_assets = use_assets_query
query_of assets_on_dashboard = assets_on_dashboard_query
query_of assets_list = assets_list_query
query_of (use_asset id) = use_asset_query id
query_of (valuations_chart id) = valuations_chart_query id
query_of (valuations_list id) = valuations_list_query id
query_of budgets_list = budgets_list_query
query_of (use_categories include_archived) = use_categories_query include_archived
query_of categories_to_map = categories_to_map_query
query_of (use_contacts include_archived) = use_contacts_query include_archived
query_of (use_contact id) = use_contact_query id
query_of (planned_by_contact id) = planned_by_contact_query id
query_of (subscriptions_by_contact id) = subscriptions_by_contact_query id
query_of (loans_by_contact id) = loans_by_contact_query id
query_of (use_contact_overview id range) = use_contact_overview_query id range
query_of use_goals = use_goals_query
query_of (use_goal id) = use_goal_query id
query_of use_planned = use_planned_query
query_of use_subscriptions = use_subscriptions_query
query_of use_subscription_suggestions = use_subscription_suggestions_query
query_of (use_subscription_totals status) = use_subscription_totals_query status
query_of use_portfolios = use_portfolios_query
query_of (use_portfolio id) = use_portfolio_query id
query_of (use_holdings id) = use_holdings_query id
query_of use_loans = use_loans_query
query_of (use_loan id) = use_loan_query id
query_of (use_loan_payments id) = use_loan_payments_query id
query_of use_project_list = use_project_list_query
query_of projects_list = projects_list_query
query_of (use_project id) = use_project_query id
query_of (items_list id) = items_list_query id
query_of use_transfers = use_transfers_query
query_of use_transaction_list = use_transaction_list_query
query_of (transactions_list filters) = transactions_list_query filters
query_of (account_transactions id) = account_transactions_query id
query_of (contact_transactions id) = contact_transactions_query id
query_of (transactions_on_dashboard id) = transactions_on_dashboard_query id
query_of use_bank_connections = use_bank_connections_query
query_of use_category_mappings = use_category_mappings_query
query_of (use_bank_discovery item_id) = use_bank_discovery_query item_id
query_of activity_list = activity_list_query
query_of activity_on_dashboard = activity_on_dashboard_query
query_of use_sessions = use_sessions_query
query_of use_demo = use_demo_query
query_of use_preferences = use_preferences_query
query_of (use_analytics query) = use_analytics_query query
query_of (use_coin_search q) = use_coin_search_query q
query_of use_setup_status = use_setup_status_query
query_of (audit_log filters) = audit_log_query filters

-- `queryKey`
unfoldable pub read_key : Read → Key
read_key r = (query_of r).key

-- `queryFn`
unfoldable pub source_of : Read → Source
source_of r = (query_of r).source
