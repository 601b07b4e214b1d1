-- ===== src/Queries.antt =====
-- The query keys (web/src/lib/queries.ts). A key is a list of slots. The query client is a
-- parameter: which stored keys an invalidation by a key reaches (`Queries.Coverage`).
pub mod Resources
pub mod Coverage
pub mod Finance
use pecunia.Prelude.{
  ℕ, ◌-◌, String, Bool, true, false, Option, none, some, List, [], ◌∷◌, map, str_eq, ◌==◌,
  if◌then◌else◌,
}
use pecunia.Transactions.{TransactionFilters}

pub record AnalyticsRange : Type 0 where
  pub from : String
  pub to : String

pub record AuditEventFilters : Type 0 where
  pub action : Option String
  pub resource_type : Option String
  pub resource_id : Option String
  pub actor_user_id : Option String
  pub since : Option String
  pub until : Option String

-- A slot of a key: a string, or one of the objects that the keys hold.
pub data Slot : Type 0 where
  word : String → Slot
  transactions_slot : TransactionFilters → Slot
  archived_slot : Bool → Slot
  range_slot : AnalyticsRange → Slot
  null_slot : Slot
  months_slot : ℕ → Slot
  filters_slot : AuditEventFilters → Slot

abbrev pub Key : Type 0
Key = List Slot

abbrev pub words : List String → Key
words ws = map word ws

unfoldable pub analytics_key : String → Option AnalyticsRange → Bool → Key
analytics_key endpoint range true = words ("analytics" ∷ endpoint ∷ "all" ∷ [])
analytics_key endpoint none false = words ("analytics" ∷ endpoint ∷ [])
analytics_key endpoint (some range) false = word "analytics" ∷ word endpoint ∷ range_slot range ∷ []

abbrev pub of_months : String → Option ℕ → Key
of_months endpoint none = words ("analytics" ∷ endpoint ∷ [])
of_months endpoint (some months) =
    if months == 0
    then words ("analytics" ∷ endpoint ∷ [])
    else word "analytics" ∷ word endpoint ∷ months_slot months ∷ []

-- `{ accountId }`
abbrev pub only_account : String → TransactionFilters
only_account id = record {
  q = none;
  account_id = some id;
  category_id = none;
  contact_id = none;
  type = none;
  date_from = none;
  date_to = none;
  min_amount_minor = none;
  max_amount_minor = none;
}

abbrev pub of_account : Option String → Key
of_account none = words ("transactions" ∷ [])
of_account (some id) =
    if str_eq id ""
    then words ("transactions" ∷ [])
    else word "transactions" ∷ transactions_slot (only_account id) ∷ []

-- The entries of `qk.analytics`, with their arguments.
pub data AnalyticsQuery : Type 0 where
  net_worth cashflow : Option AnalyticsRange → AnalyticsQuery
  net_worth_composition : Option AnalyticsRange → Bool → AnalyticsQuery
  spending_by_category spending_by_contact : Option AnalyticsRange → Bool → AnalyticsQuery
  upcoming summary safe_to_spend debt_payoffs : AnalyticsQuery
  forecast projection : Option ℕ → AnalyticsQuery

-- `qk.analytics`
unfoldable pub analytics_key_of : AnalyticsQuery → Key
unfolding analytics_key
analytics_key_of (net_worth range) = analytics_key "net-worth" range false
analytics_key_of (net_worth_composition range all_time) =
    analytics_key "net-worth-composition" range all_time
analytics_key_of (cashflow range) = analytics_key "cashflow" range false
analytics_key_of (spending_by_category range all_time) =
    analytics_key "spending-by-category" range all_time
analytics_key_of (spending_by_contact range all_time) =
    analytics_key "spending-by-contact" range all_time
analytics_key_of upcoming = words ("analytics" ∷ "upcoming" ∷ [])
analytics_key_of (forecast months) = of_months "forecast" months
analytics_key_of summary = words ("analytics" ∷ "summary" ∷ [])
analytics_key_of safe_to_spend = words ("analytics" ∷ "safe-to-spend" ∷ [])
analytics_key_of (projection months) = of_months "projection" months
analytics_key_of debt_payoffs = words ("analytics" ∷ "debt-payoffs" ∷ [])

-- The entries of `qk`, with their arguments.
pub data Query : Type 0 where
  me accounts assets projects budgets portfolios loans subscriptions categories contacts goals :
      Query
  planned bank_sync transfers activity sessions demo : Query
  account asset asset_valuations project project_items portfolio holdings : String → Query
  coins loan loan_payments : String → Query
  transactions : Option String → Query
  analytics : AnalyticsQuery → Query
  audit_events : AuditEventFilters → Query

-- `qk`
unfoldable pub key_of : Query → Key
unfolding analytics_key_of
key_of me = words ("me" ∷ [])
key_of accounts = words ("accounts" ∷ [])
key_of (account id) = words ("accounts" ∷ id ∷ [])
key_of (transactions account_id) = of_account account_id
key_of assets = words ("assets" ∷ [])
key_of (asset id) = words ("assets" ∷ id ∷ [])
key_of (asset_valuations id) = words ("assets" ∷ id ∷ "valuations" ∷ [])
key_of projects = words ("projects" ∷ [])
key_of (project id) = words ("projects" ∷ id ∷ [])
key_of (project_items id) = words ("projects" ∷ id ∷ "items" ∷ [])
key_of budgets = words ("budgets" ∷ [])
key_of portfolios = words ("portfolios" ∷ [])
key_of (portfolio id) = words ("portfolios" ∷ id ∷ [])
key_of (holdings id) = words ("portfolios" ∷ id ∷ "holdings" ∷ [])
key_of (coins q) = words ("coins" ∷ q ∷ [])
key_of loans = words ("loans" ∷ [])
key_of (loan id) = words ("loans" ∷ id ∷ [])
key_of (loan_payments id) = words ("loans" ∷ id ∷ "payments" ∷ [])
key_of subscriptions = words ("subscriptions" ∷ [])
key_of categories = words ("categories" ∷ [])
key_of contacts = words ("contacts" ∷ [])
key_of goals = words ("goals" ∷ [])
key_of planned = words ("planned" ∷ [])
key_of bank_sync = words ("bank-sync" ∷ [])
key_of transfers = words ("transfers" ∷ [])
key_of activity = words ("activity" ∷ [])
key_of (analytics query) = analytics_key_of query
key_of (audit_events filters) = word "audit-events" ∷ filters_slot filters ∷ []
key_of sessions = words ("sessions" ∷ [])
key_of demo = words ("demo" ∷ [])

unfoldable pub finance_query_keys : List Key
unfolding key_of
finance_query_keys =
    key_of accounts
    ∷ key_of (transactions none)
    ∷ key_of assets
    ∷ key_of projects
    ∷ key_of budgets
    ∷ key_of categories
    ∷ key_of contacts
    ∷ key_of transfers
    ∷ key_of portfolios
    ∷ key_of loans
    ∷ key_of subscriptions
    ∷ []
