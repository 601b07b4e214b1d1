-- ===== src/Hooks/Reads.antt =====
-- The queries that the client keeps in its cache: the key of each, the path and parameters it asks
-- for, and whether it is read page by page (`DataList`). Parameters are as they are before they are
-- encoded, whether a template or `URLSearchParams` writes them; a list is read from its first page
-- on. A query of an id that is undefined is disabled.
pub mod Resources
pub mod Screens
pub mod Every
pub mod Keys
pub mod Asked
pub mod Agreement
use pecunia.Prelude.{
  ℕ, ◌-◌, ◌/◌, String, Bool, true, false, Option, none, some, List, [], ◌∷◌, ◌==◌, if◌then◌else◌,
}
use pecunia.Prelude.Text.{Text, codes, show}
use pecunia.Transactions.{TransactionFilters, Param, key_filters}
use pecunia.Queries.{
  AnalyticsRange, Slot, word, transactions_slot, range_slot, null_slot, Key, words, AnalyticsQuery,
  net_worth, cashflow, net_worth_composition, spending_by_category, spending_by_contact, upcoming,
  summary, safe_to_spend, debt_payoffs, forecast, projection, transactions, analytics,
}
use pecunia.Hooks.{template}

-- What a query asks for, and whether page by page.
pub record Source : Type 0 where
  pub endless : Bool
  pub path : String
  pub params : List Param

abbrev pub once : String → List Param → Source
once path params = record { endless = false; path = path; params = params }

abbrev pub by_pages : String → List Param → Source
by_pages path params = record { endless = true; path = path; params = params }

abbrev pub limit : ℕ → List Param
limit n = ("limit", show n) ∷ []

abbrev pub text_of_bool : Bool → Text
text_of_bool true = codes "true"
text_of_bool false = codes "false"

abbrev pub range_params : Option AnalyticsRange → List Param
range_params none = []
range_params (some range) = ("from", codes range.from) ∷ ("to", codes range.to) ∷ []

-- `analyticsPath`
abbrev pub analytics_path : String → Option AnalyticsRange → Bool → Source
analytics_path endpoint range true =
    once (template ("/analytics/" ∷ endpoint ∷ [])) (("all", codes "true") ∷ [])
analytics_path endpoint range false =
    once (template ("/analytics/" ∷ endpoint ∷ [])) (range_params range)

-- `forecastPath`
abbrev pub forecast_path : Option ℕ → Source
forecast_path none = once "/analytics/forecast" []
forecast_path (some months) =
    if months == 0
    then once "/analytics/forecast" []
    else once "/analytics/forecast" (("months", show months) ∷ [])

-- `projectionPath`
abbrev pub projection_path : ℕ → Source
projection_path months = once "/analytics/projection" (("months", show months) ∷ [])

abbrev pub or_zero : Option ℕ → ℕ
or_zero none = 0
or_zero (some n) = n

abbrev pub analytics_source : AnalyticsQuery → Source
analytics_source (net_worth range) = analytics_path "net-worth" range false
analytics_source (net_worth_composition range all_time) =
    analytics_path "net-worth-composition" range all_time
analytics_source (cashflow range) = analytics_path "cashflow" range false
analytics_source (spending_by_category range all_time) =
    analytics_path "spending-by-category" range all_time
analytics_source (spending_by_contact range all_time) =
    analytics_path "spending-by-contact" range all_time
analytics_source upcoming = once "/analytics/upcoming" []
analytics_source summary = once "/analytics/summary" []
analytics_source safe_to_spend = once "/analytics/safe-to-spend" []
analytics_source debt_payoffs = once "/analytics/debt-payoffs" []
analytics_source (forecast months) = forecast_path months
-- The hook always passes a number of months.
analytics_source (projection months) = projection_path (or_zero months)

abbrev pub only_contact : String → TransactionFilters
only_contact id = record {
  q = none;
  account_id = none;
  category_id = none;
  contact_id = some id;
  type = none;
  date_from = none;
  date_to = none;
  min_amount_minor = none;
  max_amount_minor = none;
}

abbrev pub filters_key : Option TransactionFilters → Key
filters_key none = words ("transactions" ∷ [])
filters_key (some clean) = word "transactions" ∷ transactions_slot clean ∷ []

-- `transactionsQueryKey`
unfoldable pub transactions_query_key : TransactionFilters → Key
transactions_query_key filters = filters_key (key_filters filters)

abbrev pub range_or_null : Option AnalyticsRange → Slot
range_or_null none = null_slot
range_or_null (some range) = range_slot range

-- A query of the client: its `queryKey`, and what its `queryFn` asks for.
pub record ClientQuery : Type 0 where
  pub key : Key
  pub source : Source
