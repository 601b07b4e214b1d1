-- ===== src/Hooks/Reads/Screens.antt =====
-- The queries of the screens, each as it stands in its file.
use pecunia.Prelude.{Option, List, str_eq, if◌then◌else◌, String, Bool, none, some, [], ◌∷◌, ◌++◌}
use pecunia.Prelude.Text.{codes}
use pecunia.Transactions.{Param, TransactionFilters, transactions_query}
use pecunia.Queries.{
  AuditEventFilters, audit_events, transactions_slot, archived_slot, words, key_of, accounts,
  assets, projects, budgets, loans, subscriptions, categories, planned, activity, asset_valuations,
  project_items, transactions,
}
use pecunia.Hooks.{template}
use pecunia.Hooks.Reads.{
  once, by_pages, limit, text_of_bool, only_contact, transactions_query_key, ClientQuery,
}

abbrev pub accounts_to_link_query : ClientQuery
accounts_to_link_query = record {
  key = key_of accounts ++ words ("flat" ∷ []);
  source = once "/accounts" (limit 1000);
}

abbrev pub accounts_on_dashboard_query : ClientQuery
accounts_on_dashboard_query = record {
  key = key_of accounts ++ words ("dashboard" ∷ []);
  source = once "/accounts" (limit 200);
}

abbrev pub accounts_list_query : Bool → ClientQuery
accounts_list_query include_archived = record {
  key = key_of accounts ++ (archived_slot include_archived ∷ []);
  source = by_pages "/accounts" (("include_archived", text_of_bool include_archived) ∷ limit 20);
}

abbrev pub assets_on_dashboard_query : ClientQuery
assets_on_dashboard_query = record {
  key = key_of assets ++ words ("dashboard" ∷ []);
  source = once "/assets" (limit 200);
}

abbrev pub assets_list_query : ClientQuery
assets_list_query = record { key = key_of assets; source = by_pages "/assets" (limit 20) }

abbrev pub valuations_chart_query : String → ClientQuery
valuations_chart_query id = record {
  key = key_of (asset_valuations id) ++ words ("chart" ∷ []);
  source = once (template ("/assets/" ∷ id ∷ "/valuations" ∷ [])) (limit 60);
}

abbrev pub valuations_list_query : String → ClientQuery
valuations_list_query id = record {
  key = key_of (asset_valuations id);
  source = by_pages (template ("/assets/" ∷ id ∷ "/valuations" ∷ [])) (limit 20);
}

abbrev pub budgets_list_query : ClientQuery
budgets_list_query = record { key = key_of budgets; source = by_pages "/budgets" (limit 20) }

abbrev pub categories_to_map_query : ClientQuery
categories_to_map_query = record {
  key = key_of categories ++ words ("flat" ∷ []);
  source = once "/categories" (limit 1000);
}

abbrev pub planned_by_contact_query : String → ClientQuery
planned_by_contact_query id = record {
  key = key_of planned ++ words ("by-contact" ∷ id ∷ []);
  source = once "/planned" (("contact_id", codes id) ∷ limit 50);
}

abbrev pub subscriptions_by_contact_query : String → ClientQuery
subscriptions_by_contact_query id = record {
  key = key_of subscriptions ++ words ("by-contact" ∷ id ∷ []);
  source = once "/subscriptions" (("contact_id", codes id) ∷ limit 50);
}

abbrev pub loans_by_contact_query : String → ClientQuery
loans_by_contact_query id = record {
  key = key_of loans ++ words ("by-contact" ∷ id ∷ []);
  source = once "/loans" (("contact_id", codes id) ∷ limit 50);
}

abbrev pub projects_list_query : ClientQuery
projects_list_query = record { key = key_of projects; source = by_pages "/projects" (limit 20) }

abbrev pub items_list_query : String → ClientQuery
items_list_query id = record {
  key = key_of (project_items id);
  source = by_pages (template ("/projects/" ∷ id ∷ "/items" ∷ [])) (limit 20);
}

abbrev pub transactions_list_query : TransactionFilters → ClientQuery
transactions_list_query filters = record {
  key = transactions_query_key filters;
  source = by_pages "/transactions" (transactions_query filters none 20);
}

abbrev pub account_transactions_query : String → ClientQuery
account_transactions_query id = record {
  key = key_of (transactions (some id));
  source = by_pages "/transactions" (("account_id", codes id) ∷ limit 20);
}

abbrev pub contact_transactions_query : String → ClientQuery
contact_transactions_query id = record {
  key = key_of (transactions none) ++ (transactions_slot (only_contact id) ∷ []);
  source = by_pages "/transactions" (("contact_id", codes id) ∷ limit 20);
}

abbrev pub transactions_on_dashboard_query : String → ClientQuery
transactions_on_dashboard_query id = record {
  key = key_of (transactions (some id)) ++ words ("dashboard" ∷ []);
  source = once "/transactions" (("account_id", codes id) ∷ limit 60);
}

abbrev pub activity_list_query : ClientQuery
activity_list_query = record { key = key_of activity; source = by_pages "/activity" (limit 20) }

abbrev pub activity_on_dashboard_query : ClientQuery
activity_on_dashboard_query = record {
  key = key_of activity ++ words ("dashboard" ∷ []);
  source = once "/activity" (limit 8);
}

-- A parameter that is set for a value that is not empty.
abbrev set_if : String → Option String → List Param
set_if name none = []
set_if name (some s) = if str_eq s "" then [] else (name, codes s) ∷ []

-- `buildParams` of the first page.
abbrev pub audit_params : AuditEventFilters → List Param
audit_params filters =
    limit 20
    ++ (set_if "action" filters.action
        ++ (set_if "resource_type" filters.resource_type
            ++ (set_if "since" filters.since ++ set_if "until" filters.until)))

abbrev pub audit_log_query : AuditEventFilters → ClientQuery
audit_log_query filters = record {
  key = key_of (audit_events filters);
  source = by_pages "/audit-events" (audit_params filters);
}
