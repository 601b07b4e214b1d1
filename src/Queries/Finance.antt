-- ===== src/Queries/Finance.antt =====
-- What the invalidation of the finance keys reaches.
use pecunia.Prelude.{String, ◌≡◌, refl, ap, ◌∙◌, Bool, true, false, List, [], ◌∷◌}
use pecunia.Queries.{Query, key_of, finance_query_keys}
use pecunia.Queries.Resources.{
  Resource, of_me, of_accounts, of_transactions, of_assets, of_projects, of_budgets, of_portfolios,
  of_coins, of_loans, of_subscriptions, of_categories, of_contacts, of_goals, of_planned,
  of_bank_sync, of_transfers, of_activity, of_analytics, of_audit_events, of_sessions, of_demo,
  name_of, resource_of,
}
use pecunia.Queries.Coverage.{
  QueryClient, MatchesPrefix, reached, any_names, singles, reached-singles,
}

-- What holds finance data that a demo workspace seeds.
abbrev pub is_finance : Resource → Bool
is_finance of_me = false
is_finance of_accounts = true
is_finance of_transactions = true
is_finance of_assets = true
is_finance of_projects = true
is_finance of_budgets = true
is_finance of_portfolios = true
is_finance of_coins = false
is_finance of_loans = true
is_finance of_subscriptions = true
is_finance of_categories = true
is_finance of_contacts = true
is_finance of_goals = false
is_finance of_planned = false
is_finance of_bank_sync = false
is_finance of_transfers = true
is_finance of_activity = false
is_finance of_analytics = false
is_finance of_audit_events = false
is_finance of_sessions = false
is_finance of_demo = false

abbrev finance_names : List String
finance_names =
    "accounts" ∷ "transactions" ∷ "assets" ∷ "projects" ∷ "budgets" ∷ "categories" ∷ "contacts"
    ∷ "transfers" ∷ "portfolios" ∷ "loans" ∷ "subscriptions" ∷ []

finance_names_lem : (r : Resource) → any_names finance_names (name_of r) ≡ is_finance r
finance_names_lem of_me = refl
finance_names_lem of_accounts = refl
finance_names_lem of_transactions = refl
finance_names_lem of_assets = refl
finance_names_lem of_projects = refl
finance_names_lem of_budgets = refl
finance_names_lem of_portfolios = refl
finance_names_lem of_coins = refl
finance_names_lem of_loans = refl
finance_names_lem of_subscriptions = refl
finance_names_lem of_categories = refl
finance_names_lem of_contacts = refl
finance_names_lem of_goals = refl
finance_names_lem of_planned = refl
finance_names_lem of_bank_sync = refl
finance_names_lem of_transfers = refl
finance_names_lem of_activity = refl
finance_names_lem of_analytics = refl
finance_names_lem of_audit_events = refl
finance_names_lem of_sessions = refl
finance_names_lem of_demo = refl

finance_singles : finance_query_keys ≡ singles finance_names
unfolding finance_query_keys
finance_singles = refl

-- With a client that matches prefixes, the finance keys reach exactly the queries of accounts,
-- transactions, assets, projects, budgets, categories, contacts, transfers, portfolios, loans and
-- subscriptions; they reach no query of the activity, the audit events, the profile, the sessions,
-- the analytics, the goals or the planned transactions.
pub finance_query_keys-reached :
    (client : QueryClient)
    → MatchesPrefix client
    → (q : Query) → reached client finance_query_keys (key_of q) ≡ is_finance (resource_of q)
finance_query_keys-reached client law q =
    ap (λ keys. reached client keys (key_of q)) finance_singles
    ∙ reached-singles client law finance_names q
    ∙ finance_names_lem (resource_of q)
