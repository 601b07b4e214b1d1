-- ===== src/Queries/Resources.antt =====
-- The resources that the queries read, and the names that their keys begin with.
use pecunia.Prelude.{
  String, ◌≡◌, refl, sym, ap, ◌∙◌, Option, none, some, List, [], ◌∷◌, str_eq, if◌then◌else◌,
}
use pecunia.Queries.{
  analytics, Query, account, accounts, activity, asset, asset_valuations, assets, audit_events,
  bank_sync, budgets, categories, coins, contacts, demo, goals, holdings, loan, loan_payments,
  loans, me, planned, portfolio, portfolios, project, project_items, projects, sessions,
  subscriptions, transactions, transfers,
}

pub data Resource : Type 0 where
  of_me of_accounts of_transactions of_assets of_projects of_budgets of_portfolios of_coins of_loans
        of_subscriptions :
      Resource
  of_categories of_contacts of_goals of_planned of_bank_sync of_transfers of_activity of_analytics
        of_audit_events of_sessions of_demo :
      Resource

-- The first string of a resource's keys.
abbrev pub name_of : Resource → String
name_of of_me = "me"
name_of of_accounts = "accounts"
name_of of_transactions = "transactions"
name_of of_assets = "assets"
name_of of_projects = "projects"
name_of of_budgets = "budgets"
name_of of_portfolios = "portfolios"
name_of of_coins = "coins"
name_of of_loans = "loans"
name_of of_subscriptions = "subscriptions"
name_of of_categories = "categories"
name_of of_contacts = "contacts"
name_of of_goals = "goals"
name_of of_planned = "planned"
name_of of_bank_sync = "bank-sync"
name_of of_transfers = "transfers"
name_of of_activity = "activity"
name_of of_analytics = "analytics"
name_of of_audit_events = "audit-events"
name_of of_sessions = "sessions"
name_of of_demo = "demo"

-- The resource that a query reads.
abbrev pub resource_of : Query → Resource
resource_of me = of_me
resource_of accounts = of_accounts
resource_of (account id) = of_accounts
resource_of (transactions id) = of_transactions
resource_of assets = of_assets
resource_of (asset id) = of_assets
resource_of (asset_valuations id) = of_assets
resource_of projects = of_projects
resource_of (project id) = of_projects
resource_of (project_items id) = of_projects
resource_of budgets = of_budgets
resource_of portfolios = of_portfolios
resource_of (portfolio id) = of_portfolios
resource_of (holdings id) = of_portfolios
resource_of (coins q) = of_coins
resource_of loans = of_loans
resource_of (loan id) = of_loans
resource_of (loan_payments id) = of_loans
resource_of subscriptions = of_subscriptions
resource_of categories = of_categories
resource_of contacts = of_contacts
resource_of goals = of_goals
resource_of planned = of_planned
resource_of bank_sync = of_bank_sync
resource_of transfers = of_transfers
resource_of activity = of_activity
resource_of (analytics query) = of_analytics
resource_of (audit_events filters) = of_audit_events
resource_of sessions = of_sessions
resource_of demo = of_demo

abbrev named_so : String → List Resource → Option Resource
named_so w [] = none
named_so w (r ∷ rs) = if str_eq (name_of r) w then some r else named_so w rs

abbrev every_resource : List Resource
every_resource =
    of_me ∷ of_accounts ∷ of_transactions ∷ of_assets ∷ of_projects ∷ of_budgets ∷ of_portfolios
    ∷ of_coins ∷ of_loans ∷ of_subscriptions ∷ of_categories ∷ of_contacts ∷ of_goals ∷ of_planned
    ∷ of_bank_sync ∷ of_transfers ∷ of_activity ∷ of_analytics ∷ of_audit_events ∷ of_sessions
    ∷ of_demo ∷ []

named_so-name_of : (r : Resource) → named_so (name_of r) every_resource ≡ some r
named_so-name_of of_me = refl
named_so-name_of of_accounts = refl
named_so-name_of of_transactions = refl
named_so-name_of of_assets = refl
named_so-name_of of_projects = refl
named_so-name_of of_budgets = refl
named_so-name_of of_portfolios = refl
named_so-name_of of_coins = refl
named_so-name_of of_loans = refl
named_so-name_of of_subscriptions = refl
named_so-name_of of_categories = refl
named_so-name_of of_contacts = refl
named_so-name_of of_goals = refl
named_so-name_of of_planned = refl
named_so-name_of of_bank_sync = refl
named_so-name_of of_transfers = refl
named_so-name_of of_activity = refl
named_so-name_of of_analytics = refl
named_so-name_of of_audit_events = refl
named_so-name_of of_sessions = refl
named_so-name_of of_demo = refl

-- No two resources have the same name.
pub name_of_inj : (r s : Resource) → name_of r ≡ name_of s → r ≡ s
name_of_inj r s e =
    same (sym (named_so-name_of r) ∙ ap (λ w. named_so w every_resource) e ∙ named_so-name_of s)
  where
    same : some r ≡ some s → r ≡ s
    same q = cc
