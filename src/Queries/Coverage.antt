-- ===== src/Queries/Coverage.antt =====
-- What an invalidation reaches: the queries of its resource, and no other.
use pecunia.Prelude.{
  ℕ, String, ◌≡◌, refl, sym, ap, ap₂, ◌∙◌, ◌↔◌, inl, inr, Bool, true, false, ◌||◌, Option, none,
  some, List, [], ◌∷◌, str_eq, str_eq_iff, ◌==◌, Bool-cases,
}
use pecunia.Queries.{
  AnalyticsQuery, analytics_key_of, analytics, word, transactions_slot, archived_slot, null_slot,
  range_slot, months_slot, filters_slot, AnalyticsRange, Key, analytics_key, of_months, of_account,
  Query, key_of, account, accounts, activity, asset, asset_valuations, assets, audit_events,
  bank_sync, budgets, cashflow, categories, coins, contacts, debt_payoffs, demo, forecast, goals,
  holdings, loan, loan_payments, loans, me, net_worth, net_worth_composition, planned, portfolio,
  portfolios, project, project_items, projection, projects, safe_to_spend, sessions,
  spending_by_category, spending_by_contact, subscriptions, summary, transactions, transfers,
  upcoming,
}
use pecunia.Queries.Resources.{Resource, name_of, resource_of, name_of_inj}

-- Whether an invalidation by the first key reaches the query that is stored under the second.
pub record QueryClient : Type 0 where
  pub reaches : Key → Key → Bool

abbrev pub begins_with : String → Key → Bool
begins_with w [] = false
begins_with w (word v ∷ key) = str_eq v w
begins_with w (transactions_slot filters ∷ key) = false
begins_with w (archived_slot archived ∷ key) = false
begins_with w (null_slot ∷ key) = false
begins_with w (range_slot range ∷ key) = false
begins_with w (months_slot months ∷ key) = false
begins_with w (filters_slot filters ∷ key) = false

-- The client's prefix match: a key of one string reaches the keys that begin with that string.
abbrev pub MatchesPrefix : QueryClient → Type 0
MatchesPrefix client =
    (w : String) (key : Key) → client.reaches (word w ∷ []) key ≡ begins_with w key

analytics_begins :
    (w endpoint : String) (range : Option AnalyticsRange) (all : Bool)
    → begins_with w (analytics_key endpoint range all) ≡ str_eq "analytics" w
unfolding analytics_key
analytics_begins w endpoint range true = refl
analytics_begins w endpoint none false = refl
analytics_begins w endpoint (some range) false = refl

months_begins :
    (w endpoint : String) (months : Option ℕ)
    → begins_with w (of_months endpoint months) ≡ str_eq "analytics" w
months_begins w endpoint none = refl
months_begins w endpoint (some months) = elim (Bool-cases (months == 0)) [
  | inl e ↦ rw e refl
  | inr e ↦ rw e refl
]

account_begins :
    (w : String) (id : Option String) → begins_with w (of_account id) ≡ str_eq "transactions" w
account_begins w none = refl
account_begins w (some id) = elim (Bool-cases (str_eq id "")) [
  | inl e ↦ rw e refl
  | inr e ↦ rw e refl
]

analytics_key_of-begins :
    (w : String) (q : AnalyticsQuery) → begins_with w (analytics_key_of q) ≡ str_eq "analytics" w
unfolding analytics_key_of
analytics_key_of-begins w (net_worth range) = analytics_begins w "net-worth" range false
analytics_key_of-begins w (net_worth_composition range all) =
    analytics_begins w "net-worth-composition" range all
analytics_key_of-begins w (cashflow range) = analytics_begins w "cashflow" range false
analytics_key_of-begins w (spending_by_category range all) =
    analytics_begins w "spending-by-category" range all
analytics_key_of-begins w (spending_by_contact range all) =
    analytics_begins w "spending-by-contact" range all
analytics_key_of-begins w upcoming = refl
analytics_key_of-begins w (forecast months) = months_begins w "forecast" months
analytics_key_of-begins w summary = refl
analytics_key_of-begins w safe_to_spend = refl
analytics_key_of-begins w (projection months) = months_begins w "projection" months
analytics_key_of-begins w debt_payoffs = refl

-- Every key begins with its resource's name.
key_of-begins :
    (w : String) (q : Query) → begins_with w (key_of q) ≡ str_eq (name_of (resource_of q)) w
unfolding key_of
key_of-begins w me = refl
key_of-begins w accounts = refl
key_of-begins w (account id) = refl
key_of-begins w (transactions id) = account_begins w id
key_of-begins w assets = refl
key_of-begins w (asset id) = refl
key_of-begins w (asset_valuations id) = refl
key_of-begins w projects = refl
key_of-begins w (project id) = refl
key_of-begins w (project_items id) = refl
key_of-begins w budgets = refl
key_of-begins w portfolios = refl
key_of-begins w (portfolio id) = refl
key_of-begins w (holdings id) = refl
key_of-begins w (coins q) = refl
key_of-begins w loans = refl
key_of-begins w (loan id) = refl
key_of-begins w (loan_payments id) = refl
key_of-begins w subscriptions = refl
key_of-begins w categories = refl
key_of-begins w contacts = refl
key_of-begins w goals = refl
key_of-begins w planned = refl
key_of-begins w bank_sync = refl
key_of-begins w transfers = refl
key_of-begins w activity = refl
key_of-begins w (analytics query) = analytics_key_of-begins w query
key_of-begins w (audit_events filters) = refl
key_of-begins w sessions = refl
key_of-begins w demo = refl

-- With a client that matches prefixes, an invalidation by a resource's name reaches exactly the
-- queries of that resource: each of its lists, items and windows, and nothing of another resource.
pub reaches_iff :
    (client : QueryClient)
    → MatchesPrefix client
    → (r : Resource) (q : Query)
    → (client.reaches (word (name_of r) ∷ []) (key_of q) ≡ true) ↔ (resource_of q ≡ r)
reaches_iff client law r q =
    let e : client.reaches (word (name_of r) ∷ []) (key_of q)
        ≡ str_eq (name_of (resource_of q)) (name_of r) =
      law (name_of r) (key_of q) ∙ key_of-begins (name_of r) q in
    let i = str_eq_iff (name_of (resource_of q)) (name_of r) in
    (λ h. name_of_inj (resource_of q) r (i.0 (sym e ∙ h)), λ h. e ∙ i.1 (ap name_of h))

-- Some key of the list reaches the key.
abbrev pub reached : QueryClient → List Key → Key → Bool
reached client [] key = false
reached client (k ∷ keys) key = client.reaches k key || reached client keys key

abbrev pub any_names : List String → String → Bool
any_names [] v = false
any_names (w ∷ ws) v = str_eq v w || any_names ws v

abbrev pub singles : List String → List Key
singles [] = []
singles (w ∷ ws) = (word w ∷ []) ∷ singles ws

pub reached-singles :
    (client : QueryClient)
    → MatchesPrefix client
    → (ws : List String) (q : Query)
    → reached client (singles ws) (key_of q) ≡ any_names ws (name_of (resource_of q))
reached-singles client law [] q = refl
reached-singles client law (w ∷ ws) q =
    ap₂ (λ a b. a || b) (law w (key_of q) ∙ key_of-begins w q) (reached-singles client law ws q)
