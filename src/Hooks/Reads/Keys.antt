-- ===== src/Hooks/Reads/Keys.antt =====
-- The cache's keys: queries that share a key ask for the same.
use pecunia.Prelude.{
  String, ◌≡◌, refl, ap, Bool, true, false, not, ◌&&◌, Option, none, some, List, [], ◌∷◌, ◌++◌,
  arith, str_eq, if◌then◌else◌,
}
use pecunia.Prelude.Text.{Text, codes, show}
use pecunia.Transactions.{Param, param, filter_params}
use pecunia.Queries.{
  filters_slot, word, transactions_slot, archived_slot, range_slot, months_slot, Key,
}
use pecunia.Hooks.{template}
use pecunia.Hooks.Reads.{
  Source, once, by_pages, limit, text_of_bool, range_params, analytics_path, projection_path,
}
use pecunia.Hooks.Reads.Screens.{audit_params}
use pecunia.Hooks.Reads.Every.{
  Read, use_account, use_asset, use_goal, use_portfolio, use_loan, use_project,
  account_transactions, contact_transactions, transactions_on_dashboard,
}

-- An id that is none of the words that stand in its place in other keys.
abbrev pub is_plain : String → Bool
is_plain id = not (str_eq id "") && (not (str_eq id "flat") && not (str_eq id "dashboard"))

-- The ids of a query are plain.
abbrev pub has_plain_ids : Read → Bool
has_plain_ids (use_account id) = is_plain id
has_plain_ids (use_asset id) = is_plain id
has_plain_ids (use_goal id) = is_plain id
has_plain_ids (use_portfolio id) = is_plain id
has_plain_ids (use_loan id) = is_plain id
has_plain_ids (use_project id) = is_plain id
has_plain_ids (account_transactions id) = is_plain id
has_plain_ids (contact_transactions id) = is_plain id
has_plain_ids (transactions_on_dashboard id) = is_plain id
has_plain_ids read = true

-- The text that a parameter has, where it is given.
abbrev pub text_at : String → List Param → Option Text
text_at name [] = none
text_at name ((n, t) ∷ params) = if str_eq n name then some t else text_at name params

-- Two sources ask for the same: the order of their parameters does not matter.
pub record AsksSame (s t : Source) : Type 0 where
  pub same_endless : s.endless ≡ t.endless
  pub same_path : s.path ≡ t.path
  pub same_params : (name : String) → text_at name s.params ≡ text_at name t.params

pub AsksSame-refl : (s : Source) → AsksSame s s
AsksSame-refl s = record { same_endless = refl; same_path = refl; same_params = λ name. refl }

pub AsksSame-of_eq : {s t : Source} → s ≡ t → AsksSame s t
AsksSame-of_eq e = record {
  same_endless = ap (λ (x : Source). x.endless) e;
  same_path = ap (λ (x : Source). x.path) e;
  same_params = λ name. ap (λ (x : Source). text_at name x.params) e;
}

-- What a key asks for, read off the key: the name of its resource is the first word, and what
-- follows it tells the resource's queries apart.
abbrev pub item_at : String → String → Source
item_at resource id = once (template (resource ∷ id ∷ [])) []

abbrev pub flat_or_item : String → String → Source → Source
flat_or_item w resource flat = if str_eq w "flat" then flat else item_at resource w

abbrev accounts_at : Key → Source
accounts_at (archived_slot b ∷ rest) =
    by_pages "/accounts" (("include_archived", text_of_bool b) ∷ limit 20)
accounts_at (word w ∷ archived_slot b ∷ rest) =
    once "/accounts" (("include_archived", text_of_bool b) ∷ limit 200)
accounts_at (word w ∷ rest) =
    if str_eq w "dashboard"
    then once "/accounts" (limit 200)
    else flat_or_item w "/accounts/" (once "/accounts" (limit 1000))
accounts_at key = once "" []

abbrev assets_at : Key → Source
assets_at [] = by_pages "/assets" (limit 20)
assets_at (word w ∷ word v ∷ word u ∷ rest) =
    once (template ("/assets/" ∷ w ∷ "/valuations" ∷ [])) (limit 60)
assets_at (word w ∷ word v ∷ rest) =
    by_pages (template ("/assets/" ∷ w ∷ "/valuations" ∷ [])) (limit 20)
assets_at (word w ∷ rest) =
    if str_eq w "dashboard"
    then once "/assets" (limit 200)
    else flat_or_item w "/assets/" (once "/assets" (limit 200))
assets_at key = once "" []

abbrev archived_at : String → Key → Source
archived_at path (word w ∷ archived_slot b ∷ rest) =
    once path (("include_archived", text_of_bool b) ∷ limit 200)
archived_at path (word w ∷ rest) = once path (limit 1000)
archived_at path key = once "" []

abbrev contacts_at : Key → Source
contacts_at (word w ∷ archived_slot b ∷ rest) =
    once "/contacts" (("include_archived", text_of_bool b) ∷ limit 200)
contacts_at (word w ∷ word v ∷ range_slot range ∷ rest) =
    once (template ("/contacts/" ∷ w ∷ "/overview" ∷ [])) (range_params (some range))
contacts_at (word w ∷ word v ∷ rest) = once (template ("/contacts/" ∷ w ∷ "/overview" ∷ [])) []
contacts_at (word w ∷ rest) = item_at "/contacts/" w
contacts_at key = once "" []

-- A flat list, or the list of a contact.
abbrev linked_at : String → Key → Source
linked_at path (word w ∷ word id ∷ rest) = once path (("contact_id", codes id) ∷ limit 50)
linked_at path key = once path (limit 200)

abbrev goals_at : Key → Source
goals_at (word w ∷ rest) = flat_or_item w "/goals/" (once "/goals" (limit 200))
goals_at key = once "" []

abbrev subscriptions_at : Key → Source
subscriptions_at (word w ∷ word v ∷ rest) =
    if str_eq w "totals"
    then once "/subscriptions/totals" (("status", codes v) ∷ [])
    else once "/subscriptions" (("contact_id", codes v) ∷ limit 50)
subscriptions_at (word w ∷ rest) =
    if str_eq w "flat"
    then once "/subscriptions" (limit 200)
    else once "/subscriptions/suggestions" []
subscriptions_at key = once "" []

abbrev portfolios_at : Key → Source
portfolios_at (word w ∷ word v ∷ rest) =
    once (template ("/portfolios/" ∷ w ∷ "/holdings" ∷ [])) (limit 200)
portfolios_at (word w ∷ rest) = flat_or_item w "/portfolios/" (once "/portfolios" (limit 200))
portfolios_at key = once "" []

abbrev loans_at : Key → Source
loans_at (word w ∷ word v ∷ word u ∷ rest) =
    once (template ("/loans/" ∷ w ∷ "/payments" ∷ [])) (limit 200)
loans_at (word w ∷ word v ∷ rest) = once "/loans" (("contact_id", codes v) ∷ limit 50)
loans_at (word w ∷ rest) = flat_or_item w "/loans/" (once "/loans" (limit 200))
loans_at key = once "" []

abbrev projects_at : Key → Source
projects_at [] = by_pages "/projects" (limit 20)
projects_at (word w ∷ word v ∷ rest) =
    by_pages (template ("/projects/" ∷ w ∷ "/items" ∷ [])) (limit 20)
projects_at (word w ∷ rest) = flat_or_item w "/projects/" (once "/projects" (limit 200))
projects_at key = once "" []

abbrev pub transactions_at : Key → Source
transactions_at [] = by_pages "/transactions" (limit 20)
transactions_at (transactions_slot clean ∷ word w ∷ rest) =
    once "/transactions" (param "account_id" codes clean.account_id ++ limit 60)
transactions_at (transactions_slot clean ∷ rest) =
    by_pages "/transactions" (("limit", show 20) ∷ filter_params clean)
transactions_at key = once "/transactions" (limit 200)

abbrev bank_sync_at : Key → Source
bank_sync_at (word w ∷ word v ∷ rest) = once "/bank-sync/discovery" (("item_id", codes v) ∷ [])
bank_sync_at (word w ∷ rest) = once "/bank-sync/category-mappings" []
bank_sync_at key = once "/bank-sync/connections" (limit 200)

abbrev coins_at : Key → Source
coins_at (word q ∷ rest) = once "/portfolios/coins" (("q", codes q) ∷ [])
coins_at key = once "" []

abbrev audit_at : Key → Source
audit_at (filters_slot filters ∷ rest) = by_pages "/audit-events" (audit_params filters)
audit_at key = once "" []

abbrev activity_at : Key → Source
activity_at [] = by_pages "/activity" (limit 20)
activity_at key = once "/activity" (limit 8)

abbrev pub analytics_at : Key → Source
analytics_at (word e ∷ word w ∷ rest) = analytics_path e none true
analytics_at (word e ∷ range_slot range ∷ rest) = analytics_path e (some range) false
analytics_at (word e ∷ months_slot months ∷ rest) =
    once (template ("/analytics/" ∷ e ∷ [])) (("months", show months) ∷ [])
analytics_at (word e ∷ rest) =
    if str_eq e "projection" then projection_path 0 else analytics_path e none false
analytics_at key = once "" []

abbrev pub resource_at : String → Key → Source
resource_at r rest =
    if str_eq r "accounts"
    then accounts_at rest
    else if str_eq r "assets"
    then assets_at rest
    else if str_eq r "budgets"
    then by_pages "/budgets" (limit 20)
    else if str_eq r "categories"
    then archived_at "/categories" rest
    else if str_eq r "contacts"
    then contacts_at rest
    else if str_eq r "planned"
    then linked_at "/planned" rest
    else if str_eq r "goals"
    then goals_at rest
    else if str_eq r "subscriptions"
    then subscriptions_at rest
    else if str_eq r "portfolios"
    then portfolios_at rest
    else if str_eq r "loans"
    then loans_at rest
    else if str_eq r "projects"
    then projects_at rest
    else if str_eq r "transfers"
    then once "/transfers" (limit 200)
    else if str_eq r "transactions"
    then transactions_at rest
    else if str_eq r "bank-sync"
    then bank_sync_at rest
    else if str_eq r "activity"
    then activity_at rest
    else if str_eq r "sessions"
    then once "/auth/sessions" []
    else if str_eq r "demo"
    then once "/demo" []
    else if str_eq r "me"
    then once "/auth/me" []
    else if str_eq r "coins"
    then coins_at rest
    else if str_eq r "audit-events"
    then audit_at rest
    else if str_eq r "setup-status"
    then once "/setup/status" []
    else analytics_at rest

abbrev pub source_at : Key → Source
source_at (word r ∷ rest) = resource_at r rest
source_at key = once "" []

pub plain_parts :
    (id : String)
    → is_plain id ≡ true
    → (str_eq id "" ≡ false) × (str_eq id "flat" ≡ false) × (str_eq id "dashboard" ≡ false)
plain_parts id h = (ground arith, ground arith, ground arith)

pub flat_or_item_plain :
    (id resource : String) (flat : Source)
    → is_plain id ≡ true
    → flat_or_item id resource flat ≡ item_at resource id
flat_or_item_plain id resource flat h = rw (plain_parts id h).1 refl
