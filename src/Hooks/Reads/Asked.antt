-- ===== src/Hooks/Reads/Asked.antt =====
-- What a key of each resource asks for.
use pecunia.Prelude.{
  false≢true, ℕ, String, ◌≡◌, refl, sym, ap, ◌∙◌, inl, inr, Bool, true, false, Option, none, some,
  [], ◌∷◌, append-nil, str_eq, str_eq_iff, ◌==◌, if◌then◌else◌, ==_iff, Bool-cases,
}
use pecunia.Prelude.Text.{Text, codes, show}
use pecunia.Transactions.{
  TransactionFilters, transactions_query, key_filters, filter_params, clean_filters,
}
use pecunia.Transactions.Filters.{filter_params_of_key, params_of_key}
use pecunia.Queries.{
  transactions, AnalyticsRange, AnalyticsQuery, analytics_key_of, analytics_key, key_of, of_months,
  net_worth, cashflow, net_worth_composition, spending_by_category, spending_by_contact, upcoming,
  summary, safe_to_spend, debt_payoffs, forecast, projection,
}
use pecunia.Hooks.Reads.{
  Source, once, by_pages, limit, analytics_path, forecast_path, projection_path, or_zero,
  analytics_source, filters_key, transactions_query_key,
}
use pecunia.Hooks.Reads.Keys.{
  is_plain, text_at, AsksSame, AsksSame-refl, AsksSame-of_eq, source_at, flat_or_item, item_at,
  plain_parts, flat_or_item_plain,
}

-- Two parameters of different names may change places.
text_at-swap :
    (a b : String) (s t : Text)
    → str_eq a b ≡ false
    → (name : String) → text_at name ((a, s) ∷ (b, t) ∷ []) ≡ text_at name ((b, t) ∷ (a, s) ∷ [])
text_at-swap a b s t h name = elim (Bool-cases (str_eq a name)) [
  | inl e ↦ elim (Bool-cases (str_eq b name)) [
    | inl k ↦
        let same = (str_eq_iff a name).0 e ∙ sym ((str_eq_iff b name).0 k) in
        absurd (false≢true (sym h ∙ (str_eq_iff a b).1 same))
    | inr k ↦ rw (e, k) refl
  ]
  | inr e ↦ rw e refl
]

pub swapped_pages :
    (path a b : String) (s t : Text)
    → str_eq a b ≡ false
    → AsksSame (by_pages path ((a, s) ∷ (b, t) ∷ [])) (by_pages path ((b, t) ∷ (a, s) ∷ []))
swapped_pages path a b s t h = record {
  same_endless = refl;
  same_path = refl;
  same_params = text_at-swap a b s t h;
}

-- The item of a plain id, under a resource whose flat list is the only other word.
pub item_under :
    (id resource : String) (flat : Source)
    → is_plain id ≡ true
    → AsksSame (flat_or_item id resource flat) (item_at resource id)
item_under id resource flat h = AsksSame-of_eq (flat_or_item_plain id resource flat h)

pub item_under_dashboard :
    (id resource : String) (flat dashboard : Source)
    → is_plain id ≡ true
    → AsksSame
        (if str_eq id "dashboard" then dashboard else flat_or_item id resource flat)
        (item_at resource id)
item_under_dashboard id resource flat dashboard h =
    AsksSame-of_eq (rw ((plain_parts id h).2, (plain_parts id h).1) refl)

forecast_at :
    (months : Option ℕ) → AsksSame (source_at (of_months "forecast" months)) (forecast_path months)
forecast_at none = AsksSame-refl (once "/analytics/forecast" [])
forecast_at (some months) = elim (Bool-cases (months == 0)) [
  | inl e ↦ rw e (AsksSame-refl (once "/analytics/forecast" []))
  | inr e ↦ rw e (AsksSame-refl (once "/analytics/forecast" (("months", show months) ∷ [])))
]

projection_at :
    (months : Option ℕ)
    → AsksSame (source_at (of_months "projection" months)) (projection_path (or_zero months))
projection_at none = AsksSame-refl (projection_path 0)
projection_at (some months) = elim (Bool-cases (months == 0)) [
  | inl e ↦ rw e (AsksSame-of_eq (ap projection_path (sym ((==_iff months 0).0 e))))
  | inr e ↦ rw e (AsksSame-refl (projection_path months))
]

ranged_at :
    (endpoint : String) (range : Option AnalyticsRange) (all : Bool)
    → str_eq endpoint "projection" ≡ false
    → AsksSame (source_at (analytics_key endpoint range all)) (analytics_path endpoint range all)
unfolding analytics_key
ranged_at endpoint range true h = AsksSame-refl _
ranged_at endpoint none false h = rw h (AsksSame-refl (analytics_path endpoint none false))
ranged_at endpoint (some range) false h = AsksSame-refl _

pub analytics_read :
    (query : AnalyticsQuery)
    → AsksSame (source_at (analytics_key_of query)) (analytics_source query)
unfolding analytics_key_of
analytics_read (net_worth range) = ranged_at "net-worth" range false refl
analytics_read (net_worth_composition range all) = ranged_at "net-worth-composition" range all refl
analytics_read (cashflow range) = ranged_at "cashflow" range false refl
analytics_read (spending_by_category range all) = ranged_at "spending-by-category" range all refl
analytics_read (spending_by_contact range all) = ranged_at "spending-by-contact" range all refl
analytics_read upcoming = AsksSame-refl (once "/analytics/upcoming" [])
analytics_read summary = AsksSame-refl (once "/analytics/summary" [])
analytics_read safe_to_spend = AsksSame-refl (once "/analytics/safe-to-spend" [])
analytics_read debt_payoffs = AsksSame-refl (once "/analytics/debt-payoffs" [])
analytics_read (forecast months) = forecast_at months
analytics_read (projection months) = projection_at months

list_at :
    (o : Option TransactionFilters)
    → source_at (filters_key o) ≡ by_pages "/transactions" (("limit", show 20) ∷ params_of_key o)
unfolding filter_params
list_at none = refl
list_at (some clean) = refl

pub transactions_list_read :
    (filters : TransactionFilters)
    → AsksSame
        (source_at (transactions_query_key filters))
        (by_pages "/transactions" (transactions_query filters none 20))
unfolding transactions_query_key transactions_query
transactions_list_read filters = AsksSame-of_eq (
    list_at (key_filters filters)
    ∙ ap (λ params. by_pages "/transactions" (("limit", show 20) ∷ params))
        (sym (filter_params_of_key filters)
          ∙ sym (append-nil (filter_params (clean_filters filters)))))

pub account_list_read :
    (id : String)
    → is_plain id ≡ true
    → AsksSame
        (source_at (key_of (transactions (some id))))
        (by_pages "/transactions" (("account_id", codes id) ∷ limit 20))
unfolding key_of filter_params
account_list_read id h =
    rw (plain_parts id h).0
      (swapped_pages "/transactions" "limit" "account_id" (show 20) (codes id) refl)
