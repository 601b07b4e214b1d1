-- ===== src/Transactions/Filters.antt =====
-- The clean filters are what the key and the request are made of.
use pecunia.Prelude.{
  ◌∙◌, if◌then◌else◌, not, ap, sym, ◌++◌, ◌∷◌, [], String, ◌≡◌, refl, inl, inr, Option, none, some,
  str_eq, Bool-cases, List, ℕ,
}
use pecunia.Prelude.Text.{Text, trim, show, codes}
use pecunia.Transactions.{
  TransactionFilters, non_empty, clean_text, truthy, clean_filters, transactions_query, key_filters,
  has_active_filters, Param, filter_params, param, is_empty,
}
use pecunia.Transactions.Trimmed.{trim-trim}

truthy-truthy : (o : Option String) → truthy (truthy o) ≡ truthy o
truthy-truthy none = refl
truthy-truthy (some s) = elim (Bool-cases (str_eq s "")) [
  | inl e ↦ rw e refl
  | inr e ↦ rw (e, e) refl
]

clean_text-clean_text : (o : Option Text) → clean_text (clean_text o) ≡ clean_text o
clean_text-clean_text none = refl
clean_text-clean_text (some s) = go (trim s) (trim-trim s)
  where
    go : (t : Text) → trim t ≡ t → clean_text (non_empty t) ≡ non_empty t
    go [] e = refl
    go (c ∷ t) e = ap non_empty e

-- Cleaning clean filters changes nothing.
clean_filters-clean_filters :
    (filters : TransactionFilters) → clean_filters (clean_filters filters) ≡ clean_filters filters
unfolding clean_filters
clean_filters-clean_filters filters =
    rw
      (
        clean_text-clean_text filters.q,
        truthy-truthy filters.account_id,
        truthy-truthy filters.category_id,
        truthy-truthy filters.contact_id,
        truthy-truthy filters.date_from,
        truthy-truthy filters.date_to,
      )
      refl

abbrev pub params_of_key : Option TransactionFilters → List Param
params_of_key none = []
params_of_key (some clean) = filter_params clean

-- The parameters can be told from the key.
pub filter_params_of_key :
    (filters : TransactionFilters)
    → filter_params (clean_filters filters) ≡ params_of_key (key_filters filters)
unfolding key_filters has_active_filters
filter_params_of_key filters = go (filter_params (clean_filters filters)) refl
  where
    go :
        (params : List Param)
        → filter_params (clean_filters filters) ≡ params
        → filter_params (clean_filters filters)
          ≡ params_of_key (if not (is_empty params) then some (clean_filters filters) else none)
    go [] e = e
    go (p ∷ params) e = refl

-- Filters that share a key make the same request, for every cursor and limit: no cached page
-- answers another request.
pub key_filters-transactions_query :
    (f g : TransactionFilters) (cursor : Option String) (limit : ℕ)
    → key_filters f ≡ key_filters g
    → transactions_query f cursor limit ≡ transactions_query g cursor limit
unfolding transactions_query
key_filters-transactions_query f g cursor limit e =
    ap (λ params. ("limit", show limit) ∷ params ++ param "cursor" codes (truthy cursor))
      (filter_params_of_key f ∙ ap params_of_key e ∙ sym (filter_params_of_key g))

-- Cleaning is done once and for all: clean filters have the same key, the same request and the
-- same answer to whether any filter is active as the filters they come from.
pub clean_filters_once :
    (f : TransactionFilters) (cursor : Option String) (limit : ℕ)
    → (clean_filters (clean_filters f) ≡ clean_filters f)
      × (key_filters (clean_filters f) ≡ key_filters f)
      × (has_active_filters (clean_filters f) ≡ has_active_filters f)
      × (transactions_query (clean_filters f) cursor limit ≡ transactions_query f cursor limit)
unfolding key_filters has_active_filters transactions_query
clean_filters_once f cursor limit =
    let e = clean_filters-clean_filters f in
    (
      e,
      ap (λ (c : TransactionFilters). if not (is_empty (filter_params c)) then some c else none) e,
      ap (λ (c : TransactionFilters). not (is_empty (filter_params c))) e,
      ap
          (λ (c : TransactionFilters).
            ("limit", show limit) ∷ filter_params c ++ param "cursor" codes (truthy cursor))
          e,
    )
