-- ===== src/Dashboard/Balances/Worth.antt =====
-- What each thing counts for in a currency, and the sums of it.
use pecunia.Prelude.{
  String, ◌≡◌, refl, sym, ap, ◌∙◌, ◌↔◌, inl, inr, Bool, true, List, [], ◌∷◌, arith, str_eq,
  str_eq_iff, filter, if◌then◌else◌, Bool-cases,
}
use pecunia.Prelude.Int.{ℤ, pos, ◌+ℤ◌, int_laws, +ℤ_assoc, add-zero_ℤ, zero-add_ℤ}
use pecunia.Prelude.Dict.{Dict, lookup, insert, lookup-insert, or_else}
use pecunia.Dashboard.Balances.{
  AccountSummary, AssetSummary, PortfolioSummary, LoanSummary, sum_by_currency, add_items,
  at_currency, is_null, signed_by,
}

-- The sum over all items of what each counts for.
abbrev pub sum_map {ℓ} : {T : Type ℓ} → (T → ℤ) → List T → ℤ
sum_map f [] = pos 0
sum_map f (x ∷ xs) = f x +ℤ sum_map f xs

-- An item counts for its amount in its own currency, and for nothing in any other.
abbrev pub in_currency : String → String → ℤ → ℤ
in_currency code own amount = if str_eq own code then amount else pos 0

module _ {ℓ} {T : Type ℓ} (currency : T → String) (minor : T → ℤ) where
  at_currency-add_items :
      (code : String) (items : List T) (totals : Dict ℤ)
      → at_currency (add_items currency minor items totals) code
        ≡ at_currency totals code +ℤ sum_map (λ x. in_currency code (currency x) (minor x)) items
  unfolding add_items
  at_currency-add_items code [] totals = omega int_laws
  at_currency-add_items code (item ∷ items) totals =
      at_currency-add_items code items _
      ∙ ap (λ (s : ℤ). s +ℤ sum_map (λ x. in_currency code (currency x) (minor x)) items)
          (step (str_eq_iff (currency item) code))
      ∙ +ℤ_assoc _ _ _
    where
      step :
          ((str_eq (currency item) code ≡ true) ↔ (currency item ≡ code))
          → at_currency
              (insert
                (currency item)
                (or_else (pos 0) (lookup (currency item) totals) +ℤ minor item)
                totals)
              code
            ≡ at_currency totals code +ℤ in_currency code (currency item) (minor item)
      step iff =
          rw (lookup-insert (currency item) code)
            (ground (arith, iff, add-zero_ℤ (at_currency totals code)))

  -- Every currency's total is the sum over exactly that currency's items.
  pub at_currency-sum_by_currency :
      (code : String) (items : List T)
      → at_currency (sum_by_currency currency minor items) code
        ≡ sum_map (λ x. in_currency code (currency x) (minor x)) items
  unfolding sum_by_currency lookup
  at_currency-sum_by_currency code items = at_currency-add_items code items [] ∙ zero-add_ℤ _

  -- Counting the kept items is counting all of them, the others at nothing.
  pub sum_map-filter :
      (p : T → Bool) (f g : T → ℤ)
      → ((x : T) → g x ≡ (if p x then f x else pos 0))
      → (items : List T) → sum_map f (filter p items) ≡ sum_map g items
  sum_map-filter p f g h [] = refl
  sum_map-filter p f g h (x ∷ items) = elim (Bool-cases (p x)) [
    | inl e ↦ rw (e, h x, e) (ap (λ (s : ℤ). f x +ℤ s) (sum_map-filter p f g h items))
    | inr e ↦ rw (e, h x, e) (sum_map-filter p f g h items ∙ sym (zero-add_ℤ _))
  ]

-- What each thing counts for in a currency: an archived account, an asset without a valuation and
-- a settled loan for nothing, a borrowed loan for less than nothing.
abbrev pub account_worth : String → AccountSummary → ℤ
account_worth code account =
    if is_null account.archived_at
    then in_currency code account.currency account.balance_minor
    else pos 0

abbrev pub asset_worth : String → AssetSummary → ℤ
asset_worth code asset = in_currency code asset.currency (or_else (pos 0) asset.current_value_minor)

abbrev pub portfolio_worth : String → PortfolioSummary → ℤ
portfolio_worth code portfolio = in_currency code portfolio.currency portfolio.value_minor

abbrev pub loan_worth : String → LoanSummary → ℤ
loan_worth code loan =
    in_currency code loan.currency (signed_by loan.direction loan.remaining_minor)
