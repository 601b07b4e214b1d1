-- ===== src/Dashboard/Balances/NetWorth.antt =====
-- Each currency's net worth is the sum of what each account, asset, portfolio and loan counts for.
use pecunia.Prelude.{
  String, ◌≡◌, refl, sym, ap, ◌∙◌, inl, inr, Bool, true, false, not, ◌||◌, some, List, [], ◌∷◌,
  ◌++◌, arith, str_eq, str_eq_iff, if◌then◌else◌, Bool-cases,
}
use pecunia.Prelude.Int.{ℤ, pos, ◌+ℤ◌, neg_ℤ, eqb_ℤ, int_laws}
use pecunia.Prelude.Dict.{
  Dict, lookup, insert, lookup-insert, keys, or_else, distinct, member, lookup_absent,
  member-append, member-distinct,
}
use pecunia.Dashboard.Balances.{
  AccountSummary, AssetSummary, PortfolioSummary, LoanSummary, Direction, borrowed, lent,
  at_currency, is_active, is_valued, is_open, signed_by, balances_by_currency,
  asset_values_by_currency, portfolio_values_by_currency, loan_contributions_by_currency, fill,
  net_worth_by_currency,
}
use pecunia.Dashboard.Balances.Worth.{
  sum_map, in_currency, at_currency-sum_by_currency, sum_map-filter, account_worth, asset_worth,
  portfolio_worth, loan_worth,
}

module _ (code : String) where
  balances_lem :
      (accounts : List AccountSummary)
      → at_currency (balances_by_currency accounts) code ≡ sum_map (account_worth code) accounts
  unfolding balances_by_currency
  balances_lem accounts =
      at_currency-sum_by_currency (λ a. a.currency) (λ a. a.balance_minor) code _
      ∙ sum_map-filter (λ a. a.currency) (λ a. a.balance_minor) is_active
          (λ a. in_currency code a.currency a.balance_minor) (account_worth code) (λ a. refl)
          accounts

  missing_worth :
      (a : AssetSummary)
      → asset_worth code a ≡ (
          if is_valued a
          then in_currency code a.currency (or_else (pos 0) a.current_value_minor)
          else pos 0)
  missing_worth a = ground arith

  assets_lem :
      (assets : List AssetSummary)
      → at_currency (asset_values_by_currency assets) code ≡ sum_map (asset_worth code) assets
  unfolding asset_values_by_currency
  assets_lem assets =
      at_currency-sum_by_currency (λ a. a.currency) (λ a. or_else (pos 0) a.current_value_minor)
        code _
      ∙ sum_map-filter (λ a. a.currency) (λ a. or_else (pos 0) a.current_value_minor) is_valued
          (λ a. in_currency code a.currency (or_else (pos 0) a.current_value_minor))
          (asset_worth code) missing_worth assets

  portfolios_lem :
      (portfolios : List PortfolioSummary)
      → at_currency (portfolio_values_by_currency portfolios) code
        ≡ sum_map (portfolio_worth code) portfolios
  unfolding portfolio_values_by_currency
  portfolios_lem portfolios =
      at_currency-sum_by_currency (λ p. p.currency) (λ p. p.value_minor) code portfolios

  settled_worth :
      (l : LoanSummary)
      → loan_worth code l ≡ (
          if is_open l
          then in_currency code l.currency (signed_by l.direction l.remaining_minor)
          else pos 0)
  unfolding neg_ℤ
  settled_worth l = settled l.direction l.remaining_minor (str_eq l.currency code)
    where
      settled :
          (d : Direction) (r : ℤ) (b : Bool)
          → (if b then signed_by d r else pos 0)
            ≡ (if not (eqb_ℤ r (pos 0)) then (if b then signed_by d r else pos 0) else pos 0)
      settled borrowed r b = ground arith
      settled lent r b = ground arith

  loans_lem :
      (loans : List LoanSummary)
      → at_currency (loan_contributions_by_currency loans) code ≡ sum_map (loan_worth code) loans
  unfolding loan_contributions_by_currency
  loans_lem loans =
      at_currency-sum_by_currency (λ l. l.currency) (λ l. signed_by l.direction l.remaining_minor)
        code _
      ∙ sum_map-filter (λ l. l.currency) (λ l. signed_by l.direction l.remaining_minor) is_open
          (λ l. in_currency code l.currency (signed_by l.direction l.remaining_minor))
          (loan_worth code) settled_worth loans

lookup-fill :
    (f : String → ℤ) (code : String) (codes : List String) (m : Dict ℤ)
    → lookup code (fill f codes m) ≡ (if member code codes then some (f code) else lookup code m)
unfolding fill
lookup-fill f code [] m = refl
lookup-fill f code (c ∷ codes) m =
    lookup-fill f code codes (insert c (f c) m)
    ∙ rw (lookup-insert c code)
        (join (str_eq c code) (member code codes) (λ e. ap f ((str_eq_iff c code).0 e)))
  where
    join :
        (a b : Bool)
        → (a ≡ true → f c ≡ f code)
        → (if b then some (f code) else (if a then some (f c) else lookup code m))
          ≡ (if a || b then some (f code) else lookup code m)
    join true true h = refl
    join true false h = ap some (h refl)
    join false b h = refl

-- A currency that a table does not list has the total 0.
unlisted_zero :
    (code : String) (m : Dict ℤ) → member code (keys m) ≡ false → at_currency m code ≡ pos 0
unlisted_zero code m h = ap (or_else (pos 0)) (lookup_absent code m h)

listed_total :
    (f : String → ℤ) (code : String) (codes : List String)
    → (member code codes ≡ false → f code ≡ pos 0)
    → at_currency (fill f (distinct codes) []) code ≡ f code
unfolding lookup
listed_total f code codes h =
    rw (lookup-fill f code (distinct codes) [], member-distinct code codes)
      (elim (Bool-cases (member code codes)) [ inl e ↦ rw e refl | inr e ↦ rw e (sym (h e)) ])

-- The union of the four tables' keys lists every currency in which one of them has a total.
total :
    (code : String) (a b c d : Dict ℤ)
    → at_currency
        (fill
          (λ currency.
            at_currency a currency
            +ℤ at_currency b currency
            +ℤ at_currency c currency
            +ℤ at_currency d currency)
          (distinct (keys a ++ (keys b ++ (keys c ++ keys d))))
          [])
        code
      ≡ at_currency a code +ℤ at_currency b code +ℤ at_currency c code +ℤ at_currency d code
total code a b c d =
    listed_total
      (λ currency.
        at_currency a currency
        +ℤ at_currency b currency
        +ℤ at_currency c currency
        +ℤ at_currency d currency)
      code (keys a ++ (keys b ++ (keys c ++ keys d))) none_listed
  where
    none_listed :
        member code (keys a ++ (keys b ++ (keys c ++ keys d))) ≡ false
        → at_currency a code +ℤ at_currency b code +ℤ at_currency c code +ℤ at_currency d code
          ≡ pos 0
    none_listed h =
        let e =
          rw
            (
              member-append code (keys a) (keys b ++ (keys c ++ keys d)),
              member-append code (keys b) (keys c ++ keys d),
              member-append code (keys c) (keys d),
            )
            at h in
        rw
          (
            unlisted_zero code a (ground (arith, e)),
            unlisted_zero code b (ground (arith, e)),
            unlisted_zero code c (ground (arith, e)),
            unlisted_zero code d (ground (arith, e)),
          )
          (omega int_laws)

-- In every currency, the net worth is the sum of what all accounts, all assets, all portfolios and
-- all loans count for in that currency alone: archived accounts, assets without a valuation and
-- settled loans for nothing, borrowed loans negatively. A currency that is not listed sums to 0.
pub net_worth_by_currency_lem :
    (code : String) (accounts : List AccountSummary) (assets : List AssetSummary)
    (portfolios : List PortfolioSummary) (loans : List LoanSummary)
    → at_currency (net_worth_by_currency accounts assets portfolios loans) code
      ≡ sum_map (account_worth code) accounts
        +ℤ sum_map (asset_worth code) assets
        +ℤ sum_map (portfolio_worth code) portfolios
        +ℤ sum_map (loan_worth code) loans
unfolding net_worth_by_currency
net_worth_by_currency_lem code accounts assets portfolios loans =
    rw
      (
        ← balances_lem code accounts,
        ← assets_lem code assets,
        ← portfolios_lem code portfolios,
        ← loans_lem code loans,
      )
      (total code (balances_by_currency accounts) (asset_values_by_currency assets)
        (portfolio_values_by_currency portfolios) (loan_contributions_by_currency loans))
