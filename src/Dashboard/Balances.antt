-- ===== src/Dashboard/Balances.antt =====
-- Totals per currency, net worth and the primary account
-- (web/src/features/dashboard/balances.ts). Minor units are integers.
pub mod Worth
pub mod NetWorth
pub mod Primary
mod Tests
use pecunia.Prelude.{
  ◌+◌, String, Bool, true, false, not, Option, none, some, List, [], ◌∷◌, ◌++◌, str_eq, filter,
  if◌then◌else◌,
}
use pecunia.Prelude.Int.{ℤ, pos, ◌+ℤ◌, neg_ℤ, eqb_ℤ}
use pecunia.Prelude.Largest.{reduce_largest}
use pecunia.Prelude.Dict.{Dict, lookup, insert, keys, or_else, distinct}

pub record AccountSummary : Type 0 where
  pub id : String
  pub name : String
  pub kind : String
  pub currency : String
  pub balance_minor : ℤ
  pub archived_at : Option String

pub record AssetSummary : Type 0 where
  pub id : String
  pub name : String
  pub currency : String
  pub current_value_minor : Option ℤ

pub record PortfolioSummary : Type 0 where
  pub currency : String
  pub value_minor : ℤ

pub data Direction : Type 0 where
  borrowed lent : Direction

pub record LoanSummary : Type 0 where
  pub currency : String
  pub direction : Direction
  pub remaining_minor : ℤ

module _ {ℓ} {T : Type ℓ} (currency : T → String) (minor : T → ℤ) where
  add_items : List T → Dict ℤ → Dict ℤ
  add_items [] totals = totals
  add_items (item ∷ items) totals =
      let key = currency item in
      add_items items (insert key (or_else (pos 0) (lookup key totals) +ℤ minor item) totals)

  pub sum_by_currency : List T → Dict ℤ
  unfolding add_items
  sum_by_currency items = add_items items []

abbrev pub is_null {ℓ} : {A : Type ℓ} → Option A → Bool
is_null none = true
is_null (some a) = false

abbrev pub is_active : AccountSummary → Bool
is_active account = is_null account.archived_at

pub balances_by_currency : List AccountSummary → Dict ℤ
unfolding sum_by_currency
balances_by_currency accounts =
    sum_by_currency (λ a. a.currency) (λ a. a.balance_minor) (filter is_active accounts)

abbrev pub is_valued : AssetSummary → Bool
is_valued asset = not (is_null asset.current_value_minor)

pub asset_values_by_currency : List AssetSummary → Dict ℤ
unfolding sum_by_currency
asset_values_by_currency assets =
    sum_by_currency (λ a. a.currency) (λ a. or_else (pos 0) a.current_value_minor)
      (filter is_valued assets)

pub portfolio_values_by_currency : List PortfolioSummary → Dict ℤ
unfolding sum_by_currency
portfolio_values_by_currency portfolios =
    sum_by_currency (λ p. p.currency) (λ p. p.value_minor) portfolios

abbrev pub is_open : LoanSummary → Bool
is_open loan = not (eqb_ℤ loan.remaining_minor (pos 0))

abbrev pub signed_by : Direction → ℤ → ℤ
signed_by borrowed remaining = neg_ℤ remaining
signed_by lent remaining = remaining

pub loan_contributions_by_currency : List LoanSummary → Dict ℤ
unfolding sum_by_currency
loan_contributions_by_currency loans =
    sum_by_currency (λ l. l.currency) (λ l. signed_by l.direction l.remaining_minor)
      (filter is_open loans)

abbrev pub at_currency : Dict ℤ → String → ℤ
at_currency totals currency = or_else (pos 0) (lookup currency totals)

-- The loop `for (const currency of currencies) result[currency] = …`
pub fill : (String → ℤ) → List String → Dict ℤ → Dict ℤ
fill f [] result = result
fill f (currency ∷ currencies) result = fill f currencies (insert currency (f currency) result)

pub net_worth_by_currency :
    List AccountSummary → List AssetSummary → List PortfolioSummary → List LoanSummary → Dict ℤ
unfolding fill
net_worth_by_currency accounts assets portfolios loans =
    let balances = balances_by_currency accounts in
    let asset_totals = asset_values_by_currency assets in
    let portfolio_totals = portfolio_values_by_currency portfolios in
    let loan_totals = loan_contributions_by_currency loans in
    let currencies =
      distinct
        (keys balances ++ (keys asset_totals ++ (keys portfolio_totals ++ keys loan_totals))) in
    fill
      (λ currency.
        at_currency balances currency
        +ℤ at_currency asset_totals currency
        +ℤ at_currency portfolio_totals currency
        +ℤ at_currency loan_totals currency)
      currencies []

abbrev pub is_empty {ℓ} : {A : Type ℓ} → List A → Bool
is_empty [] = true
is_empty (a ∷ rest) = false

abbrev pub or_pool : List AccountSummary → List AccountSummary → List AccountSummary
or_pool [] active = active
or_pool (account ∷ accounts) active = account ∷ accounts

pub select_primary_account : List AccountSummary → String → Option AccountSummary
select_primary_account accounts base_currency =
    let active = filter is_active accounts in
    let same_currency = filter (λ a. str_eq a.currency base_currency) active in
    if is_empty active
    then none
    else reduce_largest (λ a. a.balance_minor) (or_pool same_currency active)
