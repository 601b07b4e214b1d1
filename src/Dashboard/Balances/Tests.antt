-- ===== src/Dashboard/Balances/Tests.antt =====
-- Runs of the dashboard's totals, and the theorems at concrete accounts.
use pecunia.Prelude.{String, ◌≡◌, refl, Option, none, some, List, [], ◌∷◌}
use pecunia.Prelude.Int.{ℤ, pos, negsuc, ◌+ℤ◌, neg_ℤ}
use pecunia.Prelude.Dict.{lookup, insert}
use pecunia.Prelude.Largest.{largest_of}
use pecunia.Dashboard.Balances.{
  AccountSummary, AssetSummary, PortfolioSummary, LoanSummary, borrowed, lent, at_currency,
  balances_by_currency, asset_values_by_currency, portfolio_values_by_currency,
  loan_contributions_by_currency, net_worth_by_currency, select_primary_account,
}
use pecunia.Dashboard.Balances.NetWorth.{net_worth_by_currency_lem}
use pecunia.Dashboard.Balances.Worth.{
  sum_map, account_worth, asset_worth, portfolio_worth, loan_worth,
}
use pecunia.Dashboard.Balances.Primary.{Selection, select_primary_account-Selection}

abbrev account : String → String → ℤ → Option String → AccountSummary
account id currency balance archived_at = record {
  id = id;
  name = id;
  kind = "checking";
  currency = currency;
  balance_minor = balance;
  archived_at = archived_at;
}

abbrev accounts : List AccountSummary
accounts =
    account "a" "USD" (pos 900) none
    ∷ account "b" "EUR" (pos 5000) none
    ∷ account "c" "USD" (pos 7000) (some "2026-01-01")
    ∷ account "d" "USD" (pos 1000) none
    ∷ []

abbrev assets : List AssetSummary
assets =
    record { id = "car"; name = "car"; currency = "USD"; current_value_minor = some (pos 300) }
    ∷ record { id = "art"; name = "art"; currency = "BRL"; current_value_minor = none }
    ∷ []

abbrev portfolios : List PortfolioSummary
portfolios = record { currency = "EUR"; value_minor = pos 0 } ∷ []

abbrev loans : List LoanSummary
loans =
    record { currency = "USD"; direction = borrowed; remaining_minor = pos 2500 }
    ∷ record { currency = "GBP"; direction = lent; remaining_minor = pos 40 }
    ∷ []

net_worth_run :
    net_worth_by_currency accounts assets portfolios loans
    ≡ ("USD", negsuc 299) ∷ ("EUR", pos 5000) ∷ ("GBP", pos 40) ∷ []
unfolding net_worth_by_currency balances_by_currency asset_values_by_currency
    portfolio_values_by_currency loan_contributions_by_currency lookup insert ◌+ℤ◌ neg_ℤ
net_worth_run = refl

primary_run :
    (select_primary_account accounts "USD" ≡ some (account "d" "USD" (pos 1000) none))
    × (select_primary_account accounts "JPY" ≡ some (account "b" "EUR" (pos 5000) none))
unfolding select_primary_account largest_of
primary_run = (refl, refl)

net_worth_by_currency_example :
    at_currency (net_worth_by_currency accounts assets portfolios loans) "USD"
    ≡ sum_map (account_worth "USD") accounts
      +ℤ sum_map (asset_worth "USD") assets
      +ℤ sum_map (portfolio_worth "USD") portfolios
      +ℤ sum_map (loan_worth "USD") loans
net_worth_by_currency_example = net_worth_by_currency_lem "USD" accounts assets portfolios loans

select_primary_account_example : Selection accounts "USD" (select_primary_account accounts "USD")
select_primary_account_example = select_primary_account-Selection accounts "USD"
