-- ===== src/Hooks/Portfolios.antt =====
-- The mutations of portfolios, holdings and prices (web/src/features/portfolio/usePortfolios.ts).
use pecunia.Prelude.Int.{ℤ}
use pecunia.Prelude.{Bool, Option, String, List, [], ◌∷◌}
use pecunia.Api.{number, string}
use pecunia.Queries.{Key, key_of, portfolios, goals}
use pecunia.Hooks.{
  Mutation, Entries, given, optional, nullable, template, analytics_prefix, post_to, patch_to,
  delete_at, post_empty,
}

-- `PortfolioOut`
pub record PortfolioOut : Type 0 where
  pub id : String
  pub name : String
  pub currency : String
  pub description : Option String
  pub is_demo : Bool
  pub created_at : String
  pub value_minor : ℤ
  pub holding_count : ℤ

-- `CreatePortfolioPayload`
pub record CreatePortfolioPayload : Type 0 where
  pub name : String
  pub currency : String
  pub description : Option (Option String)

abbrev pub entries_of_create_portfolio : CreatePortfolioPayload → Entries
entries_of_create_portfolio p =
    given "name" (string p.name)
    ∷ given "currency" (string p.currency)
    ∷ optional "description" (nullable string) p.description
    ∷ []

-- `UpdatePortfolioPayload`
pub record UpdatePortfolioPayload : Type 0 where
  pub name : Option String
  pub currency : Option String
  pub description : Option (Option String)

abbrev pub entries_of_update_portfolio : UpdatePortfolioPayload → Entries
entries_of_update_portfolio p =
    optional "name" string p.name
    ∷ optional "currency" string p.currency
    ∷ optional "description" (nullable string) p.description
    ∷ []

-- `CreateHoldingPayload`
pub record CreateHoldingPayload : Type 0 where
  pub name : String
  pub quantity : String
  pub symbol : Option (Option String)
  pub coingecko_id : Option (Option String)

abbrev pub entries_of_create_holding : CreateHoldingPayload → Entries
entries_of_create_holding p =
    given "name" (string p.name)
    ∷ given "quantity" (string p.quantity)
    ∷ optional "symbol" (nullable string) p.symbol
    ∷ optional "coingecko_id" (nullable string) p.coingecko_id
    ∷ []

-- `UpdateHoldingPayload`
pub record UpdateHoldingPayload : Type 0 where
  pub name : Option String
  pub quantity : Option String
  pub symbol : Option (Option String)
  pub coingecko_id : Option (Option String)

abbrev pub entries_of_update_holding : UpdateHoldingPayload → Entries
entries_of_update_holding p =
    optional "name" string p.name
    ∷ optional "quantity" string p.quantity
    ∷ optional "symbol" (nullable string) p.symbol
    ∷ optional "coingecko_id" (nullable string) p.coingecko_id
    ∷ []

-- `RecordPricePayload`
pub record RecordPricePayload : Type 0 where
  pub unit_price_minor : ℤ
  pub as_of : String
  pub source : Option (Option String)

abbrev pub entries_of_record_price : RecordPricePayload → Entries
entries_of_record_price p =
    given "unit_price_minor" (number p.unit_price_minor)
    ∷ given "as_of" (string p.as_of)
    ∷ optional "source" (nullable string) p.source
    ∷ []

abbrev pub invalidate_portfolios : List Key
invalidate_portfolios = key_of portfolios ∷ analytics_prefix ∷ key_of goals ∷ []

-- The mutations, with the arguments of their hooks and the variables they are fired with.
pub data PortfolioMutation : Type 0 where
  create_portfolio : CreatePortfolioPayload → PortfolioMutation
  update_portfolio : String → UpdatePortfolioPayload → PortfolioMutation
  delete_portfolio : String → PortfolioMutation
  add_holding : String → CreateHoldingPayload → PortfolioMutation
  update_holding : String → String → UpdateHoldingPayload → PortfolioMutation
  delete_holding : String → String → PortfolioMutation
  record_price : String → String → RecordPricePayload → PortfolioMutation
  refresh_prices : PortfolioMutation

abbrev pub portfolio_mutation : PortfolioMutation → Mutation
portfolio_mutation (create_portfolio payload) =
    post_to "/portfolios" (entries_of_create_portfolio payload) invalidate_portfolios
portfolio_mutation (update_portfolio id payload) =
    patch_to (template ("/portfolios/" ∷ id ∷ [])) (entries_of_update_portfolio payload)
      invalidate_portfolios
portfolio_mutation (delete_portfolio id) =
    delete_at (template ("/portfolios/" ∷ id ∷ [])) invalidate_portfolios
portfolio_mutation (add_holding portfolio_id payload) =
    post_to (template ("/portfolios/" ∷ portfolio_id ∷ "/holdings" ∷ []))
      (entries_of_create_holding payload) invalidate_portfolios
portfolio_mutation (update_holding portfolio_id holding_id payload) =
    patch_to (template ("/portfolios/" ∷ portfolio_id ∷ "/holdings/" ∷ holding_id ∷ []))
      (entries_of_update_holding payload) invalidate_portfolios
portfolio_mutation (delete_holding portfolio_id holding_id) =
    delete_at (template ("/portfolios/" ∷ portfolio_id ∷ "/holdings/" ∷ holding_id ∷ []))
      invalidate_portfolios
portfolio_mutation (record_price portfolio_id holding_id payload) =
    post_to (template ("/portfolios/" ∷ portfolio_id ∷ "/holdings/" ∷ holding_id ∷ "/prices" ∷ []))
      (entries_of_record_price payload) invalidate_portfolios
portfolio_mutation refresh_prices = post_empty "/portfolios/refresh-prices" invalidate_portfolios
