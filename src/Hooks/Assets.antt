-- ===== src/Hooks/Assets.antt =====
-- The mutations of assets and their valuations (web/src/features/assets/useAssets.ts). Each hook
-- writes out the same two invalidations.
use pecunia.Prelude.{String, Option, List, [], ◌∷◌}
use pecunia.Prelude.Int.{ℤ}
use pecunia.Api.{number, string}
use pecunia.Queries.{Key, key_of, assets, goals}
use pecunia.Hooks.{
  Mutation, Entries, given, optional, nullable, template, post_to, patch_to, delete_at,
}

pub data AssetType : Type 0 where
  vehicle property investment watch other : AssetType

abbrev pub word_of_asset_type : AssetType → String
word_of_asset_type vehicle = "vehicle"
word_of_asset_type property = "property"
word_of_asset_type investment = "investment"
word_of_asset_type watch = "watch"
word_of_asset_type other = "other"

-- `CreateAssetPayload`
pub record CreateAssetPayload : Type 0 where
  pub name : String
  pub type : AssetType
  pub currency : String
  pub acquired_on : Option (Option String)
  pub value_minor : Option ℤ
  pub as_of : Option String

abbrev pub entries_of_create_asset : CreateAssetPayload → Entries
entries_of_create_asset p =
    given "name" (string p.name)
    ∷ given "type" (string (word_of_asset_type p.type))
    ∷ given "currency" (string p.currency)
    ∷ optional "acquired_on" (nullable string) p.acquired_on
    ∷ optional "value_minor" number p.value_minor
    ∷ optional "as_of" string p.as_of
    ∷ []

-- `UpdateAssetPayload`
pub record UpdateAssetPayload : Type 0 where
  pub name : Option String
  pub type : Option AssetType
  pub currency : Option String
  pub acquired_on : Option (Option String)

abbrev pub entries_of_update_asset : UpdateAssetPayload → Entries
entries_of_update_asset p =
    optional "name" string p.name
    ∷ optional "type" (λ x. string (word_of_asset_type x)) p.type
    ∷ optional "currency" string p.currency
    ∷ optional "acquired_on" (nullable string) p.acquired_on
    ∷ []

-- `CreateValuationPayload`
pub record CreateValuationPayload : Type 0 where
  pub value_minor : ℤ
  pub as_of : String
  pub source : Option (Option String)

abbrev pub entries_of_create_valuation : CreateValuationPayload → Entries
entries_of_create_valuation p =
    given "value_minor" (number p.value_minor)
    ∷ given "as_of" (string p.as_of)
    ∷ optional "source" (nullable string) p.source
    ∷ []

abbrev pub after_asset_change : List Key
after_asset_change = key_of assets ∷ key_of goals ∷ []

-- The mutations, with the arguments of their hooks and the variables they are fired with.
pub data AssetMutation : Type 0 where
  create_asset : CreateAssetPayload → AssetMutation
  update_asset : String → UpdateAssetPayload → AssetMutation
  delete_asset : String → AssetMutation
  add_valuation : String → CreateValuationPayload → AssetMutation

abbrev pub asset_mutation : AssetMutation → Mutation
asset_mutation (create_asset payload) =
    post_to "/assets" (entries_of_create_asset payload) after_asset_change
asset_mutation (update_asset id payload) =
    patch_to (template ("/assets/" ∷ id ∷ [])) (entries_of_update_asset payload) after_asset_change
asset_mutation (delete_asset id) = delete_at (template ("/assets/" ∷ id ∷ [])) after_asset_change
asset_mutation (add_valuation asset_id payload) =
    post_to (template ("/assets/" ∷ asset_id ∷ "/valuations" ∷ []))
      (entries_of_create_valuation payload) after_asset_change
