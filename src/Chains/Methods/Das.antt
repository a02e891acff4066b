-- ===== src/Chains/Methods/Das.antt =====
-- c_nft.go: the names of the DAS methods.
use aura_proxy.Common.{String}

abbrev pub get_asset : String
get_asset = "getAsset"

abbrev pub get_asset_batch : String
get_asset_batch = "getAssetBatch"

abbrev pub get_asset_proof : String
get_asset_proof = "getAssetProof"

abbrev pub get_asset_proof_batch : String
get_asset_proof_batch = "getAssetProofBatch"

abbrev pub get_assets_by_owner : String
get_assets_by_owner = "getAssetsByOwner"

abbrev pub get_assets_by_authority : String
get_assets_by_authority = "getAssetsByAuthority"

abbrev pub get_assets_by_creator : String
get_assets_by_creator = "getAssetsByCreator"

abbrev pub get_assets_by_group : String
get_assets_by_group = "getAssetsByGroup"

abbrev pub get_grouping : String
get_grouping = "getGrouping"

abbrev pub search_assets : String
search_assets = "searchAssets"

abbrev pub get_token_accounts : String
get_token_accounts = "getTokenAccounts"

abbrev pub get_signatures_for_asset : String
get_signatures_for_asset = "getSignaturesForAsset"

abbrev pub get_signatures_for_asset_v2 : String
get_signatures_for_asset_v2 = "getSignaturesForAssetV2"

abbrev pub get_aura_health : String
get_aura_health = "getAuraHealth"

abbrev pub get_assets : String
get_assets = "getAssets"

abbrev pub get_assets_alias : String
get_assets_alias = "get_assets"

abbrev pub get_asset_proofs : String
get_asset_proofs = "getAssetProofs"

abbrev pub get_asset_proofs_alias : String
get_asset_proofs_alias = "get_asset_proofs"

abbrev pub get_asset_signatures : String
get_asset_signatures = "getAssetSignatures"

abbrev pub get_asset_signatures_alias : String
get_asset_signatures_alias = "get_asset_signatures"

abbrev pub get_asset_signatures_v2 : String
get_asset_signatures_v2 = "getAssetSignaturesV2"

abbrev pub get_asset_signatures_v2_alias : String
get_asset_signatures_v2_alias = "get_asset_signatures_v2"
