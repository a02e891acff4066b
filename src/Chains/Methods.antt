-- ===== src/Chains/Methods.antt =====
-- solana.go and c_nft.go: the tables of methods with their costs, and the merge that `init` makes
-- of the two. A map literal is an association list in the order of the source.
mod Rpc
mod Das
pub use Rpc.*
pub use Das.*
use aura_proxy.Common.{ℕ, String, Bool, ◌||◌, List, [], ◌∷◌, Map, put, str_eq}

abbrev pub chain_name : String
chain_name = "solana"

abbrev pub das_chain_name : String
das_chain_name = "solana-das"

abbrev pub eclipse_chain_name : String
eclipse_chain_name = "eclipse"

abbrev pub eclipse_das_chain_name : String
eclipse_das_chain_name = "eclipse-das"

-- CNFTMethodList
unfoldable pub cnft_method_list : Map ℕ
cnft_method_list =
    (get_asset, 3)
    ∷ (get_asset_batch, 3)
    ∷ (get_asset_proof, 3)
    ∷ (get_asset_proof_batch, 3)
    ∷ (get_assets_by_owner, 3)
    ∷ (get_assets_by_authority, 3)
    ∷ (get_assets_by_creator, 3)
    ∷ (get_assets_by_group, 3)
    ∷ (get_grouping, 3)
    ∷ (search_assets, 3)
    ∷ (get_token_accounts, 3)
    ∷ (get_signatures_for_asset, 3)
    ∷ (get_signatures_for_asset_v2, 3)
    ∷ (get_aura_health, 3)
    ∷ (get_assets, 3)
    ∷ (get_assets_alias, 3)
    ∷ (get_asset_proofs, 3)
    ∷ (get_asset_proofs_alias, 3)
    ∷ (get_asset_signatures, 3)
    ∷ (get_asset_signatures_alias, 3)
    ∷ (get_asset_signatures_v2, 3)
    ∷ (get_asset_signatures_v2_alias, 3)
    ∷ []

-- The literal of MethodList, before `init` runs.
unfoldable pub method_list_literal : Map ℕ
method_list_literal =
    (get_account_info, 3)
    ∷ (get_balance, 3)
    ∷ (get_block, 3)
    ∷ (get_block_height, 3)
    ∷ (get_block_production, 3)
    ∷ (get_block_commitment, 3)
    ∷ (get_blocks, 3)
    ∷ (get_blocks_with_limit, 3)
    ∷ (get_block_time, 3)
    ∷ (get_cluster_nodes, 3)
    ∷ (get_epoch_info, 3)
    ∷ (get_epoch_schedule, 3)
    ∷ (get_fee_for_message, 3)
    ∷ (get_first_available_block, 3)
    ∷ (get_genesis_hash, 3)
    ∷ (get_health, 3)
    ∷ (get_highest_snapshot_slot, 3)
    ∷ (get_identity, 3)
    ∷ (get_inflation_governor, 3)
    ∷ (get_inflation_rate, 3)
    ∷ (get_inflation_reward, 3)
    ∷ (get_largest_accounts, 3)
    ∷ (get_latest_blockhash, 3)
    ∷ (get_leader_schedule, 3)
    ∷ (get_max_retransmit_slot, 3)
    ∷ (get_max_shred_insert_slot, 3)
    ∷ (get_minimum_balance_for_rent_exemption, 3)
    ∷ (get_multiple_accounts, 3)
    ∷ (get_program_accounts, 3)
    ∷ (get_recent_performance_samples, 3)
    ∷ (get_recent_prioritization_fees, 3)
    ∷ (get_signatures_for_address, 3)
    ∷ (get_signature_statuses, 3)
    ∷ (get_slot, 3)
    ∷ (get_slot_leader, 3)
    ∷ (get_slot_leaders, 3)
    ∷ (get_stake_activation, 3)
    ∷ (get_stake_minimum_delegation, 3)
    ∷ (get_supply, 3)
    ∷ (get_token_account_balance, 3)
    ∷ (get_token_accounts_by_delegate, 3)
    ∷ (get_token_accounts_by_owner, 3)
    ∷ (get_token_largest_accounts, 3)
    ∷ (get_token_supply, 3)
    ∷ (get_transaction, 3)
    ∷ (get_transaction_count, 3)
    ∷ (get_version, 3)
    ∷ (get_vote_accounts, 3)
    ∷ (is_blockhash_valid, 3)
    ∷ (minimum_ledger_slot, 3)
    ∷ (request_airdrop, 3)
    ∷ (send_transaction, 3)
    ∷ (simulate_transaction, 3)
    ∷ (get_confirmed_block, 3)
    ∷ (get_confirmed_blocks, 3)
    ∷ (get_confirmed_blocks_with_limit, 3)
    ∷ (get_confirmed_signatures_for_address2, 3)
    ∷ (get_confirmed_transaction, 3)
    ∷ (get_fee_calculator_for_blockhash, 3)
    ∷ (get_fee_rate_governor, 3)
    ∷ (get_fees, 3)
    ∷ (get_recent_blockhash, 3)
    ∷ (get_snapshot_slot, 3)
    ∷ []

-- The loop of `init`.
unfoldable pub merge {ℓ} : {V : Type ℓ} → Map V → Map V → Map V
merge into [] = into
merge into ((k, v) ∷ from) = merge (put into k v) from

-- MethodList as every request sees it.
unfoldable pub method_list : Map ℕ
unfolding method_list_literal merge cnft_method_list put
method_list = merge method_list_literal cnft_method_list

unfoldable pub tx_related_method : String → Bool
tx_related_method method =
    str_eq method get_transaction
    || str_eq method get_leader_schedule
    || str_eq method get_signatures_for_address
    || str_eq method get_signature_statuses

unfoldable pub block_related_method : String → Bool
block_related_method method =
    str_eq method get_block
    || str_eq method get_block_time
    || str_eq method get_block_commitment
    || str_eq method get_confirmed_block
