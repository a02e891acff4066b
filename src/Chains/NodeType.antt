-- ===== src/Chains/NodeType.antt =====
-- node_type.go: what each kind of node serves.
use aura_proxy.Common.{String, Bool, ◌||◌, List, [], ◌∷◌, mem_str, str_eq, if◌then◌else◌}
use aura_proxy.Common.Int.{ℤ}
use aura_proxy.Chains.Methods.{
  get_account_info, get_balance, get_block, get_block_commitment, get_block_height,
  get_block_production, get_block_time, get_blocks, get_blocks_with_limit, get_cluster_nodes,
  get_confirmed_block, get_confirmed_blocks, get_confirmed_blocks_with_limit,
  get_confirmed_signatures_for_address2, get_confirmed_transaction, get_epoch_info,
  get_epoch_schedule, get_fee_calculator_for_blockhash, get_fee_for_message, get_fee_rate_governor,
  get_fees, get_first_available_block, get_genesis_hash, get_health, get_highest_snapshot_slot,
  get_identity, get_inflation_governor, get_inflation_rate, get_inflation_reward,
  get_largest_accounts, get_latest_blockhash, get_leader_schedule, get_max_retransmit_slot,
  get_max_shred_insert_slot, get_minimum_balance_for_rent_exemption, get_multiple_accounts,
  get_program_accounts, get_recent_blockhash, get_recent_performance_samples,
  get_recent_prioritization_fees, get_signature_statuses, get_signatures_for_address, get_slot,
  get_slot_leader, get_slot_leaders, get_snapshot_slot, get_stake_activation,
  get_stake_minimum_delegation, get_supply, get_token_account_balance,
  get_token_accounts_by_delegate, get_token_accounts_by_owner, get_token_largest_accounts,
  get_token_supply, get_transaction, get_transaction_count, get_version, get_vote_accounts,
  minimum_ledger_slot, request_airdrop, send_transaction, simulate_transaction,
}

pub record NodeType : Type 0 where
  pub name : String
  pub available_slots_history : ℤ

abbrev pub basic_solana_node : String
basic_solana_node = "basic_node"

abbrev pub extended_solana_node : String
extended_solana_node = "extended_node"

abbrev pub archive_solana_node : String
archive_solana_node = "archive_node"

-- The cases of the switch.
unfoldable pub account_methods : List String
account_methods =
    get_account_info ∷ get_balance ∷ get_cluster_nodes ∷ get_epoch_info ∷ get_epoch_schedule
    ∷ get_fee_for_message ∷ get_genesis_hash ∷ get_health ∷ get_highest_snapshot_slot ∷ get_identity
    ∷ get_inflation_governor ∷ get_inflation_rate ∷ get_inflation_reward ∷ get_largest_accounts
    ∷ get_latest_blockhash ∷ get_max_retransmit_slot ∷ get_max_shred_insert_slot
    ∷ get_minimum_balance_for_rent_exemption ∷ get_multiple_accounts
    ∷ get_recent_performance_samples ∷ get_recent_prioritization_fees ∷ get_slot ∷ get_slot_leader
    ∷ get_slot_leaders ∷ get_stake_activation ∷ get_stake_minimum_delegation
    ∷ get_token_account_balance ∷ get_token_accounts_by_delegate ∷ get_token_accounts_by_owner
    ∷ get_token_largest_accounts ∷ get_version ∷ get_vote_accounts ∷ minimum_ledger_slot
    ∷ request_airdrop ∷ send_transaction ∷ simulate_transaction ∷ get_fee_calculator_for_blockhash
    ∷ get_fee_rate_governor ∷ get_recent_blockhash ∷ get_fees ∷ get_snapshot_slot ∷ []

unfoldable pub ledger_methods : List String
ledger_methods =
    get_block ∷ get_block_height ∷ get_block_production ∷ get_block_commitment ∷ get_blocks
    ∷ get_blocks_with_limit ∷ get_block_time ∷ get_first_available_block ∷ get_program_accounts
    ∷ get_signatures_for_address ∷ get_signature_statuses ∷ get_supply ∷ get_token_supply
    ∷ get_transaction ∷ get_transaction_count ∷ get_confirmed_block ∷ get_confirmed_blocks
    ∷ get_confirmed_blocks_with_limit ∷ get_confirmed_signatures_for_address2
    ∷ get_confirmed_transaction ∷ get_leader_schedule ∷ []

-- The first component is the answer; the second is true where the source returns the error
-- "invalid requested method".
unfoldable pub is_support_method : NodeType → String → Bool × Bool
is_support_method n method =
    if mem_str method account_methods
    then (
      str_eq n.name basic_solana_node
          || str_eq n.name extended_solana_node
          || str_eq n.name archive_solana_node,
      Bool.false,
    )
    else if mem_str method ledger_methods
    then (str_eq n.name extended_solana_node || str_eq n.name archive_solana_node, Bool.false)
    else (Bool.false, Bool.true)
