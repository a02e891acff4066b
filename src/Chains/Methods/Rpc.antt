-- ===== src/Chains/Methods/Rpc.antt =====
-- solana.go: the names of the RPC methods.
use aura_proxy.Common.{String}

abbrev pub get_account_info : String
get_account_info = "getAccountInfo"

abbrev pub send_transaction : String
send_transaction = "sendTransaction"

abbrev pub get_signatures_for_address : String
get_signatures_for_address = "getSignaturesForAddress"

abbrev pub get_latest_blockhash : String
get_latest_blockhash = "getLatestBlockhash"

abbrev pub get_slot : String
get_slot = "getSlot"

abbrev pub get_transaction : String
get_transaction = "getTransaction"

abbrev pub get_inflation_reward : String
get_inflation_reward = "getInflationReward"

abbrev pub get_program_accounts : String
get_program_accounts = "getProgramAccounts"

abbrev pub get_signature_statuses : String
get_signature_statuses = "getSignatureStatuses"

abbrev pub get_token_account_balance : String
get_token_account_balance = "getTokenAccountBalance"

abbrev pub get_multiple_accounts : String
get_multiple_accounts = "getMultipleAccounts"

abbrev pub get_epoch_info : String
get_epoch_info = "getEpochInfo"

abbrev pub get_balance : String
get_balance = "getBalance"

abbrev pub get_recent_performance_samples : String
get_recent_performance_samples = "getRecentPerformanceSamples"

abbrev pub get_vote_accounts : String
get_vote_accounts = "getVoteAccounts"

abbrev pub get_inflation_rate : String
get_inflation_rate = "getInflationRate"

abbrev pub get_supply : String
get_supply = "getSupply"

abbrev pub get_block_time : String
get_block_time = "getBlockTime"

abbrev pub get_block_height : String
get_block_height = "getBlockHeight"

abbrev pub get_minimum_balance_for_rent_exemption : String
get_minimum_balance_for_rent_exemption = "getMinimumBalanceForRentExemption"

abbrev pub is_blockhash_valid : String
is_blockhash_valid = "isBlockhashValid"

abbrev pub get_transaction_count : String
get_transaction_count = "getTransactionCount"

abbrev pub get_token_accounts_by_owner : String
get_token_accounts_by_owner = "getTokenAccountsByOwner"

abbrev pub get_block : String
get_block = "getBlock"

abbrev pub get_blocks : String
get_blocks = "getBlocks"

abbrev pub get_blocks_with_limit : String
get_blocks_with_limit = "getBlocksWithLimit"

abbrev pub get_version : String
get_version = "getVersion"

abbrev pub get_token_largest_accounts : String
get_token_largest_accounts = "getTokenLargestAccounts"

abbrev pub get_block_commitment : String
get_block_commitment = "getBlockCommitment"

abbrev pub get_stake_activation : String
get_stake_activation = "getStakeActivation"

abbrev pub get_token_accounts_by_delegate : String
get_token_accounts_by_delegate = "getTokenAccountsByDelegate"

abbrev pub get_token_supply : String
get_token_supply = "getTokenSupply"

abbrev pub get_leader_schedule : String
get_leader_schedule = "getLeaderSchedule"

abbrev pub get_confirmed_block : String
get_confirmed_block = "getConfirmedBlock"

abbrev pub get_first_available_block : String
get_first_available_block = "getFirstAvailableBlock"

abbrev pub get_identity : String
get_identity = "getIdentity"

abbrev pub get_confirmed_blocks : String
get_confirmed_blocks = "getConfirmedBlocks"

abbrev pub get_confirmed_signatures_for_address2 : String
get_confirmed_signatures_for_address2 = "getConfirmedSignaturesForAddress2"

abbrev pub get_confirmed_transaction : String
get_confirmed_transaction = "getConfirmedTransaction"

abbrev pub get_block_production : String
get_block_production = "getBlockProduction"

abbrev pub get_cluster_nodes : String
get_cluster_nodes = "getClusterNodes"

abbrev pub get_epoch_schedule : String
get_epoch_schedule = "getEpochSchedule"

abbrev pub get_fee_for_message : String
get_fee_for_message = "getFeeForMessage"

abbrev pub get_genesis_hash : String
get_genesis_hash = "getGenesisHash"

abbrev pub get_health : String
get_health = "getHealth"

abbrev pub get_highest_snapshot_slot : String
get_highest_snapshot_slot = "getHighestSnapshotSlot"

abbrev pub get_inflation_governor : String
get_inflation_governor = "getInflationGovernor"

abbrev pub get_largest_accounts : String
get_largest_accounts = "getLargestAccounts"

abbrev pub get_max_retransmit_slot : String
get_max_retransmit_slot = "getMaxRetransmitSlot"

abbrev pub get_max_shred_insert_slot : String
get_max_shred_insert_slot = "getMaxShredInsertSlot"

abbrev pub get_recent_prioritization_fees : String
get_recent_prioritization_fees = "getRecentPrioritizationFees"

abbrev pub get_slot_leader : String
get_slot_leader = "getSlotLeader"

abbrev pub get_slot_leaders : String
get_slot_leaders = "getSlotLeaders"

abbrev pub get_stake_minimum_delegation : String
get_stake_minimum_delegation = "getStakeMinimumDelegation"

abbrev pub minimum_ledger_slot : String
minimum_ledger_slot = "minimumLedgerSlot"

abbrev pub request_airdrop : String
request_airdrop = "requestAirdrop"

abbrev pub simulate_transaction : String
simulate_transaction = "simulateTransaction"

abbrev pub get_confirmed_blocks_with_limit : String
get_confirmed_blocks_with_limit = "getConfirmedBlocksWithLimit"

abbrev pub get_fee_calculator_for_blockhash : String
get_fee_calculator_for_blockhash = "getFeeCalculatorForBlockhash"

abbrev pub get_fee_rate_governor : String
get_fee_rate_governor = "getFeeRateGovernor"

abbrev pub get_fees : String
get_fees = "getFees"

abbrev pub get_recent_blockhash : String
get_recent_blockhash = "getRecentBlockhash"

abbrev pub get_snapshot_slot : String
get_snapshot_slot = "getSnapshotSlot"
