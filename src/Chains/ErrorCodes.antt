-- ===== src/Chains/ErrorCodes.antt =====
-- solana.go: the JSON-RPC error codes.
use aura_proxy.Common.Int.{ℤ, negsuc}

-- -32001
abbrev pub block_cleaned_up_err_code : ℤ
block_cleaned_up_err_code = negsuc 32000

-- -32002
abbrev pub send_transaction_preflight_failure_err_code : ℤ
send_transaction_preflight_failure_err_code = negsuc 32001

-- -32003
abbrev pub transaction_signature_verification_failure_err_code : ℤ
transaction_signature_verification_failure_err_code = negsuc 32002

-- -32004
abbrev pub block_not_available_err_code : ℤ
block_not_available_err_code = negsuc 32003

-- -32005
abbrev pub node_unhealthy_err_code : ℤ
node_unhealthy_err_code = negsuc 32004

-- -32006
abbrev pub transaction_precompile_verification_failure_err_code : ℤ
transaction_precompile_verification_failure_err_code = negsuc 32005

-- -32007
abbrev pub slot_skipped_err_code : ℤ
slot_skipped_err_code = negsuc 32006

-- -32008
abbrev pub no_snapshot_err_code : ℤ
no_snapshot_err_code = negsuc 32007

-- -32009
abbrev pub long_term_storage_slot_skipped_err_code : ℤ
long_term_storage_slot_skipped_err_code = negsuc 32008

-- -32010
abbrev pub key_excluded_from_secondary_index_err_code : ℤ
key_excluded_from_secondary_index_err_code = negsuc 32009

-- -32011
abbrev pub transaction_history_not_available_err_code : ℤ
transaction_history_not_available_err_code = negsuc 32010

-- -32012
abbrev pub scan_err_code : ℤ
scan_err_code = negsuc 32011

-- -32013
abbrev pub transaction_signature_len_mismatch_err_code : ℤ
transaction_signature_len_mismatch_err_code = negsuc 32012

-- -32014
abbrev pub block_status_not_available_yet_err_code : ℤ
block_status_not_available_yet_err_code = negsuc 32013

-- -32015
abbrev pub unsupported_transaction_version_err_code : ℤ
unsupported_transaction_version_err_code = negsuc 32014

-- -32016
abbrev pub min_context_slot_not_reached_err_code : ℤ
min_context_slot_not_reached_err_code = negsuc 32015

-- -32700
abbrev pub parse_err_code : ℤ
parse_err_code = negsuc 32699

-- -32600
abbrev pub invalid_request_err_code : ℤ
invalid_request_err_code = negsuc 32599

-- -32601
abbrev pub method_not_found_err_code : ℤ
method_not_found_err_code = negsuc 32600

-- -32602
abbrev pub invalid_params_err_code : ℤ
invalid_params_err_code = negsuc 32601

-- -32603
abbrev pub internal_error_err_code : ℤ
internal_error_err_code = negsuc 32602
