-- ===== src/Analysis.antt =====
-- internal/proxy/chains/solana/response_analysis.go and errors.go: what a node's answer says. Bodies
-- are lists of bytes; jsonparser is a parameter.
pub mod Verdict
mod Tests
use aura_proxy.Common.{
  codes, ℕ, zero, suc, String, Bool, true, false, not, ◌||◌, ◌&&◌, List, [], ◌∷◌, ◌++◌, Option,
  none, some, ◌==◌, if◌then◌else◌, get_elem?, str_eq, mem_str,
}
use aura_proxy.Common.Text.{is_empty, text_eq, contains}
use aura_proxy.Common.Int.{ℤ, pos, eqb_ℤ, wrap_int64}
use aura_proxy.Chains.ErrorCodes.{
  block_cleaned_up_err_code, send_transaction_preflight_failure_err_code,
  transaction_signature_verification_failure_err_code,
  transaction_precompile_verification_failure_err_code, transaction_signature_len_mismatch_err_code,
  unsupported_transaction_version_err_code, parse_err_code, invalid_request_err_code,
  invalid_params_err_code, slot_skipped_err_code, long_term_storage_slot_skipped_err_code,
  block_not_available_err_code, block_status_not_available_yet_err_code, method_not_found_err_code,
  transaction_history_not_available_err_code,
}
use aura_proxy.Chains.Methods.{get_block}
use aura_proxy.Chains.Slots.{get_first_available_slot}
use aura_proxy.Context.{CustomContext, get_req_method, set_rpc_errors}

-- The elements of the slice of errors: RPC errors with their code, message and method, and others.
pub data NodeError : Type 0 where
  rpc_error : ℤ → List ℕ → String → NodeError
  empty_body empty_response_body empty_response_field index_not_found array_error : NodeError
  invalid_first_symbol : ℕ → NodeError

-- github.com/buger/jsonparser, as far as it is used: the raw value of a field (empty if there is
-- none), its integer (0 on failure), its text, and the elements that ArrayEach visits with the error
-- that it ends in.
pub record JsonParser : Type 0 where
  pub get : List ℕ → String → List ℕ
  pub get_int : List ℕ → String → ℤ
  pub get_string : List ℕ → String → List ℕ
  pub array_each : List ℕ → List (List ℕ) × Bool

-- "null"
abbrev pub empty_response : List ℕ
empty_response = b'n' ∷ b'u' ∷ b'l' ∷ b'l' ∷ []

module _ (json : JsonParser) where
  unfoldable pub check_rpc_resp : List ℕ → String → ℤ × Option NodeError
  check_rpc_resp body req_method =
      let err_obj = json.get body "error" in
      let code = json.get_int err_obj "code" in
      if is_empty (json.get body "jsonrpc")
      then (pos 0, some empty_response_body)
      else if not (is_empty err_obj) && not (eqb_ℤ code (pos 0))
      then (code, some (rpc_error code (json.get_string err_obj "message") req_method))
      else if str_eq req_method get_block && text_eq (json.get body "result") empty_response
      then (pos 0, some empty_response_field)
      else (pos 0, none)

  -- The callback of ArrayEach over the elements, with the methods of the request.
  abbrev code_of : ℤ × Option NodeError → List ℤ
  code_of (code, e) = if eqb_ℤ code (pos 0) then [] else code ∷ []

  abbrev error_of : ℤ × Option NodeError → List NodeError
  error_of (code, none) = []
  error_of (code, some e) = e ∷ []

  unfoldable pub check_elements : List (List ℕ) → List String → List NodeError × List ℤ
  unfolding check_rpc_resp
  check_elements [] methods = ([], [])
  check_elements (v ∷ vs) [] =
      let (errs, codes) = check_elements vs [] in (index_not_found ∷ errs, codes)
  check_elements (v ∷ vs) (m ∷ ms) =
      let (errs, codes) = check_elements vs ms in
      let r = check_rpc_resp v m in (error_of r ++ errs, code_of r ++ codes)

  -- decodeNodeResponse: the context with the error codes that it records, and the errors.
  module _ {U S : Type 0} where
    abbrev pub with_codes : CustomContext U S → List ℤ → CustomContext U S
    with_codes c [] = c
    with_codes c (code ∷ codes) = set_rpc_errors c (code ∷ codes)

    unfoldable pub decode_node_response :
        CustomContext U S → List ℕ → CustomContext U S × List NodeError
    unfolding check_elements set_rpc_errors get_req_method
    decode_node_response c [] = (set_rpc_errors c [], empty_body ∷ [])
    decode_node_response c (fs ∷ body) =
        let c' = set_rpc_errors c [] in
        let single = check_rpc_resp (fs ∷ body) (get_req_method c) in
        let elements = json.array_each (fs ∷ body) in
        let (errs, codes) = check_elements (elements.0) c.req_methods in
        if fs == b'{'
        then (with_codes c' (code_of single), error_of single)
        else if fs == b'['
        then (with_codes c' codes, errs ++ (if elements.1 then array_error ∷ [] else []))
        else (c', invalid_first_symbol fs ∷ [])

-- isMethodNotAvailableByErrCode
unfoldable pub is_method_not_available_by_err_code : ℤ → Bool
is_method_not_available_by_err_code code =
    eqb_ℤ code method_not_found_err_code || eqb_ℤ code transaction_history_not_available_err_code

abbrev mem_code : ℤ → List ℤ → Bool
mem_code code [] = false
mem_code code (c ∷ cs) = eqb_ℤ code c || mem_code code cs

-- The codes of the first case of the switch: the request itself is at fault.
abbrev pub user_error_codes : List ℤ
user_error_codes =
    send_transaction_preflight_failure_err_code
    ∷ transaction_signature_verification_failure_err_code
    ∷ transaction_precompile_verification_failure_err_code
    ∷ transaction_signature_len_mismatch_err_code ∷ unsupported_transaction_version_err_code
    ∷ parse_err_code ∷ invalid_request_err_code ∷ invalid_params_err_code ∷ slot_skipped_err_code
    ∷ long_term_storage_slot_skipped_err_code ∷ block_not_available_err_code
    ∷ block_status_not_available_yet_err_code ∷ []

-- "BigTable query failed (maybe timeout due to too large range" and "blockstore error", which mark
-- invalid params as the node's fault.
abbrev pub big_table_text : List ℕ
big_table_text = codes "BigTable query failed (maybe timeout due to too large range"

abbrev pub blockstore_text : List ℕ
blockstore_text = codes "blockstore error"

unfoldable pub is_user_error : ℤ → List ℕ → Bool
unfolding contains
is_user_error code message =
    mem_code code user_error_codes
    && not (
        eqb_ℤ code invalid_params_err_code
        && (contains message big_table_text || contains message blockstore_text))

-- The results of rpcErrorAnalysis: the first slot, whether the request was invalid, the methods of
-- the AnalyzeError if there is one, and the errors whose texts are joined into err, which is nil if
-- there are none.
pub record Analysis : Type 0 where
  pub first_slot_on_node : ℤ
  pub invalid_req_err : Bool
  pub analyze_err : Option (List String)
  pub joined : List NodeError

abbrev pub no_findings : Analysis
no_findings = record {
  first_slot_on_node = pos 0;
  invalid_req_err = false;
  analyze_err = none;
  joined = [];
}

-- A map is used as a set of methods.
abbrev pub add_to_payload : Option (List String) → String → Option (List String)
add_to_payload none m = some (m ∷ [])
add_to_payload (some ms) m = some (if mem_str m ms then ms else ms ++ m ∷ [])

-- int64(slot) of the message, where it parses.
abbrev slot_of : ℤ → List ℕ → ℤ → ℤ
slot_of code message before =
    if eqb_ℤ code block_cleaned_up_err_code
    then (elim (get_first_available_slot message) [ none ↦ before | some slot ↦ wrap_int64 slot ])
    else before

-- The body of the loop.
unfoldable pub analyze_one : Analysis → NodeError → Analysis
unfolding is_user_error is_method_not_available_by_err_code
analyze_one a (rpc_error code message method) =
    let a' = record a { first_slot_on_node = slot_of code message a.first_slot_on_node } in
    if is_user_error code message
    then record a' { invalid_req_err = true }
    else if is_method_not_available_by_err_code code
    then record a' { analyze_err = add_to_payload a.analyze_err method }
    else record a' { joined = a.joined ++ rpc_error code message method ∷ [] }
analyze_one a e = record a { joined = a.joined ++ e ∷ [] }

unfoldable pub analyze_all : Analysis → List NodeError → Analysis
unfolding analyze_one
analyze_all a [] = a
analyze_all a (e ∷ es) = analyze_all (analyze_one a e) es

unfoldable pub rpc_error_analysis : List NodeError → Analysis
unfolding analyze_all
rpc_error_analysis errs = analyze_all no_findings errs
