-- ===== src/Rpc.antt =====
-- The JSON-RPC requests and errors that pass between the parts. The types come from the module
-- github.com/adm-metaex/aura-api; of a request the fields that the proxy reads are kept, and what
-- encoding/json decodes into `Params` is told apart as far as the proxy does.
use aura_proxy.Common.{
  ℕ, ◌+◌, ◌*◌, ◌-◌, ◌^◌, ◌&&◌, String, List, [], ◌∷◌, Option, none, some, ◌==◌, ltb, leb,
  if◌then◌else◌,
}
use aura_proxy.Common.Int.{ℤ, pos, negsuc}
use aura_proxy.Chains.ErrorCodes.{method_not_found_err_code, invalid_params_err_code}

-- An element of the array of parameters: a json.Number, which is its text, a string, or another.
pub data Param : Type 0 where
  number : List ℕ → Param
  text : List ℕ → Param
  other_param : Param

pub data Params : Type 0 where
  array : List Param → Params
  not_array : Params

-- types.RPCRequest; the raw ID is kept as its text.
pub record Request : Type 0 where
  pub jsonrpc : String
  pub method : String
  pub params : Params
  pub id : List ℕ

-- The errors of this package and of aura-api that a response carries.
pub data RpcError : Type 0 where
  parse_error invalid_req_error method_not_found block_params_error : RpcError
  no_available_targets attempts_exceeded chain_not_supported gpa_array_request : RpcError

-- types.RPCResponse with an error; the ID is nil or that of a request.
pub record RpcResponse : Type 0 where
  pub error : RpcError
  pub id : Option (List ℕ)

-- What aura-api defines: the version of JSON-RPC, and the codes of its two errors.
pub record Api : Type 0 where
  pub json_rpc_version : String
  pub parse_error_code : ℤ
  pub invalid_req_error_code : ℤ

unfoldable pub code_of : Api → RpcError → ℤ
code_of api parse_error = api.parse_error_code
code_of api invalid_req_error = api.invalid_req_error_code
code_of api method_not_found = method_not_found_err_code
code_of api block_params_error = invalid_params_err_code
code_of api no_available_targets = pos 2000
code_of api attempts_exceeded = pos 2001
code_of api chain_not_supported = pos 2002
code_of api gpa_array_request = pos 2003

-- strconv.ParseInt(s, 10, 64), which json.Number.Int64 calls.
abbrev digits_value : ℕ → List ℕ → Option ℕ
digits_value acc [] = some acc
digits_value acc (c ∷ s) =
    let rest = digits_value (acc * 10 + (c - b'0')) s in
    if leb b'0' c && leb c b'9' then rest else none

abbrev magnitude : List ℕ → Option ℕ
magnitude [] = none
magnitude (c ∷ s) = digits_value 0 (c ∷ s)

abbrev negated : ℕ → Option ℤ
negated n = if n == 0 then some (pos 0) else if leb n (2 ^ 63) then some (negsuc (n - 1)) else none

abbrev not_negated : ℕ → Option ℤ
not_negated n = if ltb n (2 ^ 63) then some (pos n) else none

unfoldable pub parse_int : List ℕ → Option ℤ
parse_int [] = none
parse_int (c ∷ s) =
    if c == b'-'
    then (elim (magnitude s) [ none ↦ none | some n ↦ negated n ])
    else if c == b'+'
    then (elim (magnitude s) [ none ↦ none | some n ↦ not_negated n ])
    else (elim (magnitude (c ∷ s)) [ none ↦ none | some n ↦ not_negated n ])
