-- ===== src/Adapter.antt =====
-- internal/proxy/chains/solana/adapter.go and prepare.go: the chain's adapter, what it makes of the
-- body of a request, and how it sends a request on.
pub mod Blocks
pub mod Preparing
pub mod Posting
pub mod Samples
mod Tests
use aura_proxy.Common.{
  ℕ, String, Bool, true, false, not, ◌&&◌, ◌||◌, List, [], ◌∷◌, Option, none, some, str_eq, codes,
  map, Map, if◌then◌else◌,
}
use aura_proxy.Common.Int.{ℤ, pos, eqb_ℤ, ltb_ℤ}
use aura_proxy.Common.Float.{Float64}
use aura_proxy.Balancer.Weighted.{ProbabilisticBalancer}
use aura_proxy.Chains.Methods.{
  chain_name, eclipse_chain_name, method_list, block_related_method, get_signatures_for_address,
  get_token_accounts_by_owner, get_account_info, get_program_accounts, get_stake_activation,
  get_token_account_balance, get_token_accounts_by_delegate, get_token_largest_accounts,
  get_token_supply, is_blockhash_valid, get_transaction, get_balance, get_block, get_blocks,
  get_block_commitment, get_blocks_with_limit, get_block_time,
}
use aura_proxy.Rpc.{
  Param, number, text, other_param, Params, array, not_array, Request, RpcError, invalid_req_error,
  block_params_error, RpcResponse, Api, code_of, parse_int,
}
use aura_proxy.Context.{
  CustomContext, get_req_method, get_req_body, multiple_values_requested, set_rpc_errors,
  set_proxy_user_error,
}
use aura_proxy.Requests.{Decoder, Parsed, parse_json_rpc_request_body}
use aura_proxy.Router.Tables.{Router, TargetInfo}
use aura_proxy.Analysis.{JsonParser}
use aura_proxy.Transport.Answers.{World, SendError, http_error}
use aura_proxy.Transport.{
  State, Sent, can_handle, transport_is_available, default_max_attempts, refused,
}
use aura_proxy.WebSocket.{UrlLib, WsRequest, WsOutcome, default_proxy_ws}
use aura_proxy.Transport.Sending.{
  UnifiedTransport, new_unified_transport, unified_transport_type, send_request, state_of,
}

abbrev pub solana_chain_hosts : List String
solana_chain_hosts =
    "aura-mainnet.metaplex.com" ∷ "aura-devnet.metaplex.com" ∷ "mainnet-aura.metaplex.com"
    ∷ "devnet-aura.metaplex.com" ∷ "aura-dev.metaplex.com" ∷ "localhost:2011" ∷ "127.0.0.1:2011"
    ∷ []

abbrev pub eclipse_chain_hosts : List String
eclipse_chain_hosts =
    "aura-eclipse-mainnet.metaplex.com" ∷ "eclipse-mainnet-aura.metaplex.com"
    ∷ "aura-ecl-dev.metaplex.com" ∷ []

-- Adapter. newAdapter, the only constructor, sets rpcTransport, so that it is not nil here; the
-- transport for WebSockets is its balancer.
pub record Adapter (F : Type 0) : Type 0 where
  pub rpc_transport : UnifiedTransport F
  pub ws_transport : Option (ProbabilisticBalancer F ℕ)
  pub chain_name : String
  pub available_methods : Map ℕ
  pub host_names : List String
  pub is_mainnet : Bool

abbrev ws_balancer : {F : Type 0} → Option (TargetInfo F) → Option (ProbabilisticBalancer F ℕ)
ws_balancer none = none
ws_balancer (some info) = info.balancer

abbrev pub new_adapter : {F : Type 0} → Router F → Bool → String → Map ℕ → List String → Adapter F
new_adapter router is_mainnet chain methods hosts = record {
  rpc_transport =
      new_unified_transport unified_transport_type router default_max_attempts is_mainnet;
  ws_transport = ws_balancer router.ws_target_info;
  chain_name = chain;
  available_methods = methods;
  host_names = hosts;
  is_mainnet = is_mainnet;
}

abbrev pub new_solana_adapter : {F : Type 0} → Router F → Bool → Adapter F
new_solana_adapter router is_mainnet =
    new_adapter router is_mainnet chain_name method_list solana_chain_hosts

abbrev pub new_eclipse_adapter : {F : Type 0} → Router F → Bool → Adapter F
new_eclipse_adapter router is_mainnet =
    new_adapter router is_mainnet eclipse_chain_name method_list eclipse_chain_hosts

-- blockMethodsValidation. `block` is the smallest block so far, 0 for none.
abbrev refuse : ℤ → Request → RpcError → ℤ × Option RpcResponse
refuse block r e = (block, some (record { error = e; id = some r.id }))

abbrev smaller : ℤ → ℤ → ℤ
smaller block n = if eqb_ℤ block (pos 0) || ltb_ℤ n block then n else block

-- The block that the parameters of a request name, or the error.
abbrev pub number_of : Option ℤ → ℤ × Option RpcError
number_of none = (pos 0, some block_params_error)
number_of (some n) = (n, none)

abbrev pub block_param : Params → ℤ × Option RpcError
block_param not_array = (pos 0, some invalid_req_error)
block_param (array []) = (pos 0, some block_params_error)
block_param (array (number s ∷ ps)) = number_of (parse_int s)
block_param (array (text s ∷ ps)) = (pos 0, some block_params_error)
block_param (array (other_param ∷ ps)) = (pos 0, some block_params_error)

unfoldable pub validate_blocks : ℤ → List Request → ℤ × Option RpcResponse
validate_blocks block [] = (block, none)
validate_blocks block (r ∷ rs) =
    let (n, failure) = block_param r.params in
    let skipped = validate_blocks block rs in
    let rest = validate_blocks (smaller block n) rs in
    if not (block_related_method r.method)
    then skipped
    else elim failure [ some e ↦ refuse block r e | none ↦ rest ]

abbrev pub block_methods_validation : List Request → ℤ × Option RpcResponse
block_methods_validation rs = validate_blocks (pos 0) rs

-- getContextValueForRequest
abbrev takes_text : String → Bool
takes_text m =
    str_eq m get_signatures_for_address
    || str_eq m get_token_accounts_by_owner
    || str_eq m get_account_info
    || str_eq m get_program_accounts
    || str_eq m get_stake_activation
    || str_eq m get_token_account_balance
    || str_eq m get_token_accounts_by_delegate
    || str_eq m get_token_largest_accounts
    || str_eq m get_token_supply
    || str_eq m is_blockhash_valid
    || str_eq m get_transaction
    || str_eq m get_balance

abbrev takes_number : String → Bool
takes_number m =
    str_eq m get_block
    || str_eq m get_blocks
    || str_eq m get_block_commitment
    || str_eq m get_blocks_with_limit
    || str_eq m get_block_time

abbrev text_param : Params → List ℕ
text_param (array (text s ∷ ps)) = s
text_param _ = []

abbrev number_param : Params → List ℕ
number_param (array (number s ∷ ps)) = s
number_param _ = []

unfoldable pub get_context_value_for_request : String → List Request → List ℕ
get_context_value_for_request rpc_method [] = []
get_context_value_for_request rpc_method (r ∷ rs) =
    if str_eq rpc_method "" || str_eq rpc_method multiple_values_requested
    then []
    else if takes_text r.method
    then text_param r.params
    else if takes_number r.method
    then number_param r.params
    else []

module _ (api : Api) (dec : Decoder) {F U S : Type 0} (a : Adapter F) where
  abbrev refuse_request : CustomContext U S → RpcResponse → CustomContext U S × Option RpcResponse
  refuse_request c e =
      (set_proxy_user_error (set_rpc_errors c (code_of api e.error ∷ [])) true, some e)

  abbrev with_requests : CustomContext U S → ℤ → Bool → List Request → CustomContext U S
  with_requests c block array_requested requests =
      let c' : CustomContext U S = record c {
        req_block = block;
        array_requested = array_requested;
        rpc_requests_parsed = requests;
        req_methods = map (λ r. r.method) requests;
      } in
      record c' {
        stats_additional_data = get_context_value_for_request (get_req_method c') requests;
      }

  abbrev with_blocks :
      CustomContext U S → Parsed → ℤ × Option RpcResponse → CustomContext U S × Option RpcResponse
  with_blocks c p (block, some e) = refuse_request c e
  with_blocks c p (block, none) = (with_requests c block p.array_requested p.requests, none)

  abbrev with_parsed :
      CustomContext U S → Parsed → Option RpcResponse → CustomContext U S × Option RpcResponse
  with_parsed c p (some e) = refuse_request c e
  with_parsed c p none = with_blocks c p (block_methods_validation p.requests)

  -- PreparePostReq; the titles and checkpoints of the metrics are left out.
  unfoldable pub prepare_post_req : CustomContext U S → CustomContext U S × Option RpcResponse
  prepare_post_req c =
      let p = parse_json_rpc_request_body api dec a.available_methods false (get_req_body c) in
      with_parsed c p p.failure

module _ {F : Type 0} (fl : Float64 F) (a : Adapter F) where
  abbrev pub accepts : List String → Bool
  accepts methods =
      can_handle fl (a.rpc_transport.method_router) methods
      && transport_is_available fl (a.rpc_transport.method_router)

module _ {F U S : Type 0} (fl : Float64 F) (json : JsonParser) (w : World F) (a : Adapter F) where
  abbrev pub unavailable : CustomContext U S → List (String × Bool) → Sent F U S
  unavailable c usage =
      refused (state_of fl json w a.rpc_transport c usage) 503 (http_error 503 (pos 2000))

  -- ProxyPostRequest; `none` is a panic.
  unfoldable pub proxy_post_request :
      CustomContext U S → List (String × Bool) → ℤ → Option (Sent F U S)
  proxy_post_request c usage elapsed =
      if not (accepts fl a c.req_methods)
      then some (unavailable c usage)
      else send_request fl json w a.rpc_transport c usage elapsed

-- The adapter after a request: the statistics of its targets have changed.
abbrev pub after_request : {F U S : Type 0} → Adapter F → Sent F U S → Adapter F
after_request a r = record a {
  rpc_transport = record (a.rpc_transport) { method_router = r.state.router };
}

-- ProxyWSRequest, with the draw of the balancer.
unfoldable pub proxy_ws_request :
    {F U S : Type 0}
    → Float64 F
    → UrlLib
    → F
    → WsRequest
    → Adapter F
    → CustomContext U S
    → CustomContext U S × WsOutcome
proxy_ws_request fl lib draw r a c =
    default_proxy_ws lib a.rpc_transport.method_router.heap r fl draw c a.ws_transport
