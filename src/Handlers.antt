-- ===== src/Handlers.antt =====
-- internal/proxy/handlers.go and proxy.go: the adapters by host, the preparation of a request, and the
-- handlers of the routes. What a request brings (its host, its content type, its body, whether it asks
-- for a WebSocket) and the clock are arguments.
pub mod Preparation
pub mod Routes
pub mod Hosts
pub mod Runs
mod Tests
use aura_proxy.Common.{
  ℕ, String, Bool, true, false, not, ◌&&◌, ◌||◌, List, [], ◌∷◌, Option, none, some, is_some, str_eq,
  codes, Map, find, put, any, length, get_elem?, modify, ◌++◌, Result, ok, err, ◌>>=◌, mem_str,
  if◌then◌else◌,
}
use aura_proxy.Common.Int.{ℤ, pos}
use aura_proxy.Common.Float.{Float64}
use aura_proxy.Common.Text.{is_empty}
use aura_proxy.Config.{SolanaConfig, ProxyConfig}
use aura_proxy.Chains.Methods.{cnft_method_list, get_program_accounts}
use aura_proxy.Rpc.{RpcResponse, RpcError, Api, chain_not_supported, gpa_array_request}
use aura_proxy.Context.{CustomContext, RequestType, rpc, das, gpa, websocket}
use aura_proxy.Requests.{
  Decoder, PrepareError, invalid_content_type, http_ok_with, prepare_get_request,
  prepare_post_request, Handled, handle_error,
}
use aura_proxy.Analysis.{JsonParser}
use aura_proxy.Router.Tables.{Router, RouterError}
use aura_proxy.Router.{new_method_based_router}
use aura_proxy.Transport.Answers.{World, SendError}
use aura_proxy.Transport.{State, Sent}
use aura_proxy.WebSocket.{UrlLib, WsRequest, WsOutcome, forwarded}
use aura_proxy.Usage.{Counters, inc_user_requests}
use aura_proxy.Adapter.{
  Adapter, new_solana_adapter, new_eclipse_adapter, prepare_post_req, proxy_post_request,
  proxy_ws_request, solana_chain_hosts, eclipse_chain_hosts, after_request,
}

-- What the handlers share: the adapters by the hosts that they serve, as indices of a heap, since an
-- adapter stands under several hosts, and the counters of requests.
pub record Proxy (F : Type 0) : Type 0 where
  pub adapters : Map ℕ
  pub heap : List (Adapter F)
  pub counters : Counters
  pub is_mainnet : Bool

abbrev not_empty_list : {A : Type 0} → List A → Bool
not_empty_list xs = not (is_empty xs)

abbrev pub put_hosts : Map ℕ → List String → ℕ → Map ℕ
put_hosts m [] a = m
put_hosts m (h ∷ hs) a = put_hosts (put m h a) hs a

module _ {F : Type 0} where
  abbrev pub has_solana : SolanaConfig F → Bool
  has_solana cfg =
      not_empty_list cfg.basic_route_nodes
      || not_empty_list cfg.ws_host_nodes
      || not_empty_list cfg.das_api_nodes
      || not_empty_list cfg.providers

  abbrev pub has_eclipse : SolanaConfig F → Bool
  has_eclipse cfg =
      not_empty_list cfg.das_api_nodes
      || not_empty_list cfg.basic_route_nodes
      || not_empty_list cfg.providers

  abbrev pub add_adapter : Proxy F → Adapter F → Proxy F
  add_adapter p a = record p {
    adapters = put_hosts p.adapters a.host_names (length p.heap);
    heap = p.heap ++ a ∷ [];
  }

  abbrev pub add_chain :
      Float64 F
      → Bool
      → SolanaConfig F
      → (Router F → Adapter F)
      → Proxy F
      → Result RouterError (Proxy F)
  add_chain fl false cfg new p = ok p
  add_chain fl true cfg new p = new_method_based_router fl cfg >>= λ r. ok (add_adapter p (new r))

  -- The proxy as InitProxy makes it, with the counters it is given.
  abbrev pub empty_proxy : ProxyConfig F → Counters → Proxy F
  empty_proxy cfg counters = record {
    adapters = [];
    heap = [];
    counters = counters;
    is_mainnet = cfg.is_mainnet;
  }

  -- initAdapters
  unfoldable pub init_adapters : Float64 F → ProxyConfig F → Proxy F → Result RouterError (Proxy F)
  init_adapters fl cfg p =
      add_chain fl (has_solana cfg.solana) cfg.solana (λ r. new_solana_adapter r cfg.is_mainnet) p
      >>= add_chain fl (has_eclipse cfg.eclipse) cfg.eclipse
          (λ r. new_eclipse_adapter r cfg.is_mainnet)

  -- p.adapters[host]
  abbrev at_index : ℕ → Option (Adapter F) → Option (ℕ × Adapter F)
  at_index i none = none
  at_index i (some a) = some (i, a)

  abbrev deref : List (Adapter F) → Option ℕ → Option (ℕ × Adapter F)
  deref heap none = none
  deref heap (some i) = at_index i (get_elem? heap i)

  unfoldable pub adapter_for : Proxy F → String → Option (ℕ × Adapter F)
  adapter_for p host = deref p.heap (find p.adapters host)

-- What a request brings.
pub record Incoming : Type 0 where
  pub host : String
  pub is_websocket : Bool
  pub content_type : List ℕ
  pub body : Option (List ℕ)
  pub time : ℤ

-- What RequestPrepareMiddleware does: it calls the next handler, or answers.
pub data Prepared : Type 0 where
  next : Prepared
  -- Status 400 and 415, 200 with an error, 200 without content, and 400.
  unknown_chain unsupported_type : Prepared
  answer : RpcResponse → Prepared
  no_content gpa_in_array : Prepared

abbrev pub websocket_method_name : String
websocket_method_name = "WSConnect"

-- The kind of a request, and the flags.
abbrev is_das : List String → Bool
is_das methods = any (λ m. is_some (find cnft_method_list m)) methods

abbrev kind_of : Bool → Bool → RequestType
kind_of true d = gpa
kind_of false true = das
kind_of false false = rpc

module _ {U S : Type 0} where
  abbrev mark : CustomContext U S → Bool → Bool → CustomContext U S
  mark c g d = record c { is_gpa_request = g; is_das_request = d; request_type = kind_of g d }

  abbrev pub is_gpa : CustomContext U S → Bool
  is_gpa c = mem_str get_program_accounts c.req_methods

  -- By whether there are no requests, and whether a getProgramAccounts stands in an array.
  abbrev pub classified : Bool → Bool → CustomContext U S → CustomContext U S × Prepared
  classified true in_array c = (c, no_content)
  classified false true c = (c, gpa_in_array)
  classified false false c = (mark c (is_gpa c) (is_das c.req_methods), next)

  abbrev pub classify : CustomContext U S → CustomContext U S × Prepared
  classify c = classified (is_empty c.rpc_requests_parsed) (is_gpa c && c.array_requested) c

  abbrev pub after_chain : CustomContext U S × Option RpcResponse → CustomContext U S × Prepared
  after_chain (c, some e) = (c, answer e)
  after_chain (c, none) = classify c

  module _ (api : Api) (dec : Decoder) {F : Type 0} where
    abbrev pub after_common :
        Adapter F → CustomContext U S × Option PrepareError → CustomContext U S × Prepared
    after_common a (c, some invalid_content_type) = (c, unsupported_type)
    after_common a (c, some (http_ok_with e)) = (c, answer e)
    after_common a (c, none) = after_chain (prepare_post_req api dec a c)

    abbrev for_websocket : CustomContext U S → Adapter F → CustomContext U S
    for_websocket c a = record c {
      request_type = websocket;
      chain_name = a.chain_name;
      req_methods = websocket_method_name ∷ [];
    }

    abbrev pub with_adapter :
        Incoming → CustomContext U S → Option (ℕ × Adapter F) → CustomContext U S × Prepared
    with_adapter r c none = (c, unknown_chain)
    with_adapter r c (some (i, a)) =
        if r.is_websocket
        then (for_websocket c a, next)
        else after_common a (prepare_post_request api c a.chain_name r.content_type r.body)

    -- RequestPrepareMiddleware
    unfoldable pub request_prepare :
        Proxy F → Incoming → CustomContext U S → CustomContext U S × Prepared
    request_prepare p r c =
        with_adapter r (record c { request_time = r.time }) (adapter_for p r.host)

-- setServiceHeaders; the endpoint is only set if it is not empty.
pub record ServiceHeaders : Type 0 where
  pub node_endpoint : Option String
  pub node_req_attempts : ℕ
  pub node_response_time_ms : ℤ
  pub x_request_id : String

unfoldable pub set_service_headers : {U S : Type 0} → CustomContext U S → ServiceHeaders
set_service_headers c = record {
  node_endpoint = if str_eq c.proxy_endpoint "" then none else some c.proxy_endpoint;
  node_req_attempts = c.proxy_attempts;
  node_response_time_ms = c.proxy_response_time;
  x_request_id = c.req_id;
}

pub data PostOutcome : Type 0 where
  wrong_host : PostOutcome
  failed_with : Handled → PostOutcome
  answered : ServiceHeaders → ℕ → List ℕ → PostOutcome

pub data GetOutcome : Type 0 where
  get_wrong_host method_not_allowed : GetOutcome
  proxied : WsOutcome → GetOutcome

-- The state after a handler, and what it answers.
pub record Served (F U S A : Type 0) : Type 0 where
  pub proxy : Proxy F
  pub context : CustomContext U S
  pub partner_usage : List (String × Bool)
  pub outcome : A

-- GetUser of the user's message, and the text of a type of request.
module _ {F U S : Type 0} (user_of : U → String) (type_name : RequestType → String) where
  abbrev pub inc_for : Proxy F → CustomContext U S → Option U → Counters
  inc_for p c none = p.counters
  inc_for p c (some u) =
      inc_user_requests p.counters (user_of u) c.credits_used c.chain_name c.api_token
        (type_name c.request_type) p.is_mainnet

  -- The call of IncUserRequests.
  abbrev pub counted : Proxy F → CustomContext U S → Counters
  counted p c = inc_for p c c.user_info

  -- The rest of ProxyPostRouteHandler, after ProxyPostRequest of the adapter at index i.
  abbrev pub finish_post :
      Proxy F → ℕ → Adapter F → Sent F U S → Option SendError → Served F U S PostOutcome
  finish_post p i a r (some e) = record {
    proxy = record p { heap = modify (λ b. after_request a r) p.heap i };
    context = r.state.context;
    partner_usage = r.state.partner_usage;
    outcome = failed_with (handle_error e);
  }
  finish_post p i a r none = record {
    proxy = record p {
      heap = modify (λ b. after_request a r) p.heap i;
      counters = counted p r.state.context;
    };
    context = r.state.context;
    partner_usage = r.state.partner_usage;
    outcome = answered (set_service_headers r.state.context) r.status r.body;
  }

module _ {F U S : Type 0} (fl : Float64 F) (user_of : U → String)
    (type_name : RequestType → String) where
  -- The state is lost in a panic, `none`.
  abbrev pub posted :
      Proxy F → ℕ → Adapter F → Option (Sent F U S) → Option (Served F U S PostOutcome)
  posted p i a none = none
  posted p i a (some r) = some (finish_post user_of type_name p i a r r.failure)

  abbrev unserved :
      {A : Type 0} → Proxy F → CustomContext U S → List (String × Bool) → A → Served F U S A
  unserved p c usage outcome = record {
    proxy = p;
    context = c;
    partner_usage = usage;
    outcome = outcome;
  }

  module _ (json : JsonParser) (w : World F) where
    abbrev pub post_to :
        Proxy F
        → CustomContext U S
        → List (String × Bool)
        → ℤ
        → Option (ℕ × Adapter F)
        → Option (Served F U S PostOutcome)
    post_to p c usage elapsed none = some (unserved p c usage wrong_host)
    post_to p c usage elapsed (some (i, a)) =
        posted p i a (proxy_post_request fl json w a c usage elapsed)

    -- ProxyPostRouteHandler
    unfoldable pub proxy_post_route_handler :
        Proxy F
        → String
        → CustomContext U S
        → List (String × Bool)
        → ℤ
        → Option (Served F U S PostOutcome)
    proxy_post_route_handler p host c usage elapsed = post_to p c usage elapsed (adapter_for p host)

  -- After ProxyWSRequest: a connection that was handed over is counted.
  abbrev pub finish_get :
      Proxy F → List (String × Bool) → CustomContext U S × WsOutcome → Served F U S GetOutcome
  finish_get p usage (c, forwarded host url) = record {
    proxy = record p { counters = counted user_of type_name p c };
    context = c;
    partner_usage = usage;
    outcome = proxied (forwarded host url);
  }
  finish_get p usage (c, o) = unserved p c usage (proxied o)

  module _ (lib : UrlLib) (draw : F) (r : WsRequest) where
    abbrev pub get_from :
        Proxy F
        → Bool
        → CustomContext U S
        → List (String × Bool)
        → Option (ℕ × Adapter F)
        → Served F U S GetOutcome
    get_from p is_websocket c usage none = unserved p c usage get_wrong_host
    get_from p is_websocket c usage (some (i, a)) =
        let c' = prepare_get_request c a.chain_name in
        if is_websocket
        then finish_get p usage (proxy_ws_request fl lib draw r a c')
        else unserved p c' usage method_not_allowed

    -- ProxyGetRouteHandler
    unfoldable pub proxy_get_route_handler :
        Proxy F → String → Bool → CustomContext U S → List (String × Bool) → Served F U S GetOutcome
    proxy_get_route_handler p host is_websocket c usage =
        get_from p is_websocket c usage (adapter_for p host)
