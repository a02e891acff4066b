-- ===== src/Context.antt =====
-- internal/pkg/util/echo/custom_context.go: what the proxy knows of a request. The protobuf
-- messages of the user (U) and of the subscription (S) are left abstract; the request's HTTP
-- context is read through arguments of the operations that use it. The plain setters and getters of
-- the source are record updates and fields.
pub mod Tariffs
use aura_proxy.Common.{
  ℕ, String, Bool, true, false, List, [], ◌∷◌, Option, none, some, take, str_eq, if◌then◌else◌,
}
use aura_proxy.Rpc.{Request}
use aura_proxy.Common.Int.{ℤ, pos, negsuc}

-- types.RequestType; `other_type` is any other value.
pub data RequestType : Type 0 where
  rpc das gpa websocket swqos other_type : RequestType

pub record CustomContext (U S : Type 0) : Type 0 where
  pub chain_name : String
  pub proxy_endpoint : String
  pub target_type : String
  pub req_id : String
  pub stats_additional_data : List ℕ
  pub api_token : String
  pub provider : String
  pub user_info : Option U
  pub subscription : Option S
  pub rpc_errors : List ℤ
  pub req_methods : List String
  -- The bytes of the body, decoded into code points; the reader of the source is rewound by each use.
  pub req_body : Option (List ℕ)
  pub rpc_requests_parsed : List Request
  pub request_time : ℤ
  pub proxy_attempts : ℕ
  pub proxy_response_time : ℤ
  pub req_block : ℤ
  pub credits_used : ℤ
  pub proxy_user_error : Bool
  pub proxy_has_error : Bool
  pub array_requested : Bool
  pub is_partner_node : Bool
  pub request_type : RequestType
  pub is_das_request : Bool
  pub is_gpa_request : Bool

abbrev pub multiple_values_requested : String
multiple_values_requested = "multiple_values"

abbrev pub body_limit : ℕ
body_limit = 1000

module _ {U S : Type 0} where
  unfoldable pub get_req_method : CustomContext U S → String
  get_req_method c = elim c.req_methods [
    | [] ↦ ""
    | m ∷ [] ↦ m
    | m ∷ n ∷ ms ↦ multiple_values_requested
  ]

  unfoldable pub get_rpc_error : CustomContext U S → ℤ
  get_rpc_error c = elim c.rpc_errors [ [] ↦ pos 0 | e ∷ [] ↦ e | e ∷ f ∷ es ↦ negsuc 0 ]

  -- SetUserInfo ignores nil.
  unfoldable pub set_user_info : CustomContext U S → Option U → CustomContext U S
  set_user_info c none = c
  set_user_info c (some u) = record c { user_info = some u }

  unfoldable pub set_rpc_errors : CustomContext U S → List ℤ → CustomContext U S
  set_rpc_errors c codes = record c { rpc_errors = codes }

  unfoldable pub set_proxy_user_error : CustomContext U S → Bool → CustomContext U S
  set_proxy_user_error c b = record c { proxy_user_error = b }

  unfoldable pub set_provider : CustomContext U S → String → CustomContext U S
  set_provider c p = record c { provider = p }

  unfoldable pub reach_partner_node : CustomContext U S → CustomContext U S
  reach_partner_node c = record c { is_partner_node = true }

  unfoldable pub set_req_body : CustomContext U S → List ℕ → CustomContext U S
  set_req_body c body = record c { req_body = some body }

  -- GetReqBody; `none` is nil.
  unfoldable pub get_req_body : CustomContext U S → Option (List ℕ)
  get_req_body c = c.req_body

  -- bodyLimit counts bytes, which are code points where the body is ASCII.
  unfoldable pub get_truncated_req_body : CustomContext U S → List ℕ
  get_truncated_req_body c = elim c.req_body [ none ↦ [] | some body ↦ take body_limit body ]

  unfoldable pub get_req_body_string : CustomContext U S → List ℕ
  get_req_body_string c = elim c.req_body [ none ↦ [] | some body ↦ body ]

  -- CustomContextMiddleware: a fresh context. The zero value of types.RequestType is a parameter.
  abbrev pub new_custom_context : RequestType → CustomContext U S
  new_custom_context zero_type = record {
    chain_name = "";
    proxy_endpoint = "";
    target_type = "";
    req_id = "";
    stats_additional_data = [];
    api_token = "";
    provider = "";
    user_info = none;
    subscription = none;
    rpc_errors = [];
    req_methods = [];
    req_body = none;
    rpc_requests_parsed = [];
    request_time = pos 0;
    proxy_attempts = 0;
    proxy_response_time = pos 0;
    req_block = pos 0;
    credits_used = pos 0;
    proxy_user_error = false;
    proxy_has_error = false;
    array_requested = false;
    is_partner_node = false;
    request_type = zero_type;
    is_das_request = false;
    is_gpa_request = false;
  }
