-- ===== src/Models.antt =====
-- internal/pkg/models: endpoints and kinds of user tokens.
use aura_proxy.Common.{ℕ, String, Bool, true, false, List}
use aura_proxy.Common.Int.{ℤ}

pub record SupportedMethod : Type 0 where
  pub name : String
  pub response_time_ms : ℤ

pub record UrlWithMethods : Type 0 where
  pub url : String
  pub supported_methods : List SupportedMethod
  pub slot_amount : ℤ
  pub is_full_history : Bool

-- The named values of the string type TokenType; `other` is any other text.
pub data TokenType : Type 0 where
  default_type speed_type reliable_type only_public_nodes unlimited basic pro : TokenType
  other : String → TokenType

unfoldable pub use_first_endpoint : TokenType → Bool
use_first_endpoint default_type = true
use_first_endpoint unlimited = true
use_first_endpoint only_public_nodes = true
use_first_endpoint basic = true
use_first_endpoint pro = true
use_first_endpoint _ = false

unfoldable pub is_token_rate_limited : TokenType → Bool
is_token_rate_limited default_type = true
is_token_rate_limited basic = true
is_token_rate_limited pro = true
is_token_rate_limited _ = false

abbrev pub default_req_per_second_limit : ℕ
default_req_per_second_limit = 5

-- GetReqPerSecond
unfoldable pub get_req_per_second : TokenType → ℕ
get_req_per_second default_type = default_req_per_second_limit
get_req_per_second speed_type = 0
get_req_per_second reliable_type = 0
get_req_per_second only_public_nodes = 0
get_req_per_second unlimited = 0
get_req_per_second basic = 50
get_req_per_second pro = 100
get_req_per_second (other s) = default_req_per_second_limit
