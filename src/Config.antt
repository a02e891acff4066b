-- ===== src/Config.antt =====
-- internal/pkg/configtypes: the configuration and its validation. A URL is read into its scheme,
-- its host and the text that `String` prints; decoding of the environment variables is left to
-- encoding/json and envconfig.
pub mod Checks
use aura_proxy.Common.{
  ℕ, String, Bool, true, false, ◌||◌, List, [], ◌∷◌, Option, none, some, str_eq, ◌==◌,
  if◌then◌else◌, Map, find,
}
use aura_proxy.Chains.NodeType.{NodeType}

pub record WrappedUrl : Type 0 where
  pub scheme : String
  pub host : String
  pub text : String

pub record SolanaNode : Type 0 where
  pub url : WrappedUrl
  pub provider : String
  pub node_type : NodeType

pub record MethodGroupConfig : Type 0 where
  pub name : String
  pub methods : List String

pub record EndpointConfig (F : Type 0) : Type 0 where
  pub url : String
  pub weight : F
  pub node_type : NodeType
  pub methods : List String
  pub exclude_methods : List String
  pub method_groups : List String
  pub handle_other : Bool
  pub handle_web_socket : Bool

pub record ProviderConfig (F : Type 0) : Type 0 where
  pub name : String
  pub endpoints : List (EndpointConfig F)

pub record SolanaConfig (F : Type 0) : Type 0 where
  pub das_api_nodes : List SolanaNode
  pub basic_route_nodes : List SolanaNode
  pub ws_host_nodes : List SolanaNode
  pub method_groups : List MethodGroupConfig
  pub providers : List (ProviderConfig F)

pub record Chain : Type 0 where
  pub hosts : List WrappedUrl
  pub ws_hosts : List WrappedUrl

pub record ProxyConfig (F : Type 0) : Type 0 where
  pub cert_file : String
  pub aura_grpc_host : String
  pub solana : SolanaConfig F
  pub eclipse : SolanaConfig F
  pub chains : Map Chain
  pub port : ℕ
  pub metrics_port : ℕ
  pub is_mainnet : Bool

pub data ConfigError : Type 0 where
  invalid_port : ConfigError
  invalid_host : String → ConfigError
  invalid_scheme : String → ConfigError
  empty_host_list empty_ws_host_list : ConfigError
  unsupported_chain : String → ConfigError
  -- The wrapping texts: "solana config: …", "eclipse config: …", "chains config: …", "chain c: …".
  in_solana in_eclipse in_chains : ConfigError → ConfigError
  in_chain : String → ConfigError → ConfigError

-- A nil error is `none`. The second check runs only if the first passes.
infixl 5 ◌then_check◌
abbrev pub ◌then_check◌ : Option ConfigError → Option ConfigError → Option ConfigError
none then_check e = e
some e then_check e' = some e

abbrev pub wrap : (ConfigError → ConfigError) → Option ConfigError → Option ConfigError
wrap f none = none
wrap f (some e) = some (f e)

unfoldable pub validate_url : WrappedUrl → Option ConfigError
validate_url w =
    if str_eq w.host ""
    then some (invalid_host w.text)
    else if str_eq w.scheme "http" || str_eq w.scheme "https"
    then none
    else some (invalid_scheme w.text)

unfoldable pub validate_urls : List WrappedUrl → Option ConfigError
validate_urls [] = none
validate_urls (w ∷ ws) = validate_url w then_check validate_urls ws

unfoldable pub validate_nodes : List SolanaNode → Option ConfigError
validate_nodes [] = none
validate_nodes (n ∷ ns) = validate_url n.url then_check validate_nodes ns

unfoldable pub validate_solana : {F : Type 0} → SolanaConfig F → Option ConfigError
validate_solana s =
    validate_nodes s.das_api_nodes
    then_check validate_nodes s.basic_route_nodes
    then_check validate_nodes s.ws_host_nodes

unfoldable pub validate_chain : Chain → Option ConfigError
validate_chain c =
    (elim c.hosts [ [] ↦ some empty_host_list | w ∷ ws ↦ validate_urls (w ∷ ws) ])
    then_check (elim c.ws_hosts [ [] ↦ some empty_ws_host_list | w ∷ ws ↦ validate_urls (w ∷ ws) ])

-- The loop over the map; Go's order is arbitrary, here it is that of the list.
unfoldable pub validate_chains : Map (Map ℕ) → Map Chain → Option ConfigError
validate_chains possible [] = none
validate_chains possible ((name, chain) ∷ chains) =
    (elim (find possible name) [ none ↦ some (unsupported_chain name) | some methods ↦ none ])
    then_check wrap (in_chain name) (validate_chain chain)
    then_check validate_chains possible chains

unfoldable pub validate : {F : Type 0} → Map (Map ℕ) → ProxyConfig F → Option ConfigError
validate possible p =
    (if p.port == 0 then some invalid_port else none)
    then_check wrap in_solana (validate_solana p.solana)
    then_check wrap in_eclipse (validate_solana p.eclipse)
    then_check wrap in_chains (validate_chains possible p.chains)
