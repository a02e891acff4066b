-- ===== src/Config/Checks/Tests.antt =====
-- Validation of a configuration with one chain.
use aura_proxy.Common.{true, ℕ, ◌≡◌, not, [], ◌∷◌, is_some}
use aura_proxy.Common.{Map}
use aura_proxy.Config.{ProxyConfig, validate}
use aura_proxy.Config.Checks.{is_acceptable, validate_rejects}

abbrev config : ProxyConfig ℕ
config = record {
  cert_file = "";
  aura_grpc_host = "";
  solana = record {
    das_api_nodes = [];
    basic_route_nodes = [];
    ws_host_nodes = [];
    method_groups = [];
    providers = [];
  };
  eclipse = record {
    das_api_nodes = [];
    basic_route_nodes = [];
    ws_host_nodes = [];
    method_groups = [];
    providers = [];
  };
  chains =
      (
        "solana",
        record {
          hosts = record { scheme = "https"; host = "a"; text = "https://a" } ∷ [];
          ws_hosts = record { scheme = "http"; host = "b"; text = "http://b" } ∷ [];
        },
      )
      ∷ [];
  port = 2011;
  metrics_port = 2012;
  is_mainnet = true;
}

abbrev possible : Map (Map ℕ)
possible = ("solana", []) ∷ []

validate_rejects_example : is_some (validate possible config) ≡ not (is_acceptable possible config)
validate_rejects_example = validate_rejects possible config
