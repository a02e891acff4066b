-- ===== src/Handlers/Tests.antt =====
-- A proxy with the sample adapter at localhost, and a configuration with one provider for Solana.
use aura_proxy.Common.{
  ℕ, ◌≡◌, true, false, [], ◌∷◌, none, some, codes, mem_str, ok, if◌then◌else◌, ◌&&◌,
}
use aura_proxy.Common.Int.{pos}
use aura_proxy.Common.Float.{milli, milli-IsIeee}
use aura_proxy.Config.{SolanaConfig, ProxyConfig}
use aura_proxy.Chains.Methods.{chain_name, eclipse_chain_name}
use aura_proxy.Transport.Samples.{router-IsBuilt, context, silent, world}
use aura_proxy.Adapter.{solana_chain_hosts, eclipse_chain_hosts}
use aura_proxy.Adapter.Samples.{decoder, api, adapter}
use aura_proxy.Handlers.{Proxy, Incoming, adapter_for, request_prepare, empty_proxy, init_adapters}
use aura_proxy.Handlers.Preparation.{IsPassedOn, request_prepare-IsPassedOn}
use aura_proxy.Handlers.Runs.{Post, run, IsRun, run-IsRun}
use aura_proxy.Handlers.Hosts.{IsServing, init_adapters-IsServing}

abbrev sample : Proxy ℕ
sample = record {
  adapters = ("localhost:2011", 0) ∷ [];
  heap = adapter ∷ [];
  counters = [];
  is_mainnet = true;
}

abbrev incoming : Incoming
incoming = record {
  host = "localhost:2011";
  is_websocket = false;
  content_type = codes "application/json";
  body = some (codes "{}");
  time = pos 1;
}

request_prepare-IsPassedOn_example :
    IsPassedOn api false
      (adapter_for sample "localhost:2011")
      (request_prepare api decoder sample incoming context)
request_prepare-IsPassedOn_example = request_prepare-IsPassedOn api decoder sample incoming context

abbrev no_chain : SolanaConfig ℕ
no_chain = record {
  das_api_nodes = [];
  basic_route_nodes = [];
  ws_host_nodes = [];
  method_groups = [];
  providers = [];
}

abbrev one_provider : SolanaConfig ℕ
one_provider = record no_chain {
  providers =
      record {
        name = "first";
        endpoints =
            record {
              url = "http://b";
              weight = 0;
              node_type = record { name = ""; available_slots_history = pos 0 };
              methods = [];
              exclude_methods = [];
              method_groups = [];
              handle_other = true;
              handle_web_socket = true;
            }
            ∷ [];
      }
      ∷ [];
}

abbrev cfg : ProxyConfig ℕ
cfg = record {
  cert_file = "";
  aura_grpc_host = "";
  solana = one_provider;
  eclipse = no_chain;
  chains = [];
  port = 2011;
  metrics_port = 0;
  is_mainnet = true;
}

init_adapters-IsServing_example :
    (p : Proxy ℕ) × (init_adapters milli cfg (empty_proxy cfg []) ≡ ok p)
    × IsServing milli
        (λ h.
          if false && mem_str h eclipse_chain_hosts
          then some eclipse_chain_name
          else if true && mem_str h solana_chain_hosts
          then some chain_name
          else none)
        p
init_adapters-IsServing_example = init_adapters-IsServing milli milli-IsIeee cfg []

abbrev post : Post ℕ Unit Unit
post = record { host = "localhost:2011"; context = context; world = world; elapsed = pos 7 }

run-IsRun_example :
    IsRun milli
      (λ u. "u1")
      (λ t. "RPC")
      silent
      sample
      (run milli (λ u. "u1") (λ t. "RPC") silent sample [] (post ∷ post ∷ []))
run-IsRun_example =
    run-IsRun milli (λ u. "u1") (λ t. "RPC") silent sample [] (post ∷ post ∷ [])
      (router-IsBuilt, tt)
