-- ===== src/Router.antt =====
-- internal/proxy/chains/solana/method_router.go: which upstream targets serve which RPC method. A
-- *ProxyTarget is an index into `heap`, so that all lists that share a target share its statistics.
-- A Go map is walked in the order of its list, where Go's order is arbitrary.
pub mod Tables
pub mod Heap
pub mod Shape
pub mod Serving
pub mod Routes
mod Tests
use aura_proxy.Common.{
  ℕ, suc, ◌+◌, ◌<◌, String, Bool, true, false, not, ◌&&◌, ◌||◌, List, [], ◌∷◌, ◌++◌, map, Option,
  none, some, if◌then◌else◌, Map, find, put, length, modify, mem_str, is_some, Result, ok, err,
  ◌>>=◌, ◌==◌,
}
use aura_proxy.Common.Int.{ℤ, pos}
use aura_proxy.Common.Float.{Float64}
use aura_proxy.Balancer.Weighted.{
  ProbabilisticBalancer, NewError, new_probabilistic_balancer, is_available,
}
use aura_proxy.Chains.Methods.{cnft_method_list}
use aura_proxy.Chains.NodeType.{NodeType}
use aura_proxy.Config.{SolanaNode, MethodGroupConfig, EndpointConfig, ProviderConfig, SolanaConfig}
use aura_proxy.Target.{ProxyTarget, new_proxy_target, update_stats}
use Tables.{
  wrap_error, set_groups, node_target, default_endpoint_weight, indices_from, collect, TargetInfo,
  Router, RouterError, for_method, for_web_socket, for_default,
}

module _ {F : Type 0} (fl : Float64 F) where
  -- Create the balancer of one info, if it has targets.
  unfoldable pub build_info :
      (NewError → RouterError) → TargetInfo F → Result RouterError (TargetInfo F)
  build_info f info =
      if not (length info.targets == 0)
      then (wrap_error f (new_probabilistic_balancer fl info.targets info.weights) >>= λ b.
          ok (record info { balancer = some b }))
      else ok info

  unfoldable pub build_methods : Map (TargetInfo F) → Result RouterError (Map (TargetInfo F))
  unfolding build_info
  build_methods [] = ok []
  build_methods ((m, info) ∷ infos) = do
    built ← build_info (for_method m) info
    rest ← build_methods infos
    ok ((m, built) ∷ rest)

  unfoldable pub build_option :
      (NewError → RouterError) → Option (TargetInfo F) → Result RouterError (Option (TargetInfo F))
  unfolding build_info
  build_option f none = ok none
  build_option f (some info) = do built ← build_info f info; ok (some built)

  unfoldable pub build_balancers : Router F → Result RouterError (Router F)
  unfolding build_methods build_option
  build_balancers r = do
    methods ← build_methods r.method_map
    ws ← build_option for_web_socket r.ws_target_info
    others ← build_option for_default r.default_target_info
    ok (record r { method_map = methods; ws_target_info = ws; default_target_info = others })

  unfoldable pub process_providers :
      Router F → List (ProviderConfig F) → Result RouterError (Router F)
  process_providers r ps = build_balancers (collect fl r ps)

  -- The first loop of processBatchNodes.
  unfoldable pub add_node : Router F → SolanaNode → Router F
  unfolding node_target
  add_node r n = record r {
    heap = r.heap ++ node_target n ∷ [];
    providers =
        put r.providers n.provider
          ((elim (find r.providers n.provider) [ none ↦ [] | some ts ↦ ts ]) ++ length r.heap ∷ []);
  }

  unfoldable pub add_nodes : Router F → List SolanaNode → Router F
  unfolding add_node
  add_nodes r [] = r
  add_nodes r (n ∷ ns) = add_nodes (add_node r n) ns

  -- The info over a batch of targets, all of the default weight.
  unfoldable pub batch_info : (NewError → RouterError) → List ℕ → Result RouterError (TargetInfo F)
  batch_info f targets =
      let weights = map (λ t. default_endpoint_weight fl) targets in
      (wrap_error f (new_probabilistic_balancer fl targets weights) >>= λ b.
      ok (record { targets = targets; weights = weights; balancer = some b }))

  -- The second loop of processBatchNodes, over the set of methods.
  unfoldable pub set_methods : Router F → List ℕ → List String → Result RouterError (Router F)
  set_methods r targets [] = ok r
  set_methods r targets (m ∷ ms) = do
    r' ←
        (if not (length targets == 0)
          then (batch_info (for_method m) targets >>= λ info.
              ok (record r { method_map = put r.method_map m info }))
          else ok r)
    set_methods (record r' { supported_methods = put r'.supported_methods m tt }) targets ms

  unfoldable pub process_batch_nodes :
      Router F → List SolanaNode → List String → Result RouterError (Router F × List ℕ)
  process_batch_nodes r nodes methods = do
    let targets = indices_from fl (length r.heap) nodes
    r' ← set_methods (add_nodes r nodes) targets methods
    ok (r', targets)

  abbrev pub cnft_methods : List String
  cnft_methods = map (λ kv. kv.0) cnft_method_list

  unfoldable pub process_das : Router F → List SolanaNode → Result RouterError (Router F)
  process_das r [] = ok r
  process_das r (n ∷ ns) = do done ← process_batch_nodes r (n ∷ ns) cnft_methods; ok (done.0)

  unfoldable pub process_ws : Router F → List SolanaNode → Result RouterError (Router F)
  process_ws r [] = ok r
  process_ws r (n ∷ ns) = do
    done ← process_batch_nodes r (n ∷ ns) []
    info ← batch_info for_web_socket (done.1)
    ok (record (done.0) { ws_target_info = some info })

  unfoldable pub process_basic : Router F → List SolanaNode → Result RouterError (Router F)
  process_basic r [] = ok r
  process_basic r (n ∷ ns) = do
    done ← process_batch_nodes r (n ∷ ns) []
    info ← batch_info for_default (done.1)
    ok (record (done.0) { default_target_info = some info })

  unfoldable pub process_legacy_config : Router F → SolanaConfig F → Result RouterError (Router F)
  process_legacy_config r cfg = do
    r1 ← process_das r cfg.das_api_nodes
    r2 ← process_ws r1 cfg.ws_host_nodes
    process_basic r2 cfg.basic_route_nodes

  abbrev pub empty_router : List MethodGroupConfig → Router F
  empty_router groups = record {
    heap = [];
    method_map = [];
    default_target_info = none;
    ws_target_info = none;
    providers = [];
    method_groups = set_groups [] groups;
    supported_methods = [];
  }

  unfoldable pub new_method_based_router : SolanaConfig F → Result RouterError (Router F)
  new_method_based_router cfg = do
    r ← process_providers (empty_router cfg.method_groups) cfg.providers
    process_legacy_config r cfg

  abbrev pub balancer_of_info : Option (TargetInfo F) → Option (ProbabilisticBalancer F ℕ)
  balancer_of_info none = none
  balancer_of_info (some info) = info.balancer

  -- GetBalancerForMethod; `none` is (nil, false).
  unfoldable pub get_balancer_for_method : Router F → String → Option (ProbabilisticBalancer F ℕ)
  get_balancer_for_method r method = elim (balancer_of_info (find r.method_map method)) [
    | some b ↦ some b
    | none ↦ balancer_of_info r.default_target_info
  ]

  abbrev pub has_available : Option (ProbabilisticBalancer F ℕ) → Bool
  has_available none = false
  has_available (some b) = is_available fl b

  unfoldable pub is_method_supported : Router F → String → Bool
  is_method_supported r method =
      is_some (find r.supported_methods method)
      || has_available (balancer_of_info r.default_target_info)

  abbrev any_available : Map (TargetInfo F) → Bool
  any_available [] = false
  any_available ((m, info) ∷ infos) = has_available info.balancer || any_available infos

  unfoldable pub router_is_available : Router F → Bool
  router_is_available r =
      has_available (balancer_of_info r.ws_target_info)
      || any_available r.method_map
      || has_available (balancer_of_info r.default_target_info)

-- UpdateTargetStats; `none` is the nil target.
unfoldable pub update_target_stats :
    {F : Type 0} → Router F → Option ℕ → ℕ → (ℕ → ℕ) → Bool → List String → ℤ → ℤ → Router F
update_target_stats r none now clock success methods time slots = r
update_target_stats r (some target) now clock success methods time slots = record r {
  heap = modify (λ t. update_stats t now clock success methods time slots) r.heap target;
}
