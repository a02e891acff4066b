-- ===== src/Router/Routes.antt =====
-- Where the constructor routes each method.
pub mod Steps
pub mod Groups
use aura_proxy.Common.{
  ℕ, suc, ◌+◌, ◌≡◌, refl, ap, subst, sym, ◌∙◌, String, Bool, true, false, List, [], ◌∷◌, ◌++◌,
  append-nil, append_assoc, Option, none, some, arith, if◌then◌else◌, Map, find, find-put, length,
  length-append, mem_str, str_eq, eq_iff, ◌&&◌, ok,
}
use mathlib.Core.Path.{ap₂}
use aura_proxy.Common.Float.{Float64, IsIeee}
use aura_proxy.Config.{EndpointConfig, ProviderConfig, SolanaConfig, SolanaNode}
use aura_proxy.Router.Tables.{
  TargetInfo, Router, add_to, add_method, add_methods, expanded_methods, weight_of, endpoint_target,
  process_endpoint, process_endpoints, process_provider, collect, indices_from,
}
use aura_proxy.Router.{empty_router, cnft_methods, new_method_based_router}
use aura_proxy.Router.Shape.{IsBuilt, targets_of, das_route, basic_route, not_nil}
use aura_proxy.Router.Heap.{expected_heap, HasHeap, new_method_based_router-HasHeap}
use aura_proxy.Router.Serving.{new_method_based_router_total}
use Groups.{listed, listing-listed}
use Steps.{
  info_targets, route_list, hits, hits_of, listing, others, all_endpoints, Step, collect-Step,
}

module _ {F : Type 0} (fl : Float64 F) where
  info_targets_lem : (o : Option (TargetInfo F)) → info_targets o ≡ route_list (targets_of o)
  info_targets_lem none = refl
  info_targets_lem (some info) = refl

  das_route_list :
      (start : ℕ) (nodes : List SolanaNode) (k : String) (o : Option (List ℕ))
      → route_list (das_route fl start nodes k o) ≡ (
          if not_nil nodes && mem_str k (cnft_methods fl)
          then indices_from fl start nodes
          else route_list o)
  das_route_list start [] k o = refl
  das_route_list start (x ∷ nodes) k o = ground arith

  basic_route_list :
      (start : ℕ) (nodes : List SolanaNode) (o : Option (List ℕ))
      → route_list (basic_route fl start nodes o)
        ≡ (if not_nil nodes then indices_from fl start nodes else route_list o)
  basic_route_list start [] o = refl
  basic_route_list start (x ∷ nodes) o = refl

  module _ (cfg : SolanaConfig F) where
    abbrev pub groups_of : Map (List String)
    groups_of = (empty_router fl cfg.method_groups).method_groups

    -- The targets listed for method k: the DAS nodes for a DAS method if there are any, else the
    -- endpoints that name it.
    abbrev pub expected_targets : String → List ℕ
    expected_targets k =
        if not_nil cfg.das_api_nodes && mem_str k (cnft_methods fl)
        then indices_from fl (length (all_endpoints fl cfg.providers)) cfg.das_api_nodes
        else listed cfg.method_groups fl k 0 (all_endpoints fl cfg.providers)

    -- The default targets: the basic nodes if there are any, else the endpoints that handle other
    -- methods.
    abbrev pub expected_default : List ℕ
    expected_default =
        if not_nil cfg.basic_route_nodes
        then indices_from fl
            (length (all_endpoints fl cfg.providers)
              + length cfg.das_api_nodes
              + length cfg.ws_host_nodes)
            cfg.basic_route_nodes
        else others fl 0 (all_endpoints fl cfg.providers)

    -- With IEEE arithmetic the constructor succeeds for every configuration: each info of the router
    -- has a well-formed balancer over its targets, which lie in the heap, and a supported method has
    -- an info. A DAS method is listed for the legacy DAS nodes if there are any. Else a method is
    -- listed for exactly the endpoints that name it, by themselves or through a defined group, and
    -- do not exclude it, in the order of the configuration and once for each time it is named. The
    -- default has the basic nodes if there are any, else the endpoints that handle other methods,
    -- whatever methods these exclude. The targets behind the indices are one for each endpoint, DAS
    -- node, WebSocket node and basic node, in this order, with its URL, provider and kind of node,
    -- named or not.
    pub new_method_based_router_routes :
        (ieee : IsIeee fl)
        → (r : Router F) × (new_method_based_router fl cfg ≡ ok r)
          × IsBuilt fl r
          × ((k : String) → info_targets (find r.method_map k) ≡ expected_targets k)
          × (info_targets r.default_target_info ≡ expected_default)
          × (r.heap ≡ expected_heap fl cfg)
    unfolding find
    new_method_based_router_routes ieee =
        let (r, e, b, t, d) = new_method_based_router_total fl ieee cfg in
        let s =
          collect-Step fl groups_of 0 (empty_router fl cfg.method_groups) cfg.providers refl refl in
        let made : r.heap ≡ expected_heap fl cfg =
          subst (HasHeap fl (expected_heap fl cfg)) e (new_method_based_router-HasHeap fl cfg) in
        let size : length filled.heap ≡ length (all_endpoints fl cfg.providers) =
          omega (arith, s.heap) in
        (
          r,
          e,
          b,
          λ k.
              info_targets_lem (find r.method_map k)
              ∙ ap route_list (t k)
              ∙ das_route_list (length filled.heap) cfg.das_api_nodes k
                  (targets_of (find filled.method_map k))
              ∙ ap₂
                  (λ n l.
                    if not_nil cfg.das_api_nodes && mem_str k (cnft_methods fl)
                    then indices_from fl n cfg.das_api_nodes
                    else l)
                  size
                  (sym (info_targets_lem (find filled.method_map k))
                    ∙ s.methods k
                    ∙ listing-listed cfg.method_groups fl k 0 (all_endpoints fl cfg.providers)),
          info_targets_lem r.default_target_info
              ∙ ap route_list d
              ∙ basic_route_list
                  (length filled.heap + length cfg.das_api_nodes + length cfg.ws_host_nodes)
                  cfg.basic_route_nodes (targets_of filled.default_target_info)
              ∙ ap₂
                  (λ n l.
                    if not_nil cfg.basic_route_nodes
                    then indices_from fl (n + length cfg.das_api_nodes + length cfg.ws_host_nodes)
                        cfg.basic_route_nodes
                    else l)
                  size (sym (info_targets_lem filled.default_target_info) ∙ s.default_info),
          made,
        )
      where
        filled : Router F
        filled = collect fl (empty_router fl cfg.method_groups) cfg.providers
