-- ===== src/Router/Serving.antt =====
-- The constructor of the router, and the methods that it supports.
mod Build
mod Legacy
use aura_proxy.Common.{
  ℕ, zero, suc, ◌+◌, ◌≤◌, ◌<◌, ◌≡◌, refl, ap, sym, ◌∙◌, subst, String, Bool, true, false, not, ◌||◌,
  List, [], ◌∷◌, ◌++◌, map, Option, none, some, arith, if◌then◌else◌, Map, find, put, find-put,
  AllValues, AllValues-put, AllValues-find, length, length-append, length-map, All, All-append,
  All-map, mem_str, is_some, str_eq, eq_iff, Result, ok, err, Bool-cases, Option-cases, inl, inr,
  ◌==◌, ◌>>=◌,
}
use mathlib.Core.Path.{ap₂}
use aura_proxy.Common.Float.{Float64, IsIeee}
use aura_proxy.Balancer.Weighted.{
  ProbabilisticBalancer, NewError, new_probabilistic_balancer, is_available,
}
use aura_proxy.Balancer.Weighted.Build.{IsPositive, balancer_of, new_probabilistic_balancer_total}
use aura_proxy.Balancer.Weighted.Choice.{IsWellFormed}
use aura_proxy.Config.{SolanaConfig, SolanaNode, MethodGroupConfig}
use aura_proxy.Router.Tables.{
  TargetInfo, Router, RouterError, for_method, for_web_socket, for_default, endpoint_target,
  wrap_error, collect, node_target, indices_from, default_endpoint_weight,
}
use aura_proxy.Router.{
  build_info, build_methods, build_option, build_balancers, batch_info, empty_router,
  process_providers, add_node, add_nodes, set_methods, process_batch_nodes, process_das, process_ws,
  process_basic, process_legacy_config, cnft_methods, new_method_based_router,
  get_balancer_for_method, balancer_of_info, has_available, is_method_supported,
  router_is_available,
}
use aura_proxy.Router.Shape.{
  OptionAll, OptionAll-mono, AllValues-mono, AllValues-lookup, IsFilled, IsServable, IsTable,
  IsCollected, collect-IsCollected, IsBuilt, targets_of, das_route, basic_route,
}
use Build.{build_balancers-IsBuilt}
use Legacy.{process_das-Stage, process_ws-Stage, process_basic-Stage}

-- The method finds an available balancer, with one weight for each target, and all its targets are
-- in the heap.
abbrev pub IsServed : {F : Type 0} → Float64 F → Router F → String → Type 0
IsServed {F} fl r method =
    (b : ProbabilisticBalancer F ℕ) × (get_balancer_for_method fl r method ≡ some b)
    × IsWellFormed b
    × (is_available fl b ≡ true)
    × All (λ t. t < length r.heap) b.targets

module _ {F : Type 0} (fl : Float64 F) (ieee : IsIeee fl) where
  module _ (cfg : SolanaConfig F) where
    -- The table as the providers alone fill it.
    abbrev pub collected : Router F
    collected = collect fl (empty_router fl cfg.method_groups) cfg.providers

    empty-IsCollected : IsCollected fl (empty_router fl cfg.method_groups)
    empty-IsCollected = record {
      size = refl;
      methods = tt;
      default_info = tt;
      ws_info = tt;
      supported = λ m s. unfold find in cc;
    }

    -- The targets of a method: the DAS nodes for a DAS method if there are any, else those that the
    -- providers list for it.
    abbrev pub method_targets : String → Option (List ℕ)
    method_targets k =
        das_route fl (length collected.heap) cfg.das_api_nodes k
          (targets_of (find collected.method_map k))

    -- The targets of all other methods: the basic nodes, if there are any, else the endpoints that
    -- handle other methods.
    abbrev pub other_targets : Option (List ℕ)
    other_targets =
        basic_route fl (length collected.heap + length cfg.das_api_nodes + length cfg.ws_host_nodes)
          cfg.basic_route_nodes (targets_of collected.default_target_info)

    -- With IEEE arithmetic the constructor succeeds for every configuration. In the router that it
    -- returns every info has a well-formed balancer over its targets, all of them in the heap, and a
    -- supported method has an info. A DAS method goes to the legacy DAS nodes if there are any, and
    -- all else to what the providers list for it; the default goes to the basic nodes if there are
    -- any, else to the endpoints that handle other methods.
    pub new_method_based_router_total :
        (r : Router F) × (new_method_based_router fl cfg ≡ ok r)
        × IsBuilt fl r
        × ((k : String) → targets_of (find r.method_map k) ≡ method_targets k)
        × (targets_of r.default_target_info ≡ other_targets)
    unfolding new_method_based_router process_providers process_legacy_config
    new_method_based_router_total =
        let (r0, e0, b0, t0, d0, n0) = build_balancers-IsBuilt fl ieee collected (
          collect-IsCollected fl ieee (empty_router fl cfg.method_groups) cfg.providers
            empty-IsCollected) in
        let (r1, e1, s1) = process_das-Stage fl ieee r0 cfg.das_api_nodes b0 in
        let (r2, e2, s2) = process_ws-Stage fl ieee r1 cfg.ws_host_nodes s1.built in
        let (r3, e3, s3) = process_basic-Stage fl ieee r2 cfg.basic_route_nodes s2.built in
        let start : length r2.heap
            ≡ length collected.heap + length cfg.das_api_nodes + length cfg.ws_host_nodes =
          omega (arith, s2.size, s1.size, n0) in
        (
          r3,
          rw (e0, e1, e2, e3),
          s3.built,
          λ k.
              s3.routes k
              ∙ s2.routes k
              ∙ s1.routes k
              ∙ ap₂ (λ n t. das_route fl n cfg.das_api_nodes k t) n0 (t0 k),
          s3.default_info
              ∙ ap₂ (λ n t. basic_route fl n cfg.basic_route_nodes t) start
                  (s2.default_info ∙ s1.default_info ∙ d0),
        )

module _ {F : Type 0} (fl : Float64 F) (r : Router F) (h : IsBuilt fl r) (method : String) where
  available_of : (b : ProbabilisticBalancer F ℕ) → IsWellFormed b → is_available fl b ≡ true
  unfolding is_available
  available_of b wf = let p = wf.nonempty in ground arith

  IsServed-by :
      (info : TargetInfo F)
      → IsServable fl (length r.heap) info
      → get_balancer_for_method fl r method ≡ info.balancer
      → IsServed fl r method
  IsServed-by info s e = (
    s.built_balancer,
    e ∙ s.built,
    s.well_formed,
    available_of s.built_balancer s.well_formed,
    rw s.targets s.inside,
  )

  IsServed-listed :
      (o : Option (TargetInfo F))
      → find r.method_map method ≡ o
      → is_some o ≡ true
      → OptionAll (IsServable fl (length r.heap)) o
      → IsServed fl r method
  unfolding get_balancer_for_method
  IsServed-listed none e q s = cc
  IsServed-listed (some info) e q s = IsServed-by info s (let b = s.built in ground (arith, e))

  IsServed-default :
      (o d : Option (TargetInfo F))
      → find r.method_map method ≡ o
      → r.default_target_info ≡ d
      → has_available fl (balancer_of_info fl d) ≡ true
      → OptionAll (IsServable fl (length r.heap)) o
      → OptionAll (IsServable fl (length r.heap)) d
      → IsServed fl r method
  unfolding get_balancer_for_method
  IsServed-default (some info) d e f q s t = IsServed-listed (some info) e refl s
  IsServed-default none none e f q s t = cc
  IsServed-default none (some info) e f q s t =
      IsServed-by info t (let b = t.built in ground (arith, e, f))

  -- Whatever IsMethodSupported accepts, GetBalancerForMethod finds an available balancer for, with
  -- well-formed weights and all its targets in the heap.
  pub is_method_supported-IsServed : is_method_supported fl r method ≡ true → IsServed fl r method
  unfolding is_method_supported
  is_method_supported-IsServed q = elim (Bool-cases (is_some (find r.supported_methods method))) [
    | inl listed ↦
        IsServed-listed (find r.method_map method) refl (h.supported method listed)
          (AllValues-lookup fl (IsServable fl (length r.heap)) r.method_map method h.methods)
    | inr other ↦
        IsServed-default (find r.method_map method) r.default_target_info refl refl (ground arith)
          (AllValues-lookup fl (IsServable fl (length r.heap)) r.method_map method h.methods)
          h.default_info
  ]
