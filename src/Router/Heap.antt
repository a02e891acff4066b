-- ===== src/Router/Heap.antt =====
-- method_router.go: the targets that the constructor makes, and their places in the heap.
use aura_proxy.Common.{
  ℕ, ◌≡◌, refl, ap, sym, subst, put, ◌∙◌, String, Bool, true, false, not, List, [], ◌∷◌, ◌++◌,
  append-nil, append_assoc, map, length, ◌==◌, if◌then◌else◌, mem_str, arith, Result, ok, err,
  ◌>>=◌,
}
use aura_proxy.Common.Int.{pos}
use aura_proxy.Common.Float.{Float64}
use aura_proxy.Target.{ProxyTarget, new_proxy_target}
use aura_proxy.Chains.NodeType.{NodeType}
use aura_proxy.Config.{EndpointConfig, ProviderConfig, SolanaConfig, SolanaNode}
use aura_proxy.Router.Tables.{
  Router, RouterError, for_method, for_web_socket, for_default, endpoint_target, node_target,
  add_method, add_methods, expanded_methods, weight_of, process_endpoint, process_endpoints,
  process_provider, collect, indices_from,
}
use aura_proxy.Router.{
  build_methods, build_option, build_balancers, process_providers, add_node, add_nodes, set_methods,
  batch_info, process_batch_nodes, process_das, process_ws, process_basic, process_legacy_config,
  cnft_methods, empty_router, new_method_based_router,
}

-- A target that has served nothing yet: no method is in jail, and there is no limit of requests.
abbrev pub fresh_target : String → String → NodeType → ProxyTarget
fresh_target url provider node_type = record {
  available_methods = [];
  provider = provider;
  target_type = node_type;
  url = url;
  req_counter = 0;
  req_limit = 0;
  req_window = 0;
  slot_amount = pos 0;
}

abbrev of_nodes : List SolanaNode → List ProxyTarget
of_nodes nodes = map (λ n. fresh_target n.url.text n.provider n.node_type) nodes

module _ {F : Type 0} (fl : Float64 F) where
  abbrev of_endpoints : String → List (EndpointConfig F) → List ProxyTarget
  of_endpoints provider es = map (λ e. fresh_target e.url provider e.node_type) es

  abbrev of_providers : List (ProviderConfig F) → List ProxyTarget
  of_providers [] = []
  of_providers (p ∷ ps) = of_endpoints p.name p.endpoints ++ of_providers ps

  -- One target for each endpoint, DAS node, WebSocket node and basic node, in this order, with the URL,
  -- the provider and the kind of node of the configuration.
  abbrev pub expected_heap : SolanaConfig F → List ProxyTarget
  expected_heap cfg =
      of_providers cfg.providers
      ++ of_nodes cfg.das_api_nodes
      ++ of_nodes cfg.ws_host_nodes
      ++ of_nodes cfg.basic_route_nodes

  add_methods_heap :
      (excluded : List String) (target : ℕ) (w : F) (r : Router F) (ms : List String)
      → (add_methods fl excluded target w r ms).heap ≡ r.heap
  unfolding add_methods
  add_methods_heap excluded target w r [] = refl
  add_methods_heap excluded target w r (m ∷ ms) =
      add_methods_heap excluded target w (add_method fl excluded target w r m) ms
      ∙ one (mem_str m excluded)
    where
      one : (b : Bool) → (add_method fl excluded target w r m).heap ≡ r.heap
      one b = unfold add_method in ground arith

  process_endpoint_heap :
      (provider : String) (r : Router F) (e : EndpointConfig F)
      → (process_endpoint fl provider r e).heap
        ≡ r.heap ++ fresh_target e.url provider e.node_type ∷ []
  unfolding process_endpoint endpoint_target new_proxy_target
  process_endpoint_heap provider r e =
      add_methods_heap e.exclude_methods (length r.heap) (weight_of fl e)
        (record r { heap = r.heap ++ endpoint_target provider e ∷ [] })
        (expanded_methods fl r.method_groups e)

  process_endpoints_heap :
      (provider : String) (r : Router F) (es : List (EndpointConfig F))
      → (process_endpoints fl provider r es).heap ≡ r.heap ++ of_endpoints provider es
  unfolding process_endpoints
  process_endpoints_heap provider r [] = sym (append-nil r.heap)
  process_endpoints_heap provider r (e ∷ es) =
      process_endpoints_heap provider (process_endpoint fl provider r e) es
      ∙ ap (λ h. h ++ of_endpoints provider es) (process_endpoint_heap provider r e)
      ∙ append_assoc r.heap (fresh_target e.url provider e.node_type ∷ [])
          (of_endpoints provider es)

  collect_heap :
      (r : Router F) (ps : List (ProviderConfig F))
      → (collect fl r ps).heap ≡ r.heap ++ of_providers ps
  unfolding collect process_provider
  collect_heap r [] = sym (append-nil r.heap)
  collect_heap r (p ∷ ps) =
      collect_heap (process_provider fl r p) ps
      ∙ ap (λ h. h ++ of_providers ps) (process_endpoints_heap p.name r p.endpoints)
      ∙ append_assoc r.heap (of_endpoints p.name p.endpoints) (of_providers ps)

  add_nodes_heap :
      (r : Router F) (nodes : List SolanaNode)
      → (add_nodes fl r nodes).heap ≡ r.heap ++ of_nodes nodes
  unfolding add_nodes add_node node_target new_proxy_target
  add_nodes_heap r [] = sym (append-nil r.heap)
  add_nodes_heap r (n ∷ ns) =
      add_nodes_heap (add_node fl r n) ns
      ∙ append_assoc r.heap (fresh_target n.url.text n.provider n.node_type ∷ []) (of_nodes ns)

  -- What a step that may fail leaves in the heap if it succeeds.
  abbrev pub HasHeap : List ProxyTarget → Result RouterError (Router F) → Type 0
  HasHeap h (err e) = Unit
  HasHeap h (ok r) = r.heap ≡ h

  any-HasHeap :
      {A : Type 0} (h : List ProxyTarget) (m : Result RouterError A)
      (f : A → Result RouterError (Router F))
      → ((a : A) → HasHeap h (f a))
      → HasHeap h (m >>= f)
  any-HasHeap h (err e) f k = tt
  any-HasHeap h (ok a) f k = k a

  then-HasHeap :
      (g h : List ProxyTarget) (m : Result RouterError (Router F))
      (f : Router F → Result RouterError (Router F))
      → HasHeap g m
      → ((r : Router F) → r.heap ≡ g → HasHeap h (f r))
      → HasHeap h (m >>= f)
  then-HasHeap g h (err e) f s k = tt
  then-HasHeap g h (ok r) f s k = k r s

  build_balancers-HasHeap : (r : Router F) → HasHeap r.heap (build_balancers fl r)
  unfolding build_balancers
  build_balancers-HasHeap r = any-HasHeap r.heap (build_methods fl r.method_map) _ (λ methods.
      any-HasHeap r.heap (build_option fl for_web_socket r.ws_target_info) _ (λ ws.
        any-HasHeap r.heap (build_option fl for_default r.default_target_info) _ (λ others. refl)))

  set_methods-HasHeap :
      (h : List ProxyTarget) (r : Router F) (targets : List ℕ) (ms : List String)
      → r.heap ≡ h
      → HasHeap h (set_methods fl r targets ms)
  unfolding set_methods
  set_methods-HasHeap h r targets [] e = e
  set_methods-HasHeap h r targets (m ∷ ms) e =
      then-HasHeap h h
        (if not (length targets == 0)
          then (batch_info fl (for_method m) targets >>= λ info.
              ok (record r { method_map = put r.method_map m info }))
          else ok r)
        _ (one (not (length targets == 0)))
        (λ r' e'.
          set_methods-HasHeap h (record r' { supported_methods = put r'.supported_methods m tt })
            targets ms e')
    where
      one :
          (b : Bool)
          → HasHeap h (
              if b
              then (batch_info fl (for_method m) targets >>= λ info.
                  ok (record r { method_map = put r.method_map m info }))
              else ok r)
      one true = any-HasHeap h (batch_info fl (for_method m) targets) _ (λ info. e)
      one false = e

  -- The same for a step that returns the indices of its targets as well.
  abbrev HasHeapToo : List ProxyTarget → Result RouterError (Router F × List ℕ) → Type 0
  HasHeapToo h (err e) = Unit
  HasHeapToo h (ok (r, targets)) = r.heap ≡ h

  process_batch_nodes-HasHeapToo :
      (r : Router F) (nodes : List SolanaNode) (methods : List String)
      → HasHeapToo (r.heap ++ of_nodes nodes) (process_batch_nodes fl r nodes methods)
  unfolding process_batch_nodes
  process_batch_nodes-HasHeapToo r nodes methods =
      go (set_methods fl (add_nodes fl r nodes) (indices_from fl (length r.heap) nodes) methods) (
        set_methods-HasHeap (r.heap ++ of_nodes nodes) (add_nodes fl r nodes)
          (indices_from fl (length r.heap) nodes) methods (add_nodes_heap r nodes))
    where
      go :
          (m : Result RouterError (Router F))
          → HasHeap (r.heap ++ of_nodes nodes) m
          → HasHeapToo
              (r.heap ++ of_nodes nodes)
              (m >>= λ r'. ok (r', indices_from fl (length r.heap) nodes))
      go (err e) k = tt
      go (ok r') k = k

  after-HasHeap :
      (h : List ProxyTarget) (m : Result RouterError (Router F × List ℕ))
      (f : Router F × List ℕ → Result RouterError (Router F))
      → HasHeapToo h m
      → ((r : Router F) (targets : List ℕ) → r.heap ≡ h → HasHeap h (f (r, targets)))
      → HasHeap h (m >>= f)
  after-HasHeap h (err e) f s k = tt
  after-HasHeap h (ok (r, targets)) f s k = k r targets s

  process_das-HasHeap :
      (r : Router F) (nodes : List SolanaNode)
      → HasHeap (r.heap ++ of_nodes nodes) (process_das fl r nodes)
  unfolding process_das
  process_das-HasHeap r [] = sym (append-nil r.heap)
  process_das-HasHeap r (n ∷ ns) =
      after-HasHeap _ (process_batch_nodes fl r (n ∷ ns) (cnft_methods fl)) _
        (process_batch_nodes-HasHeapToo r (n ∷ ns) (cnft_methods fl)) (λ r' targets e. e)

  process_ws-HasHeap :
      (r : Router F) (nodes : List SolanaNode)
      → HasHeap (r.heap ++ of_nodes nodes) (process_ws fl r nodes)
  unfolding process_ws
  process_ws-HasHeap r [] = sym (append-nil r.heap)
  process_ws-HasHeap r (n ∷ ns) =
      after-HasHeap _ (process_batch_nodes fl r (n ∷ ns) []) _
        (process_batch_nodes-HasHeapToo r (n ∷ ns) [])
        (λ r' targets e. any-HasHeap _ (batch_info fl for_web_socket targets) _ (λ info. e))

  process_basic-HasHeap :
      (r : Router F) (nodes : List SolanaNode)
      → HasHeap (r.heap ++ of_nodes nodes) (process_basic fl r nodes)
  unfolding process_basic
  process_basic-HasHeap r [] = sym (append-nil r.heap)
  process_basic-HasHeap r (n ∷ ns) =
      after-HasHeap _ (process_batch_nodes fl r (n ∷ ns) []) _
        (process_batch_nodes-HasHeapToo r (n ∷ ns) [])
        (λ r' targets e. any-HasHeap _ (batch_info fl for_default targets) _ (λ info. e))

  pub new_method_based_router-HasHeap :
      (cfg : SolanaConfig F) → HasHeap (expected_heap cfg) (new_method_based_router fl cfg)
  unfolding new_method_based_router process_providers process_legacy_config
  new_method_based_router-HasHeap cfg =
      let listed = of_providers cfg.providers in
      let filled = collect fl (empty_router fl cfg.method_groups) cfg.providers in
      then-HasHeap listed (expected_heap cfg) (build_balancers fl filled) _
        (subst (λ h. HasHeap h (build_balancers fl filled))
          (collect_heap (empty_router fl cfg.method_groups) cfg.providers)
          (build_balancers-HasHeap filled))
        (λ r0 e0.
          then-HasHeap (listed ++ of_nodes cfg.das_api_nodes) (expected_heap cfg)
            (process_das fl r0 cfg.das_api_nodes) _
            (subst
              (λ h. HasHeap (h ++ of_nodes cfg.das_api_nodes) (process_das fl r0 cfg.das_api_nodes))
              e0 (process_das-HasHeap r0 cfg.das_api_nodes))
            (λ r1 e1.
              then-HasHeap (listed ++ of_nodes cfg.das_api_nodes ++ of_nodes cfg.ws_host_nodes)
                (expected_heap cfg) (process_ws fl r1 cfg.ws_host_nodes) _
                (subst
                  (λ h.
                    HasHeap (h ++ of_nodes cfg.ws_host_nodes) (process_ws fl r1 cfg.ws_host_nodes))
                  e1 (process_ws-HasHeap r1 cfg.ws_host_nodes))
                (λ r2 e2.
                  subst
                    (λ h.
                      HasHeap (h ++ of_nodes cfg.basic_route_nodes)
                        (process_basic fl r2 cfg.basic_route_nodes))
                    e2 (process_basic-HasHeap r2 cfg.basic_route_nodes))))
