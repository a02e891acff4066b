-- ===== src/Router/Serving/Legacy.antt =====
-- The stages of the legacy configuration: DAS nodes, WebSocket nodes, basic nodes.
use aura_proxy.Common.{
  ℕ, ◌+◌, ◌<◌, ◌≡◌, refl, ap, sym, ◌∙◌, subst, String, false, List, [], ◌∷◌, Option, some, arith,
  if◌then◌else◌, find, put, find-put, AllValues-put, length, length-append, All, mem_str, eq_iff,
  ok, ◌==◌,
}
use aura_proxy.Common.Float.{Float64, IsIeee}
use aura_proxy.Config.{SolanaNode}
use aura_proxy.Router.Tables.{
  Router, for_method, for_web_socket, for_default, node_target, indices_from,
}
use aura_proxy.Router.{
  add_node, add_nodes, set_methods, process_batch_nodes, process_das, process_ws, process_basic,
  cnft_methods,
}
use aura_proxy.Router.Shape.{
  OptionAll-mono, AllValues-mono, IsServable, IsTable, IsBuilt, targets_of, das_route, basic_route,
}
use aura_proxy.Router.Serving.Build.{batch_info-IsServable, IsServable-mono, indices_from-below}

module _ {F : Type 0} (fl : Float64 F) (ieee : IsIeee fl) where
  -- What adding a batch of nodes keeps of a table.
  record Grown (n : ℕ) (r r' : Router F) : Type 0 where
    table : IsTable fl (IsServable fl) n r'
    method_map : r'.method_map ≡ r.method_map
    default_info : r'.default_target_info ≡ r.default_target_info

  add_node-IsTable :
      (n : ℕ) (r : Router F) (x : SolanaNode)
      → IsTable fl (IsServable fl) n r
      → IsTable fl (IsServable fl) (n + 1) (add_node fl r x)
  unfolding add_node
  add_node-IsTable n r x h = record {
    size = omega (arith, length-append r.heap (node_target x ∷ []), h.size);
    methods =
        AllValues-mono fl _ _ (λ i. IsServable-mono fl ieee n (n + 1) i (omega arith)) r.method_map
          h.methods;
    default_info =
        OptionAll-mono fl _ _ (λ i. IsServable-mono fl ieee n (n + 1) i (omega arith))
          r.default_target_info h.default_info;
    ws_info =
        OptionAll-mono fl _ _ (λ i. IsServable-mono fl ieee n (n + 1) i (omega arith))
          r.ws_target_info h.ws_info;
    supported = h.supported;
  }

  add_nodes-Grown :
      (n k : ℕ) (r : Router F) (nodes : List SolanaNode)
      → n + length nodes ≡ k
      → IsTable fl (IsServable fl) n r
      → Grown k r (add_nodes fl r nodes)
  unfolding add_nodes
  add_nodes-Grown n k r [] e h = record {
    table = subst (λ i. IsTable fl (IsServable fl) i r) (let q : n ≡ k = omega arith in q) h;
    method_map = refl;
    default_info = refl;
  }
  add_nodes-Grown n k r (x ∷ nodes) e h =
      let g =
        add_nodes-Grown (n + 1) k (add_node fl r x) nodes (omega arith)
          (add_node-IsTable n r x h) in
      record {
        table = g.table;
        method_map = g.method_map ∙ same_methods;
        default_info = g.default_info ∙ same_default;
      }
    where
      same_methods : (add_node fl r x).method_map ≡ r.method_map
      same_methods = unfold add_node in refl

      same_default : (add_node fl r x).default_target_info ≡ r.default_target_info
      same_default = unfold add_node in refl

  -- What a batch of methods is set to, and what else stays.
  record Replaced (n : ℕ) (targets : List ℕ) (ms : List String) (r r' : Router F) : Type 0 where
    table : IsTable fl (IsServable fl) n r'
    routes :
        (k : String)
        → targets_of (find r'.method_map k)
          ≡ (if mem_str k ms then some targets else targets_of (find r.method_map k))
    default_info : r'.default_target_info ≡ r.default_target_info

  set_methods-Replaced :
      (n : ℕ) (r : Router F) (targets : List ℕ) (ms : List String)
      → 0 < length targets
      → All (λ t. t < n) targets
      → IsTable fl (IsServable fl) n r
      → (r' : Router F) × (set_methods fl r targets ms ≡ ok r') × Replaced n targets ms r r'
  unfolding set_methods
  set_methods-Replaced n r targets [] nonempty inside h =
      (r, refl, record { table = h; routes = λ k. refl; default_info = refl })
  set_methods-Replaced n r targets (m ∷ ms) nonempty inside h =
      let (info, e, s, t) =
        batch_info-IsServable fl ieee (for_method m) n targets nonempty inside in
      let next : Router F = record r {
        method_map = put r.method_map m info;
        supported_methods = put r.supported_methods m tt;
      } in
      let next_table : IsTable fl (IsServable fl) n next = record {
        size = h.size;
        methods = AllValues-put (IsServable fl n) r.method_map m info h.methods s;
        default_info = h.default_info;
        ws_info = h.ws_info;
        supported = λ k q. ground (
          arith,
          find-put r.method_map m info k,
          find-put r.supported_methods m tt k,
          h.supported k,
        );
      } in
      let (r', e', g) = set_methods-Replaced n next targets ms nonempty inside next_table in
      (
        r',
        rw (filled, e) e',
        record {
          table = g.table;
          routes = λ k. ground (arith, t, g.routes k, find-put r.method_map m info k, eq_iff m k);
          default_info = g.default_info;
        },
      )
    where
      filled : (length targets == 0) ≡ false
      filled = ground arith

  module _ (r : Router F) (h : IsBuilt fl r) where
    batch-Replaced :
        (x : SolanaNode) (nodes : List SolanaNode) (ms : List String)
        → (r' : Router F) × (process_batch_nodes fl r (x ∷ nodes) ms
            ≡ ok (r', indices_from fl (length r.heap) (x ∷ nodes)))
          × Replaced
              (length r.heap + length (x ∷ nodes))
              (indices_from fl (length r.heap) (x ∷ nodes))
              ms
              r
              r'
    unfolding process_batch_nodes
    batch-Replaced x nodes ms =
        let n = length r.heap in
        let g = add_nodes-Grown n (n + length (x ∷ nodes)) r (x ∷ nodes) refl h in
        let (r', e, p) =
          set_methods-Replaced (n + length (x ∷ nodes)) (add_nodes fl r (x ∷ nodes))
            (indices_from fl n (x ∷ nodes)) ms (omega arith)
            (indices_from-below fl ieee n (n + length (x ∷ nodes)) (x ∷ nodes) (omega arith))
            g.table in
        (
          r',
          rw e,
          record {
            table = p.table;
            routes = λ k.
                p.routes k
                ∙ ap
                    (λ m.
                      if mem_str k ms
                      then some (indices_from fl n (x ∷ nodes))
                      else targets_of (find m k))
                    g.method_map;
            default_info = p.default_info ∙ g.default_info;
          },
        )

  IsBuilt-of : (n : ℕ) (r : Router F) → IsTable fl (IsServable fl) n r → IsBuilt fl r
  IsBuilt-of n r h = subst (λ k. IsTable fl (IsServable fl) k r) (sym h.size) h

  -- What a stage of the legacy configuration does to the routes, the default route and the heap.
  pub record Stage (count : ℕ) (route : String → Option (List ℕ)) (fallback : Option (List ℕ))
      (r' : Router F) : Type 0 where
    pub built : IsBuilt fl r'
    pub size : length r'.heap ≡ count
    pub routes : (k : String) → targets_of (find r'.method_map k) ≡ route k
    pub default_info : targets_of r'.default_target_info ≡ fallback

  pub process_das-Stage :
      (r : Router F) (nodes : List SolanaNode)
      → IsBuilt fl r
      → (r' : Router F) × (process_das fl r nodes ≡ ok r')
        × Stage
            (length r.heap + length nodes)
            (λ k. das_route fl (length r.heap) nodes k (targets_of (find r.method_map k)))
            (targets_of r.default_target_info)
            r'
  unfolding process_das
  process_das-Stage r [] h =
      (r, refl, record { built = h; size = omega arith; routes = λ k. refl; default_info = refl })
  process_das-Stage r (x ∷ nodes) h =
      let (r', e, p) = batch-Replaced r h x nodes (cnft_methods fl) in
      (
        r',
        rw e,
        record {
          built = IsBuilt-of _ r' p.table;
          size = p.table.size;
          routes = p.routes;
          default_info = ap targets_of p.default_info;
        },
      )

  pub process_ws-Stage :
      (r : Router F) (nodes : List SolanaNode)
      → IsBuilt fl r
      → (r' : Router F) × (process_ws fl r nodes ≡ ok r')
        × Stage
            (length r.heap + length nodes)
            (λ k. targets_of (find r.method_map k))
            (targets_of r.default_target_info)
            r'
  unfolding process_ws
  process_ws-Stage r [] h =
      (r, refl, record { built = h; size = omega arith; routes = λ k. refl; default_info = refl })
  process_ws-Stage r (x ∷ nodes) h =
      let n = length r.heap in
      let (r', e, p) = batch-Replaced r h x nodes [] in
      let (info, f, s, t) =
        batch_info-IsServable fl ieee for_web_socket (n + length (x ∷ nodes))
          (indices_from fl n (x ∷ nodes)) (omega arith)
          (indices_from-below fl ieee n (n + length (x ∷ nodes)) (x ∷ nodes) (omega arith)) in
      (
        record r' { ws_target_info = some info },
        rw (e, f),
        record {
          built =
              IsBuilt-of (n + length (x ∷ nodes)) (record r' { ws_target_info = some info })
                (record {
                  size = p.table.size;
                  methods = p.table.methods;
                  default_info = p.table.default_info;
                  ws_info = s;
                  supported = p.table.supported;
                });
          size = p.table.size;
          routes = p.routes;
          default_info = ap targets_of p.default_info;
        },
      )

  pub process_basic-Stage :
      (r : Router F) (nodes : List SolanaNode)
      → IsBuilt fl r
      → (r' : Router F) × (process_basic fl r nodes ≡ ok r')
        × Stage
            (length r.heap + length nodes)
            (λ k. targets_of (find r.method_map k))
            (basic_route fl (length r.heap) nodes (targets_of r.default_target_info))
            r'
  unfolding process_basic
  process_basic-Stage r [] h =
      (r, refl, record { built = h; size = omega arith; routes = λ k. refl; default_info = refl })
  process_basic-Stage r (x ∷ nodes) h =
      let n = length r.heap in
      let (r', e, p) = batch-Replaced r h x nodes [] in
      let (info, f, s, t) =
        batch_info-IsServable fl ieee for_default (n + length (x ∷ nodes))
          (indices_from fl n (x ∷ nodes)) (omega arith)
          (indices_from-below fl ieee n (n + length (x ∷ nodes)) (x ∷ nodes) (omega arith)) in
      (
        record r' { default_target_info = some info },
        rw (e, f),
        record {
          built =
              IsBuilt-of (n + length (x ∷ nodes)) (record r' { default_target_info = some info })
                (record {
                  size = p.table.size;
                  methods = p.table.methods;
                  default_info = s;
                  ws_info = p.table.ws_info;
                  supported = p.table.supported;
                });
          size = p.table.size;
          routes = p.routes;
          default_info = ap some t;
        },
      )
