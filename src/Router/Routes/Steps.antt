-- ===== src/Router/Routes/Steps.antt =====
-- Which endpoints a method is listed for, described without the tables, and what each step of the
-- collection adds.
use aura_proxy.Common.{
  ℕ, suc, ◌+◌, ◌≡◌, refl, ap, sym, ◌∙◌, String, Bool, true, false, List, [], ◌∷◌, ◌++◌, append-nil,
  append_assoc, Option, none, some, arith, if◌then◌else◌, Map, find, find-put, length,
  length-append, mem_str, str_eq, eq_iff,
}
use mathlib.Core.Path.{ap₂}
use aura_proxy.Common.Float.{Float64}
use aura_proxy.Config.{EndpointConfig, ProviderConfig}
use aura_proxy.Router.Tables.{
  TargetInfo, Router, add_to, add_method, add_methods, expanded_methods, weight_of, endpoint_target,
  process_endpoint, process_endpoints, process_provider, collect,
}

abbrev pub info_targets : {F : Type 0} → Option (TargetInfo F) → List ℕ
info_targets none = []
info_targets (some info) = info.targets

abbrev pub route_list : Option (List ℕ) → List ℕ
route_list none = []
route_list (some ts) = ts

-- The target once for each time the method is named.
abbrev pub hits : String → ℕ → List String → List ℕ
hits k target [] = []
hits k target (m ∷ ms) = let rest = hits k target ms in if str_eq m k then target ∷ rest else rest

module _ {F : Type 0} (fl : Float64 F) where
  -- What one endpoint adds to the targets of method k.
  abbrev pub hits_of : Map (List String) → String → ℕ → EndpointConfig F → List ℕ
  hits_of groups k target e =
      if mem_str k e.exclude_methods then [] else hits k target (expanded_methods fl groups e)

  -- The endpoints of a list, numbered from `start`, that name method k and do not exclude it.
  abbrev pub listing : Map (List String) → String → ℕ → List (EndpointConfig F) → List ℕ
  listing groups k start [] = []
  listing groups k start (e ∷ es) = hits_of groups k start e ++ listing groups k (suc start) es

  -- Those that handle other methods.
  abbrev pub others : ℕ → List (EndpointConfig F) → List ℕ
  others start [] = []
  others start (e ∷ es) =
      let rest = others (suc start) es in if e.handle_other then start ∷ rest else rest

  -- All endpoints, in the order of the configuration.
  abbrev pub all_endpoints : List (ProviderConfig F) → List (EndpointConfig F)
  all_endpoints [] = []
  all_endpoints (p ∷ ps) = p.endpoints ++ all_endpoints ps

  -- How a step of the construction changes the table.
  pub record Step (added : ℕ) (listed : String → List ℕ) (default_added : List ℕ) (r r' : Router F)
      : Type 0 where
    pub heap : length r'.heap ≡ length r.heap + added
    pub groups : r'.method_groups ≡ r.method_groups
    pub methods :
        (k : String)
        → info_targets (find r'.method_map k) ≡ info_targets (find r.method_map k) ++ listed k
    pub default_info :
        info_targets r'.default_target_info ≡ info_targets r.default_target_info ++ default_added

  targets-add_to :
      (o : Option (TargetInfo F)) (target : ℕ) (w : F)
      → info_targets (some (add_to o target w)) ≡ info_targets o ++ target ∷ []
  unfolding add_to
  targets-add_to none target w = refl
  targets-add_to (some info) target w = refl

  module _ (excluded : List String) (target : ℕ) (w : F) where
    abbrev allowed : String → List String → List ℕ
    allowed k ms = if mem_str k excluded then [] else hits k target ms

    add_method_lists :
        (r : Router F) (m k : String)
        → info_targets (find (add_method fl excluded target w r m).method_map k)
          ≡ info_targets (find r.method_map k) ++ allowed k (m ∷ [])
    unfolding add_method
    add_method_lists r m k = ground (
      arith,
      find-put r.method_map m (add_to (find r.method_map m) target w) k,
      eq_iff m k,
      append-nil (info_targets (find r.method_map k)),
      targets-add_to (find r.method_map m) target w,
    )

    add_method-Step :
        (r : Router F) (m : String)
        → Step 0 (λ k. allowed k (m ∷ [])) [] r (add_method fl excluded target w r m)
    add_method-Step r m = record {
      heap = ap length same.0 ∙ omega arith;
      groups = same.1;
      methods = add_method_lists r m;
      default_info = ap info_targets same.2 ∙ sym (append-nil _);
    }
      where
        same :
            ((add_method fl excluded target w r m).heap ≡ r.heap)
            × ((add_method fl excluded target w r m).method_groups ≡ r.method_groups)
            × ((add_method fl excluded target w r m).default_target_info ≡ r.default_target_info)
        same = unfold add_method in ground arith

  Step-then :
      (a b c : ℕ) (l l' l'' : String → List ℕ) (d d' d'' : List ℕ) (r r' r'' : Router F)
      → a + b ≡ c
      → ((k : String) → l k ++ l' k ≡ l'' k)
      → d ++ d' ≡ d''
      → Step a l d r r'
      → Step b l' d' r' r''
      → Step c l'' d'' r r''
  Step-then a b c l l' l'' d d' d'' r r' r'' n e f s t = record {
    heap = omega (arith, s.heap, t.heap);
    groups = t.groups ∙ s.groups;
    methods = λ k.
        t.methods k
        ∙ ap (λ x. x ++ l' k) (s.methods k)
        ∙ append_assoc (info_targets (find r.method_map k)) (l k) (l' k)
        ∙ ap (λ x. info_targets (find r.method_map k) ++ x) (e k);
    default_info =
        t.default_info
        ∙ ap (λ x. x ++ d') s.default_info
        ∙ append_assoc (info_targets r.default_target_info) d d'
        ∙ ap (λ x. info_targets r.default_target_info ++ x) f;
  }

  Step-none : (r : Router F) → Step 0 (λ k. []) [] r r
  Step-none r = record {
    heap = omega arith;
    groups = refl;
    methods = λ k. sym (append-nil _);
    default_info = sym (append-nil _);
  }

  add_methods-Step :
      (excluded : List String) (target : ℕ) (w : F) (r : Router F) (ms : List String)
      → Step 0 (λ k. allowed excluded target w k ms) [] r (add_methods fl excluded target w r ms)
  unfolding add_methods
  add_methods-Step excluded target w r [] =
      Step-then 0 0 0 (λ k. []) (λ k. []) (λ k. allowed excluded target w k []) [] [] [] r r r
        (omega arith) (λ k. ground arith) refl (Step-none r) (Step-none r)
  add_methods-Step excluded target w r (m ∷ ms) =
      Step-then 0 0 0 (λ k. allowed excluded target w k (m ∷ []))
        (λ k. allowed excluded target w k ms) _ [] [] [] r (add_method fl excluded target w r m) _
        (omega arith) (λ k. ground arith) refl (add_method-Step excluded target w r m)
        (add_methods-Step excluded target w (add_method fl excluded target w r m) ms)

  abbrev other_of : ℕ → EndpointConfig F → List ℕ
  other_of target e = if e.handle_other then target ∷ [] else []

  process_endpoint-Step :
      (provider : String) (r : Router F) (e : EndpointConfig F)
      → Step 1
          (λ k. hits_of r.method_groups k (length r.heap) e)
          (other_of (length r.heap) e)
          r
          (process_endpoint fl provider r e)
  unfolding process_endpoint
  process_endpoint-Step provider r e =
      let s =
        add_methods-Step e.exclude_methods (length r.heap) (weight_of fl e)
          (record r { heap = r.heap ++ endpoint_target provider e ∷ [] })
          (expanded_methods fl r.method_groups e) in
      record {
        heap = omega (arith, s.heap, length-append r.heap (endpoint_target provider e ∷ []));
        groups = s.groups;
        methods = s.methods;
        default_info =
            added e.handle_other r.default_target_info
              ((add_methods fl e.exclude_methods (length r.heap) (weight_of fl e)
                (record r { heap = r.heap ++ endpoint_target provider e ∷ [] })
                (expanded_methods fl r.method_groups e)).default_target_info)
              (s.default_info ∙ append-nil _);
      }
    where
      added :
          (b : Bool) (o o' : Option (TargetInfo F))
          → info_targets o' ≡ info_targets o
          → info_targets (if b then some (add_to o' (length r.heap) (weight_of fl e)) else o')
            ≡ info_targets o ++ (if b then length r.heap ∷ [] else [])
      added true o o' q =
          targets-add_to o' (length r.heap) (weight_of fl e) ∙ ap (λ x. x ++ length r.heap ∷ []) q
      added false o o' q = q ∙ sym (append-nil _)

  process_endpoints-Step :
      (groups : Map (List String)) (start : ℕ) (provider : String) (r : Router F)
      (es : List (EndpointConfig F))
      → length r.heap ≡ start
      → r.method_groups ≡ groups
      → Step
          (length es)
          (λ k. listing groups k start es)
          (others start es)
          r
          (process_endpoints fl provider r es)
  unfolding process_endpoints
  process_endpoints-Step groups start provider r [] h g = Step-none r
  process_endpoints-Step groups start provider r (e ∷ es) h g =
      let s = process_endpoint-Step provider r e in
      Step-then 1 (length es) (suc (length es)) (λ k. hits_of r.method_groups k (length r.heap) e)
        (λ k. listing groups k (suc start) es) _ (other_of (length r.heap) e)
        (others (suc start) es) _ r (process_endpoint fl provider r e) _ (omega arith)
        (λ k. ap₂ (λ gs n. hits_of gs k n e ++ listing groups k (suc start) es) g h)
        (ap (λ n. other_of n e ++ others (suc start) es) h ∙ joined e.handle_other) s
        (process_endpoints-Step groups (suc start) provider (process_endpoint fl provider r e) es
          (omega (arith, s.heap, h)) (s.groups ∙ g))
    where
      joined :
          (b : Bool)
          → (if b then start ∷ [] else []) ++ others (suc start) es
            ≡ (if b then start ∷ others (suc start) es else others (suc start) es)
      joined true = refl
      joined false = refl

  listing-append :
      (groups : Map (List String)) (k : String) (start : ℕ) (es fs : List (EndpointConfig F))
      → listing groups k start es ++ listing groups k (start + length es) fs
        ≡ listing groups k start (es ++ fs)
  listing-append groups k start [] fs = ap (λ n. listing groups k n fs) (omega arith)
  listing-append groups k start (e ∷ es) fs =
      ap
        (λ n.
          (hits_of groups k start e ++ listing groups k (suc start) es) ++ listing groups k n fs)
        (let q : start + suc (length es) ≡ suc start + length es = omega arith in q)
      ∙ append_assoc (hits_of groups k start e) _ _
      ∙ ap (λ x. hits_of groups k start e ++ x) (listing-append groups k (suc start) es fs)

  others-append :
      (start : ℕ) (es fs : List (EndpointConfig F))
      → others start es ++ others (start + length es) fs ≡ others start (es ++ fs)
  others-append start [] fs = ap (λ n. others n fs) (omega arith)
  others-append start (e ∷ es) fs =
      let ih = others-append (suc start) es fs in
      let q : start + suc (length es) ≡ suc start + length es = omega arith in ground (arith, ih, q)

  pub collect-Step :
      (groups : Map (List String)) (start : ℕ) (r : Router F) (ps : List (ProviderConfig F))
      → length r.heap ≡ start
      → r.method_groups ≡ groups
      → Step
          (length (all_endpoints ps))
          (λ k. listing groups k start (all_endpoints ps))
          (others start (all_endpoints ps))
          r
          (collect fl r ps)
  unfolding collect
  collect-Step groups start r [] h g = Step-none r
  collect-Step groups start r (p ∷ ps) h g =
      let s = provider_step in
      Step-then (length p.endpoints) (length (all_endpoints ps)) _
        (λ k. listing groups k start p.endpoints)
        (λ k. listing groups k (start + length p.endpoints) (all_endpoints ps)) _
        (others start p.endpoints) (others (start + length p.endpoints) (all_endpoints ps)) _ r
        (process_provider fl r p) _ (sym (length-append p.endpoints (all_endpoints ps)))
        (λ k. listing-append groups k start p.endpoints (all_endpoints ps))
        (others-append start p.endpoints (all_endpoints ps)) s
        (collect-Step groups (start + length p.endpoints) (process_provider fl r p) ps
          (omega (arith, s.heap, h)) (s.groups ∙ g))
    where
      provider_step :
          Step
            (length p.endpoints)
            (λ k. listing groups k start p.endpoints)
            (others start p.endpoints)
            r
            (process_provider fl r p)
      provider_step =
          unfold process_provider in
          let s = process_endpoints-Step groups start p.name r p.endpoints h g in
          record {
            heap = s.heap;
            groups = s.groups;
            methods = s.methods;
            default_info = s.default_info;
          }
