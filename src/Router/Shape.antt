-- ===== src/Router/Shape.antt =====
-- Invariants of the routing table: while the endpoints are collected, and once the balancers are
-- built.
use aura_proxy.Common.{
  ℕ, ◌+◌, ◌<◌, ◌≡◌, refl, sym, subst, String, Bool, true, false, List, [], ◌∷◌, ◌++◌, Option, none,
  some, arith, if◌then◌else◌, Map, find, find-put, AllValues, AllValues-put, AllValues-find, length,
  length-append, All, All-append, All-map, mem_str, is_some, Bool-cases, inl, inr,
}
use aura_proxy.Common.Float.{Float64, IsIeee}
use aura_proxy.Balancer.Weighted.{ProbabilisticBalancer}
use aura_proxy.Balancer.Weighted.Build.{IsPositive}
use aura_proxy.Balancer.Weighted.Choice.{IsWellFormed}
use aura_proxy.Config.{EndpointConfig, ProviderConfig, SolanaNode}
use aura_proxy.Router.Tables.{
  TargetInfo, Router, add_to, weight_of, add_method, endpoint_target, add_methods, process_endpoint,
  process_endpoints, process_provider, collect, expanded_methods, indices_from,
}
use aura_proxy.Router.{cnft_methods}

abbrev pub OptionAll {ℓ} : {A : Type ℓ} → (A → Type 0) → Option A → Type 0
OptionAll P none = Unit
OptionAll P (some a) = P a

abbrev pub targets_of : {F : Type 0} → Option (TargetInfo F) → Option (List ℕ)
targets_of none = none
targets_of (some info) = some info.targets

abbrev pub not_nil : List SolanaNode → Bool
not_nil [] = false
not_nil (x ∷ xs) = true

module _ {F : Type 0} (fl : Float64 F) where
  -- Targets were added, each with a positive weight, and all are below n.
  pub record IsFilled (n : ℕ) (info : TargetInfo F) : Type 0 where
    pub nonempty : 0 < length info.targets
    pub same : length info.targets ≡ length info.weights
    pub positive : All (IsPositive fl) info.weights
    pub inside : All (λ t. t < n) info.targets

  -- There is a balancer over exactly these targets.
  pub record IsServable (n : ℕ) (info : TargetInfo F) : Type 0 where
    pub built_balancer : ProbabilisticBalancer F ℕ
    pub built : info.balancer ≡ some built_balancer
    pub targets : built_balancer.targets ≡ info.targets
    pub well_formed : IsWellFormed built_balancer
    pub inside : All (λ t. t < n) info.targets

  -- The table over a heap of n targets, with every info as P asks: a method that is marked as
  -- supported has an info.
  pub record IsTable (P : ℕ → TargetInfo F → Type 0) (n : ℕ) (r : Router F) : Type 0 where
    pub size : length r.heap ≡ n
    pub methods : AllValues (P n) r.method_map
    pub default_info : OptionAll (P n) r.default_target_info
    pub ws_info : OptionAll (P n) r.ws_target_info
    pub supported :
        (m : String)
        → is_some (find r.supported_methods m) ≡ true
        → is_some (find r.method_map m) ≡ true

  IsFilled-mono : (n : ℕ) (info : TargetInfo F) → IsFilled n info → IsFilled (n + 1) info
  IsFilled-mono n info h = record {
    nonempty = h.nonempty;
    same = h.same;
    positive = h.positive;
    inside = All-map _ _ info.targets (λ t b. omega arith) h.inside;
  }

  pub AllValues-mono :
      (P Q : TargetInfo F → Type 0)
      → ((info : TargetInfo F) → P info → Q info)
      → (m : Map (TargetInfo F)) → AllValues P m
      → AllValues Q m
  AllValues-mono P Q f [] h = tt
  AllValues-mono P Q f ((k, info) ∷ m) h = (f info h.0, AllValues-mono P Q f m h.1)

  pub OptionAll-mono :
      (P Q : TargetInfo F → Type 0)
      → ((info : TargetInfo F) → P info → Q info)
      → (o : Option (TargetInfo F)) → OptionAll P o
      → OptionAll Q o
  OptionAll-mono P Q f none h = tt
  OptionAll-mono P Q f (some info) h = f info h

  pub AllValues-lookup :
      (P : TargetInfo F → Type 0) (m : Map (TargetInfo F)) (k : String)
      → AllValues P m
      → OptionAll P (find m k)
  AllValues-lookup P m k h = found (find m k) refl
    where
      found : (o : Option (TargetInfo F)) → find m k ≡ o → OptionAll P o
      found none e = tt
      found (some info) e = AllValues-find P m k info h e

  weight_of-IsPositive : IsIeee fl → (e : EndpointConfig F) → IsPositive fl (weight_of fl e)
  unfolding weight_of
  weight_of-IsPositive ieee e = elim (Bool-cases (fl.f_le e.weight fl.f_zero)) [
    | inl q ↦ rw q ieee.one_pos
    | inr q ↦ rw q q
  ]

  module _ (n target : ℕ) (weight : F) (below : target < n) (pos : IsPositive fl weight) where
    add_to-IsFilled :
        (o : Option (TargetInfo F)) → OptionAll (IsFilled n) o → IsFilled n (add_to o target weight)
    unfolding add_to
    add_to-IsFilled none h = record {
      nonempty = omega arith;
      same = refl;
      positive = (pos, tt);
      inside = (below, tt);
    }
    add_to-IsFilled (some info) h = record {
      nonempty = omega (arith, length-append info.targets (target ∷ []));
      same = omega (
        arith,
        h.same,
        length-append info.targets (target ∷ []),
        length-append info.weights (weight ∷ []),
      );
      positive = All-append (IsPositive fl) info.weights (weight ∷ []) h.positive (pos, tt);
      inside = All-append (λ t. t < n) info.targets (target ∷ []) h.inside (below, tt);
    }

    add_method-IsTable :
        (excluded : List String) (r : Router F) (m : String)
        → IsTable IsFilled n r
        → IsTable IsFilled n (add_method fl excluded target weight r m)
    unfolding add_method
    add_method-IsTable excluded r m h = elim (Bool-cases (mem_str m excluded)) [
      | inl e ↦ rw e h
      | inr e ↦ rw e (record {
        size = h.size;
        methods = AllValues-put (IsFilled n) r.method_map m _ h.methods (
            add_to-IsFilled (find r.method_map m)
              (AllValues-lookup (IsFilled n) r.method_map m h.methods));
        default_info = h.default_info;
        ws_info = h.ws_info;
        supported = λ k s. ground (
          arith,
          find-put r.method_map m (add_to (find r.method_map m) target weight) k,
          find-put r.supported_methods m tt k,
          h.supported k,
        );
      })
    ]

    add_methods-IsTable :
        (excluded : List String) (r : Router F) (ms : List String)
        → IsTable IsFilled n r
        → IsTable IsFilled n (add_methods fl excluded target weight r ms)
    unfolding add_methods
    add_methods-IsTable excluded r [] h = h
    add_methods-IsTable excluded r (m ∷ ms) h =
        add_methods-IsTable excluded (add_method fl excluded target weight r m) ms
          (add_method-IsTable excluded r m h)

    add_option-IsFilled :
        (b : Bool) (o : Option (TargetInfo F))
        → OptionAll (IsFilled n) o
        → OptionAll (IsFilled n) (if b then some (add_to o target weight) else o)
    add_option-IsFilled true o h = add_to-IsFilled o h
    add_option-IsFilled false o h = h

  process_endpoint-IsTable :
      IsIeee fl
      → (provider : String) (r : Router F) (e : EndpointConfig F) (n : ℕ) → IsTable IsFilled n r
      → IsTable IsFilled (n + 1) (process_endpoint fl provider r e)
  unfolding process_endpoint
  process_endpoint-IsTable ieee provider r e n h = record {
    size = t.size;
    methods = t.methods;
    default_info =
        add_option-IsFilled (n + 1) (length r.heap) (weight_of fl e) below positive e.handle_other _
          t.default_info;
    ws_info =
        add_option-IsFilled (n + 1) (length r.heap) (weight_of fl e) below positive
          e.handle_web_socket _ t.ws_info;
    supported = t.supported;
  }
    where
      below : length r.heap < n + 1
      below = omega (arith, h.size)

      positive : IsPositive fl (weight_of fl e)
      positive = weight_of-IsPositive ieee e

      grown : Router F
      grown = record r { heap = r.heap ++ endpoint_target provider e ∷ [] }

      grown-IsTable : IsTable IsFilled (n + 1) grown
      grown-IsTable = record {
        size = omega (arith, length-append r.heap (endpoint_target provider e ∷ []), h.size);
        methods = AllValues-mono _ _ (IsFilled-mono n) r.method_map h.methods;
        default_info = OptionAll-mono _ _ (IsFilled-mono n) r.default_target_info h.default_info;
        ws_info = OptionAll-mono _ _ (IsFilled-mono n) r.ws_target_info h.ws_info;
        supported = h.supported;
      }

      t : IsTable IsFilled (n + 1) (
          add_methods fl e.exclude_methods
            (length r.heap)
            (weight_of fl e)
            grown
            (expanded_methods fl r.method_groups e))
      t =
          add_methods-IsTable (n + 1) (length r.heap) (weight_of fl e) below positive
            e.exclude_methods grown (expanded_methods fl r.method_groups e) grown-IsTable

  -- The table over its own heap.
  abbrev pub IsCollected : Router F → Type 0
  IsCollected r = IsTable IsFilled (length r.heap) r

  IsCollected_of :
      (P : ℕ → TargetInfo F → Type 0) (n : ℕ) (r : Router F)
      → IsTable P n r
      → IsTable P (length r.heap) r
  IsCollected_of P n r h = subst (λ k. IsTable P k r) (sym h.size) h

  process_endpoints-IsCollected :
      IsIeee fl
      → (provider : String) (r : Router F) (es : List (EndpointConfig F)) → IsCollected r
      → IsCollected (process_endpoints fl provider r es)
  unfolding process_endpoints
  process_endpoints-IsCollected ieee provider r [] h = h
  process_endpoints-IsCollected ieee provider r (e ∷ es) h =
      process_endpoints-IsCollected ieee provider (process_endpoint fl provider r e) es
        (IsCollected_of IsFilled _ _ (process_endpoint-IsTable ieee provider r e (length r.heap) h))

  process_provider-IsCollected :
      IsIeee fl
      → (r : Router F) (p : ProviderConfig F) → IsCollected r
      → IsCollected (process_provider fl r p)
  unfolding process_provider
  process_provider-IsCollected ieee r p h =
      let t = process_endpoints-IsCollected ieee p.name r p.endpoints h in
      record {
        size = refl;
        methods = t.methods;
        default_info = t.default_info;
        ws_info = t.ws_info;
        supported = t.supported;
      }

  -- The loops over the providers keep the shape of the table.
  pub collect-IsCollected :
      IsIeee fl
      → (r : Router F) (ps : List (ProviderConfig F)) → IsCollected r
      → IsCollected (collect fl r ps)
  unfolding collect
  collect-IsCollected ieee r [] h = h
  collect-IsCollected ieee r (p ∷ ps) h =
      collect-IsCollected ieee (process_provider fl r p) ps
        (process_provider-IsCollected ieee r p h)

  -- A table in which every info has its balancer.
  abbrev pub IsBuilt : Router F → Type 0
  IsBuilt r = IsTable IsServable (length r.heap) r

  -- The targets of method k after the DAS nodes, which take the indices from `start` on.
  abbrev pub das_route : ℕ → List SolanaNode → String → Option (List ℕ) → Option (List ℕ)
  das_route start [] k before = before
  das_route start (x ∷ nodes) k before =
      if mem_str k (cnft_methods fl) then some (indices_from fl start (x ∷ nodes)) else before

  -- The default targets after the basic nodes, which take the indices from `start` on.
  abbrev pub basic_route : ℕ → List SolanaNode → Option (List ℕ) → Option (List ℕ)
  basic_route start [] before = before
  basic_route start (x ∷ nodes) before = some (indices_from fl start (x ∷ nodes))
