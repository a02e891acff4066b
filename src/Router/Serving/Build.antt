-- ===== src/Router/Serving/Build.antt =====
-- Building the balancers of a table, and of a batch of nodes.
use aura_proxy.Common.{
  ℕ, suc, ◌+◌, ◌≤◌, ◌<◌, ◌≡◌, refl, ap, sym, ◌∙◌, String, false, List, [], ◌∷◌, map, Option, none,
  some, arith, Map, find, AllValues, length, length-map, All, All-map, is_some, ok, ◌==◌,
}
use aura_proxy.Common.Float.{Float64, IsIeee}
use aura_proxy.Balancer.Weighted.{NewError}
use aura_proxy.Balancer.Weighted.Build.{IsPositive, balancer_of, new_probabilistic_balancer_total}
use aura_proxy.Config.{SolanaNode}
use aura_proxy.Router.Tables.{
  TargetInfo, Router, RouterError, for_method, for_web_socket, for_default, indices_from,
  default_endpoint_weight,
}
use aura_proxy.Router.{build_info, build_methods, build_option, build_balancers, batch_info}
use aura_proxy.Router.Shape.{OptionAll, IsFilled, IsServable, IsCollected, IsBuilt, targets_of}

module _ {F : Type 0} (fl : Float64 F) (ieee : IsIeee fl) where
  build_info-IsServable :
      (f : NewError → RouterError) (n : ℕ) (info : TargetInfo F)
      → IsFilled fl n info
      → (built : TargetInfo F) × (build_info fl f info ≡ ok built)
        × IsServable fl n built
        × (built.targets ≡ info.targets)
  unfolding build_info
  build_info-IsServable f n info h =
      let (made, wf) =
        new_probabilistic_balancer_total fl info.targets info.weights ieee h.same h.nonempty
          h.positive in
      (
        record info { balancer = some (balancer_of fl info.targets info.weights) },
        rw (filled, made),
        record {
          built_balancer = balancer_of fl info.targets info.weights;
          built = refl;
          targets = refl;
          well_formed = wf;
          inside = h.inside;
        },
        refl,
      )
    where
      filled : (length info.targets == 0) ≡ false
      filled = let p = h.nonempty in ground arith

  build_methods-IsServable :
      (n : ℕ) (m : Map (TargetInfo F))
      → AllValues (IsFilled fl n) m
      → (built : Map (TargetInfo F)) × (build_methods fl m ≡ ok built)
        × AllValues (IsServable fl n) built
        × ((k : String) → targets_of (find built k) ≡ targets_of (find m k))
  unfolding build_methods find
  build_methods-IsServable n [] h = ([], refl, tt, λ k. refl)
  build_methods-IsServable n ((j, info) ∷ m) h =
      let (b, e, s, t) = build_info-IsServable (for_method j) n info h.0 in
      let (bs, es, ss, ts) = build_methods-IsServable n m h.1 in
      ((j, b) ∷ bs, rw (e, es), (s, ss), λ k. ground (arith, t, ts k))

  build_option-IsServable :
      (f : NewError → RouterError) (n : ℕ) (o : Option (TargetInfo F))
      → OptionAll (IsFilled fl n) o
      → (built : Option (TargetInfo F)) × (build_option fl f o ≡ ok built)
        × OptionAll (IsServable fl n) built
        × (targets_of built ≡ targets_of o)
  unfolding build_option
  build_option-IsServable f n none h = (none, refl, tt, refl)
  build_option-IsServable f n (some info) h =
      let (b, e, s, t) = build_info-IsServable f n info h in (some b, rw e, s, ap some t)

  is_some-targets_of : (o : Option (TargetInfo F)) → is_some (targets_of o) ≡ is_some o
  is_some-targets_of none = refl
  is_some-targets_of (some info) = refl

  pub build_balancers-IsBuilt :
      (r : Router F)
      → IsCollected fl r
      → (r' : Router F) × (build_balancers fl r ≡ ok r')
        × IsBuilt fl r'
        × ((k : String) → targets_of (find r'.method_map k) ≡ targets_of (find r.method_map k))
        × (targets_of r'.default_target_info ≡ targets_of r.default_target_info)
        × (length r'.heap ≡ length r.heap)
  unfolding build_balancers
  build_balancers-IsBuilt r h =
      let (ms, me, mh, mt) = build_methods-IsServable (length r.heap) r.method_map h.methods in
      let (ws, we, wh, wt) =
        build_option-IsServable for_web_socket (length r.heap) r.ws_target_info h.ws_info in
      let (ds, de, dh, dt) =
        build_option-IsServable for_default (length r.heap) r.default_target_info h.default_info in
      (
        record r { method_map = ms; ws_target_info = ws; default_target_info = ds },
        rw (me, we, de),
        record {
          size = refl;
          methods = mh;
          default_info = dh;
          ws_info = wh;
          supported = λ m s.
              sym (is_some-targets_of (find ms m))
              ∙ ap is_some (mt m)
              ∙ is_some-targets_of (find r.method_map m)
              ∙ h.supported m s;
        },
        mt,
        dt,
        refl,
      )

  pub IsServable-mono :
      (n k : ℕ) (info : TargetInfo F) → n ≤ k → IsServable fl n info → IsServable fl k info
  IsServable-mono n k info le h = record {
    built_balancer = h.built_balancer;
    built = h.built;
    targets = h.targets;
    well_formed = h.well_formed;
    inside = All-map _ _ info.targets (λ t b. omega arith) h.inside;
  }

  ones-IsPositive : (ts : List ℕ) → All (IsPositive fl) (map (λ t. default_endpoint_weight fl) ts)
  ones-IsPositive [] = tt
  ones-IsPositive (t ∷ ts) = (ieee.one_pos, ones-IsPositive ts)

  pub batch_info-IsServable :
      (f : NewError → RouterError) (n : ℕ) (targets : List ℕ)
      → 0 < length targets
      → All (λ t. t < n) targets
      → (info : TargetInfo F) × (batch_info fl f targets ≡ ok info)
        × IsServable fl n info
        × (info.targets ≡ targets)
  unfolding batch_info
  batch_info-IsServable f n targets nonempty inside =
      let weights = map (λ t. default_endpoint_weight fl) targets in
      let (made, wf) =
        new_probabilistic_balancer_total fl targets weights ieee (sym (length-map targets _))
          nonempty (ones-IsPositive targets) in
      (
        record {
          targets = targets;
          weights = weights;
          balancer = some (balancer_of fl targets weights);
        },
        rw made,
        record {
          built_balancer = balancer_of fl targets weights;
          built = refl;
          targets = refl;
          well_formed = wf;
          inside = inside;
        },
        refl,
      )

  pub indices_from-below :
      (first n : ℕ) (nodes : List SolanaNode)
      → first + length nodes ≤ n
      → All (λ t. t < n) (indices_from fl first nodes)
  indices_from-below first n [] h = tt
  indices_from-below first n (x ∷ nodes) h =
      (omega arith, indices_from-below (suc first) n nodes (omega arith))

  pub length-indices_from :
      (first : ℕ) (nodes : List SolanaNode) → length (indices_from fl first nodes) ≡ length nodes
  length-indices_from first [] = refl
  length-indices_from first (x ∷ nodes) = ap suc (length-indices_from (suc first) nodes)
