-- ===== src/Transport/Retries.antt =====
-- The retry loop of executeWithRetries.
mod Step
mod Rounds
use aura_proxy.Common.{
  ℕ, zero, suc, ◌+◌, ◌≤◌, ◌<◌, ◌≡◌, ◌≢◌, refl, sym, ◌∙◌, subst, String, str_eq, Bool, true, false,
  not, ◌&&◌, ◌||◌, List, [], ◌∷◌, ◌++◌, Option, none, some, arith, find, length, length-modify,
  length-append, get_elem?, get_elem?-total, All, All-append, is_some, Bool-cases, Option-cases,
  inl, inr, ◌==◌,
}
use aura_proxy.Common.Int.{ℤ}
use aura_proxy.Common.Float.{Float64}
use aura_proxy.Balancer.Weighted.{
  ProbabilisticBalancer, Pick, picked, failed, out_of_range, NextError, no_targets,
  no_target_selected, all_excluded, get_next, is_available,
}
use aura_proxy.Balancer.Weighted.Sorting.{mem_int, Distinct}
use aura_proxy.Balancer.Weighted.Choice.{
  IsWellFormed, Justified, get_next-Justified, get_next_exclude,
}
use aura_proxy.Chains.Methods.{cnft_method_list}
use aura_proxy.Target.{ProxyTarget}
use aura_proxy.Router.Tables.{Router, TargetInfo}
use aura_proxy.Router.{get_balancer_for_method, balancer_of_info, update_target_stats}
use aura_proxy.Router.Shape.{IsBuilt, IsServable, OptionAll, AllValues-lookup}
use aura_proxy.Context.{CustomContext, set_provider}
use aura_proxy.Common.Text.{is_empty}
use aura_proxy.Analysis.{JsonParser}
use aura_proxy.Transport.Answers.{
  RequestError, World, process_response, SendError, no_methods, no_target, ContextError,
}
use aura_proxy.Transport.{
  State, Sent, Loop, Round, done, again, finish, update_metrics_and_stats, attempt, after_pick,
  round, loop, start, refused, with_balancer, execute_with_retries, failure_of,
  handle_empty_response,
}
use Step.{IsHonest, bound-IsHonest}
use Rounds.{loop-IsHonest}

-- The balancers of a built router are well formed, with all their targets in the heap.
module _ {F : Type 0} (fl : Float64 F) (r : Router F) (h : IsBuilt fl r) where
  abbrev IsSound : Option (ProbabilisticBalancer F ℕ) → Type 0
  IsSound none = Unit
  IsSound (some b) = IsWellFormed b × All (λ t. t < length r.heap) b.targets

  info-IsSound :
      (o : Option (TargetInfo F))
      → OptionAll (IsServable fl (length r.heap)) o
      → IsSound (balancer_of_info fl o)
  info-IsSound none q = tt
  info-IsSound (some info) q = rw q.built (q.well_formed, rw q.targets q.inside)

  get_balancer_for_method-IsSound : (m : String) → IsSound (get_balancer_for_method fl r m)
  unfolding get_balancer_for_method
  get_balancer_for_method-IsSound m = go (balancer_of_info fl (find r.method_map m)) (
      info-IsSound (find r.method_map m)
        (AllValues-lookup fl (IsServable fl (length r.heap)) r.method_map m h.methods))
    where
      go :
          (o : Option (ProbabilisticBalancer F ℕ))
          → IsSound o
          → IsSound (elim o [ some b ↦ some b | none ↦ balancer_of_info fl r.default_target_info ])
      go none q = info-IsSound r.default_target_info h.default_info
      go (some b) q = q

module _ {F U S : Type 0} (fl : Float64 F) (json : JsonParser) (w : World F) (most : ℕ)
    (s : State F U S) where
  -- What executeWithRetries ends in: a refusal before any attempt, or an honest result over the
  -- balancer of the first method.
  abbrev pub IsExecuted : Option (ProbabilisticBalancer F ℕ) → Sent F U S → Type 0
  IsExecuted none r = (r.attempts ≡ 0) × (r.tried ≡ []) × (is_some r.failure ≡ true)
  IsExecuted (some b) r = IsHonest b most r

  abbrev pub balancer_for : List String → Option (ProbabilisticBalancer F ℕ)
  balancer_for [] = none
  balancer_for (m ∷ ms) = get_balancer_for_method fl s.router m

  -- For a router as the constructor builds it, executeWithRetries returns: it neither panics nor
  -- meets a pointer that is not in the heap. With a balancer for the first method it makes at most
  -- maxAttempts attempts, each of them on the target that stands at its index, and no index twice; it
  -- reports that all targets are excluded only if it tried every one. Without a balancer it makes no
  -- attempt and fails.
  pub execute_with_retries_total :
      IsBuilt fl s.router
      → (r : Sent F U S) × (execute_with_retries fl json w most s ≡ some r)
        × IsExecuted (balancer_for s.context.req_methods) r
  unfolding execute_with_retries
  execute_with_retries_total h = go s.context.req_methods
    where
      with :
          (m : String) (ms : List String) (o : Option (ProbabilisticBalancer F ℕ))
          → IsSound fl s.router h o
          → (r : Sent F U S) × (with_balancer fl json w most s m (m ∷ ms) o ≡ some r)
            × IsExecuted o r
      with m ms none q = (_, refl, (refl, refl, refl))
      with m ms (some b) q = elim (Bool-cases (not (is_available fl b))) [
        | inl closed ↦ rw closed (
          _,
          refl,
          record {
            counted = refl;
            bounded = omega arith;
            distinct = tt;
            listed = tt;
            exhausted = λ e. cc;
          },
        )
        | inr open_for ↦ rw open_for (
            let (r, e, honest) =
              loop-IsHonest fl json w (m ∷ ms) (is_some (find cnft_method_list m)) b
                (length s.router.heap) q.0 q.1 most 0 (start s)
                (record {
                  size = refl;
                  counted = refl;
                  distinct = tt;
                  listed = tt;
                  slice = tt;
                  excludes = λ j. refl;
                }) in
            (
              r,
              e,
              bound-IsHonest fl json w (m ∷ ms) false b (length s.router.heap) (0 + most) most r
                  (omega arith) honest,
            ))
      ]

      go :
          (ms : List String)
          → (r : Sent F U S) × (elim ms [
            | [] ↦ some (refused s 400 no_methods)
            | m ∷ ms ↦
                with_balancer fl json w most s m (m ∷ ms) (get_balancer_for_method fl s.router m)
          ]
              ≡ some r)
            × IsExecuted (balancer_for ms) r
      go [] = (_, refl, (refl, refl, refl))
      go (m ∷ ms) = with m ms _ (get_balancer_for_method-IsSound fl s.router h m)
