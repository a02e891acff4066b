-- ===== src/Transport/Retries/Step.antt =====
-- One attempt of the loop, and what holds between attempts.
use aura_proxy.Common.{
  ℕ, suc, ◌+◌, ◌≤◌, ◌<◌, ◌≡◌, ◌≢◌, refl, sym, ◌∙◌, String, str_eq, Bool, true, false, not, ◌&&◌,
  ◌||◌, List, [], ◌∷◌, ◌++◌, Option, none, some, arith, length, length-modify, length-append,
  get_elem?, All, All-append, is_some, Bool-cases, inl, inr, ◌==◌,
}
use aura_proxy.Common.Int.{ℤ}
use aura_proxy.Common.Float.{Float64}
use aura_proxy.Balancer.Weighted.{
  ProbabilisticBalancer, failed, NextError, no_targets, no_target_selected, all_excluded,
}
use aura_proxy.Balancer.Weighted.Sorting.{mem_int, Distinct}
use aura_proxy.Balancer.Weighted.Choice.{Justified}
use aura_proxy.Target.{ProxyTarget}
use aura_proxy.Router.{update_target_stats}
use aura_proxy.Context.{CustomContext, set_provider}
use aura_proxy.Common.Text.{is_empty}
use aura_proxy.Analysis.{JsonParser}
use aura_proxy.Transport.Answers.{RequestError, World, process_response, no_target, ContextError}
use aura_proxy.Transport.{
  State, Sent, Loop, Round, done, again, update_metrics_and_stats, attempt, failure_of,
  handle_empty_response,
}

-- The indices of the targets tried.
abbrev pub indices : List (ℕ × ℕ) → List ℕ
indices [] = []
indices ((i, ref) ∷ tried) = i ∷ indices tried

mem_int-indices-append :
    (tried : List (ℕ × ℕ)) (j index ref : ℕ)
    → mem_int j (indices (tried ++ (index, ref) ∷ [])) ≡ (mem_int j (indices tried) || index == j)
mem_int-indices-append [] j index ref = ground arith
mem_int-indices-append ((i, r) ∷ tried) j index ref =
    ground (arith, mem_int-indices-append tried j index ref)

Distinct-indices-append :
    (tried : List (ℕ × ℕ)) (index ref : ℕ)
    → Distinct (indices tried)
    → mem_int index (indices tried) ≡ false
    → Distinct (indices (tried ++ (index, ref) ∷ []))
Distinct-indices-append [] index ref d m = (refl, tt)
Distinct-indices-append ((i, r) ∷ tried) index ref d m = (
  ground (arith, mem_int-indices-append tried i index ref),
  Distinct-indices-append tried index ref d.1 (ground arith),
)

mem_int-append : (xs : List ℕ) (j x : ℕ) → mem_int j (xs ++ x ∷ []) ≡ (mem_int j xs || x == j)
mem_int-append [] j x = ground arith
mem_int-append (y ∷ xs) j x = ground (arith, mem_int-append xs j x)

Distinct-append :
    (xs : List ℕ) (x : ℕ) → Distinct xs → mem_int x xs ≡ false → Distinct (xs ++ x ∷ [])
Distinct-append [] x d m = (refl, tt)
Distinct-append (y ∷ xs) x d m =
    (ground (arith, mem_int-append xs y x), Distinct-append xs x d.1 (ground arith))

pub no_target-failure_of :
    (f : Option RequestError) → failure_of f ≡ some (no_target all_excluded) → ⊥
no_target-failure_of none e = cc
no_target-failure_of (some r) e = cc

pub no_target-handle_empty_response :
    {U S : Type 0} (c : CustomContext U S) (e : Option ContextError) (t : Option ℕ)
    → some (handle_empty_response c e t).1 ≢ some (no_target all_excluded)
unfolding handle_empty_response
no_target-handle_empty_response c (some e) t q = cc
no_target-handle_empty_response c none none q = cc
no_target-handle_empty_response c none (some t) q = cc

-- Every try was of the target that stands at its index in the balancer.
abbrev pub IsListed : {F : Type 0} → ProbabilisticBalancer F ℕ → ℕ × ℕ → Type 0
IsListed b (i, ref) = get_elem? b.targets i ≡ some ref

module _ {F U S : Type 0} (b : ProbabilisticBalancer F ℕ) where
  -- A result after at most `most` attempts: each attempt is a try, no index is tried twice, and the
  -- error that every target is excluded means that each was tried.
  pub record IsHonest (most : ℕ) (r : Sent F U S) : Type 0 where
    pub counted : r.attempts ≡ length r.tried
    pub bounded : r.attempts ≤ most
    pub distinct : Distinct (indices r.tried)
    pub listed : All (IsListed b) r.tried
    pub exhausted :
        r.failure ≡ some (no_target all_excluded)
        → (j : ℕ) → j < length b.targets
        → mem_int j (indices r.tried) ≡ true

  -- The loop before attempt i, over a heap of n targets.
  pub record IsLive (n i : ℕ) (l : Loop F U S) : Type 0 where
    pub size : length l.state.router.heap ≡ n
    pub counted : i ≡ length l.tried
    pub distinct : Distinct (indices l.tried)
    pub listed : All (IsListed b) l.tried
    pub slice : Distinct l.excluded
    pub excludes : (j : ℕ) → mem_int j l.excluded ≡ mem_int j (indices l.tried)

  -- What a round may lead to.
  abbrev pub IsStep : ℕ → ℕ → Round F U S → Type 0
  IsStep n i (done r) = IsHonest (suc i) r
  IsStep n i (again l) = IsLive n (suc i) l

module _ {F U S : Type 0} (fl : Float64 F) (json : JsonParser) (w : World F) where
  length-update_metrics_and_stats :
      (i : ℕ) (s : State F U S) (ref : ℕ) (target : ProxyTarget) (methods : List String)
      (should_retry is_healthy : Bool) (slot : ℤ)
      → length
          (update_metrics_and_stats w i s ref target methods should_retry is_healthy
            slot).router.heap
        ≡ length s.router.heap
  unfolding update_metrics_and_stats update_target_stats
  length-update_metrics_and_stats i s ref target methods should_retry is_healthy slot =
      elim (Bool-cases (str_eq target.provider "")) [
        | inl e ↦ rw e (length-modify _ s.router.heap ref)
        | inr e ↦ rw e (length-modify _ s.router.heap ref)
      ]

  module _ (methods : List String) (das : Bool) (b : ProbabilisticBalancer F ℕ) (n : ℕ) where
    -- One more try, of an index that was not excluded.
    pub record IsNew (i : ℕ) (l : Loop F U S) (index ref : ℕ) (excluded : List ℕ) : Type 0 where
      pub live : IsLive b n i l
      pub found : get_elem? b.targets index ≡ some ref
      pub free : mem_int index l.excluded ≡ false
      pub slice : Distinct excluded
      pub same : (j : ℕ) → mem_int j excluded ≡ mem_int j l.excluded

    module _ (i : ℕ) (l : Loop F U S) (index ref : ℕ) (excluded : List ℕ)
        (h : IsNew i l index ref excluded) where
      new-Distinct : Distinct (indices (l.tried ++ (index, ref) ∷ []))
      new-Distinct =
          Distinct-indices-append l.tried index ref h.live.distinct
            (sym (h.live.excludes index) ∙ h.free)

      new-IsListed : All (IsListed b) (l.tried ++ (index, ref) ∷ [])
      new-IsListed = All-append (IsListed b) l.tried ((index, ref) ∷ []) h.live.listed (h.found, tt)

      new_counted : i + 1 ≡ length (l.tried ++ (index, ref) ∷ [])
      new_counted = omega (arith, h.live.counted, length-append l.tried ((index, ref) ∷ []))

      sent-IsHonest :
          (s : State F U S) (body : List ℕ) (status : ℕ) (failure : Option RequestError)
          → IsHonest b (suc i) (record {
            state = s;
            body = body;
            status = status;
            attempts = i + 1;
            failure = failure_of failure;
            tried = l.tried ++ (index, ref) ∷ [];
          })
      sent-IsHonest s body status failure = record {
        counted = new_counted;
        bounded = omega arith;
        distinct = new-Distinct;
        listed = new-IsListed;
        exhausted = λ e. absurd (no_target-failure_of failure e);
      }

      next-IsLive :
          (s : State F U S) (body : List ℕ) (status : ℕ) (failure : Option RequestError)
          → length s.router.heap ≡ n
          → IsLive b n (suc i) (record {
            state = s;
            body = body;
            status = status;
            last_failure = failure;
            target = some ref;
            excluded = excluded ++ index ∷ [];
            tried = l.tried ++ (index, ref) ∷ [];
          })
      next-IsLive s body status failure e = record {
        size = e;
        counted = omega (arith, new_counted);
        distinct = new-Distinct;
        listed = new-IsListed;
        slice = Distinct-append excluded index h.slice (h.same index ∙ h.free);
        excludes = λ j. ground (
          arith,
          mem_int-append excluded j index,
          mem_int-indices-append l.tried j index ref,
          h.same j,
          h.live.excludes j,
        );
      }

      pub attempt-IsStep :
          (target : ProxyTarget)
          → IsStep b n i (attempt fl json w methods das b i l index ref target excluded)
      unfolding attempt
      attempt-IsStep target =
          let reply = w.do_request i target.url in
          let s = record (l.state) { context = set_provider (l.state.context) target.provider } in
          let v = process_response json (s.context) (w.after i) reply.body reply.failure in
          elim (Bool-cases (das && not (is_some reply.failure) && not (is_empty reply.body))) [
            | inl fast ↦ rw fast (sent-IsHonest _ reply.body reply.status none)
            | inr slow ↦ rw slow (elim (Bool-cases (not v.should_retry)) [
              | inl ok ↦ rw ok (sent-IsHonest _ reply.body reply.status reply.failure)
              | inr bad ↦ rw bad (
                  next-IsLive _ reply.body reply.status reply.failure (
                    length-update_metrics_and_stats i (record s { context = v.context }) ref target
                      methods v.should_retry v.is_healthy v.first_slot
                    ∙ h.live.size))
            ])
          ]

    pub bound-IsHonest : (i j : ℕ) (r : Sent F U S) → i ≤ j → IsHonest b i r → IsHonest b j r
    bound-IsHonest i j r h q = record {
      counted = q.counted;
      bounded = omega (arith, q.bounded);
      distinct = q.distinct;
      listed = q.listed;
      exhausted = q.exhausted;
    }

    pub all_tried :
        (i : ℕ) (l : Loop F U S) (e : NextError)
        → IsLive b n i l
        → Justified fl b (w.draw i) l.excluded (failed e)
        → some (no_target e) ≡ some (no_target all_excluded)
        → (j : ℕ) → j < length b.targets
        → mem_int j (indices l.tried) ≡ true
    all_tried i l no_targets h q e j below = cc
    all_tried i l no_target_selected h q e j below = cc
    all_tried i l all_excluded h q e j below = sym (h.excludes j) ∙ q.1 j below
