-- ===== src/Transport/Retries/Rounds.antt =====
-- The loop over the attempts.
use aura_proxy.Common.{
  ℕ, zero, suc, ◌+◌, ◌<◌, ◌≡◌, refl, ◌∙◌, String, Bool, true, not, ◌&&◌, List, Option, none, some,
  arith, length, get_elem?-total, All, All-get_elem?, is_some, Bool-cases, Option-cases, inl, inr,
}
use aura_proxy.Common.Float.{Float64}
use aura_proxy.Balancer.Weighted.{
  ProbabilisticBalancer, Pick, picked, failed, out_of_range, all_excluded, get_next,
}
use aura_proxy.Balancer.Weighted.Sorting.{mem_int, Distinct}
use aura_proxy.Balancer.Weighted.Choice.{
  IsWellFormed, Justified, get_next-Justified, get_next_exclude,
}
use aura_proxy.Common.Text.{is_empty}
use aura_proxy.Analysis.{JsonParser}
use aura_proxy.Transport.Answers.{World, SendError, no_target}
use aura_proxy.Transport.{
  Sent, Loop, Round, done, again, finish, attempt, after_pick, round, loop, failure_of,
}
use aura_proxy.Transport.Retries.Step.{
  indices, IsHonest, IsLive, IsStep, attempt-IsStep, bound-IsHonest, all_tried,
  no_target-failure_of, no_target-handle_empty_response,
}

-- What GetNext returns keeps the loop going or ends it, on a router whose targets are in the heap.
module _ {F U S : Type 0} (fl : Float64 F) (json : JsonParser) (w : World F) (methods : List String)
    (das : Bool) (b : ProbabilisticBalancer F ℕ) (n : ℕ) (wf : IsWellFormed b)
    (inside : All (λ t. t < n) b.targets) where
  finish-IsHonest :
      (i : ℕ) (l : Loop F U S) (failure : Option SendError)
      → IsLive b n i l
      → (failure ≡ some (no_target all_excluded)
          → (j : ℕ) → j < length b.targets
          → mem_int j (indices l.tried) ≡ true)
      → IsHonest b i (finish fl json w methods das b i l failure)
  unfolding finish
  finish-IsHonest i l failure h x = elim (Bool-cases (is_empty l.body && not (is_some failure))) [
    | inl empty ↦ rw empty (record {
      counted = h.counted;
      bounded = omega arith;
      distinct = h.distinct;
      listed = h.listed;
      exhausted =
          λ e. absurd (no_target-handle_empty_response l.state.context (w.after i) l.target e);
    })
    | inr full ↦ rw full (record {
      counted = h.counted;
      bounded = omega arith;
      distinct = h.distinct;
      listed = h.listed;
      exhausted = x;
    })
  ]

  after_pick-IsStep :
      (i : ℕ) (l : Loop F U S) (k : Pick ℕ) (excluded : List ℕ)
      → IsLive b n i l
      → Justified fl b (w.draw i) l.excluded k
      → Distinct excluded
      → ((j : ℕ) → mem_int j excluded ≡ mem_int j l.excluded)
      → (r : Round F U S) × (after_pick fl json w methods das b i l (k, excluded) ≡ some r)
        × IsStep b n i r
  unfolding after_pick
  after_pick-IsStep i l (picked ref index) excluded h q d m =
      let below = All-get_elem? (λ t. t < n) b.targets index ref inside q.0 in
      let (target, e) = get_elem?-total l.state.router.heap ref (omega (arith, below, h.size)) in
      (
        attempt fl json w methods das b i l index ref target excluded,
        rw (e, after_pick) refl,
        attempt-IsStep fl json w methods das b n i l index ref excluded
            (record { live = h; found = q.0; free = q.1; slice = d; same = m }) target,
      )
  after_pick-IsStep i l (failed e) excluded h q d m =
      let live : IsLive b n i (record l { target = none; excluded = excluded }) = record {
        size = h.size;
        counted = h.counted;
        distinct = h.distinct;
        listed = h.listed;
        slice = d;
        excludes = λ j. m j ∙ h.excludes j;
      } in
      (
        _,
        refl,
        bound-IsHonest fl json w methods das b n i (suc i) _ (omega arith) (
            finish-IsHonest i _ (some (no_target e)) live
              (all_tried fl json w methods das b n i l e h q)),
      )
  after_pick-IsStep i l out_of_range excluded h q d m = elim q [ ]

  round-IsStep :
      (i : ℕ) (l : Loop F U S)
      → IsLive b n i l
      → (r : Round F U S) × (round fl json w methods das b i l ≡ some r) × IsStep b n i r
  unfolding round
  round-IsStep i l h = elim (Option-cases (w.before i)) [
    | inl e ↦
        rw (e, round)
          (let next = get_next fl b l.excluded (w.draw i) in
            let slice = get_next_exclude fl b (w.draw i) l.excluded h.slice in
            after_pick-IsStep i l next.0 next.1 h
              (get_next-Justified fl b (w.draw i) l.excluded wf h.slice) slice.0 slice.1)
    | inr (c, e) ↦
        rw (e, round)
          (
            _,
            refl,
            record {
              counted = h.counted;
              bounded = omega arith;
              distinct = h.distinct;
              listed = h.listed;
              exhausted = λ q. cc;
            },
          )
  ]

  pub loop-IsHonest :
      (k i : ℕ) (l : Loop F U S)
      → IsLive b n i l
      → (r : Sent F U S) × (loop fl json w methods das b k i l ≡ some r) × IsHonest b (i + k) r
  unfolding loop
  loop-IsHonest zero i l h = (
    _,
    refl,
    bound-IsHonest fl json w methods das b n i (i + 0) _ (omega arith) (
        finish-IsHonest i l (failure_of l.last_failure) h
          (λ e. absurd (no_target-failure_of l.last_failure e))),
  )
  loop-IsHonest (suc k) i l h =
      let (step, e, q) = round-IsStep i l h in
      follow (λ l' r. loop-IsHonest k (suc i) l' r) step e q
    where
      follow :
          ((l' : Loop F U S)
            → IsLive b n (suc i) l'
            → (r : Sent F U S) × (loop fl json w methods das b k (suc i) l' ≡ some r)
              × IsHonest b (suc i + k) r)
          → (step : Round F U S) → round fl json w methods das b i l ≡ some step
          → IsStep b n i step
          → (r : Sent F U S) × (loop fl json w methods das b (suc k) i l ≡ some r)
            × IsHonest b (i + suc k) r
      follow ih (done r) e q = (
        r,
        rw (e, loop) refl,
        bound-IsHonest fl json w methods das b n (suc i) (i + suc k) r (omega arith) q,
      )
      follow ih (again l') e q =
          let (r, f, honest) = ih l' q in
          (
            r,
            rw (e, loop) f,
            bound-IsHonest fl json w methods das b n (suc i + k) (i + suc k) r (omega arith) honest,
          )
