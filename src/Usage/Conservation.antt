-- ===== src/Usage/Conservation.antt =====
-- Counted requests in the counters, in the reports taken and in those given up.
use aura_proxy.Common.{
  ℕ, zero, suc, ◌+◌, ◌<◌, ◌≡◌, refl, subst, ◌∙◌, String, Bool, true, false, List, [], ◌∷◌, ◌++◌,
  some, if◌then◌else◌, arith, Bool-cases, inl, inr, find, All,
}
use aura_proxy.Usage.{Counters, map_counters_to_proto, try_to_send, flush}
use aura_proxy.Usage.Ledgers.{
  Op, counted, flushed, Ledger, settle, run_op, run, empty_ledger, reqs_at, total, concerns, calls,
  Once, inc_user_requests_raised, map_counters_to_proto_same, inc_user_requests-Once,
}

module _ (user chain request_type token : String) where
  -- All requests of the ledger for this user, chain, type and token.
  abbrev pub on_ledger : Ledger → ℕ
  on_ledger l =
      reqs_at user chain request_type token l.counters
      + total user chain request_type token l.taken
      + total user chain request_type token l.lost

  total-append :
      (rs : List Counters) (r : Counters)
      → total user chain request_type token (rs ++ r ∷ [])
        ≡ total user chain request_type token rs + reqs_at user chain request_type token r
  total-append [] r = omega arith
  total-append (x ∷ rs) r = omega (arith, total-append rs r)

  none_counted : reqs_at user chain request_type token [] ≡ 0
  unfolding find
  none_counted = refl

  sent_kept :
      (l : Ledger) (taken : Bool)
      → Once l.counters
      → on_ledger (
          settle l
            (record { counters = []; report = some (map_counters_to_proto l.counters, taken) }))
        ≡ on_ledger l
  sent_kept l true h =
      let same = map_counters_to_proto_same user chain request_type token l.counters h in
      let more = total-append l.taken (map_counters_to_proto l.counters) in
      let zero_left = none_counted in omega (arith, same, more, zero_left)
  sent_kept l false h =
      let same = map_counters_to_proto_same user chain request_type token l.counters h in
      let more = total-append l.lost (map_counters_to_proto l.counters) in
      let zero_left = none_counted in omega (arith, same, more, zero_left)

  flush_kept :
      (m : Counters) (taken lost : List Counters) (succeeds : ℕ → Bool)
      → Once m
      → (on_ledger (settle (record { counters = m; taken = taken; lost = lost }) (flush m succeeds))
          ≡ on_ledger (record { counters = m; taken = taken; lost = lost }))
        × Once
            (settle
              (record { counters = m; taken = taken; lost = lost })
              (flush m succeeds)).counters
  unfolding flush
  flush_kept [] taken lost succeeds h = (refl, (tt, tt))
  flush_kept (c ∷ cs) taken lost succeeds h = (
    sent_kept (record { counters = c ∷ cs; taken = taken; lost = lost }) (try_to_send 10 0 succeeds)
        h,
    settled_counters (try_to_send 10 0 succeeds),
  )
    where
      settled_counters :
          (b : Bool)
          → Once
              (settle
                (record { counters = c ∷ cs; taken = taken; lost = lost })
                (record {
                  counters = [];
                  report = some (map_counters_to_proto (c ∷ cs), b);
                })).counters
      settled_counters true = (tt, tt)
      settled_counters false = (tt, tt)

  run_op_kept :
      (l : Ledger) (op : Op)
      → Once l.counters
      → (on_ledger (run_op l op)
          ≡ on_ledger l + (if concerns user chain request_type token op then 1 else 0))
        × Once (run_op l op).counters
  run_op_kept l (counted u credits c t ty is_mainnet) h =
      let one =
        inc_user_requests_raised user chain request_type token l.counters u credits c t ty
          is_mainnet in
      (omega (arith, one), inc_user_requests-Once l.counters u credits c t ty is_mainnet h)
  run_op_kept l (flushed succeeds) h =
      let (same, once) = flush_kept l.counters l.taken l.lost succeeds h in
      (omega (arith, same), once)

  run_kept :
      (l : Ledger) (ops : List Op)
      → Once l.counters
      → on_ledger (run l ops) ≡ on_ledger l + calls user chain request_type token ops
  run_kept l [] h = omega arith
  run_kept l (op ∷ ops) h =
      let (one, once) = run_op_kept l op h in
      let rest = run_kept (run_op l op) ops once in omega (arith, one, rest)

  -- From empty counters, after any sequence of counted requests and flushes, for every user, chain,
  -- type of request and token: the requests that wait in the counters, those in the reports that the
  -- API took and those in the reports that were given up are together exactly the requests counted.
  pub run_conserves :
      (ops : List Op) → on_ledger (run empty_ledger ops) ≡ calls user chain request_type token ops
  run_conserves ops =
      let zero_start = none_counted in omega (arith, run_kept empty_ledger ops (tt, tt), zero_start)

-- A flush of which one of the ten calls succeeds.
abbrev pub IsReported : Op → Type 0
IsReported (counted u credits c t ty is_mainnet) = Unit
IsReported (flushed succeeds) = (i : ℕ) × (i < 10) × (succeeds i ≡ true)

try_to_send_reached :
    (left i j : ℕ) (succeeds : ℕ → Bool)
    → j < left
    → succeeds (i + j) ≡ true
    → try_to_send left i succeeds ≡ true
unfolding try_to_send
try_to_send_reached zero i j succeeds h e = absurd (omega arith)
try_to_send_reached (suc left) i zero succeeds h e =
    let here : succeeds i ≡ true = subst (λ k. succeeds k ≡ true) (omega arith) e in rw here refl
try_to_send_reached (suc left) i (suc j) succeeds h e =
    let later =
      try_to_send_reached left (suc i) j succeeds (omega arith)
        (subst (λ k. succeeds k ≡ true) (omega arith) e) in
    elim (Bool-cases (succeeds i)) [ inl q ↦ rw q refl | inr q ↦ rw q later ]

flush_taken :
    (m : Counters) (taken lost : List Counters) (succeeds : ℕ → Bool)
    → try_to_send 10 0 succeeds ≡ true
    → (settle (record { counters = m; taken = taken; lost = lost }) (flush m succeeds)).lost ≡ lost
unfolding flush
flush_taken [] taken lost succeeds e = refl
flush_taken (c ∷ cs) taken lost succeeds e = rw e refl

run_op_lost : (l : Ledger) (op : Op) → IsReported op → (run_op l op).lost ≡ l.lost
run_op_lost l (counted u credits c t ty is_mainnet) h = refl
run_op_lost l (flushed succeeds) (i, below, e) =
    flush_taken l.counters l.taken l.lost succeeds
      (try_to_send_reached 10 0 i succeeds below (subst (λ k. succeeds k ≡ true) (omega arith) e))

run_lost : (l : Ledger) (ops : List Op) → All IsReported ops → (run l ops).lost ≡ l.lost
run_lost l [] h = refl
run_lost l (op ∷ ops) h = run_lost (run_op l op) ops h.1 ∙ run_op_lost l op h.0

-- If in every flush one of the first ten calls succeeds, no report is given up.
pub run_loses_nothing : (ops : List Op) → All IsReported ops → (run empty_ledger ops).lost ≡ []
run_loses_nothing ops h = run_lost empty_ledger ops h
