-- ===== src/Collector/Batches.antt =====
-- collector.go: the batches of a collector against the sequence of statistics that were added.
use aura_proxy.Common.{
  ◌≡◌, ◌≢◌, refl, sym, ap, ◌∙◌, Bool, List, [], ◌∷◌, ◌++◌, Option, none, some, All, append-nil,
  append_assoc, arith,
}
use aura_proxy.Collector.{add, sent, flush_data}

-- An addition, or a flush with the answer of the API.
pub data Op (T : Type 0) : Type 0 where
  addition : T → Op T
  flushing : Bool → Op T

module _ {T : Type 0} where
  -- What was added, in order.
  abbrev pub added : List (Op T) → List T
  added [] = []
  added (addition s ∷ ops) = s ∷ added ops
  added (flushing b ∷ ops) = added ops

  abbrev join : Option (List T × Bool) → List (List T × Bool) → List (List T × Bool)
  join none batches = batches
  join (some b) batches = b ∷ batches

  -- The cache that is left, and the batches sent, in order.
  abbrev pub run : List T → List (Op T) → List T × List (List T × Bool)
  run cache [] = (cache, [])
  run cache (addition s ∷ ops) = run (add cache s) ops
  run cache (flushing b ∷ ops) =
      let f = flush_data cache b in let r = run f.0 ops in (r.0, join f.1 r.1)

  abbrev pub entries : List (List T × Bool) → List T
  entries [] = []
  entries ((batch, b) ∷ batches) = batch ++ entries batches

  entries-join :
      (cache : List T) (b : Bool) (batches : List (List T × Bool))
      → entries (join (sent cache b) batches) ≡ cache ++ entries batches
  entries-join [] b batches = refl
  entries-join (s ∷ cache) b batches = refl

  run-added :
      (cache : List T) (ops : List (Op T))
      → entries (run cache ops).1 ++ (run cache ops).0 ≡ cache ++ added ops
  unfolding add flush_data
  run-added cache [] = sym (append-nil cache)
  run-added cache (addition s ∷ ops) =
      run-added (cache ++ s ∷ []) ops ∙ append_assoc cache (s ∷ []) (added ops)
  run-added cache (flushing b ∷ ops) =
      ap (λ l. l ++ (run [] ops).0) (entries-join cache b (run [] ops).1)
      ∙ append_assoc cache (entries (run [] ops).1) (run [] ops).0
      ∙ ap (λ l. cache ++ l) (run-added [] ops)

  abbrev pub IsFull : List T × Bool → Type 0
  IsFull (batch, b) = batch ≢ []

  sent-join-IsFull :
      (cache : List T) (b : Bool) (batches : List (List T × Bool))
      → All IsFull batches
      → All IsFull (join (sent cache b) batches)
  sent-join-IsFull [] b batches h = h
  sent-join-IsFull (s ∷ cache) b batches h = (λ q. ground arith, h)

  run-IsFull : (cache : List T) (ops : List (Op T)) → All IsFull (run cache ops).1
  unfolding flush_data
  run-IsFull cache [] = tt
  run-IsFull cache (addition s ∷ ops) = run-IsFull (add cache s) ops
  run-IsFull cache (flushing b ∷ ops) = sent-join-IsFull cache b (run [] ops).1 (run-IsFull [] ops)

  -- After any sequence of additions and flushes the batches that were sent, whether the API took them
  -- or not, followed by what waits, are together exactly what was added, in order; no batch is empty.
  pub run_in_order :
      (ops : List (Op T))
      → (entries (run [] ops).1 ++ (run [] ops).0 ≡ added ops) × All IsFull (run [] ops).1
  run_in_order ops = (run-added [] ops, run-IsFull [] ops)
