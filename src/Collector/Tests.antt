-- ===== src/Collector/Tests.antt =====
-- Three statistics, and a batch that the API does not take.
use aura_proxy.Common.{ℕ, ◌≡◌, ◌++◌, All, true, false, List, [], ◌∷◌}
use aura_proxy.Collector.Batches.{Op, addition, flushing, run, entries, IsFull, run_in_order}

abbrev ops : List (Op ℕ)
ops = addition 1 ∷ addition 2 ∷ flushing false ∷ flushing true ∷ addition 3 ∷ []

run_in_order_example :
    (entries (run [] ops).1 ++ (run [] ops).0 ≡ 1 ∷ 2 ∷ 3 ∷ []) × All IsFull (run [] ops).1
run_in_order_example = run_in_order ops
