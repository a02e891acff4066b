-- ===== src/Usage/Tests.antt =====
-- Two requests of a user around a flush whose calls all fail.
use aura_proxy.Common.{ℕ, zero, suc, ◌≡◌, refl, Bool, true, false, List, [], ◌∷◌, arith, Map}
use aura_proxy.Common.Int.{pos}
use aura_proxy.Usage.{calculate_credits_cost}
use aura_proxy.Usage.Costs.{IsPriced, calculate_credits_cost-IsPriced}
use aura_proxy.Usage.Ledgers.{Op, counted, flushed, run, empty_ledger, calls}
use aura_proxy.Usage.Conservation.{on_ledger, run_conserves, run_loses_nothing}

abbrev ops : List Op
ops =
    counted "u" (pos 3) "solana" "t" "rpc" true
    ∷ flushed (λ i. false)
    ∷ counted "u" (pos 3) "solana" "t" "rpc" true
    ∷ []

counted_twice : calls "u" "solana" "rpc" "t" ops ≡ 2
counted_twice = refl

run_conserves_example :
    on_ledger "u" "solana" "rpc" "t" (run empty_ledger ops) ≡ calls "u" "solana" "rpc" "t" ops
run_conserves_example = run_conserves "u" "solana" "rpc" "t" ops

abbrev third : ℕ → Bool
third zero = false
third (suc zero) = false
third (suc (suc i)) = true

abbrev reported : List Op
reported = counted "u" (pos 3) "solana" "t" "rpc" true ∷ flushed third ∷ []

run_loses_nothing_example : (run empty_ledger reported).lost ≡ []
run_loses_nothing_example = run_loses_nothing reported (tt, ((2, omega arith, refl), tt))

abbrev costs : Map ℕ
costs = ("getSlot", 3) ∷ []

calculate_credits_cost-IsPriced_example :
    IsPriced costs
      ("getSlot" ∷ "unknown" ∷ [])
      (calculate_credits_cost ("getSlot" ∷ "unknown" ∷ []) costs)
calculate_credits_cost-IsPriced_example =
    calculate_credits_cost-IsPriced costs ("getSlot" ∷ "unknown" ∷ [])
