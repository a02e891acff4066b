-- ===== src/Usage/Costs.antt =====
-- The cost of a request against the sum over its methods.
use aura_proxy.Common.{
  ℕ, ◌+◌, ◌%◌, ◌<◌, ◌≡◌, sym, ◌∙◌, String, Bool, not, List, [], ◌∷◌, ◌++◌, append-nil, append_assoc,
  is_some, get_or, keep_if, arith, Option-cases, inl, inr, Map, find,
}
use aura_proxy.Common.Int.{int64_mod}
use aura_proxy.Usage.{unknown_method_cost, add_costs, calculate_credits_cost}

abbrev sum_of : Map ℕ → List String → ℕ
sum_of costs [] = 0
sum_of costs (m ∷ ms) = get_or (find costs m) unknown_method_cost + sum_of costs ms

abbrev is_missing : Map ℕ → String → Bool
is_missing costs m = not (is_some (find costs m))

-- The credits and the missing methods of a list of methods.
abbrev pub IsPriced : Map ℕ → List String → ℕ × List String → Type 0
IsPriced costs methods r =
    (r.0 ≡ sum_of costs methods % int64_mod) × (r.1 ≡ keep_if (is_missing costs) methods)

add_costs-IsPriced :
    (costs : Map ℕ) (ms : List String) (credits : ℕ) (missing : List String)
    → ((add_costs costs ms credits missing).0 % int64_mod ≡ (credits + sum_of costs ms) % int64_mod)
      × ((add_costs costs ms credits missing).1 ≡ missing ++ keep_if (is_missing costs) ms)
unfolding add_costs
add_costs-IsPriced costs [] credits missing = (omega arith, sym (append-nil missing))
add_costs-IsPriced costs (m ∷ ms) credits missing = elim (Option-cases (find costs m)) [
  | inl e ↦
      let rest =
        add_costs-IsPriced costs ms ((credits + unknown_method_cost) % int64_mod)
          (missing ++ m ∷ []) in
      rw (e, add_costs)
        (
          omega (arith, rest.0),
          rest.1 ∙ append_assoc missing (m ∷ []) (keep_if (is_missing costs) ms),
        )
  | inr (cost, e) ↦
      let rest = add_costs-IsPriced costs ms ((credits + cost) % int64_mod) missing in
      rw (e, add_costs) (omega (arith, rest.0), rest.1)
]

add_costs_bound :
    (costs : Map ℕ) (ms : List String) (credits : ℕ) (missing : List String)
    → credits < int64_mod
    → (add_costs costs ms credits missing).0 < int64_mod
unfolding add_costs
add_costs_bound costs [] credits missing h = h
add_costs_bound costs (m ∷ ms) credits missing h = elim (Option-cases (find costs m)) [
  | inl e ↦
      rw (e, add_costs)
        (add_costs_bound costs ms ((credits + unknown_method_cost) % int64_mod) (missing ++ m ∷ [])
          (omega arith))
  | inr (cost, e) ↦
      rw (e, add_costs)
        (add_costs_bound costs ms ((credits + cost) % int64_mod) missing (omega arith))
]

-- The credits of a request are the sum of the costs of its methods modulo 2^64, where a method
-- without a cost counts as 1, and the error names exactly the methods without a cost, in order.
pub calculate_credits_cost-IsPriced :
    (costs : Map ℕ) (methods : List String)
    → IsPriced costs methods (calculate_credits_cost methods costs)
unfolding calculate_credits_cost
calculate_credits_cost-IsPriced costs methods =
    let (sum, missing) = add_costs-IsPriced costs methods 0 [] in
    let below = add_costs_bound costs methods 0 [] (omega arith) in
    (omega (arith, sum, below), missing)
