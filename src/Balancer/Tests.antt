-- ===== src/Balancer/Tests.antt =====
-- Runs of the balancers, and the theorems at concrete inputs. Floats are
-- fixed-point numbers.
use aura_proxy.Common.{ℕ, ◌+◌, ◌≡◌, refl, ◌%◌, List, [], ◌∷◌, some, arith, ok, get_elem?}
use aura_proxy.Common.Float.{milli, milli-IsIeee}
use aura_proxy.Balancer.Rotation
use aura_proxy.Balancer.Rotation.{RoundRobin}
use aura_proxy.Balancer.Rotation.Fair.{after_calls, get_next_rotates, inc_counter_overruns}
use aura_proxy.Balancer.Weighted.{
  ProbabilisticBalancer, picked, failed, all_excluded, no_target_selected, sort_ints, get_next,
  new_probabilistic_balancer, total_from, cumulative_from, pick_any, pick_excluding, candidates,
  first_reached, first_candidate,
}
use aura_proxy.Balancer.Weighted.Build.{
  Explained, balancer_of, new_probabilistic_balancer-Explained, new_probabilistic_balancer_total,
}
use aura_proxy.Balancer.Weighted.Choice.{IsWellFormed, Justified, get_next-Justified}

abbrev three : ProbabilisticBalancer ℕ ℕ
three = record {
  targets = 11 ∷ 12 ∷ 13 ∷ [];
  weights = 250 ∷ 250 ∷ 500 ∷ [];
  cumulative_weights = 250 ∷ 500 ∷ 1000 ∷ [];
}

three_built :
    new_probabilistic_balancer milli (11 ∷ 12 ∷ 13 ∷ []) (1000 ∷ 1000 ∷ 2000 ∷ []) ≡ ok three
unfolding new_probabilistic_balancer total_from cumulative_from
three_built = refl

runs : Unit {0}
unfolding get_next pick_any pick_excluding candidates first_reached first_candidate sort_ints
runs = tt

three_runs :
    (get_next milli three [] 300 ≡ (picked 12 1, []))
    × (get_next milli three (2 ∷ 0 ∷ []) 999 ≡ (picked 12 1, 0 ∷ 2 ∷ []))
    × (get_next milli three (2 ∷ 0 ∷ 1 ∷ []) 5 ≡ (failed all_excluded, 0 ∷ 1 ∷ 2 ∷ []))
unfolding runs
three_runs = (refl, refl, refl)

-- A repeated index stops the merge: index 1 is excluded, and picked all the same.
repeated_exclusion : (get_next milli three (0 ∷ 0 ∷ 1 ∷ []) 100).0 ≡ picked 12 1
unfolding runs
repeated_exclusion = refl

-- Six equal weights add up to less than one here: a draw above the last sum fails, though all the
-- targets are available.
abbrev sixth : ProbabilisticBalancer ℕ ℕ
sixth = balancer_of milli (1 ∷ 2 ∷ 3 ∷ 4 ∷ 5 ∷ 6 ∷ []) (1 ∷ 1 ∷ 1 ∷ 1 ∷ 1 ∷ 1 ∷ [])

rounded_down : (get_next milli sixth [] 999).0 ≡ failed no_target_selected
unfolding runs total_from cumulative_from
rounded_down = refl

abbrev ids : List ℕ
ids = 7 ∷ 8 ∷ []

three-IsWellFormed : IsWellFormed three
three-IsWellFormed = record { nonempty = omega arith; weighted = refl; cumulative = refl }

abbrev turning : RoundRobin ℕ
turning = record { targets = 11 ∷ 12 ∷ 13 ∷ []; counter = 2 }

get_next_rotates_example :
    (t : ℕ) × (get_elem? (11 ∷ 12 ∷ 13 ∷ []) ((2 + 5) % 3) ≡ some t)
    × ((Rotation.get_next (after_calls 5 turning) []).1 ≡ Rotation.next t ((2 + 5) % 3))
get_next_rotates_example = get_next_rotates turning 5 [] (omega arith)

inc_counter_overruns_example :
    (Rotation.get_next (Rotation.inc_counter turning) []).1 ≡ Rotation.out_of_range
inc_counter_overruns_example = inc_counter_overruns turning [] (omega arith) refl

new_probabilistic_balancer-Explained_example :
    Explained milli ids (0 ∷ 0 ∷ []) (new_probabilistic_balancer milli ids (0 ∷ 0 ∷ []))
new_probabilistic_balancer-Explained_example =
    new_probabilistic_balancer-Explained milli ids (0 ∷ 0 ∷ [])

new_probabilistic_balancer_total_example :
    (new_probabilistic_balancer milli ids (1000 ∷ 3000 ∷ [])
      ≡ ok (balancer_of milli ids (1000 ∷ 3000 ∷ [])))
    × IsWellFormed (balancer_of milli ids (1000 ∷ 3000 ∷ []))
new_probabilistic_balancer_total_example =
    new_probabilistic_balancer_total milli ids (1000 ∷ 3000 ∷ []) milli-IsIeee refl (omega arith)
      (refl, (refl, tt))

get_next-Justified_example :
    Justified milli three 999 (2 ∷ 0 ∷ []) (get_next milli three (2 ∷ 0 ∷ []) 999).0
get_next-Justified_example =
    get_next-Justified milli three 999 (2 ∷ 0 ∷ []) three-IsWellFormed (refl, (refl, tt))
