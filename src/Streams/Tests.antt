-- ===== src/Streams/Tests.antt =====
-- An account at its limit, and its first connection.
use aura_proxy.Common.{ℕ, ◌≡◌, refl, true, false, [], ◌∷◌, Map, find, put}
use aura_proxy.Streams.{check_and_inc_rate_limits}
use aura_proxy.Streams.Counts.{Step, Steps, IsCounted, connections-IsCounted}

abbrev at_most : ℕ → Map ℕ
at_most n = ("a", n) ∷ []

sixth : check_and_inc_rate_limits (at_most 5) "a" ≡ (false, at_most 5)
unfolding check_and_inc_rate_limits find put
sixth = refl

first : check_and_inc_rate_limits [] "a" ≡ (true, at_most 1)
unfolding check_and_inc_rate_limits find put
first = refl

one_opened : Steps ([], []) (at_most 1, "a" ∷ [])
one_opened =
    Steps.then_step ([], []) ([], []) (at_most 1, "a" ∷ []) (Steps.here ([], []))
      (Step.opened [] (at_most 1) [] "a" first)

connections-IsCounted_example : IsCounted (at_most 1, "a" ∷ [])
connections-IsCounted_example = connections-IsCounted (at_most 1, "a" ∷ []) one_opened
