-- ===== src/Transport/Tests.antt =====
-- A request to a router of two targets that answer without an RPC version.
use aura_proxy.Common.{ℕ, ◌≡◌, refl, [], ◌∷◌, none, some, find}
use aura_proxy.Common.Float.{milli}
use aura_proxy.Router.{get_balancer_for_method}
use aura_proxy.Transport.Answers.{bad_status_code}
use aura_proxy.Transport.{Sent, execute_with_retries}
use aura_proxy.Transport.Retries.{IsExecuted, balancer_for, execute_with_retries_total}
use aura_proxy.Transport.Outcome.{IsFair, process_response_verdict}
use aura_proxy.Transport.Samples.{both, router-IsBuilt, context, state, silent, world}

execute_with_retries_total_example :
    (r : Sent ℕ Unit Unit) × (execute_with_retries milli silent world 10 state ≡ some r)
    × IsExecuted milli silent world 10 state
        (balancer_for milli silent world 10 state ("getSlot" ∷ []))
        r
execute_with_retries_total_example =
    execute_with_retries_total milli silent world 10 state router-IsBuilt

process_response_verdict_example : IsFair silent context none (b'{' ∷ []) (some bad_status_code)
process_response_verdict_example =
    process_response_verdict silent context none (b'{' ∷ []) (some bad_status_code)

-- The method is in no table, so it goes to the default balancer over both targets.
default_balancer : balancer_for milli silent world 10 state ("getSlot" ∷ []) ≡ some both
unfolding get_balancer_for_method find
default_balancer = refl
