-- ===== src/Usage.antt =====
-- internal/proxy/credits.go and request_counter.go: what a request costs, and the requests counted for
-- each user until they are reported. The fields of the generated message RequestsWithUsage are taken
-- without bounds; the answers of the API to IncreaseUserRequests are arguments.
pub mod Copies
pub mod Ledgers
pub mod Conservation
pub mod Costs
mod Tests
use aura_proxy.Common.{
  ℕ, zero, suc, ◌+◌, ◌%◌, String, Bool, true, false, List, [], ◌∷◌, ◌++◌, Option, none, some,
  get_or, str_eq, if◌then◌else◌, Map, find, put,
}
use aura_proxy.Common.Int.{ℤ, pos, ◌+ℤ◌, int64_mod}

abbrev pub unknown_method_cost : ℕ
unknown_method_cost = 1

-- The loop of calculateCreditsCost, with the sum so far and the methods missing so far.
unfoldable pub add_costs : Map ℕ → List String → ℕ → List String → ℕ × List String
add_costs costs [] credits missing = (credits, missing)
add_costs costs (m ∷ ms) credits missing = elim (find costs m) [
  | none ↦ add_costs costs ms ((credits + unknown_method_cost) % int64_mod) (missing ++ m ∷ [])
  | some cost ↦ add_costs costs ms ((credits + cost) % int64_mod) missing
]

-- calculateCreditsCost; the error lists the missing methods and is nil if there are none.
unfoldable pub calculate_credits_cost : List String → Map ℕ → ℕ × List String
calculate_credits_cost methods costs = add_costs costs methods 0 []

-- RequestsWithUsage
pub record RequestsWithUsage : Type 0 where
  pub is_mainnet : Bool
  pub reqs : ℕ
  pub usage : ℤ

-- By user, chain, type of request and token.
abbrev pub ByToken : Type 0
ByToken = Map RequestsWithUsage

abbrev pub ByType : Type 0
ByType = Map ByToken

abbrev pub ByChain : Type 0
ByChain = Map ByType

abbrev pub Counters : Type 0
Counters = Map ByChain

-- m[k] for a map of maps: a missing map is made.
abbrev pub child : {V : Type 0} → Map (Map V) → String → Map V
child m k = get_or (find m k) []

unfoldable pub count_request : ByToken → String → Bool → ℤ → ByToken
count_request tokens token is_mainnet credits =
    let before =
      get_or (find tokens token) (record { is_mainnet = is_mainnet; reqs = 0; usage = pos 0 }) in
    put tokens token (record before { reqs = before.reqs + 1; usage = before.usage +ℤ credits })

-- IncUserRequests for a user that is not nil; an empty ID is only logged.
unfoldable pub inc_user_requests :
    Counters → String → ℤ → String → String → String → Bool → Counters
inc_user_requests r user credits chain token request_type is_mainnet =
    let chains = child r user in
    let types = child chains chain in
    let tokens = child types request_type in
    if str_eq user ""
    then r
    else put r user
        (put chains chain (put types request_type (count_request tokens token is_mainnet credits)))

-- A loop that fills a new map from an old one.
unfoldable pub copy_into : {V W : Type 0} → (V → W) → Map W → Map V → Map W
copy_into f filled [] = filled
copy_into f filled ((k, v) ∷ m) = copy_into f (put filled k (f v)) m

abbrev pub copy_tokens : ByToken → ByToken
copy_tokens m = copy_into (λ count. count) [] m

abbrev pub copy_types : ByType → ByType
copy_types m = copy_into copy_tokens [] m

abbrev pub copy_chains : ByChain → ByChain
copy_chains m = copy_into copy_types [] m

unfoldable pub map_counters_to_proto : Counters → Counters
map_counters_to_proto m = copy_into copy_chains [] m

-- The calls of flush, of which at most 10 are made: whether one succeeded.
unfoldable pub try_to_send : ℕ → ℕ → (ℕ → Bool) → Bool
try_to_send zero i succeeds = false
try_to_send (suc left) i succeeds =
    let rest = try_to_send left (suc i) succeeds in if succeeds i then true else rest

-- What a flush leaves: the new counters, and the report with whether the API took it, if one was sent.
pub record Flushed : Type 0 where
  pub counters : Counters
  pub report : Option (Counters × Bool)

unfoldable pub flush : Counters → (ℕ → Bool) → Flushed
flush [] succeeds = record { counters = []; report = none }
flush (c ∷ cs) succeeds = record {
  counters = [];
  report = some (map_counters_to_proto (c ∷ cs), try_to_send 10 0 succeeds);
}
