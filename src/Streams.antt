-- ===== src/Streams.antt =====
-- internal/proxy/middlewares/stream_rate_limit.go: how many WebSocket connections an account or a
-- host may hold at once. The critical sections of the mutex are the operations; a counter is a byte.
pub mod Counts
mod Tests
use aura_proxy.Common.{
  ℕ, ◌+◌, ◌-◌, ◌%◌, String, Bool, true, false, not, ◌||◌, ◌&&◌, List, [], ◌∷◌, Option, none, some,
  str_eq, ◌==◌, leb, ltb, get_or, if◌then◌else◌, Map, find, put, del, codes,
}
use aura_proxy.Common.Text.{trim_left, trim_right, trim_prefix, trim_suffix}

abbrev pub temporary_premium_user_id : String
temporary_premium_user_id = "bCEdDk8w8zMt8RvEOQwojQR3LRw1"

abbrev pub vip_max_connections_per_host : ℕ
vip_max_connections_per_host = 30

abbrev pub max_connections_per_host : ℕ
max_connections_per_host = 5

-- rl.rateLimitMap[id], 0 for a missing key.
abbrev pub count : Map ℕ → String → ℕ
count rl id = get_or (find rl id) 0

unfoldable pub check_and_inc_rate_limits : Map ℕ → String → Bool × Map ℕ
check_and_inc_rate_limits rl id =
    let most =
      if str_eq id temporary_premium_user_id
      then vip_max_connections_per_host
      else max_connections_per_host in
    if leb most (count rl id) then (false, rl) else (true, put rl id ((count rl id + 1) % 256))

unfoldable pub dec_host_connections : Map ℕ → String → Map ℕ
dec_host_connections rl id =
    let rl' = if ltb 0 (count rl id) then put rl id (count rl id - 1) else rl in
    if count rl' id == 0 then del rl' id else rl'

abbrev without_brackets : List ℕ → List ℕ
without_brackets ip = trim_suffix b']' (trim_prefix b'[' ip)

-- What stands before the first comma, if there is one.
abbrev before_comma : List ℕ → Option (List ℕ)
before_comma [] = none
before_comma (c ∷ cs) =
    let rest = before_comma cs in
    if c == b',' then some [] else elim rest [ none ↦ none | some s ↦ some (c ∷ s) ]

-- getRealIP, from the two headers and the host of the remote address, which net.SplitHostPort may
-- refuse; texts are lists of code points.
unfoldable pub get_real_ip : List ℕ → List ℕ → Option (List ℕ) → Option (List ℕ)
get_real_ip [] [] host = host
get_real_ip [] (c ∷ ip) host = some (without_brackets (c ∷ ip))
get_real_ip (c ∷ ip) real host = elim (before_comma (c ∷ ip)) [
  | none ↦ some (c ∷ ip)
  | some [] ↦ some (c ∷ ip)
  | some (d ∷ xff) ↦ some (without_brackets (trim_left (trim_right (d ∷ xff))))
]

-- StreamRateLimitMiddleware around the next handler: the connection is not limited, refused, or opened
-- under an account, which closing it (the deferred call) takes off again.
pub data Stream : Type 0 where
  not_limited too_many : Stream
  opened : String → Stream

-- The account is the user or else the real IP, here as a string.
abbrev account_of : String → Option String → Option String
account_of user ip = if str_eq user "" then ip else some user

abbrev open_under : Map ℕ → Option String → Stream × Map ℕ
open_under rl none = (too_many, rl)
open_under rl (some id) =
    let (allowed, rl') = check_and_inc_rate_limits rl id in
    if allowed then (opened id, rl') else (too_many, rl')

unfoldable pub stream_rate_limit : Map ℕ → Bool → String → Option String → Stream × Map ℕ
stream_rate_limit rl is_websocket user ip =
    if not is_websocket then (not_limited, rl) else open_under rl (account_of user ip)

unfoldable pub close_stream : Map ℕ → Stream → Map ℕ
unfolding dec_host_connections
close_stream rl not_limited = rl
close_stream rl too_many = rl
close_stream rl (opened id) = dec_host_connections rl id
