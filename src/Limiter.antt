-- ===== src/Limiter.antt =====
-- internal/pkg/util/echo/limiter.go, and NewRateLimiter of echo_helpers.go: the limit of requests per
-- second. The token bucket (golang.org/x/time/rate) and the clock are arguments; times are
-- nanoseconds.
pub mod Buckets
pub mod Isolation
mod Tests
use aura_proxy.Common.{
  ℕ, ◌+◌, String, Bool, true, false, not, ◌&&◌, List, [], ◌∷◌, Option, none, some, str_eq, ltb,
  if◌then◌else◌, Map, find, put,
}
use aura_proxy.Common.Int.{ℤ, pos, eqb_ℤ}
use aura_proxy.Common.Text.{string_append}
use aura_proxy.Context.{CustomContext}
use aura_proxy.Context.Tariffs.{Service, Tariff, get_req_per_second}

-- rate.NewLimiter with the limit as rate and burst, Limit as an int64, and AllowN of one.
pub record RateLib (L : Type 0) : Type 0 where
  pub new_limiter : ℤ → L
  pub limit : L → ℤ
  pub allow : L → ℕ → L × Bool

pub record Visitor (L : Type 0) : Type 0 where
  pub limiter : L
  pub last_seen : ℕ

pub record Store (L : Type 0) : Type 0 where
  pub visitors : Map (Visitor L)
  pub last_cleanup : ℕ
  pub expires_in : ℕ

-- The calls of timeNow in the order in which Allow makes them.
pub record Times : Type 0 where
  pub seen : ℕ
  pub cleanup : ℕ
  pub cleaned : ℕ
  pub allow : ℕ

-- now.Sub(visitor.lastSeen) > expiresIn
abbrev pub is_stale : {L : Type 0} → ℕ → ℕ → Visitor L → Bool
is_stale expires_in now v = ltb (v.last_seen + expires_in) now

unfoldable pub remove_stale : {L : Type 0} → ℕ → ℕ → Map (Visitor L) → Map (Visitor L)
remove_stale expires_in now [] = []
remove_stale expires_in now ((k, v) ∷ m) =
    let rest = remove_stale expires_in now m in
    if is_stale expires_in now v then rest else (k, v) ∷ rest

unfoldable pub cleanup_stale_visitors : {L : Type 0} → Store L → Times → Store L
cleanup_stale_visitors s t = record s {
  visitors = remove_stale s.expires_in t.cleanup s.visitors;
  last_cleanup = t.cleaned;
}

-- The identifier of a visitor, "%s/%t/%t/%s"; `user_of` is GetUser of the user, which may be nil.
abbrev go_bool : Bool → String
go_bool true = "true"
go_bool false = "false"

unfoldable pub visitor_identifier :
    {U S : Type 0} → (Option U → String) → CustomContext U S → String
visitor_identifier user_of c = string_append (user_of c.user_info) (
    string_append "/" (
      string_append (go_bool c.is_das_request) (
        string_append "/"
          (string_append (go_bool c.is_gpa_request) (string_append "/" c.chain_name)))))

-- What the middleware does: it calls the next handler, or answers 405 or with the handler of
-- refused requests.
pub data Limited : Type 0 where
  passed not_on_tier denied : Limited

module _ {L : Type 0} (lib : RateLib L) where
  -- The limiter of the visitor, or a new one if there is none or its limit is another.
  abbrev pub limiter_for : Option (Visitor L) → ℤ → L
  limiter_for none limit = lib.new_limiter limit
  limiter_for (some v) limit =
      if eqb_ℤ (lib.limit v.limiter) limit then v.limiter else lib.new_limiter limit

  abbrev pub swept : Store L → Times → Store L
  swept s t = if ltb (s.last_cleanup + s.expires_in) t.seen then cleanup_stale_visitors s t else s

  -- AllowN works on the visitor through its pointer, which the store may have dropped meanwhile.
  abbrev write_limiter : Map (Visitor L) → String → L → Option (Visitor L) → Map (Visitor L)
  write_limiter m identifier l none = m
  write_limiter m identifier l (some v) = put m identifier (record v { limiter = l })

  abbrev pub entered : Store L → String → L → ℕ → Store L
  entered s identifier l seen = record s {
    visitors = put s.visitors identifier (record { limiter = l; last_seen = seen });
  }

  abbrev settle : Store L → String → L × Bool → Store L × Bool
  settle s identifier (l, allowed) = (
    record s { visitors = write_limiter s.visitors identifier l (find s.visitors identifier) },
    allowed,
  )

  -- Allow
  unfoldable pub allow : Store L → String → ℤ → Times → Store L × Bool
  allow s identifier limit t =
      let l = limiter_for (find s.visitors identifier) limit in
      settle (swept (entered s identifier l t.seen) t) identifier (lib.allow l t.allow)

  abbrev decided : Store L × Bool → Store L × Limited
  decided (s, true) = (s, passed)
  decided (s, false) = (s, denied)

  unfoldable pub rate_limiter :
      {U S : Type 0}
      → (Option S → Service → Tariff)
      → (Option U → String)
      → Store L
      → CustomContext U S
      → Times
      → Store L × Limited
  rate_limiter pricing user_of s c t =
      let identifier = visitor_identifier user_of c in
      let req_per_second = get_req_per_second pricing c in
      if eqb_ℤ req_per_second (pos 0)
      then (s, not_on_tier)
      else decided (allow s identifier req_per_second t)
