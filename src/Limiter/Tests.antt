-- ===== src/Limiter/Tests.antt =====
-- Two visitors with buckets that are not filled up again.
use aura_proxy.Common.{
  ℕ, ◌-◌, ◌==◌, ◌≡◌, refl, String, true, false, List, [], ◌∷◌, none, if◌then◌else◌, find, put,
}
use aura_proxy.Common.Int.{ℤ, pos, pos_part}
use aura_proxy.Limiter.{RateLib, Store, allow, cleanup_stale_visitors, remove_stale}
use aura_proxy.Limiter.Buckets.{Event}
use aura_proxy.Limiter.Isolation.{answers, alone, answers-alone}

abbrev lib : RateLib (ℤ × ℕ)
lib = record {
  new_limiter = λ limit. (limit, pos_part limit);
  limit = λ l. l.0;
  allow = λ l now. if l.1 == 0 then (l, false) else ((l.0, l.1 - 1), true);
}

abbrev empty : Store (ℤ × ℕ)
empty = record { visitors = []; last_cleanup = 0; expires_in = 180 }

abbrev event : String → ℕ → Event
event identifier now = record {
  identifier = identifier;
  limit = pos 1;
  times = record { seen = now; cleanup = now; cleaned = now; allow = now };
}

abbrev events : List Event
events = event "a" 100 ∷ event "b" 190 ∷ event "a" 195 ∷ []

answers-alone_example : answers lib "a" empty events ≡ alone lib "a" none events
unfolding find put allow cleanup_stale_visitors remove_stale
answers-alone_example = answers-alone lib "a" empty events tt (refl, (refl, (refl, tt)))

refused_again : alone lib "a" none events ≡ true ∷ false ∷ []
refused_again = refl
