-- ===== src/Balancer/Rotation/Fair.antt =====
-- The order in which RoundRobin hands out its targets.
use native.Mathlib.Nat.{mod-lt, mod-eq_of_lt, mod-add-mod}
use aura_proxy.Common.{
  ℕ, zero, suc, ◌+◌, ◌%◌, ◌<◌, ◌≡◌, refl, ◌∙◌, ap, List, [], ◌∷◌, some, none, arith, length,
  get_elem?, get_elem?-total,
}
use aura_proxy.Balancer.Rotation.{RoundRobin, next, out_of_range, get_next, inc_counter}

next_mod : (n c k : ℕ) → ((c + 1) % n + k) % n ≡ (c + suc k) % n
next_mod n c k = mod-add-mod (c + 1) n k ∙ ap (λ i. i % n) (omega arith)

module _ {ℓ} {T : Type ℓ} where
  -- The balancer after k calls of GetNext.
  pub after_calls : ℕ → RoundRobin T → RoundRobin T
  after_calls zero r = r
  after_calls (suc k) r = after_calls k (get_next r []).0

  get_next_step :
      (ts : List T) (c : ℕ)
      → c < length ts
      → (get_next (record { targets = ts; counter = c }) []).0
        ≡ record { targets = ts; counter = (c + 1) % length ts }
  unfolding get_next
  get_next_step [] c h = elim h [ ]
  get_next_step (t ∷ ts) c h = refl

  same_mod : (ts : List T) (c : ℕ) → c < length ts → c ≡ (c + 0) % length ts
  same_mod ts c h = grind (arith, mod-eq_of_lt)

  after_calls_lem :
      (ts : List T) (k c : ℕ)
      → c < length ts
      → after_calls k (record { targets = ts; counter = c })
        ≡ record { targets = ts; counter = (c + k) % length ts }
  unfolding after_calls
  after_calls_lem ts zero c h = ap (λ i. record { targets = ts; counter = i }) (same_mod ts c h)
  after_calls_lem ts (suc k) c h = rw (get_next_step ts c h) (
      after_calls_lem ts k ((c + 1) % length ts) (mod-lt _ (omega arith))
      ∙ ap (λ i. record { targets = ts; counter = i }) (next_mod (length ts) c k))

  get_next_here :
      (ts : List T) (c : ℕ) (exclude : List ℕ)
      → c < length ts
      → (t : T) × (get_elem? ts c ≡ some t)
        × ((get_next (record { targets = ts; counter = c }) exclude).1 ≡ next t c)
  unfolding get_next
  get_next_here [] c exclude h = elim h [ ]
  get_next_here (t ∷ ts) c exclude h =
      let (u, e) = get_elem?-total (t ∷ ts) c h in (u, e, ground (arith, e))

  -- From a counter in range, the call that follows k others hands out the target at index
  -- (counter + k) mod n and never panics: every window of n calls uses each target once.
  pub get_next_rotates :
      (r : RoundRobin T) (k : ℕ) (exclude : List ℕ)
      → r.counter < length r.targets
      → (t : T) × (get_elem? r.targets ((r.counter + k) % length r.targets) ≡ some t)
        × ((get_next (after_calls k r) exclude).1 ≡ next t ((r.counter + k) % length r.targets))
  get_next_rotates r k exclude h = rw (after_calls_lem r.targets k r.counter h) (
      get_next_here r.targets ((r.counter + k) % length r.targets) exclude (mod-lt _ (omega arith)))

  past_end : (ts : List T) (c : ℕ) → c ≡ length ts → get_elem? ts c ≡ none
  past_end [] c h = refl
  past_end (t ∷ ts) zero h = absurd (omega arith)
  past_end (t ∷ ts) (suc c) h = past_end ts c (omega arith)

  past :
      (ts : List T) (c : ℕ) (exclude : List ℕ)
      → 0 < length ts
      → c ≡ length ts
      → (get_next (record { targets = ts; counter = c }) exclude).1 ≡ out_of_range
  unfolding get_next
  past [] c exclude nonempty h = elim nonempty [ ]
  past (t ∷ ts) c exclude nonempty h = ground (arith, past_end (t ∷ ts) c h)

  -- IncCounter has no modulus: called at the last index, it makes the next GetNext index past the
  -- end of the targets.
  pub inc_counter_overruns :
      (r : RoundRobin T) (exclude : List ℕ)
      → 0 < length r.targets
      → r.counter + 1 ≡ length r.targets
      → (get_next (inc_counter r) exclude).1 ≡ out_of_range
  unfolding inc_counter
  inc_counter_overruns r exclude nonempty h = past r.targets (r.counter + 1) exclude nonempty h
