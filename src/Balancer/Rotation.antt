-- ===== src/Balancer/Rotation.antt =====
-- The RoundRobin balancer. The int counter starts at 0 and only grows, so it is a natural number;
-- 2^63 calls of IncCounter, which would wrap it, are out of reach.
pub mod Fair
use aura_proxy.Common.{
  ℕ, suc, ◌+◌, ◌%◌, Bool, true, false, not, List, [], ◌∷◌, Option, none, some, ◌==◌, length,
  get_elem?,
}

pub record RoundRobin {ℓ} (T : Type ℓ) : Type ℓ where
  pub targets : List T
  pub counter : ℕ

-- What a call of GetNext ends in: a target with its index, an error, or an index out of range.
pub data Next {ℓ} (T : Type ℓ) : Type ℓ where
  next : T → ℕ → Next T
  no_targets : Next T
  out_of_range : Next T

module _ {ℓ} {T : Type ℓ} where
  unfoldable pub new_round_robin : List T → RoundRobin T
  new_round_robin targets = record { targets = targets; counter = 0 }

  abbrev pub at_index : List T → ℕ → Next T
  at_index targets i = elim (get_elem? targets i) [ none ↦ out_of_range | some t ↦ next t i ]

  -- GetNext; the argument `exclude` of the source is ignored there.
  unfoldable pub get_next : RoundRobin T → List ℕ → RoundRobin T × Next T
  get_next r exclude = elim r.targets [
    | [] ↦ (r, no_targets)
    | t ∷ ts ↦
        (record r { counter = (r.counter + 1) % length (t ∷ ts) }, at_index (t ∷ ts) r.counter)
  ]

  -- GetByCounter at a counter that is not negative; `none` is the zero value of T.
  unfoldable pub get_by_counter : RoundRobin T → ℕ → Option T
  get_by_counter r counter = elim r.targets [
    | [] ↦ none
    | t ∷ ts ↦ get_elem? (t ∷ ts) (counter % length (t ∷ ts))
  ]

  unfoldable pub get_counter : RoundRobin T → ℕ
  get_counter r = r.counter

  unfoldable pub inc_counter : RoundRobin T → RoundRobin T
  inc_counter r = record r { counter = r.counter + 1 }

  unfoldable pub is_available : RoundRobin T → Bool
  is_available r = not (length r.targets == 0)

  unfoldable pub get_targets_count : RoundRobin T → ℕ
  get_targets_count r = length r.targets
