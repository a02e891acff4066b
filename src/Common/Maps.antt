-- ===== src/Common/Maps.antt =====
-- Go maps keyed by text, as association lists with at most one entry for a key.
use Prim.Native.String.{String}
use mathlib.Core.Path.{◌≡◌, refl, sym, subst}
use mathlib.Core.Logic.{inl, inr}
use mathlib.Core.Bool.{true, false}
use mathlib.Core.List.{List, [], ◌∷◌}
use mathlib.Core.Option.{Option, none, some}
use native.Mathlib.Omega.{arith}
use text.Mathlib.TextEquality.{eq_iff}
use aura_proxy.Common.Tests.{if◌then◌else◌, str_eq, Bool-cases}

abbrev pub Map {ℓ} : Type ℓ → Type ℓ
Map V = List (String × V)

module _ {ℓ} {V : Type ℓ} where
  -- m[k] with its `ok` flag.
  unfoldable pub find : Map V → String → Option V
  find [] k = none
  find ((j, v) ∷ m) k = if str_eq j k then some v else find m k

  -- m[k] = v
  unfoldable pub put : Map V → String → V → Map V
  put [] k v = (k, v) ∷ []
  put ((j, w) ∷ m) k v = if str_eq j k then (j, v) ∷ m else (j, w) ∷ put m k v

  -- delete(m, k)
  unfoldable pub del : Map V → String → Map V
  del [] k = []
  del ((j, w) ∷ m) k = let rest = del m k in if str_eq j k then rest else (j, w) ∷ rest

  pub find-put :
      (m : Map V) (k : String) (v : V) (j : String)
      → find (put m k v) j ≡ (if str_eq k j then some v else find m j)
  unfolding find put
  find-put [] k v j = refl
  find-put ((i, w) ∷ m) k v j = ground (arith, find-put m k v j, eq_iff k j, eq_iff i j, eq_iff i k)

  pub find-del :
      (m : Map V) (k j : String) → find (del m k) j ≡ (if str_eq k j then none else find m j)
  unfolding find del
  find-del [] k j = ground arith
  find-del ((i, w) ∷ m) k j = ground (arith, find-del m k j, eq_iff k j, eq_iff i j, eq_iff i k)

-- A predicate on every value of a map.
module _ {ℓ κ} {V : Type ℓ} (P : V → Type κ) where
  abbrev pub AllValues : Map V → Type κ
  AllValues [] = Unit
  AllValues ((k, v) ∷ m) = P v × AllValues m

  pub AllValues-put : (m : Map V) (k : String) (v : V) → AllValues m → P v → AllValues (put m k v)
  unfolding put
  AllValues-put [] k v h p = (p, tt)
  AllValues-put ((j, w) ∷ m) k v h p = elim (Bool-cases (str_eq j k)) [
    | inl e ↦ rw e (p, h.1)
    | inr e ↦ rw e (h.0, AllValues-put m k v h.1 p)
  ]

  pub AllValues-find : (m : Map V) (k : String) (v : V) → AllValues m → find m k ≡ some v → P v
  unfolding find
  AllValues-find [] k v h e = cc
  AllValues-find ((j, w) ∷ m) k v h e = elim (Bool-cases (str_eq j k)) [
    | inl q ↦ subst P (let same : w ≡ v = ground arith in same) h.0
    | inr q ↦ AllValues-find m k v h.1 (rw q at e)
  ]

pub str_eq_refl : (s : String) → str_eq s s ≡ true
str_eq_refl s = (eq_iff s s).1 refl

-- No key occurs twice.
abbrev pub HasKeysOnce : {V : Type 0} → Map V → Type 0
HasKeysOnce [] = Unit
HasKeysOnce ((k, v) ∷ m) = (find m k ≡ none) × HasKeysOnce m

module _ {V : Type 0} where
  pub put-HasKeysOnce : (m : Map V) (k : String) (v : V) → HasKeysOnce m → HasKeysOnce (put m k v)
  unfolding put
  put-HasKeysOnce [] k v h = (unfold find in refl, tt)
  put-HasKeysOnce ((j, w) ∷ m) k v h = elim (Bool-cases (str_eq j k)) [
    | inl e ↦ rw e h
    | inr e ↦ rw e (rw (find-put m k v j) (other e), put-HasKeysOnce m k v h.1)
  ]
    where
      other : str_eq j k ≡ false → (if str_eq k j then some v else find m j) ≡ none
      other e = elim (Bool-cases (str_eq k j)) [
        | inl q ↦ absurd (let a = (eq_iff k j).0 q in let b = (eq_iff j k).1 (sym a) in cc)
        | inr q ↦ rw q h.0
      ]
