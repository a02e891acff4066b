-- ===== src/Usage/Copies.antt =====
-- Copies of maps, and maps whose keys occur once.
use aura_proxy.Common.{
  ◌≡◌, refl, subst, ◌∙◌, String, [], ◌∷◌, Option, none, some, str_eq, eq_iff, Bool-cases, inl, inr,
  Map, find, put, find-put, HasKeysOnce,
}
use aura_proxy.Usage.{copy_into}

module _ {V W : Type 0} (f : V → W) where
  abbrev pub image : Option V → Option W
  image none = none
  image (some v) = some (f v)

  abbrev or_else : Option W → Option W → Option W
  or_else none o = o
  or_else (some w) o = some w

  find-copy_into :
      (filled : Map W) (m : Map V) (j : String)
      → HasKeysOnce m
      → find (copy_into f filled m) j ≡ or_else (image (find m j)) (find filled j)
  unfolding copy_into find
  find-copy_into filled [] j h = refl
  find-copy_into filled ((k, v) ∷ m) j h =
      let rest = find-copy_into (put filled k (f v)) m j h.1 in
      let stored = find-put filled k (f v) j in
      elim (Bool-cases (str_eq k j)) [
        | inl q ↦
            let gone : find m j ≡ none = subst (λ i. find m i ≡ none) ((eq_iff k j).0 q) h.0 in
            rw (rest, gone, stored, q) refl
        | inr q ↦ rw (rest, stored, q) refl
      ]

  pub find-copy :
      (m : Map V) (j : String) → HasKeysOnce m → find (copy_into f [] m) j ≡ image (find m j)
  unfolding find
  find-copy m j h = find-copy_into [] m j h ∙ nothing (image (find m j))
    where
      nothing : (o : Option W) → or_else o (find [] j) ≡ o
      nothing none = refl
      nothing (some w) = refl
