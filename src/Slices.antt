-- ===== src/Slices.antt =====
-- internal/pkg/util/util.go: the helpers on slices and maps. The loop of Chunk runs on fuel; a size is
-- not negative.
pub mod Chunks
mod Tests
use aura_proxy.Common.{
  ℕ, zero, suc, List, [], ◌∷◌, Option, none, some, length, take, drop, ltb, map, Map, if◌then◌else◌,
}

abbrev with_chunk : {A : Type 0} → List A → Option (List (List A)) → Option (List (List A))
with_chunk c none = none
with_chunk c (some cs) = some (c ∷ cs)

-- Chunk; `none` is a loop that is still running. The size shrinks to what is left, for good.
unfoldable pub chunk : {A : Type 0} → ℕ → List A → ℕ → Option (List (List A))
chunk zero [] size = some []
chunk zero (x ∷ xs) size = none
chunk (suc fuel) [] size = some []
chunk (suc fuel) (x ∷ xs) size =
    let n = if ltb (length (x ∷ xs)) size then length (x ∷ xs) else size in
    with_chunk (take n (x ∷ xs)) (chunk fuel (drop n (x ∷ xs)) n)

-- ConvertMap
unfoldable pub convert_map : {X Y : Type 0} → Map X → (X → Y) → Map Y
convert_map [] callback = []
convert_map ((k, v) ∷ m) callback = (k, callback v) ∷ convert_map m callback
