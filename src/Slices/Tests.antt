-- ===== src/Slices/Tests.antt =====
-- A slice of five elements in chunks of two.
use aura_proxy.Common.{ℕ, ◌≡◌, refl, List, [], ◌∷◌, some, arith}
use aura_proxy.Slices.{chunk}
use aura_proxy.Slices.Chunks.{IsChunked, chunk-IsChunked}

abbrev five : List ℕ
five = 1 ∷ 2 ∷ 3 ∷ 4 ∷ 5 ∷ []

chunk-IsChunked_example : IsChunked five 2 (chunk 5 five 2)
chunk-IsChunked_example = chunk-IsChunked 5 five 2 (omega arith) (omega arith)

chunks : chunk 5 five 2 ≡ some ((1 ∷ 2 ∷ []) ∷ (3 ∷ 4 ∷ []) ∷ (5 ∷ []) ∷ [])
unfolding chunk
chunks = refl
