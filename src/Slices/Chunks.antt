-- ===== src/Slices/Chunks.antt =====
-- util.go: the chunks of a slice.
use aura_proxy.Common.{
  ℕ, zero, suc, ◌≤◌, ◌≡◌, refl, ap, ◌∙◌, List, [], ◌∷◌, ◌++◌, Option, none, some, length,
  length-drop, take, drop, ltb, All, arith, Bool-cases, inl, inr, if◌then◌else◌,
}
use aura_proxy.Slices.{with_chunk, chunk}

module _ {A : Type 0} where
  abbrev pub join_all : List (List A) → List A
  join_all [] = []
  join_all (c ∷ cs) = c ++ join_all cs

  take-drop : (n : ℕ) (xs : List A) → take n xs ++ drop n xs ≡ xs
  take-drop zero xs = refl
  take-drop (suc n) [] = refl
  take-drop (suc n) (x ∷ xs) = ap (λ l. x ∷ l) (take-drop n xs)

  length-take_le : (n : ℕ) (xs : List A) → length (take n xs) ≤ n
  length-take_le zero xs = omega arith
  length-take_le (suc n) [] = omega arith
  length-take_le (suc n) (x ∷ xs) = omega (arith, length-take_le n xs)

  -- A chunk is not empty and has at most `size` elements.
  abbrev pub IsSized : ℕ → List A → Type 0
  IsSized size c = (1 ≤ length c) × (length c ≤ size)

  abbrev pub IsChunked : List A → ℕ → Option (List (List A)) → Type 0
  IsChunked xs size none = ⊥
  IsChunked xs size (some cs) = (join_all cs ≡ xs) × All (IsSized size) cs

  length-take : (n : ℕ) (xs : List A) → n ≤ length xs → length (take n xs) ≡ n
  length-take zero xs h = refl
  length-take (suc n) [] h = omega arith
  length-take (suc n) (x ∷ xs) h = ap suc (length-take n xs (omega arith))

  All-IsSized-mono :
      (m n : ℕ) (cs : List (List A)) → m ≤ n → All (IsSized m) cs → All (IsSized n) cs
  All-IsSized-mono m n [] h k = tt
  All-IsSized-mono m n (c ∷ cs) h k =
      let below = k.0.1 in ((k.0.0, omega arith), All-IsSized-mono m n cs h k.1)

  with_chunk-IsChunked :
      (n size : ℕ) (xs : List A) (o : Option (List (List A)))
      → 1 ≤ n
      → n ≤ length xs
      → n ≤ size
      → IsChunked (drop n xs) n o
      → IsChunked xs size (with_chunk (take n xs) o)
  with_chunk-IsChunked n size xs none p q r h = h
  with_chunk-IsChunked n size xs (some cs) p q r h = (
    ap (λ l. take n xs ++ l) h.0 ∙ take-drop n xs,
    (
      (omega (arith, length-take n xs q), omega (arith, length-take n xs q)),
      All-IsSized-mono n size cs r h.1,
    ),
  )

  -- For a size of at least one the loop ends within as many rounds as the slice has elements, the
  -- chunks joined are the slice, and each has between one and `size` elements.
  pub chunk-IsChunked :
      (fuel : ℕ) (xs : List A) (size : ℕ)
      → length xs ≤ fuel
      → 1 ≤ size
      → IsChunked xs size (chunk fuel xs size)
  unfolding chunk
  chunk-IsChunked zero [] size h k = (refl, tt)
  chunk-IsChunked zero (x ∷ xs) size h k = absurd (omega arith)
  chunk-IsChunked (suc fuel) [] size h k = (refl, tt)
  chunk-IsChunked (suc fuel) (x ∷ xs) size h k = elim (Bool-cases (ltb (length (x ∷ xs)) size)) [
    | inl e ↦ rw e (
        with_chunk-IsChunked (length (x ∷ xs)) size (x ∷ xs)
          (chunk fuel (drop (length (x ∷ xs)) (x ∷ xs)) (length (x ∷ xs))) (omega arith)
          (omega arith) (ground (arith, e))
          (chunk-IsChunked fuel (drop (length (x ∷ xs)) (x ∷ xs)) (length (x ∷ xs))
            (omega (arith, length-drop (length (x ∷ xs)) (x ∷ xs))) (omega arith)))
    | inr e ↦ rw e (
        with_chunk-IsChunked size size (x ∷ xs) (chunk fuel (drop size (x ∷ xs)) size) k
          (ground (arith, e)) (omega arith)
          (chunk-IsChunked fuel (drop size (x ∷ xs)) size (omega (arith, length-drop size (x ∷ xs)))
            k))
  ]

  -- For size 0 and a slice that is not empty the loop never ends.
  pub chunk_never_ends : (fuel : ℕ) (x : A) (xs : List A) → chunk fuel (x ∷ xs) 0 ≡ none
  unfolding chunk
  chunk_never_ends zero x xs = refl
  chunk_never_ends (suc fuel) x xs =
      let n = if ltb (length (x ∷ xs)) 0 then length (x ∷ xs) else 0 in
      let e : n ≡ 0 = ground arith in
      ap (λ k. with_chunk (take k (x ∷ xs)) (chunk fuel (drop k (x ∷ xs)) k)) e
      ∙ ap (with_chunk []) (chunk_never_ends fuel x xs)
