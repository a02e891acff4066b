-- ===== src/Adapter/Blocks.antt =====
-- prepare.go: what blockMethodsValidation makes of the requests of a body.
use aura_proxy.Common.{
  ◌≡◌, ◌≢◌, refl, sym, ap, subst, ◌∙◌, ◌⊎◌, inl, inr, Bool, true, false, not, ◌||◌, List, [], ◌∷◌,
  ◌++◌, Option, none, some, is_some, arith, All, Bool-cases,
}
use mathlib.Core.Option.{some-injective}
use aura_proxy.Common.Int.{ℤ, pos, ◌≤ℤ◌, ltb_ℤ, eqb_ℤ, eq_of_parts}
use aura_proxy.Chains.Methods.{block_related_method}
use aura_proxy.Rpc.{
  number, text, other_param, Params, array, not_array, Request, RpcError, invalid_req_error,
  block_params_error, RpcResponse, parse_int,
}
use aura_proxy.Adapter.{
  block_param, number_of, smaller, refuse, validate_blocks, block_methods_validation,
}

-- Whether the parameters begin with a number that is an int64, and the block that it is.
abbrev pub block_of : Params → Option ℤ
block_of (array (number s ∷ ps)) = parse_int s
block_of _ = none

abbrev pub names_block : Request → Bool
names_block r = not (block_related_method r.method) || is_some (block_of r.params)

abbrev add_block : Bool → Option ℤ → List ℤ → List ℤ
add_block true (some n) ns = n ∷ ns
add_block _ _ ns = ns

-- The blocks that the requests name, in order.
abbrev pub blocks : List Request → List ℤ
blocks [] = []
blocks (r ∷ rs) = add_block (block_related_method r.method) (block_of r.params) (blocks rs)

abbrev Mem_ℤ : ℤ → List ℤ → Type 0
Mem_ℤ n [] = ⊥
Mem_ℤ n (m ∷ ms) = (n ≡ m) ⊎ Mem_ℤ n ms

-- The smallest of the numbers; 0 if there are none.
abbrev pub IsLeast : List ℤ → ℤ → Type 0
IsLeast [] b = b ≡ pos 0
IsLeast (n ∷ ns) b = All (λ m. b ≤ℤ m) (n ∷ ns) × Mem_ℤ b (n ∷ ns)

abbrev fold_blocks : ℤ → List ℤ → ℤ
fold_blocks block [] = block
fold_blocks block (n ∷ ns) = fold_blocks (smaller block n) ns

smaller-cases :
    (m n : ℤ) → m ≢ pos 0 → ((smaller m n ≡ m) × (m ≤ℤ n)) ⊎ ((smaller m n ≡ n) × (n ≤ℤ m))
smaller-cases m n p = elim (Bool-cases (eqb_ℤ m (pos 0))) [
  | inl e ↦ absurd (p (eq_of_parts m (pos 0) (ground (arith, e))))
  | inr e ↦ elim (Bool-cases (ltb_ℤ n m)) [
    | inl f ↦ rw (e, f) (inr (refl, ground (arith, f)))
    | inr f ↦ rw (e, f) (inl (refl, ground (arith, f)))
  ]
]

IsLeast-cons : (b m n : ℤ) (ns : List ℤ) → IsLeast (m ∷ ns) b → m ≤ℤ n → IsLeast (m ∷ n ∷ ns) b
IsLeast-cons b m n ns ((h, hs), inl e) q = ((h, (omega arith, hs)), inl e)
IsLeast-cons b m n ns ((h, hs), inr e) q = ((h, (omega arith, hs)), inr (inr e))

IsLeast-swap : (b m n : ℤ) (ns : List ℤ) → IsLeast (n ∷ ns) b → n ≤ℤ m → IsLeast (m ∷ n ∷ ns) b
IsLeast-swap b m n ns ((h, hs), e) q = ((omega arith, (h, hs)), inr e)

smaller_nonzero : (m n : ℤ) → m ≢ pos 0 → n ≢ pos 0 → smaller m n ≢ pos 0
smaller_nonzero m n p q r = elim (smaller-cases m n p) [
  | inl c ↦ p (sym c.0 ∙ r)
  | inr c ↦ q (sym c.0 ∙ r)
]

fold_blocks-IsLeast :
    (m : ℤ) (ns : List ℤ)
    → m ≢ pos 0
    → All (λ n. n ≢ pos 0) ns
    → IsLeast (m ∷ ns) (fold_blocks m ns)
fold_blocks-IsLeast m [] p h = ((ground arith, tt), inl refl)
fold_blocks-IsLeast m (n ∷ ns) p h =
    let ih = fold_blocks-IsLeast (smaller m n) ns (smaller_nonzero m n p h.0) h.1 in
    let b = fold_blocks (smaller m n) ns in
    elim (smaller-cases m n p) [
      | inl c ↦ IsLeast-cons b m n ns (subst (λ k. IsLeast (k ∷ ns) b) c.0 ih) c.1
      | inr c ↦ IsLeast-swap b m n ns (subst (λ k. IsLeast (k ∷ ns) b) c.0 ih) c.1
    ]

fold_from_zero-IsLeast :
    (ns : List ℤ) → All (λ n. n ≢ pos 0) ns → IsLeast ns (fold_blocks (pos 0) ns)
fold_from_zero-IsLeast [] h = refl
fold_from_zero-IsLeast (n ∷ ns) h = fold_blocks-IsLeast n ns h.0 h.1

-- The error for a request that names no block.
abbrev error_for : Params → RpcError
error_for not_array = invalid_req_error
error_for (array ps) = block_params_error

-- The response is the error of the first request that names no block, where it has to, with its ID.
abbrev pub IsFirstBad : List Request → RpcResponse → Type 0
IsFirstBad rs e =
    (front : List Request) × (bad : Request) × (back : List Request) × (rs ≡ front ++ bad ∷ back)
    × All (λ r. names_block r ≡ true) front
    × (names_block bad ≡ false)
    × (e ≡ record { error = error_for bad.params; id = some bad.id })

-- All requests that have to do name a block, and the smallest is returned; or the error of the first
-- that does not.
abbrev pub IsValidated : List Request → ℤ × Option RpcResponse → Type 0
IsValidated rs (b, none) = All (λ r. names_block r ≡ true) rs × IsLeast (blocks rs) b
IsValidated rs (b, some e) = IsFirstBad rs e

-- The same with the fold.
abbrev IsFolded : ℤ → List Request → ℤ × Option RpcResponse → Type 0
IsFolded m rs (b, none) = All (λ r. names_block r ≡ true) rs × (b ≡ fold_blocks m (blocks rs))
IsFolded m rs (b, some e) = IsFirstBad rs e

IsFolded-cons :
    (m k : ℤ) (r : Request) (rs : List Request) (result : ℤ × Option RpcResponse)
    → names_block r ≡ true
    → fold_blocks m (blocks (r ∷ rs)) ≡ fold_blocks k (blocks rs)
    → IsFolded k rs result
    → IsFolded m (r ∷ rs) result
IsFolded-cons m k r rs (b, none) v e h = ((v, h.0), h.1 ∙ sym e)
IsFolded-cons m k r rs (b, some x) v e (front, bad, back, q, fs, w, z) =
    (r ∷ front, bad, back, ap (λ l. r ∷ l) q, (v, fs), w, z)

IsFolded-bad :
    (m : ℤ) (r : Request) (rs : List Request)
    → names_block r ≡ false
    → IsFolded m (r ∷ rs) (refuse m r (error_for r.params))
IsFolded-bad m r rs v = ([], r, rs, refl, tt, v, refl)

number_of-cases :
    (o : Option ℤ)
    → ((n : ℤ) × (o ≡ some n) × ((number_of o).0 ≡ n) × ((number_of o).1 ≡ none))
      ⊎ ((o ≡ none) × ((number_of o).1 ≡ some block_params_error))
number_of-cases none = inr (refl, refl)
number_of-cases (some n) = inl (n, refl, refl, refl)

block_param-cases :
    (p : Params)
    → ((n : ℤ) × (block_of p ≡ some n) × ((block_param p).0 ≡ n) × ((block_param p).1 ≡ none))
      ⊎ ((block_of p ≡ none) × ((block_param p).1 ≡ some (error_for p)))
block_param-cases not_array = inr (refl, refl)
block_param-cases (array []) = inr (refl, refl)
block_param-cases (array (number s ∷ ps)) = number_of-cases (parse_int s)
block_param-cases (array (text s ∷ ps)) = inr (refl, refl)
block_param-cases (array (other_param ∷ ps)) = inr (refl, refl)

-- One request of the loop, by what it is.
module _ (m : ℤ) (r : Request) (rs : List Request) where
  validate_other :
      block_related_method r.method ≡ false → validate_blocks m (r ∷ rs) ≡ validate_blocks m rs
  unfolding validate_blocks
  validate_other other = rw other refl

  validate_named :
      (n : ℤ)
      → block_related_method r.method ≡ true
      → (block_param r.params).0 ≡ n
      → (block_param r.params).1 ≡ none
      → validate_blocks m (r ∷ rs) ≡ validate_blocks (smaller m n) rs
  unfolding validate_blocks
  validate_named n related v e = rw (related, e) (ap (λ k. validate_blocks (smaller m k) rs) v)

  validate_bad :
      (e : RpcError)
      → block_related_method r.method ≡ true
      → (block_param r.params).1 ≡ some e
      → validate_blocks m (r ∷ rs) ≡ refuse m r e
  unfolding validate_blocks
  validate_bad x related e = rw (related, e) refl

validate_blocks-IsFolded : (m : ℤ) (rs : List Request) → IsFolded m rs (validate_blocks m rs)
unfolding validate_blocks
validate_blocks-IsFolded m [] = (tt, refl)
validate_blocks-IsFolded m (r ∷ rs) = elim (Bool-cases (block_related_method r.method)) [
  | inr other ↦
      subst (λ k. IsFolded m (r ∷ rs) k) (sym (validate_other m r rs other))
        (IsFolded-cons m m r rs (validate_blocks m rs) (rw other refl) (rw other refl)
          (validate_blocks-IsFolded m rs))
  | inl related ↦ elim (block_param-cases r.params) [
    | inl (n, named, v, e) ↦
        subst (λ k. IsFolded m (r ∷ rs) k) (sym (validate_named m r rs n related v e))
          (IsFolded-cons m (smaller m n) r rs (validate_blocks (smaller m n) rs)
            (rw (related, named) refl) (rw (related, named) refl)
            (validate_blocks-IsFolded (smaller m n) rs))
    | inr (unnamed, e) ↦
        subst (λ k. IsFolded m (r ∷ rs) k)
          (sym (validate_bad m r rs (error_for r.params) related e))
          (IsFolded-bad m r rs (rw (related, unnamed) refl))
  ]
]

IsValidated-folded :
    (rs : List Request) (result : ℤ × Option RpcResponse)
    → All (λ n. n ≢ pos 0) (blocks rs)
    → IsFolded (pos 0) rs result
    → IsValidated rs result
IsValidated-folded rs (b, none) p h =
    (h.0, subst (λ k. IsLeast (blocks rs) k) (sym h.1) (fold_from_zero-IsLeast (blocks rs) p))
IsValidated-folded rs (b, some e) p h = h

folded_names :
    (rs : List Request) (result : ℤ × Option RpcResponse)
    → IsFolded (pos 0) rs result
    → result.1 ≡ none
    → All (λ r. names_block r ≡ true) rs
folded_names rs (b, none) h e = h.0
folded_names rs (b, some x) h e = absurd (ground arith)

-- Requests that pass name their blocks.
pub block_methods_validation-names :
    (rs : List Request)
    → (block_methods_validation rs).1 ≡ none
    → All (λ r. names_block r ≡ true) rs
block_methods_validation-names rs e =
    folded_names rs (block_methods_validation rs) (validate_blocks-IsFolded (pos 0) rs) e

-- If no request names block 0, blockMethodsValidation accepts the requests exactly if each that has to
-- names a block, and returns the smallest of these blocks, 0 for none; otherwise it returns the error
-- of the first request that does not, with its ID.
pub block_methods_validation-IsValidated :
    (rs : List Request)
    → All (λ n. n ≢ pos 0) (blocks rs)
    → IsValidated rs (block_methods_validation rs)
block_methods_validation-IsValidated rs p =
    IsValidated-folded rs (block_methods_validation rs) p (validate_blocks-IsFolded (pos 0) rs)

-- A request for block 0 that comes first is forgotten: the result is that of the others alone.
pub block_methods_validation_zero :
    (r : Request) (rs : List Request)
    → block_of r.params ≡ some (pos 0)
    → block_methods_validation (r ∷ rs) ≡ block_methods_validation rs
block_methods_validation_zero r rs h = elim (Bool-cases (block_related_method r.method)) [
  | inr other ↦ validate_other (pos 0) r rs other
  | inl related ↦ elim (block_param-cases r.params) [
    | inl (n, named, v, e) ↦
        validate_named (pos 0) r rs n related v e
        ∙ ap (λ k. validate_blocks k rs) (some-injective n (pos 0) (sym named ∙ h))
    | inr (unnamed, e) ↦ absurd (ground (arith, sym h ∙ unnamed))
  ]
]
