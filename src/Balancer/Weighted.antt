-- ===== src/Balancer/Weighted.antt =====
-- The ProbabilisticBalancer: weighted random choice with excluded indices. The draw of
-- `Float64()` is an argument of each call; indices in `exclude` are those that calls returned, so
-- they are not negative.
pub mod Sorting
pub mod Build
pub mod Choice
use aura_proxy.Common.{
  ℕ, suc, ◌+◌, Bool, true, false, not, ◌||◌, List, [], ◌∷◌, map, Option, none, some, ◌==◌, leb,
  if◌then◌else◌, length, get_elem?, any, Result, ok, err,
}
use aura_proxy.Common.Float.{Float64}

pub record ProbabilisticBalancer {ℓ} (F : Type 0) (T : Type ℓ) : Type ℓ where
  pub targets : List T
  pub weights : List F
  pub cumulative_weights : List F

pub data NewError : Type 0 where
  length_mismatch no_target negative_weight zero_total : NewError

pub data NextError : Type 0 where
  no_targets no_target_selected all_excluded : NextError

-- What a call of GetNext ends in; `out_of_range` is Go's panic on an index.
pub data Pick {ℓ} (T : Type ℓ) : Type ℓ where
  picked : T → ℕ → Pick T
  failed : NextError → Pick T
  out_of_range : Pick T

-- sort.Ints
abbrev pub insert_int : ℕ → List ℕ → List ℕ
insert_int x [] = x ∷ []
insert_int x (y ∷ ys) = if leb x y then x ∷ y ∷ ys else y ∷ insert_int x ys

unfoldable pub sort_ints : List ℕ → List ℕ
sort_ints [] = []
sort_ints (x ∷ xs) = insert_int x (sort_ints xs)

-- `excludeIndex < len(exclude) && i == exclude[excludeIndex]`, on what is left of `exclude`.
abbrev pub is_next : ℕ → List ℕ → Bool
is_next i [] = false
is_next i (x ∷ xs) = i == x

abbrev pub rest_of {ℓ} : {A : Type ℓ} → List A → List A
rest_of [] = []
rest_of (x ∷ xs) = xs

abbrev pub is_nil {ℓ} : {A : Type ℓ} → List A → Bool
is_nil [] = true
is_nil (x ∷ xs) = false

-- The last index of a non-empty slice of candidates.
abbrev pub last_index {ℓ} : {A : Type ℓ} → ℕ → List (ℕ × A) → ℕ
last_index i [] = i
last_index i ((j, c) ∷ cs) = last_index j cs

abbrev pub pick_at {ℓ} : {T : Type ℓ} → List T → ℕ → Pick T
pick_at targets i = elim (get_elem? targets i) [ none ↦ out_of_range | some t ↦ picked t i ]

module _ {F : Type 0} (fl : Float64 F) where
  open fl use {f_zero, f_add, f_mul, f_div, f_lt, f_le, f_eq}

  unfoldable pub total_from : F → List F → F
  total_from total [] = total
  total_from total (w ∷ ws) = total_from (f_add total w) ws

  unfoldable pub cumulative_from : F → List F → List F
  cumulative_from sum [] = []
  cumulative_from sum (w ∷ ws) = f_add sum w ∷ cumulative_from (f_add sum w) ws

  -- The first index from i on whose cumulative weight is not below the draw.
  unfoldable pub first_reached : ℕ → F → List F → Option ℕ
  first_reached i value [] = none
  first_reached i value (cw ∷ cws) =
      if f_le value cw then some i else first_reached (suc i) value cws

  -- The same over the candidates, which carry their original index.
  unfoldable pub first_candidate : F → List (ℕ × F) → Option ℕ
  first_candidate value [] = none
  first_candidate value ((j, cw) ∷ cs) = if f_le value cw then some j else first_candidate value cs

  module _ {ℓ} {T : Type ℓ} where
    unfoldable pub new_probabilistic_balancer :
        List T → List F → Result NewError (ProbabilisticBalancer F T)
    new_probabilistic_balancer targets weights =
        if not (length targets == length weights)
        then err length_mismatch
        else if length targets == 0
        then err no_target
        else if any (λ w. f_lt w f_zero) weights
        then err negative_weight
        else (let total = total_from f_zero weights in
            let normalized = map (λ w. f_div w total) weights in
            if f_eq total f_zero
            then err zero_total
            else ok (record {
              targets = targets;
              weights = normalized;
              cumulative_weights = cumulative_from f_zero normalized;
            }))

    -- The loop over p.targets: the indices that are kept, each with the weight summed up to it,
    -- and the sum. `none` is an index out of range of p.weights.
    unfoldable pub candidates : ℕ → List T → List F → List ℕ → F → Option (List (ℕ × F) × F)
    candidates i [] weights exclude sum = some ([], sum)
    candidates i (t ∷ ts) weights exclude sum =
        let skipped = candidates (suc i) ts weights (rest_of exclude) sum in
        let kept : Option (List (ℕ × F) × F) = elim (get_elem? weights i) [
          | none ↦ none
          | some w ↦ elim (candidates (suc i) ts weights exclude (f_add sum w)) [
            | none ↦ none
            | some (cs, total) ↦ some ((i, f_add sum w) ∷ cs, total)
          ]
        ] in
        if is_next i exclude then skipped else kept

    abbrev pub choose : List T → F → List (ℕ × F) × F → Pick T
    choose targets draw ([], sum) = failed all_excluded
    choose targets draw ((j, cw) ∷ cs, sum) =
        if f_eq sum f_zero
        then pick_at targets j
        else elim (first_candidate (f_mul draw sum) ((j, cw) ∷ cs)) [
          | none ↦ pick_at targets (last_index j cs)
          | some i ↦ pick_at targets i
        ]

    -- The path with exclusions, on the sorted slice.
    unfoldable pub pick_excluding : ProbabilisticBalancer F T → List ℕ → F → Pick T
    pick_excluding p exclude draw = elim (candidates 0 p.targets p.weights exclude f_zero) [
      | none ↦ out_of_range
      | some found ↦ choose p.targets draw found
    ]

    -- The path without exclusions.
    unfoldable pub pick_any : ProbabilisticBalancer F T → F → Pick T
    pick_any p draw = elim (first_reached 0 draw p.cumulative_weights) [
      | none ↦ failed no_target_selected
      | some i ↦ pick_at p.targets i
    ]

    -- GetNext. It sorts the caller's slice in place, so the slice is returned with the result.
    unfoldable pub get_next : ProbabilisticBalancer F T → List ℕ → F → Pick T × List ℕ
    get_next p exclude draw =
        if is_nil p.targets
        then (failed no_targets, exclude)
        else if is_nil exclude
        then (pick_any p draw, exclude)
        else (pick_excluding p (sort_ints exclude) draw, sort_ints exclude)

    unfoldable pub is_available : ProbabilisticBalancer F T → Bool
    is_available p = not (length p.targets == 0)

    unfoldable pub get_targets_count : ProbabilisticBalancer F T → ℕ
    get_targets_count p = length p.targets
