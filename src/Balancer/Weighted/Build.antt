-- ===== src/Balancer/Weighted/Build.antt =====
-- What NewProbabilisticBalancer accepts and what it builds.
use aura_proxy.Common.{
  suc, ◌<◌, ◌≡◌, ◌≢◌, refl, ap, sym, inl, inr, ◌∙◌, Bool, true, false, List, [], ◌∷◌, map, arith,
  ◌==◌, ==_iff, length, nil_of_length, length-map, any, All, Bool-cases, Result, ok, err,
}
use aura_proxy.Common.Float.{Float64, IsIeee}
use aura_proxy.Balancer.Weighted.{
  ProbabilisticBalancer, NewError, length_mismatch, no_target, negative_weight, zero_total,
  total_from, cumulative_from, new_probabilistic_balancer,
}
use aura_proxy.Balancer.Weighted.Choice.{IsWellFormed}

-- Not `<= 0`: what the router makes of every weight.
abbrev pub IsPositive : {F : Type 0} → Float64 F → F → Type 0
IsPositive fl w = fl.f_le w fl.f_zero ≡ false

module _ {F : Type 0} (fl : Float64 F) where
  length-cumulative_from : (sum : F) (ws : List F) → length (cumulative_from fl sum ws) ≡ length ws
  unfolding cumulative_from
  length-cumulative_from sum [] = refl
  length-cumulative_from sum (w ∷ ws) = ap suc (length-cumulative_from (fl.f_add sum w) ws)

  -- Summing positive weights from a positive start stays positive.
  total_from-IsPositive :
      IsIeee fl
      → (total : F) (ws : List F) → IsPositive fl total
      → All (IsPositive fl) ws
      → IsPositive fl (total_from fl total ws)
  unfolding total_from
  total_from-IsPositive ieee total [] h hs = h
  total_from-IsPositive ieee total (w ∷ ws) h hs =
      total_from-IsPositive ieee (fl.f_add total w) ws (ieee.add_pos total w h hs.0) hs.1

  total-IsPositive :
      IsIeee fl
      → (ws : List F) → 0 < length ws
      → All (IsPositive fl) ws
      → IsPositive fl (total_from fl fl.f_zero ws)
  unfolding total_from
  total-IsPositive ieee [] n hs = elim n [ ]
  total-IsPositive ieee (w ∷ ws) n hs =
      total_from-IsPositive ieee (fl.f_add fl.f_zero w) ws (ieee.zero_add_pos w hs.0) hs.1

  none_negative :
      IsIeee fl → (ws : List F) → All (IsPositive fl) ws → any (λ w. fl.f_lt w fl.f_zero) ws ≡ false
  none_negative ieee [] hs = refl
  none_negative ieee (w ∷ ws) hs = rw (ieee.not_lt w hs.0) (none_negative ieee ws hs.1)

  -- The sum of the weights from the left, and the sums up to each of them.
  abbrev sum_of : F → List F → F
  sum_of acc [] = acc
  sum_of acc (w ∷ ws) = sum_of (fl.f_add acc w) ws

  abbrev sums_of : F → List F → List F
  sums_of acc [] = []
  sums_of acc (w ∷ ws) = fl.f_add acc w ∷ sums_of (fl.f_add acc w) ws

  total_from-sum_of : (acc : F) (ws : List F) → total_from fl acc ws ≡ sum_of acc ws
  unfolding total_from
  total_from-sum_of acc [] = refl
  total_from-sum_of acc (w ∷ ws) = total_from-sum_of (fl.f_add acc w) ws

  cumulative_from-sums_of : (acc : F) (ws : List F) → cumulative_from fl acc ws ≡ sums_of acc ws
  unfolding cumulative_from
  cumulative_from-sums_of acc [] = refl
  cumulative_from-sums_of acc (w ∷ ws) =
      ap (λ l. fl.f_add acc w ∷ l) (cumulative_from-sums_of (fl.f_add acc w) ws)

  module _ {T : Type 0} (targets : List T) (weights : List F) where
    abbrev normalized : List F
    normalized = map (λ w. fl.f_div w (total_from fl fl.f_zero weights)) weights

    abbrev pub balancer_of : ProbabilisticBalancer F T
    balancer_of = record {
      targets = targets;
      weights = normalized;
      cumulative_weights = cumulative_from fl fl.f_zero normalized;
    }

    balancer_of-IsWellFormed :
        length targets ≡ length weights → 0 < length targets → IsWellFormed balancer_of
    balancer_of-IsWellFormed same nonempty = record {
      nonempty = nonempty;
      weighted = length-map weights _ ∙ sym same;
      cumulative = length-cumulative_from fl.f_zero normalized ∙ length-map weights _ ∙ sym same;
    }

    -- The balancer, described by sums from the left.
    abbrev described : ProbabilisticBalancer F T
    described =
        let shares = map (λ w. fl.f_div w (sum_of fl.f_zero weights)) weights in
        record {
          targets = targets;
          weights = shares;
          cumulative_weights = sums_of fl.f_zero shares;
        }

    balancer_of-described : balancer_of ≡ described
    balancer_of-described =
        rw
          (
            total_from-sum_of fl.f_zero weights,
            cumulative_from-sums_of fl.f_zero
                (map (λ w. fl.f_div w (sum_of fl.f_zero weights)) weights),
          )
          refl

    -- The conditions of the errors, in the order of their checks: what it says of the arguments that
    -- the first of them applies, or none.
    abbrev IsMatched : Type 0
    IsMatched = (length targets ≡ length weights) × (0 < length targets)

    abbrev some_negative : Bool
    some_negative = any (λ w. fl.f_lt w fl.f_zero) weights

    abbrev sums_to_zero : Bool
    sums_to_zero = fl.f_eq (sum_of fl.f_zero weights) fl.f_zero

    abbrev pub Explained : Result NewError (ProbabilisticBalancer F T) → Type 0
    Explained (ok b) =
        IsMatched
        × (some_negative ≡ false)
        × (sums_to_zero ≡ false)
        × (b ≡ described)
        × IsWellFormed b
    Explained (err length_mismatch) = length targets ≢ length weights
    Explained (err no_target) = (targets ≡ []) × (weights ≡ [])
    Explained (err negative_weight) = IsMatched × (some_negative ≡ true)
    Explained (err zero_total) = IsMatched × (some_negative ≡ false) × (sums_to_zero ≡ true)

    zero_total_by :
        (x : Bool) → sums_to_zero ≡ x → fl.f_eq (total_from fl fl.f_zero weights) fl.f_zero ≡ x
    zero_total_by x h =
        ap (λ total. fl.f_eq total fl.f_zero) (total_from-sum_of fl.f_zero weights) ∙ h

    -- The constructor reports the first that applies of: lengths that differ, no target, a negative
    -- weight, a total of zero. It returns a balancer only if none of them applies: over the targets in
    -- order, with each weight divided by the total and the sums of these up to each target.
    pub new_probabilistic_balancer-Explained :
        Explained (new_probabilistic_balancer fl targets weights)
    unfolding new_probabilistic_balancer
    new_probabilistic_balancer-Explained = elim (Bool-cases (length targets == length weights)) [
      | inr e ↦ rw e (λ same. cc ((==_iff (length targets) (length weights)).1 same))
      | inl e ↦ rw e (elim (Bool-cases (length targets == 0)) [
        | inl f ↦ rw f (nil_of_length targets (ground arith), nil_of_length weights (ground arith))
        | inr f ↦ rw f (elim (Bool-cases some_negative) [
          | inl g ↦ rw g ((ground arith, ground arith), g)
          | inr g ↦ rw g (elim (Bool-cases sums_to_zero) [
            | inl h ↦ rw (zero_total_by true h) ((ground arith, ground arith), g, h)
            | inr h ↦ rw (zero_total_by false h) (
              (ground arith, ground arith),
              g,
              h,
              balancer_of-described,
              balancer_of-IsWellFormed (ground arith) (ground arith),
            )
          ])
        ])
      ])
    ]

    -- With IEEE arithmetic, positive weights for a non-empty list of targets are always accepted.
    pub new_probabilistic_balancer_total :
        IsIeee fl
        → length targets ≡ length weights
        → 0 < length targets
        → All (IsPositive fl) weights
        → (new_probabilistic_balancer fl targets weights ≡ ok balancer_of)
          × IsWellFormed balancer_of
    unfolding new_probabilistic_balancer
    new_probabilistic_balancer_total ieee same nonempty hs = (
      rw
          (
            (==_iff (length targets) (length weights)).1 same,
            not_zero,
            none_negative ieee weights hs,
            ieee.not_eq _ (total-IsPositive ieee weights (omega arith) hs),
          )
          refl,
      balancer_of-IsWellFormed same nonempty,
    )
      where
        not_zero : (length targets == 0) ≡ false
        not_zero = ground arith
