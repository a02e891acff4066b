-- ===== src/Balancer/Weighted/Choice.antt =====
-- Which target GetNext hands out.
use aura_proxy.Common.{
  ℕ, suc, ◌+◌, ◌≤◌, ◌<◌, ◌≡◌, ◌≢◌, refl, ap, subst, inl, inr, false, true, List, [], ◌∷◌, none,
  some, arith, length, get_elem?, get_elem?-total, All, Bool-cases, Option-cases,
}
use aura_proxy.Common.Float.{Float64}
use aura_proxy.Balancer.Weighted.{
  ProbabilisticBalancer, Pick, picked, failed, out_of_range, no_targets, no_target_selected,
  all_excluded, is_next, last_index, first_candidate, first_reached, candidates, sort_ints, pick_at,
  choose, pick_any, pick_excluding, get_next, is_nil,
}
use aura_proxy.Balancer.Weighted.Sorting.{
  mem_int, Distinct, Rising, Rising-weaken, mem_int-below, mem_int-sort_ints, sort_ints-Rising,
  is_nil-sort_ints, Rising-Distinct,
}

-- What the constructor establishes: one weight and one cumulative weight for each target.
pub record IsWellFormed {ℓ} {F : Type 0} {T : Type ℓ} (p : ProbabilisticBalancer F T) : Type 0 where
  pub nonempty : 0 < length p.targets
  pub weighted : length p.weights ≡ length p.targets
  pub cumulative : length p.cumulative_weights ≡ length p.targets

-- An index that the loop may keep: in the range of the targets left, and not excluded.
abbrev IsFree : ℕ → ℕ → List ℕ → ℕ → Type 0
IsFree lo bound exclude j = (lo ≤ j) × (j < bound) × (mem_int j exclude ≡ false)

abbrev AllFree : {F : Type 0} → ℕ → ℕ → List ℕ → List (ℕ × F) → Type 0
AllFree lo bound exclude [] = Unit
AllFree lo bound exclude (c ∷ cs) = IsFree lo bound exclude c.0 × AllFree lo bound exclude cs

AllFree-below :
    {F : Type 0} (lo bound : ℕ) (exclude : List ℕ) (cs : List (ℕ × F))
    → AllFree (suc lo) bound exclude cs
    → AllFree lo bound exclude cs
AllFree-below lo bound exclude [] h = tt
AllFree-below lo bound exclude (c ∷ cs) h = ground (arith, AllFree-below lo bound exclude cs)

AllFree-skip :
    {F : Type 0} (lo bound : ℕ) (exclude : List ℕ) (cs : List (ℕ × F))
    → AllFree (suc lo) bound exclude cs
    → AllFree lo bound (lo ∷ exclude) cs
AllFree-skip lo bound exclude [] h = tt
AllFree-skip lo bound exclude (c ∷ cs) h = ground (arith, AllFree-skip lo bound exclude cs)

AllFree-last :
    {F : Type 0} (lo bound : ℕ) (exclude : List ℕ) (j : ℕ) (cs : List (ℕ × F))
    → IsFree lo bound exclude j
    → AllFree lo bound exclude cs
    → IsFree lo bound exclude (last_index j cs)
AllFree-last lo bound exclude j [] f h = f
AllFree-last lo bound exclude j ((k, c) ∷ cs) f h = AllFree-last lo bound exclude k cs h.0 h.1

module _ {F : Type 0} (fl : Float64 F) where
  AllFree-first :
      (lo bound : ℕ) (exclude : List ℕ) (value : F) (cs : List (ℕ × F)) (i : ℕ)
      → AllFree lo bound exclude cs
      → first_candidate fl value cs ≡ some i
      → IsFree lo bound exclude i
  unfolding first_candidate
  AllFree-first lo bound exclude value [] i h e = cc
  AllFree-first lo bound exclude value ((j, cw) ∷ cs) i h e =
      ground (arith, AllFree-first lo bound exclude value cs i)

  module _ {ℓ} {T : Type ℓ} where
    -- On a rising slice the loop never indexes out of range, and keeps free indices only.
    candidates-AllFree :
        (i : ℕ) (ts : List T) (ws : List F) (exclude : List ℕ) (sum : F)
        → i + length ts ≡ length ws
        → Rising i exclude
        → (cs : List (ℕ × F)) × (total : F) × (candidates fl i ts ws exclude sum ≡ some (cs, total))
          × AllFree i (length ws) exclude cs
    unfolding candidates
    candidates-AllFree i [] ws exclude sum h r = ([], sum, refl, tt)
    candidates-AllFree i (t ∷ ts) ws [] sum h r =
        let (w, ew) = get_elem?-total ws i (omega arith) in
        let (cs, total, e, free) =
          candidates-AllFree (suc i) ts ws [] (fl.f_add sum w) (omega arith) tt in
        (
          (i, fl.f_add sum w) ∷ cs,
          total,
          ground (arith, e, ew),
          ((omega arith, omega arith, refl), AllFree-below i (length ws) [] cs free),
        )
    candidates-AllFree i (t ∷ ts) ws (x ∷ xs) sum h r = elim (Bool-cases (is_next i (x ∷ xs))) [
      | inl same ↦
          let at : i ≡ x = ground arith in
          let (cs, total, e, free) =
            candidates-AllFree (suc i) ts ws xs sum (omega arith)
              (Rising-weaken (suc i) (suc x) xs (omega arith) r.1) in
          (
            cs,
            total,
            ground (arith, e),
            subst (λ k. AllFree i (length ws) (k ∷ xs) cs) at
                (AllFree-skip i (length ws) xs cs free),
          )
      | inr other ↦
          let before : suc i ≤ x = ground arith in
          let (w, ew) = get_elem?-total ws i (omega arith) in
          let (cs, total, e, free) =
            candidates-AllFree (suc i) ts ws (x ∷ xs) (fl.f_add sum w) (omega arith)
              (before, r.1) in
          (
            (i, fl.f_add sum w) ∷ cs,
            total,
            ground (arith, e, ew),
            (
              (omega arith, omega arith, ground (arith, mem_int-below i (suc x) xs)),
              AllFree-below i (length ws) (x ∷ xs) cs free,
            ),
          )
    ]

    -- It keeps nothing only if every index is excluded.
    candidates-eq-nil :
        (i : ℕ) (ts : List T) (ws : List F) (exclude : List ℕ) (sum total : F) (j : ℕ)
        → candidates fl i ts ws exclude sum ≡ some ([], total)
        → i ≤ j
        → j < i + length ts
        → mem_int j exclude ≡ true
    unfolding candidates
    candidates-eq-nil i [] ws exclude sum total j e h k = absurd (omega arith)
    candidates-eq-nil i (t ∷ ts) ws [] sum total j e h k = ground arith
    candidates-eq-nil i (t ∷ ts) ws (x ∷ xs) sum total j e h k =
        ground (arith, candidates-eq-nil (suc i) ts ws xs sum total j)

module _ {F : Type 0} (fl : Float64 F) {T : Type 0} (p : ProbabilisticBalancer F T) (draw : F) where
  -- What each result of GetNext says of the call.
  abbrev pub Justified : List ℕ → Pick T → Type 0
  Justified exclude (picked t i) = (get_elem? p.targets i ≡ some t) × (mem_int i exclude ≡ false)
  Justified exclude (failed no_targets) = ⊥
  Justified exclude (failed no_target_selected) =
      (exclude ≡ []) × All (λ cw. fl.f_le draw cw ≡ false) p.cumulative_weights
  Justified exclude (failed all_excluded) =
      (exclude ≢ []) × ((j : ℕ) → j < length p.targets → mem_int j exclude ≡ true)
  Justified exclude out_of_range = ⊥

  pick_at-Justified :
      (exclude : List ℕ) (i : ℕ)
      → i < length p.targets
      → mem_int i exclude ≡ false
      → Justified exclude (pick_at p.targets i)
  pick_at-Justified exclude i h m = let (t, e) = get_elem?-total p.targets i h in ground (arith, e)

  first_reached_above :
      (i : ℕ) (cws : List F)
      → first_reached fl i draw cws ≡ none
      → All (λ cw. fl.f_le draw cw ≡ false) cws
  unfolding first_reached
  first_reached_above i [] e = tt
  first_reached_above i (cw ∷ cws) e = ground (arith, first_reached_above (suc i) cws)

  first_reached_bound :
      (i j : ℕ) (cws : List F) → first_reached fl i draw cws ≡ some j → j < i + length cws
  unfolding first_reached
  first_reached_bound i j [] e = cc
  first_reached_bound i j (cw ∷ cws) e = ground (arith, first_reached_bound (suc i) j cws)

  pick_any-Justified : IsWellFormed p → Justified [] (pick_any fl p draw)
  unfolding pick_any
  pick_any-Justified wf = elim (Option-cases (first_reached fl 0 draw p.cumulative_weights)) [
    | inl e ↦ rw (e, pick_any) (refl, first_reached_above 0 p.cumulative_weights e)
    | inr (i, e) ↦
        rw (e, pick_any)
          (pick_at-Justified [] i
            (omega (arith, first_reached_bound 0 i p.cumulative_weights e, wf.cumulative)) refl)
  ]

  choose-Justified :
      (exclude : List ℕ) (cs : List (ℕ × F)) (sum : F)
      → exclude ≢ []
      → AllFree 0 (length p.targets) exclude cs
      → (cs ≡ [] → (j : ℕ) → j < length p.targets → mem_int j exclude ≡ true)
      → Justified exclude (choose fl p.targets draw (cs, sum))
  choose-Justified exclude [] sum ne free full = (ne, full refl)
  choose-Justified exclude ((j, cw) ∷ cs) sum ne free full =
      elim (Bool-cases (fl.f_eq sum fl.f_zero)) [
        | inl empty ↦ rw empty (free_pick j free.0)
        | inr weighted ↦
            elim (Option-cases (first_candidate fl (fl.f_mul draw sum) ((j, cw) ∷ cs))) [
              | inl e ↦
                  rw (weighted, e)
                    (free_pick (last_index j cs) (AllFree-last 0 _ exclude j cs free.0 free.1))
              | inr (i, e) ↦
                  rw (weighted, e)
                    (free_pick i (AllFree-first fl 0 _ exclude _ ((j, cw) ∷ cs) i free e))
            ]
      ]
    where
      free_pick :
          (i : ℕ) → IsFree 0 (length p.targets) exclude i → Justified exclude (pick_at p.targets i)
      free_pick i f = pick_at-Justified exclude i f.1 f.2

  pick_excluding-Justified :
      (exclude : List ℕ)
      → IsWellFormed p
      → exclude ≢ []
      → Rising 0 exclude
      → Justified exclude (pick_excluding fl p exclude draw)
  unfolding pick_excluding
  pick_excluding-Justified exclude wf ne r =
      let (cs, total, e, free) =
        candidates-AllFree fl 0 p.targets p.weights exclude fl.f_zero (omega (arith, wf.weighted))
          r in
      rw (e, pick_excluding)
        (choose-Justified exclude cs total ne (subst (λ b. AllFree 0 b exclude cs) wf.weighted free)
          (λ nil j h.
            candidates-eq-nil fl 0 p.targets p.weights exclude fl.f_zero total j
              (subst (λ l. candidates fl 0 p.targets p.weights exclude fl.f_zero ≡ some (l, total))
                nil e)
              (omega arith) (omega arith)))

  Justified-sort_ints :
      (exclude : List ℕ) (k : Pick T)
      → exclude ≢ []
      → Justified (sort_ints exclude) k
      → Justified exclude k
  Justified-sort_ints exclude (picked t i) ne h = (h.0, rw (← mem_int-sort_ints i exclude) h.1)
  Justified-sort_ints exclude (failed no_targets) ne h = h
  Justified-sort_ints exclude (failed no_target_selected) ne h =
      absurd (ne (nil_of_is_nil exclude (rw (← is_nil-sort_ints exclude, h.0))))
    where
      nil_of_is_nil : (xs : List ℕ) → is_nil xs ≡ true → xs ≡ []
      nil_of_is_nil [] e = refl
      nil_of_is_nil (x ∷ xs) e = cc
  Justified-sort_ints exclude (failed all_excluded) ne h =
      (ne, λ j b. rw (← mem_int-sort_ints j exclude) (h.1 j b))
  Justified-sort_ints exclude out_of_range ne h = h

  not_nil : (ts : List T) → 0 < length ts → is_nil ts ≡ false
  not_nil [] h = elim h [ ]
  not_nil (t ∷ ts) h = refl

  not_nil-sort_ints : (x : ℕ) (xs : List ℕ) → sort_ints (x ∷ xs) ≢ []
  not_nil-sort_ints x xs e = cc (is_nil-sort_ints (x ∷ xs), ap is_nil e)

  -- For a balancer that the constructor built and a slice without repetition, GetNext never panics.
  -- A target that it returns is the one at the returned index, and that index is not excluded. It
  -- fails only in two ways: with exclusions, if every index is excluded; without, if the draw is
  -- above every cumulative weight.
  pub get_next-Justified :
      (exclude : List ℕ)
      → IsWellFormed p
      → Distinct exclude
      → Justified exclude (get_next fl p exclude draw).0
  unfolding get_next
  get_next-Justified [] wf d = rw (not_nil p.targets wf.nonempty) (pick_any-Justified wf)
  get_next-Justified (x ∷ xs) wf d = rw (not_nil p.targets wf.nonempty) (
      Justified-sort_ints (x ∷ xs) _ (λ e. cc)
        (pick_excluding-Justified (sort_ints (x ∷ xs)) wf (not_nil-sort_ints x xs)
          (sort_ints-Rising (x ∷ xs) d)))

  -- The slice that the caller is left with has the same members, still without repetition, so a
  -- later call with one more index excludes all that earlier calls returned.
  pub get_next_exclude :
      (exclude : List ℕ)
      → Distinct exclude
      → Distinct (get_next fl p exclude draw).1
        × ((j : ℕ) → mem_int j (get_next fl p exclude draw).1 ≡ mem_int j exclude)
  unfolding get_next
  get_next_exclude exclude d = elim (Bool-cases (is_nil p.targets)) [
    | inl e ↦ rw e (d, λ j. refl)
    | inr e ↦ rw e (elim (Bool-cases (is_nil exclude)) [
      | inl f ↦ rw f (d, λ j. refl)
      | inr f ↦
          rw f (Rising-Distinct 0 _ (sort_ints-Rising exclude d), λ j. mem_int-sort_ints j exclude)
    ])
  ]
