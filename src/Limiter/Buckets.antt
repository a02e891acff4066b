-- ===== src/Limiter/Buckets.antt =====
-- limiter.go: the store against one bucket for each visitor.
use aura_proxy.Common.{
  ℕ, ◌+◌, ◌≡◌, refl, ap, subst, ◌∙◌, String, str_eq, eq_iff, false, [], ◌∷◌, Option, none, some,
  Bool-cases, inl, inr, ltb, if◌then◌else◌, Map, find, find-put, HasKeysOnce, put-HasKeysOnce,
}
use aura_proxy.Common.Int.{ℤ}
use aura_proxy.Limiter.{
  RateLib, Visitor, Store, Times, is_stale, remove_stale, cleanup_stale_visitors, swept,
  write_limiter,
}

module _ {L : Type 0} where
  abbrev kept : ℕ → ℕ → Option (Visitor L) → Option (Visitor L)
  kept expires now none = none
  kept expires now (some v) = if is_stale expires now v then none else some v

  find-remove_stale :
      (expires now : ℕ) (m : Map (Visitor L)) (j : String)
      → HasKeysOnce m
      → find (remove_stale expires now m) j ≡ kept expires now (find m j)
  unfolding remove_stale find
  find-remove_stale expires now [] j h = refl
  find-remove_stale expires now ((k, v) ∷ m) j h =
      let rest = find-remove_stale expires now m j h.1 in
      elim (Bool-cases (str_eq k j)) [
        | inl q ↦
            let gone : find m j ≡ none = subst (λ i. find m i ≡ none) ((eq_iff k j).0 q) h.0 in
            elim (Bool-cases (is_stale expires now v)) [
              | inl s ↦ rw (s, q, s) (rest ∙ ap (kept expires now) gone)
              | inr s ↦ rw (s, q, s) refl
            ]
        | inr q ↦ elim (Bool-cases (is_stale expires now v)) [
          | inl s ↦ rw (s, q) rest
          | inr s ↦ rw (s, q) rest
        ]
      ]

  remove_stale-HasKeysOnce :
      (expires now : ℕ) (m : Map (Visitor L))
      → HasKeysOnce m
      → HasKeysOnce (remove_stale expires now m)
  unfolding remove_stale
  remove_stale-HasKeysOnce expires now [] h = tt
  remove_stale-HasKeysOnce expires now ((k, v) ∷ m) h = elim (Bool-cases (is_stale expires now v)) [
    | inl s ↦ rw s (remove_stale-HasKeysOnce expires now m h.1)
    | inr s ↦ rw s (
      find-remove_stale expires now m k h.1 ∙ ap (kept expires now) h.0,
      remove_stale-HasKeysOnce expires now m h.1,
    )
  ]

  abbrev pub limiter_at : Option (Visitor L) → Option L
  limiter_at none = none
  limiter_at (some v) = some v.limiter

  -- The visitor, if there is one, would survive a cleanup.
  abbrev pub IsFresh : ℕ → ℕ → Option (Visitor L) → Type 0
  IsFresh expires now none = Unit
  IsFresh expires now (some v) = is_stale expires now v ≡ false

  kept-IsFresh :
      (expires now : ℕ) (o : Option (Visitor L)) → IsFresh expires now o → kept expires now o ≡ o
  kept-IsFresh expires now none h = refl
  kept-IsFresh expires now (some v) h = rw h refl

-- One request: the visitor, its limit, and the clock.
pub record Event : Type 0 where
  pub identifier : String
  pub limit : ℤ
  pub times : Times

module _ {L : Type 0} (lib : RateLib L) where
  abbrev pub bucket_of : Store L → String → Option L
  bucket_of s i = limiter_at (find s.visitors i)

  pub find-swept :
      (s : Store L) (t : Times) (i : String)
      → HasKeysOnce s.visitors
      → IsFresh s.expires_in t.cleanup (find s.visitors i)
      → find (swept lib s t).visitors i ≡ find s.visitors i
  unfolding cleanup_stale_visitors
  find-swept s t i h f = elim (Bool-cases (ltb (s.last_cleanup + s.expires_in) t.seen)) [
    | inl e ↦ rw e (
        find-remove_stale s.expires_in t.cleanup s.visitors i h
        ∙ kept-IsFresh s.expires_in t.cleanup (find s.visitors i) f)
    | inr e ↦ rw e refl
  ]

  pub swept-HasKeysOnce :
      (s : Store L) (t : Times) → HasKeysOnce s.visitors → HasKeysOnce (swept lib s t).visitors
  unfolding cleanup_stale_visitors
  swept-HasKeysOnce s t h = elim (Bool-cases (ltb (s.last_cleanup + s.expires_in) t.seen)) [
    | inl e ↦ rw e (remove_stale-HasKeysOnce s.expires_in t.cleanup s.visitors h)
    | inr e ↦ rw e h
  ]

  pub write_limiter-HasKeysOnce :
      (m : Map (Visitor L)) (k : String) (l : L) (o : Option (Visitor L))
      → HasKeysOnce m
      → HasKeysOnce (write_limiter lib m k l o)
  write_limiter-HasKeysOnce m k l none h = h
  write_limiter-HasKeysOnce m k l (some v) h = put-HasKeysOnce m k (record v { limiter = l }) h

  pub find-write_same :
      (m : Map (Visitor L)) (k : String) (l : L) (v : Visitor L)
      → find m k ≡ some v
      → limiter_at (find (write_limiter lib m k l (find m k)) k) ≡ some l
  find-write_same m k l v h =
      ap (λ o. limiter_at (find (write_limiter lib m k l o) k)) h
      ∙ ap limiter_at (find-put m k (record v { limiter = l }) k)
      ∙ rw ((eq_iff k k).1 refl) refl

  pub find-write_other :
      (m : Map (Visitor L)) (k : String) (l : L) (o : Option (Visitor L)) (i : String)
      → str_eq k i ≡ false
      → find (write_limiter lib m k l o) i ≡ find m i
  find-write_other m k l none i h = refl
  find-write_other m k l (some v) i h = find-put m k (record v { limiter = l }) i ∙ rw h refl
