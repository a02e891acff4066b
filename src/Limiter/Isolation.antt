-- ===== src/Limiter/Isolation.antt =====
-- limiter.go: the answers to one visitor depend on its own requests alone.
use aura_proxy.Common.{
  ◌≡◌, refl, sym, ap, subst, ◌∙◌, String, str_eq, eq_iff, Bool, false, List, [], ◌∷◌, Option, none,
  some, Bool-cases, inl, inr, if◌then◌else◌, find, find-put, HasKeysOnce, put-HasKeysOnce,
}
use aura_proxy.Common.Int.{ℤ, eqb_ℤ}
use aura_proxy.Limiter.{RateLib, Visitor, Store, limiter_for, swept, entered, allow}
use aura_proxy.Limiter.Buckets.{
  Event, limiter_at, IsFresh, bucket_of, find-swept, swept-HasKeysOnce, write_limiter-HasKeysOnce,
  find-write_same, find-write_other,
}

module _ {L : Type 0} (lib : RateLib L) where
  -- One bucket: a new one at first, and when the limit changes.
  abbrev own_limiter : Option L → ℤ → L
  own_limiter none limit = lib.new_limiter limit
  own_limiter (some l) limit = if eqb_ℤ (lib.limit l) limit then l else lib.new_limiter limit

  abbrev pub alone : String → Option L → List Event → List Bool
  alone i bucket [] = []
  alone i bucket (e ∷ es) =
      let answer = lib.allow (own_limiter bucket e.limit) e.times.allow in
      let others = alone i bucket es in
      let own = alone i (some answer.0) es in
      if str_eq e.identifier i then answer.1 ∷ own else others

  -- The answers of the store to visitor i.
  abbrev pub answers : String → Store L → List Event → List Bool
  answers i s [] = []
  answers i s (e ∷ es) =
      let step = allow lib s e.identifier e.limit e.times in
      let rest = answers i step.0 es in if str_eq e.identifier i then step.1 ∷ rest else rest

  -- The store after the visitor of the event has been entered.
  abbrev at_entry : Store L → Event → Store L
  at_entry s e =
      entered lib s e.identifier (limiter_for lib (find s.visitors e.identifier) e.limit)
        e.times.seen

  -- Visitor i is never old enough to be cleaned up.
  abbrev pub StaysFresh : String → Store L → List Event → Type 0
  StaysFresh i s [] = Unit
  StaysFresh i s (e ∷ es) =
      IsFresh s.expires_in e.times.cleanup (find (at_entry s e).visitors i)
      × StaysFresh i (allow lib s e.identifier e.limit e.times).0 es

  limiter_for-own :
      (o : Option (Visitor L)) (limit : ℤ)
      → limiter_for lib o limit ≡ own_limiter (limiter_at o) limit
  limiter_for-own none limit = refl
  limiter_for-own (some v) limit = refl

  module _ (s : Store L) (e : Event) (h : HasKeysOnce s.visitors) where
    abbrev new_bucket : L × Bool
    new_bucket = lib.allow (limiter_for lib (find s.visitors e.identifier) e.limit) e.times.allow

    abbrev new_visitor : Visitor L
    new_visitor = record {
      limiter = limiter_for lib (find s.visitors e.identifier) e.limit;
      last_seen = e.times.seen;
    }

    abbrev swept_store : Store L
    swept_store = swept lib (at_entry s e) e.times

    entered-HasKeysOnce : HasKeysOnce (at_entry s e).visitors
    entered-HasKeysOnce = put-HasKeysOnce s.visitors e.identifier new_visitor h

    allow-HasKeysOnce : HasKeysOnce (allow lib s e.identifier e.limit e.times).0.visitors
    unfolding allow
    allow-HasKeysOnce =
        write_limiter-HasKeysOnce lib swept_store.visitors e.identifier new_bucket.0
          (find swept_store.visitors e.identifier)
          (swept-HasKeysOnce lib (at_entry s e) e.times entered-HasKeysOnce)

    allow_own :
        IsFresh s.expires_in e.times.cleanup (find (at_entry s e).visitors e.identifier)
        → bucket_of lib (allow lib s e.identifier e.limit e.times).0 e.identifier
          ≡ some new_bucket.0
    unfolding allow
    allow_own f = find-write_same lib swept_store.visitors e.identifier new_bucket.0 new_visitor (
        find-swept lib (at_entry s e) e.times e.identifier entered-HasKeysOnce f
        ∙ find-put s.visitors e.identifier new_visitor e.identifier
        ∙ rw ((eq_iff e.identifier e.identifier).1 refl) refl)

    allow_other :
        (i : String)
        → str_eq e.identifier i ≡ false
        → IsFresh s.expires_in e.times.cleanup (find (at_entry s e).visitors i)
        → bucket_of lib (allow lib s e.identifier e.limit e.times).0 i ≡ bucket_of lib s i
    unfolding allow
    allow_other i q f = ap limiter_at (
        find-write_other lib swept_store.visitors e.identifier new_bucket.0
          (find swept_store.visitors e.identifier) i q
        ∙ find-swept lib (at_entry s e) e.times i entered-HasKeysOnce f
        ∙ find-put s.visitors e.identifier new_visitor i
        ∙ rw q refl)

    step-answer :
        (i : String)
        → e.identifier ≡ i
        → new_bucket ≡ lib.allow (own_limiter (bucket_of lib s i) e.limit) e.times.allow
    step-answer i q =
        ap (λ l. lib.allow l e.times.allow)
          (limiter_for-own (find s.visitors e.identifier) e.limit
            ∙ ap (λ j. own_limiter (bucket_of lib s j) e.limit) q)

    step-own :
        (i : String)
        → e.identifier ≡ i
        → IsFresh s.expires_in e.times.cleanup (find (at_entry s e).visitors i)
        → bucket_of lib (allow lib s e.identifier e.limit e.times).0 i ≡ some new_bucket.0
    step-own i q f =
        ap (λ j. bucket_of lib (allow lib s e.identifier e.limit e.times).0 j) (sym q)
        ∙ allow_own (
            subst (λ j. IsFresh s.expires_in e.times.cleanup (find (at_entry s e).visitors j))
              (sym q) f)

    step-decision : (allow lib s e.identifier e.limit e.times).1 ≡ new_bucket.1
    unfolding allow
    step-decision = refl

  -- As long as visitor i is not cleaned up, the answers of the store to its requests are those of one
  -- token bucket that only these requests reach, whatever other visitors do in between.
  pub answers-alone :
      (i : String) (s : Store L) (es : List Event)
      → HasKeysOnce s.visitors
      → StaysFresh i s es
      → answers i s es ≡ alone i (bucket_of lib s i) es
  answers-alone i s [] h f = refl
  answers-alone i s (e ∷ es) h (fresh, stays) =
      let s' = (allow lib s e.identifier e.limit e.times).0 in
      let ih = answers-alone i s' es (allow-HasKeysOnce s e h) stays in
      elim (Bool-cases (str_eq e.identifier i)) [
        | inl q ↦
            let same = (eq_iff e.identifier i).0 q in
            let answer = step-answer s e h i same in
            rw q (
              ap (λ b. b ∷ answers i s' es) (step-decision s e h ∙ ap (λ r. r.1) answer)
              ∙ ap
                  (λ bs. (lib.allow (own_limiter (bucket_of lib s i) e.limit) e.times.allow).1 ∷ bs)
                  (ih
                    ∙ ap (λ o. alone i o es)
                        (step-own s e h i same fresh ∙ ap (λ r. some r.0) answer)))
        | inr q ↦ rw q (ih ∙ ap (λ o. alone i o es) (allow_other s e h i q fresh))
      ]
