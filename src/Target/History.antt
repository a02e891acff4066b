-- ===== src/Target/History.antt =====
-- The response times kept for a method, and the bounds on a restriction.
use aura_proxy.Common.{
  ℕ, zero, suc, ◌+◌, ◌-◌, ◌≤◌, ◌<◌, ◌^◌, ◌≡◌, refl, ap, ◌∙◌, sym, String, Bool, true, false, List,
  [], ◌∷◌, ◌++◌, append_assoc, append-nil, arith, ltb, Map, find, length, drop, AllValues,
  AllValues-put, AllValues-find, length-append, length-drop, Option, none, some, inl, inr,
  Bool-cases,
}
use aura_proxy.Common.Int.{ℤ}
use aura_proxy.Target.{
  ProxyTarget, TargetRestriction, add_last_responses_time_ms, record_time, count_result,
  update_method, update_methods, update_stats,
}

-- The last ten entries of a list.
abbrev pub last_ten {ℓ} : {A : Type ℓ} → List A → List A
last_ten xs = drop (length xs - 10) xs

drop-append {ℓ} :
    {A : Type ℓ} (n : ℕ) (xs ys : List A) → n ≤ length xs → drop n (xs ++ ys) ≡ drop n xs ++ ys
drop-append zero xs ys h = refl
drop-append (suc n) [] ys h = absurd (omega arith)
drop-append (suc n) (x ∷ xs) ys h = drop-append n xs ys (omega arith)

drop-nil {ℓ} : {A : Type ℓ} (n : ℕ) → drop {A = A} n [] ≡ []
drop-nil zero = refl
drop-nil (suc n) = refl

drop-drop {ℓ} : {A : Type ℓ} (m n : ℕ) (xs : List A) → drop m (drop n xs) ≡ drop (n + m) xs
drop-drop m zero xs = ap (λ k. drop k xs) (omega arith)
drop-drop {A} m (suc n) [] = drop-nil {A = A} m ∙ sym (drop-nil {A = A} (suc n + m))
drop-drop m (suc n) (x ∷ xs) =
    drop-drop m n xs
    ∙ ap (λ k. drop k (x ∷ xs)) (let e : suc (n + m) ≡ suc n + m = omega arith in e)

-- Of a list cut to its last ten entries and then prolonged the last ten are those of the whole.
last_ten-append {ℓ} :
    {A : Type ℓ} (xs ys : List A) → last_ten (last_ten xs ++ ys) ≡ last_ten (xs ++ ys)
last_ten-append xs ys =
    ap last_ten (sym (drop-append cut xs ys (omega arith)))
    ∙ drop-drop (length (drop cut (xs ++ ys)) - 10) cut (xs ++ ys)
    ∙ ap (λ k. drop k (xs ++ ys)) (omega (arith, length-drop cut (xs ++ ys), length-append xs ys))
  where
    cut : ℕ
    cut = length xs - 10

last_ten_short {ℓ} : {A : Type ℓ} (xs : List A) → length xs ≤ 10 → xs ≡ last_ten xs
last_ten_short xs h = ap (λ k. drop k xs) (let e : 0 ≡ length xs - 10 = omega arith in e)

add_last_ten :
    (r : TargetRestriction) (v : ℤ)
    → (add_last_responses_time_ms r v).last_responses_time_ms
      ≡ last_ten (r.last_responses_time_ms ++ v ∷ [])
unfolding add_last_responses_time_ms
add_last_ten r v = elim (Bool-cases (ltb 10 (length (r.last_responses_time_ms ++ v ∷ [])))) [
  | inl e ↦ rw e
  | inr e ↦ rw e (last_ten_short (r.last_responses_time_ms ++ v ∷ []) (ground arith))
]

-- The restriction after a series of successful response times.
pub add_all : TargetRestriction → List ℤ → TargetRestriction
add_all r [] = r
add_all r (v ∷ vs) = add_all (add_last_responses_time_ms r v) vs

add_all_from :
    (r : TargetRestriction) (seen vs : List ℤ)
    → r.last_responses_time_ms ≡ last_ten seen
    → (add_all r vs).last_responses_time_ms ≡ last_ten (seen ++ vs)
unfolding add_all
add_all_from r seen [] h = rw append-nil h
add_all_from r seen (v ∷ vs) h =
    add_all_from (add_last_responses_time_ms r v) (seen ++ v ∷ []) vs
      (add_last_ten r v ∙ ap (λ l. last_ten (l ++ v ∷ [])) h ∙ last_ten-append seen (v ∷ []))
    ∙ ap last_ten (append_assoc seen (v ∷ []) vs)

-- Whatever series of response times is recorded, what is kept is the last ten of the whole series,
-- oldest first.
pub add_all_lem :
    (r : TargetRestriction) (vs : List ℤ)
    → length r.last_responses_time_ms ≤ 10
    → (add_all r vs).last_responses_time_ms ≡ last_ten (r.last_responses_time_ms ++ vs)
add_all_lem r vs h =
    add_all_from r r.last_responses_time_ms vs (last_ten_short r.last_responses_time_ms h)

-- The bounds on the statistics of one method.
pub record IsBounded (r : TargetRestriction) : Type 0 where
  pub times : length r.last_responses_time_ms ≤ 10
  pub successes : r.success_counter ≤ 10
  pub errors : r.err_counter < 2 ^ 64

last_ten_bound {ℓ} : {A : Type ℓ} (xs : List A) → length (last_ten xs) ≤ 10
last_ten_bound xs = omega (arith, length-drop (length xs - 10) xs)

add_last-IsBounded :
    (r : TargetRestriction) (v : ℤ) → IsBounded r → IsBounded (add_last_responses_time_ms r v)
unfolding add_last_responses_time_ms
add_last-IsBounded r v b = record {
  times = rw (add_last_ten r v) (last_ten_bound (r.last_responses_time_ms ++ v ∷ []));
  successes = b.successes;
  errors = b.errors;
}

record_time-IsBounded :
    (success : Bool) (v : ℤ) (r : TargetRestriction)
    → IsBounded r
    → IsBounded (record_time success v (some r))
unfolding record_time
record_time-IsBounded true v r b = add_last-IsBounded r v b
record_time-IsBounded false v r b = b

record_time-IsBounded-none : (success : Bool) (v : ℤ) → IsBounded (record_time success v none)
unfolding record_time
record_time-IsBounded-none true v = omega arith
record_time-IsBounded-none false v = omega arith

count_result-IsBounded :
    (now : ℕ) (success : Bool) (r : TargetRestriction)
    → IsBounded r
    → IsBounded (count_result now success r)
unfolding count_result
count_result-IsBounded now true r b = ground arith
count_result-IsBounded now false r b = record {
  times = b.times;
  successes = omega arith;
  errors = omega arith;
}

update_method-IsBounded :
    (now : ℕ) (success : Bool) (v : ℤ) (m : Map TargetRestriction) (rm : String)
    → AllValues IsBounded m
    → AllValues IsBounded (update_method now success v m rm)
unfolding update_method
update_method-IsBounded now success v m rm b =
    AllValues-put IsBounded m rm _ b (count_result-IsBounded now success _ (entry (find m rm) refl))
  where
    entry : (o : Option TargetRestriction) → find m rm ≡ o → IsBounded (record_time success v o)
    entry none e = record_time-IsBounded-none success v
    entry (some r) e = record_time-IsBounded success v r (AllValues-find IsBounded m rm r b e)

update_methods-IsBounded :
    (clock : ℕ → ℕ) (success : Bool) (v : ℤ) (m : Map TargetRestriction) (rms : List String)
    → AllValues IsBounded m
    → AllValues IsBounded (update_methods clock success v m rms)
unfolding update_methods
update_methods-IsBounded clock success v m [] b = b
update_methods-IsBounded clock success v m (rm ∷ rms) b =
    update_methods-IsBounded (λ i. clock (suc i)) success v _ rms
      (update_method-IsBounded (clock 0) success v m rm b)

-- UpdateStats keeps, for every method of the target, at most ten response times, at most ten
-- counted successes and an error count that fits 64 bits; and the request counter fits 64 bits.
pub update_stats-IsBounded :
    (t : ProxyTarget) (now : ℕ) (clock : ℕ → ℕ) (success : Bool) (rms : List String)
    (time slots : ℤ)
    → AllValues IsBounded t.available_methods
    → AllValues IsBounded (update_stats t now clock success rms time slots).available_methods
      × ((update_stats t now clock success rms time slots).req_counter < 2 ^ 64)
unfolding update_stats
update_stats-IsBounded t now clock success rms time slots b =
    (update_methods-IsBounded clock success time t.available_methods rms b, ground arith)
