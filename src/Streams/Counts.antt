-- ===== src/Streams/Counts.antt =====
-- The counters against the connections that are open.
use aura_proxy.Common.{
  ℕ, ◌+◌, ◌≤◌, ◌≡◌, refl, ap, sym, ◌∙◌, subst, String, true, false, List, [], ◌∷◌, ◌++◌, arith,
  str_eq, if◌then◌else◌, ◌<◌, ◌%◌, ◌-◌, leb, eq_iff, put, del, Map, find, find-put, find-del, ltb,
  ◌==◌, Bool-cases, inl, inr,
}
use aura_proxy.Streams.{
  temporary_premium_user_id, vip_max_connections_per_host, max_connections_per_host, count,
  check_and_inc_rate_limits, dec_host_connections,
}

-- How often an account occurs among the open connections.
abbrev pub occurrences : String → List String → ℕ
occurrences id [] = 0
occurrences id (s ∷ ss) = (if str_eq s id then 1 else 0) + occurrences id ss

abbrev pub limit : String → ℕ
limit id =
    if str_eq id temporary_premium_user_id
    then vip_max_connections_per_host
    else max_connections_per_host

-- What the middleware does to the counters and to the accounts of the open connections: it opens one,
-- refuses one, or closes one of those that are open.
pub data Step : Map ℕ × List String → Map ℕ × List String → Type 0 where
  opened :
      (rl rl' : Map ℕ) (open_now : List String) (id : String)
      → check_and_inc_rate_limits rl id ≡ (true, rl')
      → Step (rl, open_now) (rl', id ∷ open_now)
  refused :
      (rl rl' : Map ℕ) (open_now : List String) (id : String)
      → check_and_inc_rate_limits rl id ≡ (false, rl')
      → Step (rl, open_now) (rl', open_now)
  closed :
      (rl : Map ℕ) (front back : List String) (id : String)
      → Step (rl, front ++ id ∷ back) (dec_host_connections rl id, front ++ back)

pub data Steps : Map ℕ × List String → Map ℕ × List String → Type 0 where
  here : (s : Map ℕ × List String) → Steps s s
  then_step : (s t u : Map ℕ × List String) → Steps s t → Step t u → Steps s u

-- Each counter is the number of open connections of its account, within the limit.
abbrev pub IsCounted : Map ℕ × List String → Type 0
IsCounted (rl, open_now) =
    (id : String) → (count rl id ≡ occurrences id open_now) × (count rl id ≤ limit id)

occurrences-append :
    (id : String) (xs ys : List String)
    → occurrences id (xs ++ ys) ≡ occurrences id xs + occurrences id ys
occurrences-append id [] ys = omega arith
occurrences-append id (x ∷ xs) ys = omega (arith, occurrences-append id xs ys)

limit_bound : (id : String) → limit id ≤ 30
limit_bound id = ground arith

count-put :
    (rl : Map ℕ) (id : String) (v : ℕ) (j : String)
    → count (put rl id v) j ≡ (if str_eq id j then v else count rl j)
count-put rl id v j = rw (find-put rl id v j) (ground arith)

count-del :
    (rl : Map ℕ) (id j : String) → count (del rl id) j ≡ (if str_eq id j then 0 else count rl j)
count-del rl id j = rw (find-del rl id j) (ground arith)

check_and_inc_rate_limits_opened :
    (rl rl' : Map ℕ) (id : String)
    → check_and_inc_rate_limits rl id ≡ (true, rl')
    → (count rl id < limit id) × (rl' ≡ put rl id (count rl id + 1))
unfolding check_and_inc_rate_limits
check_and_inc_rate_limits_opened rl rl' id e = elim (Bool-cases (leb (limit id) (count rl id))) [
  | inl full ↦ absurd (let q = rw full at e in cc)
  | inr free ↦
      let q = rw free at e in
      let below : count rl id < limit id = ground arith in
      let same : (count rl id + 1) % 256 ≡ count rl id + 1 =
        let most = limit_bound id in omega (arith, below, most) in
      (below, rw (← same) (sym (ap (λ p. p.1) q)))
]

check_and_inc_rate_limits_refused :
    (rl rl' : Map ℕ) (id : String) → check_and_inc_rate_limits rl id ≡ (false, rl') → rl' ≡ rl
unfolding check_and_inc_rate_limits
check_and_inc_rate_limits_refused rl rl' id e = elim (Bool-cases (leb (limit id) (count rl id))) [
  | inl full ↦ let q = rw full at e in sym (ap (λ p. p.1) q)
  | inr free ↦ absurd (let q = rw free at e in cc)
]

count_same : (m : Map ℕ) (id j : String) → str_eq id j ≡ true → count m id ≡ count m j
count_same m id j q = ap (λ k. count m k) ((eq_iff id j).0 q)

count-drop_empty :
    (m : Map ℕ) (id j : String) → count (if count m id == 0 then del m id else m) j ≡ count m j
count-drop_empty m id j = elim (Bool-cases (count m id == 0)) [
  | inl e ↦
      rw (e, count-del m id j)
        (elim (Bool-cases (str_eq id j)) [
          | inl q ↦ let c = count_same m id j q in rw q (ground arith)
          | inr q ↦ rw q refl
        ])
  | inr e ↦ rw e refl
]

lowered :
    (m : Map ℕ) (id j : String)
    → (if str_eq id j then count m id - 1 else count m j)
      ≡ (if str_eq id j then count m j - 1 else count m j)
lowered m id j = elim (Bool-cases (str_eq id j)) [
  | inl q ↦ let c = count_same m id j q in rw q (omega (arith, c))
  | inr q ↦ rw q refl
]

not_lowered :
    (m : Map ℕ) (id j : String)
    → ltb 0 (count m id) ≡ false
    → count m j ≡ (if str_eq id j then count m j - 1 else count m j)
not_lowered m id j e = elim (Bool-cases (str_eq id j)) [
  | inl q ↦
      let c = count_same m id j q in
      let z : count m id ≡ 0 = ground arith in rw q (omega (arith, c, z))
  | inr q ↦ rw q refl
]

count-dec_host_connections :
    (rl : Map ℕ) (id j : String)
    → count (dec_host_connections rl id) j ≡ (if str_eq id j then count rl j - 1 else count rl j)
unfolding dec_host_connections
count-dec_host_connections rl id j = elim (Bool-cases (ltb 0 (count rl id))) [
  | inl some_open ↦ rw (some_open) (
      count-drop_empty (put rl id (count rl id - 1)) id j
      ∙ count-put rl id (count rl id - 1) j
      ∙ lowered rl id j)
  | inr none_open ↦ rw (none_open) (count-drop_empty rl id j ∙ not_lowered rl id j none_open)
]

Step-IsCounted : (s t : Map ℕ × List String) → IsCounted s → Step s t → IsCounted t
Step-IsCounted s t h (opened rl rl' open_now id e) = λ j.
    let (below, same) = check_and_inc_rate_limits_opened rl rl' id e in
    let now = h j in
    rw (same, count-put rl id (count rl id + 1) j)
      (elim (Bool-cases (str_eq id j)) [
        | inl q ↦ rw q (
            let at = (eq_iff id j).0 q in
            let c : count rl id ≡ count rl j = ap (λ k. count rl k) at in
            let l : limit id ≡ limit j = ap limit at in
            (omega (arith, c, now.0), omega (arith, c, l, below)))
        | inr q ↦ rw q (omega (arith, now.0), now.1)
      ])
Step-IsCounted s t h (refused rl rl' open_now id e) =
    subst (λ m. IsCounted (m, open_now)) (sym (check_and_inc_rate_limits_refused rl rl' id e)) h
Step-IsCounted s t h (closed rl front back id) = λ j.
    let before = h j in
    let one = occurrences-append j front (id ∷ back) in
    let two = occurrences-append j front back in
    rw (count-dec_host_connections rl id j) (elim (Bool-cases (str_eq id j)) [
      | inl q ↦
          rw q (
            let one' = rw q at one in (omega (arith, before.0, one', two), omega (arith, before.1)))
      | inr q ↦ rw q (let one' = rw q at one in (omega (arith, before.0, one', two), before.1))
    ])

Steps-IsCounted : (s t : Map ℕ × List String) → Steps s t → IsCounted s → IsCounted t
Steps-IsCounted s t (here r) h = h
Steps-IsCounted s t (then_step r q u p step) h = Step-IsCounted q u (Steps-IsCounted r q p h) step

-- From no connections, whatever order connections are opened, refused and closed in, the counter of
-- every account is the number of its open connections and never above the account's limit.
pub connections-IsCounted : (t : Map ℕ × List String) → Steps ([], []) t → IsCounted t
unfolding find
connections-IsCounted t p = Steps-IsCounted ([], []) t p (λ id. (refl, omega arith))
