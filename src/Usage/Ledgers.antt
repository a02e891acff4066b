-- ===== src/Usage/Ledgers.antt =====
-- Counters, reports and calls side by side, and what one call or one report changes.
use aura_proxy.Common.{
  HasKeysOnce, put-HasKeysOnce, ℕ, ◌+◌, ◌≡◌, refl, ap, sym, ◌∙◌, String, Bool, true, false, not,
  ◌&&◌, List, [], ◌∷◌, ◌++◌, Option, none, some, str_eq, eq_iff, if◌then◌else◌, arith, Bool-cases,
  Option-cases, inl, inr, Map, find, put, find-put, AllValues, AllValues-put, AllValues-find,
}
use aura_proxy.Common.Int.{ℤ}
use aura_proxy.Usage.{
  RequestsWithUsage, ByToken, ByType, ByChain, Counters, child, count_request, inc_user_requests,
  copy_into, copy_tokens, copy_types, copy_chains, map_counters_to_proto, Flushed, flush,
}
use aura_proxy.Usage.Copies.{image, find-copy}

-- One call of IncUserRequests, or one flush with the outcomes of the calls of the API.
pub data Op : Type 0 where
  counted : String → ℤ → String → String → String → Bool → Op
  flushed : (ℕ → Bool) → Op

-- The counters, the reports that the API took, and those that were given up.
pub record Ledger : Type 0 where
  pub counters : Counters
  pub taken : List Counters
  pub lost : List Counters

abbrev pub settle : Ledger → Flushed → Ledger
settle l f = elim f.report [
  | none ↦ record l { counters = f.counters }
  | some (report, true) ↦ record l { counters = f.counters; taken = l.taken ++ report ∷ [] }
  | some (report, false) ↦ record l { counters = f.counters; lost = l.lost ++ report ∷ [] }
]

abbrev pub run_op : Ledger → Op → Ledger
run_op l (counted user credits chain token request_type is_mainnet) = record l {
  counters = inc_user_requests l.counters user credits chain token request_type is_mainnet;
}
run_op l (flushed succeeds) = settle l (flush l.counters succeeds)

abbrev pub run : Ledger → List Op → Ledger
run l [] = l
run l (op ∷ ops) = run (run_op l op) ops

abbrev pub empty_ledger : Ledger
empty_ledger = record { counters = []; taken = []; lost = [] }

abbrev pub amount : Option RequestsWithUsage → ℕ
amount none = 0
amount (some u) = u.reqs

module _ (user chain request_type token : String) where
  -- The requests counted for this user, chain, type and token.
  abbrev pub reqs_at : Counters → ℕ
  reqs_at r = amount (find (child (child (child r user) chain) request_type) token)

  abbrev pub total : List Counters → ℕ
  total [] = 0
  total (r ∷ rs) = reqs_at r + total rs

  abbrev pub concerns : Op → Bool
  concerns (counted u credits c t ty is_mainnet) =
      not (str_eq u "")
      && (str_eq u user && (str_eq c chain && (str_eq ty request_type && str_eq t token)))
  concerns (flushed succeeds) = false

  abbrev pub calls : List Op → ℕ
  calls [] = 0
  calls (op ∷ ops) = (if concerns op then 1 else 0) + calls ops

abbrev pub OnceTypes : ByType → Type 0
OnceTypes m = HasKeysOnce m × AllValues HasKeysOnce m

abbrev pub OnceChains : ByChain → Type 0
OnceChains m = HasKeysOnce m × AllValues OnceTypes m

abbrev pub Once : Counters → Type 0
Once m = HasKeysOnce m × AllValues OnceChains m

child-put :
    {V : Type 0} (m : Map (Map V)) (k : String) (v : Map V) (j : String)
    → child (put m k v) j ≡ (if str_eq k j then v else child m j)
child-put m k v j =
    rw (find-put m k v j) (elim (Bool-cases (str_eq k j)) [ inl q ↦ rw q refl | inr q ↦ rw q refl ])

AllValues-child :
    {V : Type 0} (P : Map V → Type 0) (m : Map (Map V)) (k : String)
    → P []
    → AllValues P m
    → P (child m k)
AllValues-child P m k empty h = elim (Option-cases (find m k)) [
  | inl e ↦ rw e empty
  | inr (v, e) ↦ rw e (AllValues-find P m k v h e)
]

-- One level of the nesting: a change by one at k is seen at k only.
raised :
    {V : Type 0} (g : Map V → ℕ) (m : Map (Map V)) (k j : String) (v : Map V) (b : Bool)
    → g v ≡ g (child m k) + (if b then 1 else 0)
    → g (child (put m k v) j) ≡ g (child m j) + (if str_eq k j && b then 1 else 0)
raised g m k j v b h = rw (child-put m k v j) (elim (Bool-cases (str_eq k j)) [
  | inl q ↦
      let same : g (child m k) ≡ g (child m j) = ap (λ i. g (child m i)) ((eq_iff k j).0 q) in
      rw q (omega (arith, h, same))
  | inr q ↦ rw q (omega arith)
])

count_request_raised :
    (tokens : ByToken) (t : String) (is_mainnet : Bool) (credits : ℤ) (j : String)
    → amount (find (count_request tokens t is_mainnet credits) j)
      ≡ amount (find tokens j) + (if str_eq t j then 1 else 0)
unfolding count_request
count_request_raised tokens t is_mainnet credits j =
    rw (count_request, find-put)
      (elim (Bool-cases (str_eq t j)) [
        | inl q ↦
            let same : find tokens t ≡ find tokens j = ap (λ i. find tokens i) ((eq_iff t j).0 q) in
            elim (Option-cases (find tokens t)) [
              | inl e ↦ rw (q, ← same, e) (omega arith)
              | inr (used, e) ↦ rw (q, ← same, e) refl
            ]
        | inr q ↦ rw q (omega arith)
      ])

module _ (user chain request_type token : String) where
  pub inc_user_requests_raised :
      (r : Counters) (u : String) (credits : ℤ) (c t ty : String) (is_mainnet : Bool)
      → reqs_at user chain request_type token (inc_user_requests r u credits c t ty is_mainnet)
        ≡ reqs_at user chain request_type token r
          + (if concerns user chain request_type token (counted u credits c t ty is_mainnet)
              then 1
              else 0)
  unfolding inc_user_requests
  inc_user_requests_raised r u credits c t ty is_mainnet = elim (Bool-cases (str_eq u "")) [
    | inl q ↦ rw q (omega arith)
    | inr q ↦ rw q (
        raised (λ x. amount (find (child (child x chain) request_type) token)) r u user _ _
          (raised (λ x. amount (find (child x request_type) token)) (child r u) c chain _ _
            (raised (λ x. amount (find x token)) (child (child r u) c) ty request_type _ _
              (count_request_raised (child (child (child r u) c) ty) t is_mainnet credits token))))
  ]

-- What a flush sends is the counters themselves.
child-copy :
    {V W : Type 0} (f : Map V → Map W) (m : Map (Map V)) (k : String)
    → f [] ≡ []
    → HasKeysOnce m
    → child (copy_into f [] m) k ≡ f (child m k)
child-copy f m k empty h =
    rw (find-copy f m k h)
      (elim (Option-cases (find m k)) [ inl e ↦ rw e (sym empty) | inr (v, e) ↦ rw e refl ])

pub map_counters_to_proto_same :
    (user chain request_type token : String) (r : Counters)
    → Once r
    → reqs_at user chain request_type token (map_counters_to_proto r)
      ≡ reqs_at user chain request_type token r
unfolding map_counters_to_proto copy_into
map_counters_to_proto_same user chain request_type token r h =
    let chains = AllValues-child OnceChains r user (tt, tt) h.1 in
    let types = AllValues-child OnceTypes (child r user) chain (tt, tt) chains.1 in
    let tokens = AllValues-child HasKeysOnce (child (child r user) chain) request_type tt types.1 in
    ap (λ x. amount (find (child (child x chain) request_type) token))
      (child-copy copy_chains r user refl h.0)
    ∙ ap (λ x. amount (find (child x request_type) token))
        (child-copy copy_types (child r user) chain refl chains.0)
    ∙ ap (λ x. amount (find x token))
        (child-copy copy_tokens (child (child r user) chain) request_type refl types.0)
    ∙ ap amount
        (find-copy (λ count. count) (child (child (child r user) chain) request_type) token tokens)
    ∙ unchanged (find (child (child (child r user) chain) request_type) token)
  where
    unchanged : (o : Option RequestsWithUsage) → amount (image (λ count. count) o) ≡ amount o
    unchanged none = refl
    unchanged (some u) = refl

put-Once :
    {V : Type 0} (P : Map V → Type 0) (m : Map (Map V)) (k : String) (v : Map V)
    → HasKeysOnce m
    → AllValues P m
    → P v
    → HasKeysOnce (put m k v) × AllValues P (put m k v)
put-Once P m k v h a p = (put-HasKeysOnce m k v h, AllValues-put P m k v a p)

pub inc_user_requests-Once :
    (r : Counters) (u : String) (credits : ℤ) (c t ty : String) (is_mainnet : Bool)
    → Once r
    → Once (inc_user_requests r u credits c t ty is_mainnet)
unfolding inc_user_requests count_request
inc_user_requests-Once r u credits c t ty is_mainnet h =
    let chains = AllValues-child OnceChains r u (tt, tt) h.1 in
    let types = AllValues-child OnceTypes (child r u) c (tt, tt) chains.1 in
    let tokens = AllValues-child HasKeysOnce (child (child r u) c) ty tt types.1 in
    elim (Bool-cases (str_eq u "")) [
      | inl q ↦ rw q h
      | inr q ↦ rw q (
          put-Once OnceChains r u _ h.0 h.1 (
            put-Once OnceTypes (child r u) c _ chains.0 chains.1 (
              put-Once HasKeysOnce (child (child r u) c) ty _ types.0 types.1
                (put-HasKeysOnce (child (child (child r u) c) ty) t _ tokens))))
    ]
