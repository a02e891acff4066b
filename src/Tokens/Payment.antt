-- ===== src/Tokens/Payment.antt =====
-- api_token_checker.go: UserBalanceMiddleware after CheckToken.
use aura_proxy.Common.{
  ℕ, zero, suc, ◌+◌, ◌-◌, ◌*◌, ◌%◌, ◌^◌, ◌≤◌, ◌<◌, ◌≡◌, sym, ap, subst, ◌∙◌, String, Bool, false,
  List, [], ◌∷◌, Option, none, some, length, get_elem?, modify, ok, arith,
}
use mathlib.Core.Option.{some-injective}
use aura_proxy.Common.Int.{ℤ, pos, ltb_ℤ, wrap_int64}
use aura_proxy.Context.{CustomContext}
use aura_proxy.Context.Tariffs.{Service, Tariff, get_req_cost}
use aura_proxy.Tokens.{
  CacheLib, User, TokenChecker, Moment, mul_int64, sub_int64, credits_of, check_token, pay,
  user_balance,
}
use aura_proxy.Tokens.Admission.{IsAdmitted, check_token-IsAdmitted}

wrap_exact : (n : ℕ) → n < 2 ^ 63 → wrap_int64 n ≡ pos n
unfolding wrap_int64
wrap_exact n h = ground arith

wrap_around : (n : ℕ) → n < 2 ^ 63 → wrap_int64 (n + 2 ^ 64) ≡ pos n
unfolding wrap_int64
wrap_around n h = ground arith

pay_exact : (b k : ℕ) → k ≤ b → b < 2 ^ 63 → sub_int64 (pos b) (pos k) ≡ pos (b - k)
pay_exact b k h q =
    let e : b + 0 + (2 ^ 64 - (0 + k) % 2 ^ 64) ≡ b - k + 2 ^ 64 = omega arith in
    ap wrap_int64 e ∙ wrap_around (b - k) (omega arith)

mul_exact : (n p : ℕ) → n * p < 2 ^ 63 → mul_int64 n (pos p) ≡ pos (n * p)
mul_exact n p h =
    let e : n * p + (2 ^ 64 - n * 0 % 2 ^ 64) ≡ n * p + 2 ^ 64 = ground arith in
    ap wrap_int64 e ∙ wrap_around (n * p) h

pub get_elem?-modify_same :
    {A : Type 0}
    → (f : A → A) (xs : List A) (i : ℕ) (x : A) → get_elem? xs i ≡ some x
    → get_elem? (modify f xs i) i ≡ some (f x)
get_elem?-modify_same f [] i x h = absurd (ground (arith, h))
get_elem?-modify_same f (y ∷ ys) zero x h = ap (λ z. some (f z)) (some-injective y x h)
get_elem?-modify_same f (y ∷ ys) (suc i) x h = get_elem?-modify_same f ys i x h

not_less : (x y : ℤ) (b k : ℕ) → ltb_ℤ x y ≡ false → x ≡ pos b → y ≡ pos k → k ≤ b
not_less x y b k h e f =
    let g : ltb_ℤ (pos b) (pos k) ≡ false =
      subst (λ z. ltb_ℤ (pos b) z ≡ false) f (subst (λ z. ltb_ℤ z y ≡ false) e h) in
    ground (arith, g)

module _ {C S : Type 0} (lib : CacheLib C ℕ) (pricing : Option S → Service → Tariff)
    (is_uuid : String → Bool) where
  -- The user at the index has b - k left.
  abbrev pub HasPaid : ℕ → ℕ → ℕ → Option (TokenChecker C S) → Type 0
  HasPaid ref b k none = ⊥
  HasPaid ref b k (some t') =
      (u : User) × (get_elem? t'.users ref ≡ some u) × (u.mplx_balance ≡ pos (b - k))

  user_balance-HasPaid :
      (t : TokenChecker C S) (c : CustomContext ℕ S) (now ref : ℕ) (u : User) (b k : ℕ)
      → get_elem? t.users ref ≡ some u
      → u.mplx_balance ≡ pos b
      → c.credits_used ≡ pos k
      → k ≤ b
      → b < 2 ^ 63
      → HasPaid ref b k (user_balance lib t (record c { user_info = some ref }) now)
  unfolding user_balance
  user_balance-HasPaid t c now ref u b k h e f q r = rw h (
    pay c.credits_used u,
    get_elem?-modify_same (pay c.credits_used) t.users ref u h,
    rw (e, f) (pay_exact b k q r),
  )

  -- If CheckToken admits a user with balance b, of less than 2^63, to a request of n methods at the
  -- price p, and n * p is below 2^63, then n * p is at most b, and once UserBalanceMiddleware has run
  -- the user that the cache shares has the balance b - n * p.
  pub check_token-HasPaid :
      (t t' : TokenChecker C S) (c c' : CustomContext ℕ S) (m : Moment) (token : String)
      (ref now : ℕ) (u : User) (b p : ℕ)
      → check_token lib pricing is_uuid t c m token ≡ (t', c', ok ref)
      → get_elem? t'.users ref ≡ some u
      → u.mplx_balance ≡ pos b
      → b < 2 ^ 63
      → get_req_cost pricing c' ≡ pos p
      → length c'.req_methods * p < 2 ^ 63
      → (length c'.req_methods * p ≤ b)
        × HasPaid ref b
            (length c'.req_methods * p)
            (user_balance lib t' (record c' { user_info = some ref }) now)
  check_token-HasPaid t t' c c' m token ref now u b p run at balance small price bound =
      let (v, at', live, enough, credits, sub) =
        subst (λ r. IsAdmitted lib pricing c m.at_check r) run
          (check_token-IsAdmitted lib pricing is_uuid t c m token) in
      let same : v ≡ u = some-injective v u (sym at' ∙ at) in
      let cost : credits_of lib pricing c' ≡ pos (length c'.req_methods * p) =
        ap (λ z. mul_int64 (length c'.req_methods) z) price
        ∙ mul_exact (length c'.req_methods) p bound in
      let le : length c'.req_methods * p ≤ b =
        not_less v.mplx_balance (credits_of lib pricing c') b (length c'.req_methods * p) enough
          (ap (λ (z : User). z.mplx_balance) same ∙ balance) cost in
      (
        le,
        user_balance-HasPaid t' c' now ref u b (length c'.req_methods * p) at balance
            (credits ∙ cost) le small,
      )
