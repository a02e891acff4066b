-- ===== src/Server/Users.antt =====
-- api_token_checker.go: what APITokenCheckerMiddleware leaves for the handlers after it.
use aura_proxy.Common.{
  ℕ, ◌≡◌, refl, subst, sym, ◌∙◌, ap, String, str_eq, Bool, true, false, List, [], ◌∷◌, ◌++◌, Option,
  none, some, get_elem?, length, Result, ok, err, Bool-cases, inl, inr,
}
use mathlib.Core.Option.{some-injective}
use aura_proxy.Common.Int.{ltb_ℤ}
use aura_proxy.Common.Text.{string_trim_right}
use aura_proxy.Context.{CustomContext, set_user_info}
use aura_proxy.Context.Tariffs.{Service, Tariff, get_req_cost}
use aura_proxy.Tokens.{
  CacheLib, User, TokenChecker, TokenError, Moment, has_ended, cached, cached_or, get_user,
  mul_int64, credits_of, charged, admitted, subscribed, with_user, get_user_from_api_cached,
  check_token, signed_in, api_token_checker,
}
use aura_proxy.Tokens.Admission.{IsAt, get_user-IsAt, IsAdmitted, check_token-IsAdmitted}

-- The users of the second heap are those of the first, and more.
abbrev pub HasMore : List User → List User → Type 0
HasMore xs ys = (new : List User) × (ys ≡ xs ++ new)

pub ++_nil : (xs : List User) → xs ≡ xs ++ []
++_nil [] = refl
++_nil (x ∷ xs) = ap (λ ys. x ∷ ys) (++_nil xs)

module _ {C S : Type 0} (lib : CacheLib C ℕ) where
  cached_or-HasMore :
      (t : TokenChecker C S) (now : ℕ) (answer : Option User) (o : Option (ℕ × User))
      → HasMore t.users (cached_or lib t now answer o).0.users
  cached_or-HasMore t now none none = ([], ++_nil t.users)
  cached_or-HasMore t now (some u) none = (u ∷ [], refl)
  cached_or-HasMore t now answer (some u) = ([], ++_nil t.users)

  module _ (pricing : Option S → Service → Tariff) where
    -- What the token checker does not change of a context: the methods, the chain and the type.
    abbrev pub IsSameCall : CustomContext ℕ S → CustomContext ℕ S → Type 0
    IsSameCall c c' =
        (c'.req_methods ≡ c.req_methods)
        × (c'.chain_name ≡ c.chain_name)
        × (c'.request_type ≡ c.request_type)

    -- No user is charged or lost, the request stays, and an admitted user is the one looked up.
    abbrev IsKept :
        TokenChecker C S
        → CustomContext ℕ S
        → TokenChecker C S × Result TokenError (ℕ × User)
        → TokenChecker C S × CustomContext ℕ S × Result TokenError ℕ
        → Type 0
    IsKept t c found (t', c', err e) = HasMore t.users t'.users
    IsKept t c found (t', c', ok ref) =
        HasMore t.users t'.users × IsSameCall c c' × ((u : User) × (found ≡ (t', ok (ref, u))))

    charged-IsKept :
        (b : Bool) (t t' : TokenChecker C S) (c : CustomContext ℕ S) (ref : ℕ) (u : User)
        → HasMore t.users t'.users
        → IsKept t c
            (t', ok (ref, u))
            (let (c', r) = charged lib pricing b (subscribed lib pricing t' c u) ref in (t', c', r))
    charged-IsKept true t t' c ref u h = h
    charged-IsKept false t t' c ref u h = (h, (refl, refl, refl), (u, refl))

    admitted-IsKept :
        (b : Bool) (t t' : TokenChecker C S) (c : CustomContext ℕ S) (ref : ℕ) (u : User)
        → HasMore t.users t'.users
        → IsKept t c
            (t', ok (ref, u))
            (let (c', r) = admitted lib pricing b t' c ref u in (t', c', r))
    admitted-IsKept true t t' c ref u h = h
    admitted-IsKept false t t' c ref u h =
        charged-IsKept
          (ltb_ℤ u.mplx_balance (credits_of lib pricing (subscribed lib pricing t' c u))) t t' c ref
          u h

    with_user-IsKept :
        (t : TokenChecker C S) (c : CustomContext ℕ S) (now : ℕ)
        (r : TokenChecker C S × Result TokenError (ℕ × User))
        → HasMore t.users r.0.users
        → IsKept t c r (with_user lib pricing c now r)
    with_user-IsKept t c now (t', err e) h = h
    with_user-IsKept t c now (t', ok (ref, u)) h = admitted-IsKept (has_ended now u) t t' c ref u h

    module _ (is_uuid : String → Bool) (t : TokenChecker C S) (c : CustomContext ℕ S)
        (m : Moment) where
      -- The token was tested as well.
      abbrev IsTested : String → TokenChecker C S × CustomContext ℕ S × Result TokenError ℕ → Type 0
      IsTested token (t', c', err e) = Unit
      IsTested token (t', c', ok ref) = (str_eq token "" ≡ false) × (is_uuid token ≡ true)

      IsTested-by :
          (token : String) (r : TokenChecker C S × CustomContext ℕ S × Result TokenError ℕ)
          → str_eq token "" ≡ false
          → is_uuid token ≡ true
          → IsTested token r
      IsTested-by token (t', c', err e) p q = tt
      IsTested-by token (t', c', ok ref) p q = (p, q)

      check_token-IsKept :
          (token : String)
          → IsKept t c (get_user lib t m token) (check_token lib pricing is_uuid t c m token)
            × IsTested token (check_token lib pricing is_uuid t c m token)
      unfolding check_token get_user_from_api_cached get_user
      check_token-IsKept token = elim (Bool-cases (str_eq token "")) [
        | inl e ↦ rw e (([], ++_nil t.users), tt)
        | inr e ↦ elim (Bool-cases (is_uuid token)) [
          | inl f ↦
              rw (e, f)
                (
                  with_user-IsKept t c m.at_check (get_user lib t m token) (
                      cached_or-HasMore t m.at_store (m.get_user_info token)
                        (cached lib t m.at_lookup token)),
                  IsTested-by token (with_user lib pricing c m.at_check (get_user lib t m token)) e
                      f,
                )
          | inr f ↦ rw (e, f) (([], ++_nil t.users), tt)
        ]
      ]

      -- The user is the one that was looked up for the token, may send the request, and stands in the
      -- context with its token and its credits.
      pub record IsSignedAs (token : String) (t' : TokenChecker C S) (c' : CustomContext ℕ S)
          (ref : ℕ) (u : User) : Type 0 where
        pub kept : HasMore t.users t'.users
        pub same : IsSameCall c c'
        pub not_empty : str_eq token "" ≡ false
        pub uuid : is_uuid token ≡ true
        pub looked_up : get_user lib t m token ≡ (t', ok (ref, u))
        pub token_noted : c'.api_token ≡ token
        pub user : c'.user_info ≡ some ref
        pub found : get_elem? t'.users ref ≡ some u
        pub live : has_ended m.at_check u ≡ false
        pub credits : c'.credits_used ≡ mul_int64 (length c'.req_methods) (get_req_cost pricing c')
        pub enough : ltb_ℤ u.mplx_balance c'.credits_used ≡ false

      abbrev pub IsSignedIn :
          String → TokenChecker C S × CustomContext ℕ S × Option TokenError → Type 0
      IsSignedIn token (t', c', some e) = HasMore t.users t'.users
      IsSignedIn token (t', c', none) = (ref : ℕ) × (u : User) × IsSignedAs token t' c' ref u

      signed_in-IsSignedIn :
          (token : String) (r : TokenChecker C S × CustomContext ℕ S × Result TokenError ℕ)
          → IsKept t c (get_user lib t m token) r
          → IsTested token r
          → IsAdmitted lib pricing c m.at_check r
          → IsSignedIn token (signed_in lib pricing is_uuid token r)
      unfolding set_user_info get_req_cost
      signed_in-IsSignedIn token (t', c', err e) h q a = h
      signed_in-IsSignedIn token (t', c', ok ref) (h, k, (v, looked_up)) (p, q)
            (u, at, live, enough, credits, sub) =
          let at_v : get_elem? t'.users ref ≡ some v =
            subst (λ r. IsAt lib r) looked_up (get_user-IsAt lib t m token) in
          let v_is : v ≡ u = some-injective v u (sym at_v ∙ at) in
          (
            ref,
            u,
            record {
              kept = h;
              same = k;
              not_empty = p;
              uuid = q;
              looked_up = looked_up ∙ ap (λ x. (t', ok (ref, x))) v_is;
              token_noted = refl;
              user = refl;
              found = at;
              live = live;
              enough = subst (λ x. ltb_ℤ u.mplx_balance x ≡ false) (sym credits) enough;
              credits = credits;
            },
          )

      pub api_token_checker-IsSignedIn :
          (param : String)
          → IsSignedIn
              (string_trim_right b'/' param)
              (api_token_checker lib pricing is_uuid t c m param)
      unfolding api_token_checker
      api_token_checker-IsSignedIn param =
          let token = string_trim_right b'/' param in
          let k = check_token-IsKept token in
          signed_in-IsSignedIn token (check_token lib pricing is_uuid t c m token) k.0 k.1
            (check_token-IsAdmitted lib pricing is_uuid t c m token)
