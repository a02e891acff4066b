-- ===== src/Tokens/Admission.antt =====
-- api_token_checker.go: whom CheckToken admits, and what UserBalanceMiddleware then takes.
use aura_proxy.Common.{
  ℕ, ◌≡◌, refl, String, str_eq, Bool, true, false, [], Option, none, some, get_elem?,
  get_elem?-append_length, Result, ok, err, Bool-cases, inl, inr,
}
use aura_proxy.Common.Int.{ltb_ℤ}
use aura_proxy.Context.{CustomContext}
use aura_proxy.Context.Tariffs.{Service, Tariff, get_req_cost}
use aura_proxy.Tokens.{
  CacheLib, User, TokenChecker, TokenError, Moment, has_ended, subscription_of, usable, at_ref,
  cached, cached_or, get_user, credits_of, charged, subscribed, admitted, with_user,
  get_user_from_api_cached, check_token,
}

module _ {C S : Type 0} (lib : CacheLib C ℕ) where
  -- A user that was found is at its index.
  abbrev pub IsAt : TokenChecker C S × Result TokenError (ℕ × User) → Type 0
  IsAt (t, err e) = Unit
  IsAt (t, ok (ref, u)) = get_elem? t.users ref ≡ some u

  abbrev IsAtOption : TokenChecker C S → Option (ℕ × User) → Type 0
  IsAtOption t none = Unit
  IsAtOption t (some (ref, u)) = get_elem? t.users ref ≡ some u

  usable-IsAt :
      (t : TokenChecker C S) (now : ℕ) (o : Option ℕ) (v : Option User)
      → at_ref t.users o ≡ v
      → IsAtOption t (usable now o v)
  usable-IsAt t now none none e = tt
  usable-IsAt t now none (some u) e = tt
  usable-IsAt t now (some ref) none e = tt
  usable-IsAt t now (some ref) (some u) e = elim (Bool-cases (has_ended now u)) [
    | inl f ↦ rw f tt
    | inr f ↦ rw f e
  ]

  cached_or-IsAt :
      (t : TokenChecker C S) (now : ℕ) (answer : Option User) (o : Option (ℕ × User))
      → IsAtOption t o
      → IsAt (cached_or lib t now answer o)
  cached_or-IsAt t now none none h = tt
  cached_or-IsAt t now (some u) none h = get_elem?-append_length t.users u []
  cached_or-IsAt t now answer (some (ref, u)) h = h

  pub get_user-IsAt :
      (t : TokenChecker C S) (m : Moment) (token : String) → IsAt (get_user lib t m token)
  unfolding get_user
  get_user-IsAt t m token =
      cached_or-IsAt t m.at_store (m.get_user_info token) (cached lib t m.at_lookup token) (
        usable-IsAt t m.at_lookup (lib.get t.user_cache m.at_lookup token)
          (at_ref t.users (lib.get t.user_cache m.at_lookup token)) refl)

  module _ (pricing : Option S → Service → Tariff) where
    -- An admitted user has a subscription that goes on and the balance for the credits, which are in
    -- the context; an error leaves the credits of the context alone.
    abbrev pub IsAdmitted :
        CustomContext ℕ S → ℕ → TokenChecker C S × CustomContext ℕ S × Result TokenError ℕ → Type 0
    IsAdmitted c now (t, c', err e) = c'.credits_used ≡ c.credits_used
    IsAdmitted c now (t, c', ok ref) =
        (u : User) × (get_elem? t.users ref ≡ some u)
        × (has_ended now u ≡ false)
        × (ltb_ℤ u.mplx_balance (credits_of lib pricing c') ≡ false)
        × (c'.credits_used ≡ credits_of lib pricing c')
        × (c'.subscription ≡ subscription_of t.subscription_list u.subscription_id)

    charged-IsAdmitted :
        (t : TokenChecker C S) (c : CustomContext ℕ S) (now ref : ℕ) (u : User) (b : Bool)
        → get_elem? t.users ref ≡ some u
        → has_ended now u ≡ false
        → ltb_ℤ u.mplx_balance (credits_of lib pricing (subscribed lib pricing t c u)) ≡ b
        → IsAdmitted c now
            (let (c', r) = charged lib pricing b (subscribed lib pricing t c u) ref in (t, c', r))
    unfolding get_req_cost
    charged-IsAdmitted t c now ref u true h e f = refl
    charged-IsAdmitted t c now ref u false h e f = (u, h, e, f, refl, refl)

    admitted-IsAdmitted :
        (t : TokenChecker C S) (c : CustomContext ℕ S) (now ref : ℕ) (u : User) (b : Bool)
        → get_elem? t.users ref ≡ some u
        → has_ended now u ≡ b
        → IsAdmitted c now (let (c', r) = admitted lib pricing b t c ref u in (t, c', r))
    admitted-IsAdmitted t c now ref u true h e = refl
    admitted-IsAdmitted t c now ref u false h e =
        charged-IsAdmitted t c now ref u
          (ltb_ℤ u.mplx_balance (credits_of lib pricing (subscribed lib pricing t c u))) h e refl

    with_user-IsAdmitted :
        (c : CustomContext ℕ S) (now : ℕ) (r : TokenChecker C S × Result TokenError (ℕ × User))
        → IsAt r
        → IsAdmitted c now (with_user lib pricing c now r)
    with_user-IsAdmitted c now (t, err e) h = refl
    with_user-IsAdmitted c now (t, ok (ref, u)) h =
        admitted-IsAdmitted t c now ref u (has_ended now u) h refl

    module _ (is_uuid : String → Bool) where
      -- CheckToken admits only a user whose subscription has not ended and whose balance is at least
      -- the credits of the request, the number of its methods times the price of the user's
      -- subscription for its type (an int64), and notes these credits; an error notes none.
      pub check_token-IsAdmitted :
          (t : TokenChecker C S) (c : CustomContext ℕ S) (m : Moment) (token : String)
          → IsAdmitted c m.at_check (check_token lib pricing is_uuid t c m token)
      unfolding check_token get_user_from_api_cached
      check_token-IsAdmitted t c m token = elim (Bool-cases (str_eq token "")) [
        | inl e ↦ rw e refl
        | inr e ↦ elim (Bool-cases (is_uuid token)) [
          | inl f ↦
              rw (e, f)
                (with_user-IsAdmitted c m.at_check (get_user lib t m token)
                  (get_user-IsAt t m token))
          | inr f ↦ rw (e, f) refl
        ]
      ]
