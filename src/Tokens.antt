-- ===== src/Tokens.antt =====
-- internal/proxy/middlewares/api_token_checker.go: who may send a request, and what it costs. Users
-- are shared by pointer between the cache and the contexts of requests, so they are indices of a heap.
-- The cache (go-cache), the parser of UUIDs, the answers of the API and the clock are arguments; times
-- are nanoseconds. An answer of the API without an error has a user.
pub mod Admission
pub mod Payment
pub mod Caching
mod Tests
use aura_proxy.Common.{
  ℕ, zero, suc, ◌+◌, ◌-◌, ◌*◌, ◌%◌, String, Bool, true, false, not, ◌&&◌, ◌||◌, List, [], ◌∷◌, ◌++◌,
  Option, none, some, str_eq, length, get_elem?, modify, ltb, if◌then◌else◌, Result, ok, err,
}
use aura_proxy.Common.Int.{ℤ, pos, pos_part, neg_part, ltb_ℤ, eqb_ℤ, wrap_int64, int64_mod}
use aura_proxy.Common.Text.{string_trim_right}
use aura_proxy.Context.{CustomContext, set_user_info}
use aura_proxy.Context.Tariffs.{Service, Tariff, get_req_cost}

-- cache.New, Get and Set: a cache holds values by text, each for a time from when it was set.
pub record CacheLib (C V : Type 0) : Type 0 where
  pub get : C → ℕ → String → Option V
  pub set : C → ℕ → String → V → ℕ → C

-- UserWithTokens of aura-api, as far as it is read here.
pub record User : Type 0 where
  pub user : String
  pub mplx_balance : ℤ
  pub subscription_ends_on : Option ℕ
  pub subscription_id : ℤ
  pub tokens : List String

-- TokenChecker: the cache holds indices of users.
pub record TokenChecker (C S : Type 0) : Type 0 where
  pub user_cache : C
  pub users : List User
  pub subscription_list : List (ℤ × S)

pub data TokenError : Type 0 where
  empty_api_token credits_exhausted : TokenError
  not_a_uuid get_user_info_failed no_active_subscription : TokenError

abbrev pub user_info_cache_interval : ℕ
user_info_cache_interval = 60000000000

-- int64 products and differences, with wrap-around.
abbrev pub mul_int64 : ℕ → ℤ → ℤ
mul_int64 n a = wrap_int64 (n * pos_part a + (int64_mod - n * neg_part a % int64_mod))

abbrev pub sub_int64 : ℤ → ℤ → ℤ
sub_int64 a b =
    wrap_int64 (pos_part a + neg_part b + (int64_mod - (neg_part a + pos_part b) % int64_mod))

abbrev ended : ℕ → Option ℕ → Bool
ended now none = false
ended now (some t) = ltb t now

unfoldable pub has_ended : ℕ → User → Bool
has_ended now u = ended now u.subscription_ends_on

-- subscriptionList[id]
abbrev pub subscription_of : {S : Type 0} → List (ℤ × S) → ℤ → Option S
subscription_of [] id = none
subscription_of ((i, s) ∷ rest) id = if eqb_ℤ i id then some s else subscription_of rest id

-- updateSubscriptionList: a later subscription with the same ID replaces an earlier one; an error
-- leaves the list.
unfoldable pub latest_first : {A : Type 0} → List A → List A → List A
latest_first acc [] = acc
latest_first acc (x ∷ xs) = latest_first (x ∷ acc) xs

unfoldable pub update_subscription_list :
    {C S : Type 0} → TokenChecker C S → Option (List (ℤ × S)) → TokenChecker C S
update_subscription_list t none = t
update_subscription_list t (some subs) = record t { subscription_list = latest_first [] subs }

-- What one check meets: the clock at the look-up, when a user is stored, and after that, and the
-- answer of GetUserInfo.
pub record Moment : Type 0 where
  pub at_lookup : ℕ
  pub at_store : ℕ
  pub at_check : ℕ
  pub get_user_info : String → Option User

-- userCache.Set for each token of a user.
unfoldable pub set_tokens : {C : Type 0} → CacheLib C ℕ → C → ℕ → ℕ → List String → C
set_tokens lib cache now ref [] = cache
set_tokens lib cache now ref (tkn ∷ tkns) =
    set_tokens lib (lib.set cache now tkn ref user_info_cache_interval) now ref tkns

abbrev usable : ℕ → Option ℕ → Option User → Option (ℕ × User)
usable now (some ref) (some u) = if has_ended now u then none else some (ref, u)
usable now _ _ = none

abbrev at_ref : List User → Option ℕ → Option User
at_ref users none = none
at_ref users (some ref) = get_elem? users ref

-- The write of UserBalanceMiddleware to the user.
abbrev pub pay : ℤ → User → User
pay credits u = record u { mplx_balance = sub_int64 u.mplx_balance credits }

module _ {C S : Type 0} (lib : CacheLib C ℕ) where
  abbrev pub store_user : TokenChecker C S → ℕ → User → TokenChecker C S
  store_user t now u = record t {
    user_cache = set_tokens lib t.user_cache now (length t.users) u.tokens;
    users = t.users ++ u ∷ [];
  }

  -- The user of the token, from the cache or else from the API.
  abbrev pub fetched :
      TokenChecker C S → ℕ → Option User → TokenChecker C S × Result TokenError (ℕ × User)
  fetched t now none = (t, err get_user_info_failed)
  fetched t now (some u) = (store_user t now u, ok (length t.users, u))

  abbrev pub cached : TokenChecker C S → ℕ → String → Option (ℕ × User)
  cached t now token = let o = lib.get t.user_cache now token in usable now o (at_ref t.users o)

  abbrev pub cached_or :
      TokenChecker C S
      → ℕ
      → Option User
      → Option (ℕ × User)
      → TokenChecker C S × Result TokenError (ℕ × User)
  cached_or t now answer (some u) = (t, ok u)
  cached_or t now answer none = fetched t now answer

  unfoldable pub get_user :
      TokenChecker C S → Moment → String → TokenChecker C S × Result TokenError (ℕ × User)
  get_user t m token = cached_or t m.at_store (m.get_user_info token) (cached t m.at_lookup token)

  module _ (pricing : Option S → Service → Tariff) where
    abbrev pub credits_of : CustomContext ℕ S → ℤ
    credits_of c = mul_int64 (length c.req_methods) (get_req_cost pricing c)

    -- The subscription and the credits of a user, after the look-up.
    -- By whether the balance is too low.
    abbrev pub charged : Bool → CustomContext ℕ S → ℕ → CustomContext ℕ S × Result TokenError ℕ
    charged true c ref = (c, err credits_exhausted)
    charged false c ref = (record c { credits_used = credits_of c }, ok ref)

    abbrev pub subscribed : TokenChecker C S → CustomContext ℕ S → User → CustomContext ℕ S
    subscribed t c u = record c {
      subscription = subscription_of t.subscription_list u.subscription_id;
    }

    -- By whether the subscription has ended.
    abbrev pub admitted :
        Bool
        → TokenChecker C S
        → CustomContext ℕ S
        → ℕ
        → User
        → CustomContext ℕ S × Result TokenError ℕ
    admitted true t c ref u = (c, err no_active_subscription)
    admitted false t c ref u =
        charged (ltb_ℤ u.mplx_balance (credits_of (subscribed t c u))) (subscribed t c u) ref

    abbrev pub admit :
        TokenChecker C S
        → CustomContext ℕ S
        → ℕ
        → ℕ × User
        → CustomContext ℕ S × Result TokenError ℕ
    admit t c now (ref, u) = admitted (has_ended now u) t c ref u

    abbrev pub with_user :
        CustomContext ℕ S
        → ℕ
        → TokenChecker C S × Result TokenError (ℕ × User)
        → TokenChecker C S × CustomContext ℕ S × Result TokenError ℕ
    with_user c now (t, err e) = (t, c, err e)
    with_user c now (t, ok u) = let (c', r) = admit t c now u in (t, c', r)

    -- getUserFromAPICached
    unfoldable pub get_user_from_api_cached :
        TokenChecker C S
        → CustomContext ℕ S
        → Moment
        → String
        → TokenChecker C S × CustomContext ℕ S × Result TokenError ℕ
    get_user_from_api_cached t c m token = with_user c m.at_check (get_user t m token)

    module _ (is_uuid : String → Bool) where
      -- CheckToken
      unfoldable pub check_token :
          TokenChecker C S
          → CustomContext ℕ S
          → Moment
          → String
          → TokenChecker C S × CustomContext ℕ S × Result TokenError ℕ
      check_token t c m token =
          if str_eq token ""
          then (t, c, err empty_api_token)
          else if not (is_uuid token)
          then (t, c, err not_a_uuid)
          else get_user_from_api_cached t c m token

      abbrev pub signed_in :
          String
          → TokenChecker C S × CustomContext ℕ S × Result TokenError ℕ
          → TokenChecker C S × CustomContext ℕ S × Option TokenError
      signed_in token (t, c, err e) = (t, c, some e)
      signed_in token (t, c, ok ref) =
          (t, record (set_user_info c (some ref)) { api_token = token }, none)

      -- APITokenCheckerMiddleware, on the parameter of the path; every error is answered with
      -- status 401, and without one the next handler is called.
      unfoldable pub api_token_checker :
          TokenChecker C S
          → CustomContext ℕ S
          → Moment
          → String
          → TokenChecker C S × CustomContext ℕ S × Option TokenError
      api_token_checker t c m param =
          let token = string_trim_right b'/' param in signed_in token (check_token t c m token)

  abbrev pub charge_user : TokenChecker C S → ℕ → ℤ → ℕ → Option User → TokenChecker C S
  charge_user t now credits ref none = t
  charge_user t now credits ref (some u) = record t {
    users = modify (pay credits) t.users ref;
    user_cache = set_tokens lib t.user_cache now ref u.tokens;
  }

  -- `none` is the panic on a user that is nil.
  abbrev pub charge_context : TokenChecker C S → ℕ → ℤ → Option ℕ → Option (TokenChecker C S)
  charge_context t now credits none = none
  charge_context t now credits (some ref) =
      some (charge_user t now credits ref (get_elem? t.users ref))

  -- UserBalanceMiddleware; it writes through the pointer.
  unfoldable pub user_balance : TokenChecker C S → CustomContext ℕ S → ℕ → Option (TokenChecker C S)
  user_balance t c now = charge_context t now c.credits_used c.user_info
