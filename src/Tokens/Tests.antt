-- ===== src/Tokens/Tests.antt =====
-- A user with two tokens and a balance of 10, and a cache that is a list of the values set.
use aura_proxy.Common.{
  ℕ, ◌+◌, ◌≡◌, refl, String, str_eq, true, List, [], ◌∷◌, Option, none, some, leb, if◌then◌else◌,
  ok, arith, ◌≤◌,
}
use aura_proxy.Common.Int.{pos, wrap_int64}
use aura_proxy.Context.{CustomContext, new_custom_context, rpc}
use aura_proxy.Context.Tariffs.{Service, Tariff, get_req_cost}
use aura_proxy.Tokens.{
  set_tokens, CacheLib, User, TokenChecker, Moment, has_ended, get_user, check_token,
  get_user_from_api_cached, user_balance,
}
use aura_proxy.Tokens.Admission.{IsAdmitted, check_token-IsAdmitted}
use aura_proxy.Tokens.Payment.{HasPaid, check_token-HasPaid}
use aura_proxy.Tokens.Caching.{IsCache, get_user_remembers}

abbrev Sets : Type 0
Sets = List (String × ℕ × ℕ)

abbrev get_latest : Sets → ℕ → String → Option ℕ
get_latest [] now k = none
get_latest ((j, v, until) ∷ s) now k =
    let rest = get_latest s now k in
    if str_eq j k then (if leb now until then some v else none) else rest

abbrev lib : CacheLib Sets ℕ
lib = record { get = get_latest; set = λ c now k v ttl. (k, v, now + ttl) ∷ c }

lib-IsCache : IsCache lib
lib-IsCache = record { get-set = λ c set_at k v ttl now j. refl }

abbrev user : User
user = record {
  user = "u1";
  mplx_balance = pos 10;
  subscription_ends_on = none;
  subscription_id = pos 1;
  tokens = "t1" ∷ "t2" ∷ [];
}

abbrev fresh : TokenChecker Sets ℕ
fresh = record { user_cache = []; users = []; subscription_list = (pos 1, 7) ∷ [] }

abbrev moment : Moment
moment = record { at_lookup = 5; at_store = 5; at_check = 6; get_user_info = λ token. some user }

abbrev without_api : Moment
without_api = record { at_lookup = 8; at_store = 8; at_check = 9; get_user_info = λ token. none }

abbrev pricing : Option ℕ → Service → Tariff
pricing s k = record { requests_per_second = pos 5; price_mplx = pos 3 }

abbrev context : CustomContext ℕ ℕ
context = record (new_custom_context rpc) {
  chain_name = "solana";
  req_methods = "getSlot" ∷ "getSlot" ∷ [];
}

check_token-IsAdmitted_example :
    IsAdmitted lib pricing context 6 (check_token lib pricing (λ t. true) fresh context moment "t1")
check_token-IsAdmitted_example =
    check_token-IsAdmitted lib pricing (λ t. true) fresh context moment "t1"

abbrev admitted_context : CustomContext ℕ ℕ
admitted_context = record context { subscription = some 7; credits_used = pos 6 }

abbrev after_first : TokenChecker Sets ℕ
after_first = record fresh {
  user_cache = ("t2", 0, 60000000005) ∷ ("t1", 0, 60000000005) ∷ [];
  users = user ∷ [];
}

check_token-HasPaid_example :
    (6 ≤ 10)
    × HasPaid lib pricing
        (λ t. true)
        0
        10
        6
        (user_balance lib after_first (record admitted_context { user_info = some 0 }) 7)
unfolding check_token get_user_from_api_cached get_user has_ended set_tokens get_req_cost wrap_int64
check_token-HasPaid_example =
    check_token-HasPaid lib pricing (λ t. true) fresh after_first context admitted_context moment
      "t1" 0 7 user 10 3 refl refl refl (omega arith) refl (omega arith)

get_user_remembers_example :
    get_user lib (get_user lib fresh moment "t1").0 without_api "t2"
    ≡ ((get_user lib fresh moment "t1").0, ok (0, user))
unfolding has_ended
get_user_remembers_example =
    get_user_remembers lib lib-IsCache fresh moment without_api "t1" "t2" user refl refl refl
      (omega arith) refl
