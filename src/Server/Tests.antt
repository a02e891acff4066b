-- ===== src/Server/Tests.antt =====
-- A site with the sample adapter, a user with a balance of 10 whom only the API knows, and limits that
-- nothing exceeds.
use aura_proxy.Common.{ℕ, refl, true, false, [], ◌∷◌, none, some, codes}
use aura_proxy.Common.Int.{ℤ, pos}
use aura_proxy.Common.Float.{milli}
use aura_proxy.Context.{new_custom_context, rpc}
use aura_proxy.Tokens.{CacheLib, User}
use aura_proxy.Limiter.{RateLib}
use aura_proxy.Transport.Samples.{router-IsBuilt, silent, world}
use aura_proxy.Adapter.Samples.{decoder, api, adapter}
use aura_proxy.Server.{Outside, Site, PostRequest, post_request}
use aura_proxy.Server.Guarded.{IsGuardedRun, post_request-IsGuarded}

abbrev forgetful : CacheLib Unit ℕ
forgetful = record { get = λ c now k. none; set = λ c now k v ttl. c }

abbrev generous : RateLib ℤ
generous = record { new_limiter = λ l. l; limit = λ l. l; allow = λ l now. (l, true) }

abbrev user : User
user = record {
  user = "u1";
  mplx_balance = pos 10;
  subscription_ends_on = none;
  subscription_id = pos 1;
  tokens = "t1" ∷ [];
}

abbrev out : Outside ℕ ℤ Unit ℕ
out = record {
  api = api;
  decoder = decoder;
  floats = milli;
  json = silent;
  cache = forgetful;
  rate = generous;
  pricing = λ s k. record { requests_per_second = pos 5; price_mplx = pos 3 };
  is_uuid = λ t. true;
  type_name = λ t. "RPC";
}

abbrev site : Site ℕ ℤ Unit ℕ
site = record {
  proxy = record {
    adapters = ("localhost:2011", 0) ∷ [];
    heap = adapter ∷ [];
    counters = [];
    is_mainnet = true;
  };
  checker = record { user_cache = tt; users = []; subscription_list = (pos 1, 7) ∷ [] };
  visitors = record { visitors = []; last_cleanup = 0; expires_in = 180 };
  streams = [];
  partner_usage = [];
}

abbrev request : PostRequest ℕ
request = record {
  incoming = record {
    host = "localhost:2011";
    is_websocket = false;
    content_type = codes "application/json";
    body = some (codes "{}");
    time = pos 1;
  };
  token_param = "t1/";
  moment = record { at_lookup = 5; at_store = 5; at_check = 6; get_user_info = λ token. some user };
  req_id = "r1";
  times = record { seen = 7; cleanup = 7; cleaned = 7; allow = 7 };
  real_ip = none;
  paid_at = 8;
  world = world;
  elapsed = pos 7;
}

post_request-IsGuarded_example :
    IsGuardedRun out site request
      (new_custom_context rpc)
      (post_request out request site (new_custom_context rpc))
post_request-IsGuarded_example =
    post_request-IsGuarded out site request (new_custom_context rpc) (router-IsBuilt, tt) refl
