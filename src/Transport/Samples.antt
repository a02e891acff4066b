-- ===== src/Transport/Samples.antt =====
-- Sample values for the tests: a router of two targets, and nodes that answer without an RPC version.
use aura_proxy.Common.{ℕ, refl, String, false, [], ◌∷◌, none, some, arith, find}
use aura_proxy.Common.Int.{pos}
use aura_proxy.Common.Float.{milli}
use aura_proxy.Balancer.Weighted.{ProbabilisticBalancer}
use aura_proxy.Target.{ProxyTarget}
use aura_proxy.Router.Tables.{Router}
use aura_proxy.Router.Shape.{IsBuilt}
use aura_proxy.Context.{CustomContext, new_custom_context, rpc}
use aura_proxy.Analysis.{JsonParser}
use aura_proxy.Transport.Answers.{World}
use aura_proxy.Transport.{State}

abbrev node : String → ProxyTarget
node url = record {
  available_methods = [];
  provider = "first";
  target_type = record { name = ""; available_slots_history = pos 0 };
  url = url;
  req_counter = 0;
  req_limit = 0;
  req_window = 0;
  slot_amount = pos 0;
}

abbrev pub both : ProbabilisticBalancer ℕ ℕ
both = record {
  targets = 0 ∷ 1 ∷ [];
  weights = 500 ∷ 500 ∷ [];
  cumulative_weights = 500 ∷ 1000 ∷ [];
}

abbrev pub router : Router ℕ
router = record {
  heap = node "http://a" ∷ node "http://b" ∷ [];
  method_map = [];
  default_target_info =
      some (record { targets = 0 ∷ 1 ∷ []; weights = 500 ∷ 500 ∷ []; balancer = some both });
  ws_target_info = none;
  providers = [];
  method_groups = [];
  supported_methods = [];
}

pub router-IsBuilt : IsBuilt milli router
unfolding find
router-IsBuilt = record {
  size = refl;
  methods = tt;
  default_info = record {
    built_balancer = both;
    built = refl;
    targets = refl;
    well_formed = record { nonempty = omega arith; weighted = refl; cumulative = refl };
    inside = (omega arith, (omega arith, tt));
  };
  ws_info = tt;
  supported = λ m s. cc;
}

abbrev pub context : CustomContext Unit Unit
context = record (new_custom_context rpc) { req_methods = "getSlot" ∷ [] }

abbrev pub state : State ℕ Unit Unit
state = record { context = context; router = router; partner_usage = [] }

abbrev pub silent : JsonParser
silent = record {
  get = λ body key. [];
  get_int = λ body key. pos 0;
  get_string = λ body key. [];
  array_each = λ body. ([], false);
}

abbrev pub world : World ℕ
world = record {
  before = λ i. none;
  after = λ i. none;
  draw = λ i. 900;
  now = λ i. 0;
  clock = λ i k. 0;
  took = λ i. pos 5;
  slot_now = λ i. pos 0;
  do_request = λ i url. record { body = b'{' ∷ []; status = 200; failure = none };
}
