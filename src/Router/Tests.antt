-- ===== src/Router/Tests.antt =====
-- A router for a small configuration, and the theorems at it.
use aura_proxy.Common.{ℕ, ◌≡◌, refl, true, false, String, [], ◌∷◌, find, put, some, none, ok, arith}
use aura_proxy.Common.Float.{milli, milli-IsIeee}
use aura_proxy.Common.Int.{pos}
use aura_proxy.Balancer.Weighted.{ProbabilisticBalancer, is_available}
use aura_proxy.Target.{ProxyTarget}
use aura_proxy.Config.{SolanaConfig}
use aura_proxy.Router.Tables.{Router, expanded_methods, set_groups}
use aura_proxy.Router.{new_method_based_router, is_method_supported}
use aura_proxy.Router.Serving.{IsServed, is_method_supported-IsServed}
use aura_proxy.Router.Heap.{expected_heap}
use aura_proxy.Router.Shape.{IsBuilt}
use aura_proxy.Router.Routes.Steps.{info_targets}
use aura_proxy.Router.Routes.{expected_targets, expected_default, new_method_based_router_routes}

-- Endpoint 0 names getSlot twice, by a group and by itself; endpoint 1 handles what is not named,
-- and excludes getBalance, which no endpoint names.
abbrev cfg : SolanaConfig ℕ
cfg = record {
  das_api_nodes = [];
  basic_route_nodes = [];
  ws_host_nodes = [];
  method_groups = record { name = "slots"; methods = "getSlot" ∷ "getSlotLeader" ∷ [] } ∷ [];
  providers =
      record {
        name = "first";
        endpoints =
            record {
              url = "http://a";
              weight = 2000;
              node_type = record { name = ""; available_slots_history = pos 0 };
              methods = "getSlot" ∷ [];
              exclude_methods = "getSlotLeader" ∷ [];
              method_groups = "slots" ∷ "unknown" ∷ [];
              handle_other = false;
              handle_web_socket = false;
            }
            ∷ record {
              url = "http://b";
              weight = 0;
              node_type = record { name = ""; available_slots_history = pos 0 };
              methods = [];
              exclude_methods = "getBalance" ∷ [];
              method_groups = [];
              handle_other = true;
              handle_web_socket = true;
            }
            ∷ [];
      }
      ∷ [];
}

expected :
    (expected_targets milli cfg "getSlot" ≡ 0 ∷ 0 ∷ [])
    × (expected_targets milli cfg "getSlotLeader" ≡ [])
    × (expected_default milli cfg ≡ 1 ∷ [])
unfolding expanded_methods set_groups put find
expected = (refl, refl, refl)

new_method_based_router_routes_example :
    (r : Router ℕ) × (new_method_based_router milli cfg ≡ ok r)
    × IsBuilt milli r
    × ((k : String) → info_targets (find r.method_map k) ≡ expected_targets milli cfg k)
    × (info_targets r.default_target_info ≡ expected_default milli cfg)
    × (r.heap ≡ expected_heap milli cfg)
new_method_based_router_routes_example = new_method_based_router_routes milli cfg milli-IsIeee

abbrev only : ProbabilisticBalancer ℕ ℕ
only = record { targets = 0 ∷ []; weights = 1000 ∷ []; cumulative_weights = 1000 ∷ [] }

abbrev node : ProxyTarget
node = record {
  available_methods = [];
  provider = "first";
  target_type = record { name = ""; available_slots_history = pos 0 };
  url = "http://a";
  req_counter = 0;
  req_limit = 0;
  req_window = 0;
  slot_amount = pos 0;
}

-- One target that handles what no other does.
abbrev small : Router ℕ
small = record {
  heap = node ∷ [];
  method_map = [];
  default_target_info =
      some (record { targets = 0 ∷ []; weights = 1000 ∷ []; balancer = some only });
  ws_target_info = none;
  providers = [];
  method_groups = [];
  supported_methods = [];
}

small-IsBuilt : IsBuilt milli small
unfolding find
small-IsBuilt = record {
  size = refl;
  methods = tt;
  default_info = record {
    built_balancer = only;
    built = refl;
    targets = refl;
    well_formed = record { nonempty = omega arith; weighted = refl; cumulative = refl };
    inside = (omega arith, tt);
  };
  ws_info = tt;
  supported = λ m s. cc;
}

is_method_supported-IsServed_example : IsServed milli small "getBalance"
unfolding is_method_supported find is_available
is_method_supported-IsServed_example =
    is_method_supported-IsServed milli small small-IsBuilt "getBalance" refl
