-- ===== src/Router/Tables.antt =====
-- method_router.go: the routing table, and how processProviders fills it from the endpoints.
use aura_proxy.Common.{
  ℕ, suc, String, false, List, [], ◌∷◌, ◌++◌, Option, none, some, if◌then◌else◌, Map, find, put,
  length, mem_str, Result, ok, err,
}
use aura_proxy.Common.Int.{pos}
use aura_proxy.Common.Float.{Float64}
use aura_proxy.Balancer.Weighted.{ProbabilisticBalancer, NewError}
use aura_proxy.Config.{SolanaNode, MethodGroupConfig, EndpointConfig, ProviderConfig}
use aura_proxy.Target.{ProxyTarget, new_proxy_target}

-- methodTargetInfo; the targets are indices into the heap.
pub record TargetInfo (F : Type 0) : Type 0 where
  pub targets : List ℕ
  pub weights : List F
  pub balancer : Option (ProbabilisticBalancer F ℕ)

pub record Router (F : Type 0) : Type 0 where
  pub heap : List ProxyTarget
  pub method_map : Map (TargetInfo F)
  pub default_target_info : Option (TargetInfo F)
  pub ws_target_info : Option (TargetInfo F)
  pub providers : Map (List ℕ)
  pub method_groups : Map (List String)
  pub supported_methods : Map (Unit {0})

-- The errors of the constructor, with the text that wraps them.
pub data RouterError : Type 0 where
  for_method : String → NewError → RouterError
  for_web_socket for_default : NewError → RouterError

abbrev pub wrap_error {ℓ} :
    {A : Type ℓ} → (NewError → RouterError) → Result NewError A → Result RouterError A
wrap_error f (ok a) = ok a
wrap_error f (err e) = err (f e)

abbrev pub empty_info : {F : Type 0} → TargetInfo F
empty_info = record { targets = []; weights = []; balancer = none }

abbrev pub or_empty : {F : Type 0} → Option (TargetInfo F) → TargetInfo F
or_empty none = empty_info
or_empty (some info) = info

-- Get or create the info, and append a target with its weight.
unfoldable pub add_to : {F : Type 0} → Option (TargetInfo F) → ℕ → F → TargetInfo F
add_to info target weight = record (or_empty info) {
  targets = (or_empty info).targets ++ target ∷ [];
  weights = (or_empty info).weights ++ weight ∷ [];
}

-- The methods of the named groups, in order; a group that is not defined is only logged.
unfoldable pub expand_groups : Map (List String) → List String → List String
expand_groups groups [] = []
expand_groups groups (name ∷ names) = elim (find groups name) [
  | none ↦ expand_groups groups names
  | some methods ↦ methods ++ expand_groups groups names
]

unfoldable pub set_groups : Map (List String) → List MethodGroupConfig → Map (List String)
set_groups groups [] = groups
set_groups groups (g ∷ gs) = set_groups (put groups g.name g.methods) gs

abbrev bare_url : String → aura_proxy.Models.UrlWithMethods
bare_url url = record {
  url = url;
  supported_methods = [];
  slot_amount = pos 0;
  is_full_history = false;
}

-- The target of an endpoint.
unfoldable pub endpoint_target : {F : Type 0} → String → EndpointConfig F → ProxyTarget
unfolding new_proxy_target
endpoint_target provider e = new_proxy_target (bare_url e.url) 0 provider e.node_type

-- The target of a node of the legacy configuration.
unfoldable pub node_target : SolanaNode → ProxyTarget
unfolding new_proxy_target
node_target n = new_proxy_target (bare_url n.url.text) 0 n.provider n.node_type

module _ {F : Type 0} (fl : Float64 F) where
  abbrev pub default_endpoint_weight : F
  default_endpoint_weight = fl.f_one

  unfoldable pub weight_of : EndpointConfig F → F
  weight_of e = if fl.f_le e.weight fl.f_zero then default_endpoint_weight else e.weight

  unfoldable pub expanded_methods : Map (List String) → EndpointConfig F → List String
  unfolding expand_groups
  expanded_methods groups e = expand_groups groups e.method_groups ++ e.methods

  -- The body of the loop over the expanded methods of an endpoint, and the loop.
  unfoldable pub add_method : List String → ℕ → F → Router F → String → Router F
  unfolding add_to
  add_method excluded target weight r m = if mem_str m excluded then r else record r {
    method_map = put r.method_map m (add_to (find r.method_map m) target weight);
    supported_methods = put r.supported_methods m tt;
  }

  unfoldable pub add_methods : List String → ℕ → F → Router F → List String → Router F
  unfolding add_method
  add_methods excluded target weight r [] = r
  add_methods excluded target weight r (m ∷ ms) =
      add_methods excluded target weight (add_method excluded target weight r m) ms

  -- The body of the loop over the endpoints; the index of the new target is the heap's length.
  unfoldable pub process_endpoint : String → Router F → EndpointConfig F → Router F
  unfolding add_methods expanded_methods weight_of add_to endpoint_target
  process_endpoint provider r e =
      let target = length r.heap in
      let weight = weight_of e in
      let r1 = record r { heap = r.heap ++ endpoint_target provider e ∷ [] } in
      let r2 =
        add_methods e.exclude_methods target weight r1 (expanded_methods r.method_groups e) in
      record r2 {
        ws_target_info =
            if e.handle_web_socket
            then some (add_to r2.ws_target_info target weight)
            else r2.ws_target_info;
        default_target_info =
            if e.handle_other
            then some (add_to r2.default_target_info target weight)
            else r2.default_target_info;
      }

  unfoldable pub process_endpoints : String → Router F → List (EndpointConfig F) → Router F
  unfolding process_endpoint
  process_endpoints provider r [] = r
  process_endpoints provider r (e ∷ es) =
      process_endpoints provider (process_endpoint provider r e) es

  -- The indices first, first + 1, … of the targets made for the endpoints.
  abbrev pub indices_from {ℓ} : {A : Type ℓ} → ℕ → List A → List ℕ
  indices_from first [] = []
  indices_from first (a ∷ as') = first ∷ indices_from (suc first) as'

  unfoldable pub process_provider : Router F → ProviderConfig F → Router F
  unfolding process_endpoints
  process_provider r p =
      let r' = process_endpoints p.name r p.endpoints in
      record r' { providers = put r'.providers p.name (indices_from (length r.heap) p.endpoints) }

  unfoldable pub collect : Router F → List (ProviderConfig F) → Router F
  unfolding process_provider
  collect r [] = r
  collect r (p ∷ ps) = collect (process_provider r p) ps
