-- ===== src/Context/Tariffs.antt =====
-- GetReqPerSecond and GetReqCost: the limits and prices that the subscription sets for the chain and
-- the kind of request.
use aura_proxy.Common.{Option, str_eq, if◌then◌else◌}
use aura_proxy.Common.Int.{ℤ, pos}
use aura_proxy.Chains.Methods.{chain_name, eclipse_chain_name}
use aura_proxy.Context.{CustomContext, RequestType, rpc, das, gpa, websocket, swqos, other_type}

-- The services of a price list, by the getter that reads each.
pub data Service : Type 0 where
  solana_rpc solana_das solana_get_program_accounts solana_websocket solana_swqos : Service
  eclipse_rpc eclipse_das eclipse_get_program_accounts eclipse_websocket eclipse_swqos : Service

pub record Tariff : Type 0 where
  pub requests_per_second : ℤ
  pub price_mplx : ℤ

-- The switch over the request types of one chain; the default is 10.
abbrev by_type :
    {S : Type 0} (pricing : Option S → Service → Tariff)
    → (Tariff → ℤ)
    → Option S
    → Service
    → Service
    → Service
    → Service
    → Service
    → RequestType
    → ℤ
by_type pricing f s r d g w q rpc = f (pricing s r)
by_type pricing f s r d g w q das = f (pricing s d)
by_type pricing f s r d g w q gpa = f (pricing s g)
by_type pricing f s r d g w q websocket = f (pricing s w)
by_type pricing f s r d g w q swqos = f (pricing s q)
by_type pricing f s r d g w q other_type = pos 10

-- The generated getters of the price list; those of a nil subscription have a value too.
module _ {U S : Type 0} (pricing : Option S → Service → Tariff) where
  abbrev by_chain : (Tariff → ℤ) → CustomContext U S → ℤ
  by_chain f c =
      if str_eq c.chain_name chain_name
      then by_type pricing f c.subscription solana_rpc solana_das solana_get_program_accounts
          solana_websocket solana_swqos c.request_type
      else if str_eq c.chain_name eclipse_chain_name
      then by_type pricing f c.subscription eclipse_rpc eclipse_das eclipse_get_program_accounts
          eclipse_websocket eclipse_swqos c.request_type
      else pos 10

  unfoldable pub get_req_per_second : CustomContext U S → ℤ
  get_req_per_second c = by_chain (λ t. t.requests_per_second) c

  unfoldable pub get_req_cost : CustomContext U S → ℤ
  get_req_cost c = by_chain (λ t. t.price_mplx) c
