-- ===== src/Handlers/Routes.antt =====
-- handlers.go and proxy.go: which requests are counted, and which adapter serves a host.
use aura_proxy.Common.{
  All-get_elem?, length-modify, ℕ, ◌≡◌, refl, String, Bool, true, false, List, Option, none, some,
  All, find, length, get_elem?, if◌then◌else◌,
}
use aura_proxy.Common.Int.{ℤ}
use aura_proxy.Common.Float.{Float64}
use aura_proxy.Analysis.{JsonParser}
use aura_proxy.Context.{CustomContext, RequestType}
use aura_proxy.Router.Shape.{IsBuilt}
use aura_proxy.Transport.Answers.{World, SendError}
use aura_proxy.Transport.{Sent}
use aura_proxy.Adapter.{Adapter, after_request}
use aura_proxy.Adapter.Posting.{proxy_post_request_total}
use aura_proxy.Handlers.{
  Proxy, PostOutcome, answered, Served, adapter_for, at_index, deref, counted, finish_post, post_to,
  proxy_post_route_handler,
}

-- The adapter that is found satisfies what all adapters do.
abbrev pub OptionAt : {F : Type 0} → (Adapter F → Type 0) → Option (ℕ × Adapter F) → Type 0
OptionAt P none = Unit
OptionAt P (some (i, a)) = P a

pub adapter_for-All :
    {F : Type 0}
    → (P : Adapter F → Type 0) (p : Proxy F) (host : String) → All P p.heap
    → OptionAt P (adapter_for p host)
unfolding adapter_for
adapter_for-All P p host h = go (find p.adapters host)
  where
    found : (i : ℕ) (o : Option (Adapter _)) → get_elem? p.heap i ≡ o → OptionAt P (at_index i o)
    found i none e = tt
    found i (some a) e = All-get_elem? P p.heap i a h e

    go : (o : Option ℕ) → OptionAt P (deref p.heap o)
    go none = tt
    go (some i) = found i (get_elem? p.heap i) refl

abbrev pub is_answered : PostOutcome → Bool
is_answered (answered h status body) = true
is_answered _ = false

module _ {F U S : Type 0} (fl : Float64 F) (user_of : U → String)
    (type_name : RequestType → String) where
  -- The counters after a request are those before, and count it exactly if it was answered.
  pub record IsCounted (p : Proxy F) (s : Served F U S PostOutcome) : Type 0 where
    pub counters :
        s.proxy.counters
        ≡ (if is_answered s.outcome then counted user_of type_name p s.context else p.counters)
    pub hosts : s.proxy.adapters ≡ p.adapters
    pub net : s.proxy.is_mainnet ≡ p.is_mainnet
    pub adapters_kept : length s.proxy.heap ≡ length p.heap

  finish_post-IsCounted :
      (p : Proxy F) (i : ℕ) (a : Adapter F) (r : Sent F U S) (o : Option SendError)
      → IsCounted p (finish_post user_of type_name p i a r o)
  finish_post-IsCounted p i a r none = record {
    counters = refl;
    hosts = refl;
    net = refl;
    adapters_kept = length-modify (λ b. after_request a r) p.heap i;
  }
  finish_post-IsCounted p i a r (some e) = record {
    counters = refl;
    hosts = refl;
    net = refl;
    adapters_kept = length-modify (λ b. after_request a r) p.heap i;
  }

  module _ (json : JsonParser) (w : World F) (p : Proxy F) (host : String) (c : CustomContext U S)
      (usage : List (String × Bool)) (elapsed : ℤ) where
    abbrev IsBuiltAdapter : Adapter F → Type 0
    IsBuiltAdapter a = IsBuilt fl a.rpc_transport.method_router

    post_to-IsCounted :
        (o : Option (ℕ × Adapter F))
        → OptionAt IsBuiltAdapter o
        → (s : Served F U S PostOutcome) × (post_to fl user_of type_name json w p c usage elapsed o
            ≡ some s)
          × IsCounted p s
    post_to-IsCounted none h =
        (_, refl, record { counters = refl; hosts = refl; net = refl; adapters_kept = refl })
    post_to-IsCounted (some (i, a)) h =
        let (r, e, x) = proxy_post_request_total fl json w a c usage elapsed h in
        (_, rw e refl, finish_post-IsCounted p i a r r.failure)

    -- With routers as the constructor builds them, ProxyPostRouteHandler returns, keeps the adapters at
    -- their hosts, and counts the request, for its user, chain, type and token and with the credits
    -- used, exactly if it was answered; an error counts nothing.
    pub proxy_post_route_handler-IsCounted :
        All IsBuiltAdapter p.heap
        → (s : Served F U S PostOutcome) × (proxy_post_route_handler fl user_of type_name json w p
              host c usage elapsed
            ≡ some s)
          × IsCounted p s
    unfolding proxy_post_route_handler
    proxy_post_route_handler-IsCounted h =
        post_to-IsCounted (adapter_for p host) (adapter_for-All IsBuiltAdapter p host h)
