-- ===== src/Handlers/Runs.antt =====
-- handlers.go: any sequence of POST requests to the proxy.
use aura_proxy.Common.{
  ℕ, zero, suc, ◌≡◌, refl, sym, ap, subst, ◌∙◌, String, Bool, List, [], ◌∷◌, Option, none, some,
  All, modify, if◌then◌else◌,
}
use aura_proxy.Common.Int.{ℤ}
use aura_proxy.Common.Float.{Float64}
use aura_proxy.Analysis.{JsonParser}
use aura_proxy.Context.{CustomContext, RequestType}
use aura_proxy.Router.Shape.{IsBuilt}
use aura_proxy.Transport.Answers.{World}
use aura_proxy.Transport.{Sent}
use aura_proxy.Transport.Accounts.{Account, account_of}
use aura_proxy.Transport.Keeping.{IsKept, IsKeptSent}
use aura_proxy.Adapter.{Adapter, after_request, proxy_post_request}
use aura_proxy.Adapter.Posting.{proxy_post_request-IsKept}
use aura_proxy.Usage.{Counters, inc_user_requests}
use aura_proxy.Handlers.{
  Proxy, PostOutcome, Served, inc_for, adapter_for, finish_post, posted, post_to,
  proxy_post_route_handler,
}
use aura_proxy.Handlers.Routes.{
  OptionAt, adapter_for-All, is_answered, IsCounted, proxy_post_route_handler-IsCounted,
}

All-modify :
    {A : Type 0} (P : A → Type 0) (y : A) (xs : List A) (i : ℕ)
    → P y
    → All P xs
    → All P (modify (λ x. y) xs i)
All-modify P y [] i p h = tt
All-modify P y (x ∷ xs) zero p h = (p, h.1)
All-modify P y (x ∷ xs) (suc i) p h = (h.0, All-modify P y xs i p h.1)

-- One POST request: what it brings, and what it meets.
pub record Post (F U S : Type 0) : Type 0 where
  pub host : String
  pub context : CustomContext U S
  pub world : World F
  pub elapsed : ℤ

-- All adapters have routers as their constructor builds them.
abbrev pub IsBuiltProxy : {F : Type 0} → Float64 F → Proxy F → Type 0
IsBuiltProxy fl p = All (λ a. IsBuilt fl a.rpc_transport.method_router) p.heap

module _ {F U S : Type 0} (fl : Float64 F) (user_of : U → String) (type_name : RequestType → String)
    (json : JsonParser) where
  -- The routers are as their constructor builds them, and the context has the account.
  abbrev pub IsKeptServed : Account U → Option (Served F U S PostOutcome) → Type 0
  IsKeptServed account none = Unit
  IsKeptServed account (some s) = IsBuiltProxy fl s.proxy × (account_of s.context ≡ account)

  finish_post-IsKept :
      (p : Proxy F) (i : ℕ) (a : Adapter F) (r : Sent F U S) (o : Option _) (account : Account U)
      → IsBuiltProxy fl p
      → IsKept fl account r.state
      → IsKeptServed account (some (finish_post user_of type_name p i a r o))
  finish_post-IsKept p i a r none account h k = (
    All-modify (λ b. IsBuilt fl b.rpc_transport.method_router) (after_request a r) p.heap i k.0 h,
    k.1,
  )
  finish_post-IsKept p i a r (some e) account h k = (
    All-modify (λ b. IsBuilt fl b.rpc_transport.method_router) (after_request a r) p.heap i k.0 h,
    k.1,
  )

  posted-IsKept :
      (p : Proxy F) (i : ℕ) (a : Adapter F) (o : Option (Sent F U S)) (account : Account U)
      → IsBuiltProxy fl p
      → IsKeptSent fl account o
      → IsKeptServed account (posted fl user_of type_name p i a o)
  posted-IsKept p i a none account h k = tt
  posted-IsKept p i a (some r) account h k = finish_post-IsKept p i a r r.failure account h k

  post_to-IsKept :
      (w : World F) (p : Proxy F) (c : CustomContext U S) (usage : List (String × Bool))
      (elapsed : ℤ) (o : Option (ℕ × Adapter F))
      → IsBuiltProxy fl p
      → OptionAt (λ a. IsBuilt fl a.rpc_transport.method_router) o
      → IsKeptServed (account_of c) (post_to fl user_of type_name json w p c usage elapsed o)
  post_to-IsKept w p c usage elapsed none h k = (h, refl)
  post_to-IsKept w p c usage elapsed (some (i, a)) h k =
      posted-IsKept p i a (proxy_post_request fl json w a c usage elapsed) (account_of c) h
        (proxy_post_request-IsKept fl json w a c usage elapsed k)

  abbrev pub handle :
      Proxy F → Post F U S → List (String × Bool) → Option (Served F U S PostOutcome)
  handle p r usage =
      proxy_post_route_handler fl user_of type_name json r.world p r.host r.context usage r.elapsed

  pub handle-IsKept :
      (p : Proxy F) (r : Post F U S) (usage : List (String × Bool))
      → IsBuiltProxy fl p
      → IsKeptServed (account_of r.context) (handle p r usage)
  unfolding proxy_post_route_handler
  handle-IsKept p r usage h =
      post_to-IsKept r.world p r.context usage r.elapsed (adapter_for p r.host) h
        (adapter_for-All (λ a. IsBuilt fl a.rpc_transport.method_router) p r.host h)

  -- The proxy, and the partner metrics, after a sequence of requests, with what each led to; `none` is
  -- a panic.
  abbrev with_rest :
      Served F U S PostOutcome
      → Option (Proxy F × List (Served F U S PostOutcome))
      → Option (Proxy F × List (Served F U S PostOutcome))
  with_rest s none = none
  with_rest s (some (p, ss)) = some (p, s ∷ ss)

  abbrev pub run :
      Proxy F
      → List (String × Bool)
      → List (Post F U S)
      → Option (Proxy F × List (Served F U S PostOutcome))
  run p usage [] = some (p, [])
  run p usage (r ∷ rs) = elim (handle p r usage) [
    | none ↦ none
    | some s ↦ with_rest s (run s.proxy s.partner_usage rs)
  ]

  -- The counters that the requests which were answered make of those before.
  abbrev pub count_for : Counters → Bool → CustomContext U S → Option U → Counters
  count_for counters is_mainnet c none = counters
  count_for counters is_mainnet c (some u) =
      inc_user_requests counters (user_of u) c.credits_used c.chain_name c.api_token
        (type_name c.request_type) is_mainnet

  abbrev pub replay : Counters → Bool → List (Served F U S PostOutcome) → Counters
  replay counters is_mainnet [] = counters
  replay counters is_mainnet (s ∷ ss) =
      replay
        (if is_answered s.outcome
          then count_for counters is_mainnet s.context s.context.user_info
          else counters)
        is_mainnet ss

  abbrev pub IsRun : Proxy F → Option (Proxy F × List (Served F U S PostOutcome)) → Type 0
  IsRun p none = ⊥
  IsRun p (some (p', ss)) =
      IsBuiltProxy fl p'
      × (p'.adapters ≡ p.adapters)
      × (p'.counters ≡ replay p.counters p.is_mainnet ss)

  inc_for-count_for :
      (p : Proxy F) (c : CustomContext U S) (o : Option U)
      → inc_for user_of type_name p c o ≡ count_for p.counters p.is_mainnet c o
  inc_for-count_for p c none = refl
  inc_for-count_for p c (some u) = refl

  with_rest-IsRun :
      (p : Proxy F) (s : Served F U S PostOutcome)
      (o : Option (Proxy F × List (Served F U S PostOutcome)))
      → IsCounted fl user_of type_name p s
      → IsRun s.proxy o
      → IsRun p (with_rest s o)
  with_rest-IsRun p s none c h = h
  with_rest-IsRun p s (some (p', ss)) c h = (
    h.0,
    h.1 ∙ c.hosts,
    h.2
        ∙ ap (λ k. replay k s.proxy.is_mainnet ss)
            (c.counters
              ∙ ap (λ k. if is_answered s.outcome then k else p.counters)
                  (inc_for-count_for p s.context s.context.user_info))
        ∙ ap
            (λ m.
              replay
                (if is_answered s.outcome
                  then count_for p.counters p.is_mainnet s.context s.context.user_info
                  else p.counters)
                m ss)
            c.net,
  )

  -- From a proxy whose routers are as their constructor builds them, any sequence of POST requests is
  -- served without a panic and leaves such a proxy with the same hosts, and its counters are those
  -- before with one more request for exactly each request that was answered, in order.
  pub run-IsRun :
      (p : Proxy F) (usage : List (String × Bool)) (rs : List (Post F U S))
      → IsBuiltProxy fl p
      → IsRun p (run p usage rs)
  run-IsRun p usage [] h = (h, refl, refl)
  run-IsRun p usage (r ∷ rs) h =
      let (s, e, c) =
        proxy_post_route_handler-IsCounted fl user_of type_name json r.world p r.host r.context
          usage r.elapsed h in
      let built =
        subst (λ o. IsKeptServed (account_of r.context) o) e (handle-IsKept p r usage h) in
      subst
        (λ o.
          IsRun p (elim o [ none ↦ none | some t ↦ with_rest t (run t.proxy t.partner_usage rs) ]))
        (sym e)
        (with_rest-IsRun p s (run s.proxy s.partner_usage rs) c
          (run-IsRun s.proxy s.partner_usage rs built.0))
