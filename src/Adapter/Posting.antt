-- ===== src/Adapter/Posting.antt =====
-- adapter.go: how ProxyPostRequest ends.
use aura_proxy.Common.{
  ℕ, ◌≡◌, refl, subst, ◌∙◌, String, Bool, true, false, List, [], ◌∷◌, Option, none, some, arith,
  Bool-cases, inl, inr, ◌⊎◌,
}
use aura_proxy.Common.Int.{ℤ}
use aura_proxy.Common.Float.{Float64}
use aura_proxy.Balancer.Weighted.{ProbabilisticBalancer}
use aura_proxy.Analysis.{JsonParser}
use aura_proxy.Context.{CustomContext}
use aura_proxy.Router.Shape.{IsBuilt}
use aura_proxy.Router.Serving.{is_method_supported-IsServed}
use aura_proxy.Transport.Answers.{World, SendError}
use aura_proxy.Requests.{response_post_handling, is_ctx_canceled}
use aura_proxy.Transport.{Sent, can_handle}
use aura_proxy.Transport.Accounts.{Account, account_of}
use aura_proxy.Transport.Keeping.{IsKeptSent, execute_with_retries-IsKept}
use aura_proxy.Transport.Retries.{IsExecuted, balancer_for}
use aura_proxy.Transport.Sending.{
  noted, state_of, note_result, send_request, send_request_total, IsNoted,
}
use aura_proxy.Adapter.{Adapter, accepts, unavailable, proxy_post_request}

module _ {F U S : Type 0} (fl : Float64 F) (json : JsonParser) (w : World F) (a : Adapter F)
    (c : CustomContext U S) (usage : List (String × Bool)) (elapsed : ℤ)
    (h : IsBuilt fl a.rpc_transport.method_router) where
  abbrev IsExecutedHere : Option (ProbabilisticBalancer F ℕ) → Sent F U S → Type 0
  IsExecutedHere =
      IsExecuted fl json w a.rpc_transport.max_attempts (state_of fl json w a.rpc_transport c usage)

  abbrev balancer_of_request : Option (ProbabilisticBalancer F ℕ)
  balancer_of_request =
      balancer_for fl json w a.rpc_transport.max_attempts
        (state_of fl json w a.rpc_transport c usage) c.req_methods

  -- A request that was sent over a balancer, and noted.
  abbrev pub IsSent : Sent F U S → Type 0
  IsSent r =
      (b : ProbabilisticBalancer F ℕ) × (first : Sent F U S) × (balancer_of_request ≡ some b)
      × (r ≡ note_result fl json w a.rpc_transport.transport_type elapsed first)
      × IsExecutedHere (some b) first
      × IsNoted first.state.context.proxy_has_error a.rpc_transport.transport_type first.attempts
          first.failure r.state.context

  handled-served :
      (methods : List String)
      → can_handle fl a.rpc_transport.method_router methods ≡ true
      → (b : ProbabilisticBalancer F ℕ) × (balancer_for fl json w a.rpc_transport.max_attempts
            (state_of fl json w a.rpc_transport c usage)
            methods
          ≡ some b)
  unfolding can_handle
  handled-served [] q = absurd (ground arith)
  handled-served (m ∷ ms) q =
      let s =
        is_method_supported-IsServed fl a.rpc_transport.method_router h m (ground (arith, q)) in
      (s.0, s.1)

  -- The request was refused as it is not accepted, or sent.
  abbrev pub IsPosted : Sent F U S → Type 0
  IsPosted r =
      ((accepts fl a c.req_methods ≡ false) × (r ≡ unavailable fl json w a c usage))
      ⊎ ((accepts fl a c.req_methods ≡ true) × IsSent r)

  sent-IsSent :
      can_handle fl a.rpc_transport.method_router c.req_methods ≡ true
      → (r : Sent F U S) × (send_request fl json w a.rpc_transport c usage elapsed ≡ some r)
        × IsSent r
  sent-IsSent q =
      let (b, e) = handled-served c.req_methods q in
      let (first, s, x, n) = send_request_total fl json w a.rpc_transport c usage elapsed h in
      (
        note_result fl json w a.rpc_transport.transport_type elapsed first,
        s,
        (b, first, e, refl, subst (λ o. IsExecutedHere o first) e x, n),
      )

  -- With a router as the constructor builds it, ProxyPostRequest returns. Without methods, with a method
  -- that the router does not support, or with no available target it refuses the request with status
  -- 503 and changes nothing; all else is sent over the balancer of the first method, which is there.
  pub proxy_post_request_total :
      (r : Sent F U S) × (proxy_post_request fl json w a c usage elapsed ≡ some r) × IsPosted r
  unfolding proxy_post_request
  proxy_post_request_total = elim (Bool-cases (accepts fl a c.req_methods)) [
    | inr no_way ↦ (unavailable fl json w a c usage, rw no_way refl, inl (no_way, refl))
    | inl way ↦ let (r, e, s) = sent-IsSent (ground (arith, way)) in (r, rw way e, inr (way, s))
  ]

  response_post_handling_account :
      (c' : CustomContext U S) (failure : Option SendError) (kind : String) (attempts : ℕ)
      → account_of (response_post_handling c' failure kind attempts elapsed) ≡ account_of c'
  unfolding response_post_handling
  response_post_handling_account c' none kind attempts = refl
  response_post_handling_account c' (some e) kind attempts = elim (Bool-cases (is_ctx_canceled e)) [
    | inl q ↦ rw q refl
    | inr q ↦ rw q refl
  ]

  noted-IsKept :
      (account : Account U) (o : Option (Sent F U S))
      → IsKeptSent fl account o
      → IsKeptSent fl account (noted fl json w a.rpc_transport.transport_type elapsed o)
  noted-IsKept account none q = tt
  noted-IsKept account (some r) q = (
    q.0,
    response_post_handling_account r.state.context r.failure a.rpc_transport.transport_type
          r.attempts
        ∙ q.1,
  )

  -- The router is left as its constructor builds it, and the context with the same account.
  pub proxy_post_request-IsKept :
      IsKeptSent fl (account_of c) (proxy_post_request fl json w a c usage elapsed)
  unfolding proxy_post_request send_request
  proxy_post_request-IsKept = elim (Bool-cases (accepts fl a c.req_methods)) [
    | inr no_way ↦ rw (no_way, IsKeptSent) (h, refl)
    | inl way ↦
        rw (way, IsKeptSent)
          (noted-IsKept (account_of c) _ (
            execute_with_retries-IsKept fl (account_of c) json w a.rpc_transport.max_attempts
              (state_of fl json w a.rpc_transport c usage) (h, refl)))
  ]
