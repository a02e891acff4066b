-- ===== src/Transport/Sending.antt =====
-- unified_transport.go: the transport as the adapter holds it, and SendRequest, which notes in the
-- context of the request what executeWithRetries led to.
use aura_proxy.Common.{
  ℕ, String, Bool, false, List, Option, none, some, is_some, if◌then◌else◌, ◌≡◌, refl, inl, inr,
  Bool-cases,
}
use aura_proxy.Common.Int.{ℤ}
use aura_proxy.Common.Float.{Float64}
use aura_proxy.Analysis.{JsonParser}
use aura_proxy.Router.Tables.{Router}
use aura_proxy.Context.{CustomContext}
use aura_proxy.Requests.{
  Call, http_post, make_http_request, response_post_handling, is_ctx_canceled,
}
use aura_proxy.Transport.Answers.{Reply, World, SendError}
use aura_proxy.Router.Shape.{IsBuilt}
use aura_proxy.Transport.Retries.{IsExecuted, balancer_for, execute_with_retries_total}
use aura_proxy.Transport.{State, Sent, execute_with_retries}

abbrev pub unified_transport_type : String
unified_transport_type = "unified_transport"

-- RealHTTPRequester.DoRequest, for the call of each attempt.
abbrev pub real_do_request : (ℕ → String → Call) → ℕ → String → Reply
real_do_request calls i url = make_http_request http_post false (calls i url)

-- UnifiedTransport; the requester comes with the surroundings of each request, and the slot fields
-- with its clock.
pub record UnifiedTransport (F : Type 0) : Type 0 where
  pub method_router : Router F
  pub transport_type : String
  pub max_attempts : ℕ
  pub is_mainnet : Bool

abbrev pub new_unified_transport : {F : Type 0} → String → Router F → ℕ → Bool → UnifiedTransport F
new_unified_transport transport_type router max_attempts is_mainnet = record {
  method_router = router;
  transport_type = transport_type;
  max_attempts = max_attempts;
  is_mainnet = is_mainnet;
}

module _ {F U S : Type 0} (fl : Float64 F) (json : JsonParser) (w : World F) where
  -- The state of the request, with the router of the transport.
  abbrev pub state_of : UnifiedTransport F → CustomContext U S → List (String × Bool) → State F U S
  state_of t c usage = record { context = c; router = t.method_router; partner_usage = usage }

  abbrev pub note_result : String → ℤ → Sent F U S → Sent F U S
  note_result transport_type elapsed r = record r {
    state = record (r.state) {
      context =
          response_post_handling (r.state.context) r.failure transport_type r.attempts elapsed;
    };
  }

  abbrev pub noted : String → ℤ → Option (Sent F U S) → Option (Sent F U S)
  noted transport_type elapsed none = none
  noted transport_type elapsed (some r) = some (note_result transport_type elapsed r)

  -- SendRequest; `elapsed` is the time it took.
  unfoldable pub send_request :
      UnifiedTransport F → CustomContext U S → List (String × Bool) → ℤ → Option (Sent F U S)
  send_request t c usage elapsed =
      noted t.transport_type elapsed
        (execute_with_retries fl json w t.max_attempts (state_of t c usage))

-- Whether the error, if there is one, says that the client canceled the request.
abbrev pub is_canceled : Option SendError → Bool
is_canceled none = false
is_canceled (some e) = is_ctx_canceled e

-- What the context of a request says after it was sent; `before` is its flag for errors before that,
-- which stays where the client canceled the request.
pub record IsNoted {U S : Type 0} (before : Bool) (transport_type : String) (attempts : ℕ)
    (failure : Option SendError) (c : CustomContext U S) : Type 0 where
  pub by_type : c.target_type ≡ transport_type
  pub attempts_made : c.proxy_attempts ≡ attempts
  pub has_error : c.proxy_has_error ≡ (if is_canceled failure then before else is_some failure)

response_post_handling-IsNoted :
    {U S : Type 0}
    → (c : CustomContext U S) (failure : Option SendError) (transport_type : String) (attempts : ℕ)
      (elapsed : ℤ)
    → IsNoted c.proxy_has_error transport_type attempts failure
        (response_post_handling c failure transport_type attempts elapsed)
unfolding response_post_handling
response_post_handling-IsNoted c none transport_type attempts elapsed = record {
  by_type = refl;
  attempts_made = refl;
  has_error = refl;
}
response_post_handling-IsNoted c (some e) transport_type attempts elapsed =
    elim (Bool-cases (is_ctx_canceled e)) [
      | inl q ↦ record { by_type = rw q refl; attempts_made = rw q refl; has_error = rw q refl }
      | inr q ↦ record { by_type = rw q refl; attempts_made = rw q refl; has_error = rw q refl }
    ]

module _ {F U S : Type 0} (fl : Float64 F) (json : JsonParser) (w : World F)
    (t : UnifiedTransport F) (c : CustomContext U S) (usage : List (String × Bool))
    (elapsed : ℤ) where
  abbrev sent_state : State F U S
  sent_state = state_of fl json w t c usage

  -- With a router as the constructor builds it, SendRequest returns, and notes in the context the
  -- type of the transport, the attempts that executeWithRetries made, and whether it failed, where
  -- the client did not cancel the request.
  pub send_request_total :
      IsBuilt fl t.method_router
      → (r : Sent F U S) × (send_request fl json w t c usage elapsed
          ≡ some (note_result fl json w t.transport_type elapsed r))
        × IsExecuted fl json w t.max_attempts sent_state
            (balancer_for fl json w t.max_attempts sent_state c.req_methods)
            r
        × IsNoted r.state.context.proxy_has_error t.transport_type r.attempts r.failure
            (note_result fl json w t.transport_type elapsed r).state.context
  unfolding send_request
  send_request_total h =
      let (r, e, x) = execute_with_retries_total fl json w t.max_attempts sent_state h in
      (
        r,
        rw e refl,
        x,
        response_post_handling-IsNoted r.state.context r.failure t.transport_type r.attempts
            elapsed,
      )
