-- ===== src/Transport/Answers.antt =====
-- unified_transport.go: what comes back from outside during an attempt, and the verdict on an answer.
use aura_proxy.Common.{
  ℕ, String, Bool, true, false, not, ◌||◌, List, Option, none, some, if◌then◌else◌, is_some, codes,
}
use aura_proxy.Common.Text.{is_empty, text_eq, contains}
use aura_proxy.Common.Int.{ℤ, pos}
use aura_proxy.Balancer.Weighted.{NextError}
use aura_proxy.Context.{CustomContext, set_proxy_user_error}
use aura_proxy.Analysis.{JsonParser, decode_node_response, rpc_error_analysis}

-- The error of a context that is done.
pub data ContextError : Type 0 where
  deadline_exceeded canceled : ContextError

-- An error of the HTTP requester: ErrBadStatusCode, an error of the context, or another with a text.
pub data RequestError : Type 0 where
  bad_status_code : RequestError
  from_context : ContextError → RequestError
  with_text : List ℕ → RequestError

-- The errors that a request ends in.
pub data SendError : Type 0 where
  no_methods : SendError
  no_balancer : String → SendError
  context_done : ContextError → SendError
  no_target : NextError → SendError
  request_failed : RequestError → SendError
  -- HTTP status and the code of the RPC response.
  http_error : ℕ → ℤ → SendError

-- What one call of DoRequest returns.
pub record Reply : Type 0 where
  pub body : List ℕ
  pub status : ℕ
  pub failure : Option RequestError

-- What attempt i meets: the context before the attempt and after the answer, the draw, the clock for
-- the statistics, the time the answer took, and the slot estimated for the moment.
pub record World (F : Type 0) : Type 0 where
  pub before : ℕ → Option ContextError
  pub after : ℕ → Option ContextError
  pub draw : ℕ → F
  pub now : ℕ → ℕ
  pub clock : ℕ → ℕ → ℕ
  pub took : ℕ → ℤ
  pub slot_now : ℕ → ℤ
  pub do_request : ℕ → String → Reply

abbrev text_of : RequestError → List ℕ
text_of bad_status_code = codes "bad status code"
text_of (from_context deadline_exceeded) = codes "context deadline exceeded"
text_of (from_context canceled) = codes "context canceled"
text_of (with_text s) = s

abbrev is_context_error : RequestError → Bool
is_context_error (from_context e) = true
is_context_error _ = false

-- Whether the error is kept out of the log, and whether the target is still counted as healthy.
unfoldable pub is_muted_err : RequestError → Option ContextError → Bool × Bool
unfolding contains
is_muted_err bad_status_code context_err = (true, false)
is_muted_err e context_err =
    let text = text_of e in
    if text_eq text (codes "EOF")
      || contains text (codes "i/o timeout")
      || contains text (codes "reset by peer")
      || contains text (codes "connection refused")
      || contains text (codes "no route to host")
    then (true, false)
    else if is_context_error e
        || is_some context_err
        || contains text (codes "deadline exceeded")
        || contains text (codes "canceled")
    then (true, true)
    else (false, false)

-- The verdict on an answer.
pub record Verdict (U S : Type 0) : Type 0 where
  pub context : CustomContext U S
  pub should_retry : Bool
  pub is_healthy : Bool
  pub first_slot : ℤ

module _ (json : JsonParser) {U S : Type 0} where
  unfoldable pub process_response :
      CustomContext U S → Option ContextError → List ℕ → Option RequestError → Verdict U S
  process_response c context_err body (some e) = record {
    context = c;
    should_retry = true;
    is_healthy = (is_muted_err e context_err).1;
    first_slot = pos 0;
  }
  process_response c context_err body none =
      let (c', errs) = decode_node_response json c body in
      let a = rpc_error_analysis errs in
      let slot = a.first_slot_on_node in
      if a.invalid_req_err
      then record {
        context = set_proxy_user_error c' true;
        should_retry = false;
        is_healthy = true;
        first_slot = slot;
      }
      else if not (is_empty a.joined) || is_some a.analyze_err
      then record { context = c'; should_retry = true; is_healthy = false; first_slot = slot }
      else record { context = c'; should_retry = false; is_healthy = true; first_slot = slot }
