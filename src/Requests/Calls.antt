-- ===== src/Requests/Calls.antt =====
-- What a call of MakeHTTPRequest reports.
use aura_proxy.Common.{
  ◌≡◌, ◌≢◌, refl, ◌⊎◌, inl, inr, Bool-cases, ℕ, ◌++◌, Bool, true, false, not, ◌&&◌, List, [],
  Option, none, some, is_some, codes, leb, arith,
}
use aura_proxy.Transport.Answers.{RequestError, bad_status_code, from_context, with_text, Reply}
use aura_proxy.Requests.{
  Response, copied, with_request, Call, RequestType, http_post, http_get, other_request,
  is_known_type, read_response, failed_with, read_call, wrapped, make_http_request,
}

-- A call that was made and answered with a status below 300 and a whole body.
abbrev is_read : Option Response → Bool
is_read none = false
is_read (some r) = not (leb 300 r.status) && not (is_some r.copy_failure)

abbrev pub is_answered : RequestType → Call → Bool
is_answered req_type call =
    is_known_type req_type
    && (not (is_some call.build_failure)
        && (not (is_some call.do_failure) && is_read call.response))

-- The reply of a call that was `answered`, or an error with no body, which is never the bare EOF.
pub record IsReported (answered : Bool) (reply : Reply) : Type 0 where
  pub success : is_some reply.failure ≡ not answered
  pub no_body : (answered ≡ true) ⊎ (reply.body ≡ [])
  pub not_eof : reply.failure ≢ some (with_text (codes "EOF"))

failed_with-IsReported :
    (status : ℕ) (e : RequestError)
    → e ≢ with_text (codes "EOF")
    → IsReported false (failed_with status e)
failed_with-IsReported status e h = record {
  success = refl;
  no_body = inr refl;
  not_eof = λ q. h (ground (arith, q));
}

succeeded-IsReported :
    (body : List ℕ) (status : ℕ)
    → IsReported true (record { body = body; status = status; failure = none })
succeeded-IsReported body status = record {
  success = refl;
  no_body = inl refl;
  not_eof = λ q. ground arith;
}

copied-IsReported : (r : Response) (o : Option (List ℕ)) → IsReported (not (is_some o)) (copied r o)
copied-IsReported r none = succeeded-IsReported r.body r.status
copied-IsReported r (some t) =
    failed_with-IsReported r.status (with_text (codes "copy: " ++ t)) (λ q. ground arith)

read_response-IsReported : (r : Response) → IsReported (is_read (some r)) (read_response r)
read_response-IsReported r = elim (Bool-cases (leb 300 r.status)) [
  | inl e ↦ rw e (failed_with-IsReported r.status bad_status_code (λ q. ground arith))
  | inr e ↦ rw e (copied-IsReported r r.copy_failure)
]

wrapped_not_eof : (e : RequestError) → wrapped e ≢ with_text (codes "EOF")
wrapped_not_eof bad_status_code q = ground arith
wrapped_not_eof (from_context c) q = ground arith
wrapped_not_eof (with_text t) q = ground arith

read_call-IsReported :
    (resp : Option Response) (e : Option RequestError)
    → IsReported (not (is_some e) && is_read resp) (read_call resp e)
read_call-IsReported resp (some e) = failed_with-IsReported 500 (wrapped e) (wrapped_not_eof e)
read_call-IsReported none none =
    failed_with-IsReported 500 (with_text (codes "resp == nil")) (λ q. ground arith)
read_call-IsReported (some r) none = read_response-IsReported r

with_request-IsReported :
    (call : Call) (b : Option (List ℕ))
    → IsReported
        (not (is_some b) && (not (is_some call.do_failure) && is_read call.response))
        (with_request false call b)
with_request-IsReported call (some t) =
    failed_with-IsReported 500 (with_text (codes "NewRequest: " ++ t)) (λ q. ground arith)
with_request-IsReported call none = read_call-IsReported call.response call.do_failure

-- Unless errors are skipped, the call ends without an error exactly if the request could be made and
-- was answered with a status below 300 and a whole body; otherwise there is no body. The text of an
-- error is never exactly EOF.
pub make_http_request-IsReported :
    (req_type : RequestType) (call : Call)
    → IsReported (is_answered req_type call) (make_http_request req_type false call)
unfolding make_http_request
make_http_request-IsReported (other_request name) call =
    failed_with-IsReported 500 (with_text (codes "unknown request type: " ++ name))
      (λ q. ground arith)
make_http_request-IsReported http_post call = with_request-IsReported call call.build_failure
make_http_request-IsReported http_get call = with_request-IsReported call call.build_failure
