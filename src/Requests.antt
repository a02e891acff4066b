-- ===== src/Requests.antt =====
-- internal/pkg/transport: reading the body of a request, parsing it, calling a node, and what is noted
-- after the answer. Bodies are texts; decoding of JSON, the HTTP client and the headers of the request
-- from outside are arguments.
pub mod Bodies
pub mod Calls
mod Tests
use aura_proxy.Common.{
  ℕ, suc, String, Bool, true, false, not, ◌&&◌, ◌||◌, List, [], ◌∷◌, ◌++◌, Option, none, some,
  is_some, str_eq, codes, leb, ◌==◌, if◌then◌else◌, Map, find, put, map, keep_if,
}
use aura_proxy.Common.Int.{ℤ, pos, eqb_ℤ}
use aura_proxy.Common.Text.{is_space, is_empty, text_eq, contains, lower}
use aura_proxy.Rpc.{
  Request, RpcError, parse_error, invalid_req_error, method_not_found, RpcResponse, Api, code_of,
}
use aura_proxy.Context.{
  CustomContext, set_rpc_errors, set_proxy_user_error, set_req_body, get_req_body,
}
use aura_proxy.Transport.Answers.{
  ContextError, canceled, RequestError, bad_status_code, from_context, with_text, Reply, SendError,
  no_balancer, request_failed, http_error, context_done,
}

-- getRequestBody: `none` stands for a nil body or one that cannot be read, and for ErrFailToReadBody.
-- bytes.Map removes every rune that is a space.
abbrev is_kept : ℕ → Bool
is_kept c = not (is_space c)

abbrev not_empty : List ℕ → Option (List ℕ)
not_empty [] = none
not_empty (c ∷ cs) = some (c ∷ cs)

unfoldable pub get_request_body : Option (List ℕ) → Option (List ℕ)
get_request_body none = none
get_request_body (some body) = not_empty (keep_if is_kept body)

-- IsContentTypeValid
abbrev possible_content_types : List (List ℕ)
possible_content_types =
    codes "application/json"
    ∷ codes "application/json; charset=utf-8"
    ∷ codes "application/json;charset=utf-8"
    ∷ []

abbrev mem_text : List ℕ → List (List ℕ) → Bool
mem_text t [] = false
mem_text t (u ∷ us) = text_eq u t || mem_text t us

unfoldable pub is_content_type_valid : List ℕ → Bool
is_content_type_valid header = mem_text (map lower header) possible_content_types

-- checkJSONRPCBody
module _ (api : Api) (method_list : Map ℕ) (skip_method_check_err : Bool) where
  unfoldable pub check_json_rpc_body : Request → Option RpcError
  check_json_rpc_body req =
      if not (str_eq req.jsonrpc api.json_rpc_version)
      then some invalid_req_error
      else if not skip_method_check_err && not (is_some (find method_list req.method))
      then some method_not_found
      else none

-- encoding/json with UseNumber and DisallowUnknownFields: into one request, or into a slice whose
-- elements may be nil. `none` is an error.
pub record Decoder : Type 0 where
  pub decode_request : List ℕ → Option Request
  pub decode_requests : List ℕ → Option (List (Option Request))

-- What ParseJSONRPCRequestBody returns; the elements of the slice that are nil are left out, and with
-- an error its callers do not read the slice.
pub record Parsed : Type 0 where
  pub requests : List Request
  pub array_requested : Bool
  pub failure : Option RpcResponse

abbrev pub parse_error_response : RpcResponse
parse_error_response = record { error = parse_error; id = none }

module _ (api : Api) (dec : Decoder) (method_list : Map ℕ) (skip_method_check_err : Bool) where
  -- The loop over the decoded requests: the first failure.
  unfoldable pub check_requests : List (Option Request) → Option RpcResponse
  check_requests [] = none
  check_requests (none ∷ rs) = some parse_error_response
  check_requests (some r ∷ rs) =
      let rest = check_requests rs in
      elim (check_json_rpc_body api method_list skip_method_check_err r) [
        | none ↦ rest
        | some e ↦ some (record { error = e; id = some r.id })
      ]

  abbrev pub present : List (Option Request) → List Request
  present [] = []
  present (none ∷ rs) = present rs
  present (some r ∷ rs) = r ∷ present rs

  abbrev pub failed_to_parse : Bool → Parsed
  failed_to_parse array_requested = record {
    requests = [];
    array_requested = array_requested;
    failure = some parse_error_response;
  }

  abbrev pub checked_one : Request → Option RpcError → Parsed
  checked_one r none = record { requests = r ∷ []; array_requested = false; failure = none }
  checked_one r (some e) = record {
    requests = [];
    array_requested = false;
    failure = some (record { error = e; id = some r.id });
  }

  abbrev pub parse_one : Option Request → Parsed
  parse_one none = failed_to_parse false
  parse_one (some r) = checked_one r (check_json_rpc_body api method_list skip_method_check_err r)

  abbrev pub parse_many : Option (List (Option Request)) → Parsed
  parse_many none = failed_to_parse true
  parse_many (some rs) = record {
    requests = present rs;
    array_requested = true;
    failure = check_requests rs;
  }

  unfoldable pub parse_json_rpc_request_body : Option (List ℕ) → Parsed
  parse_json_rpc_request_body none = failed_to_parse false
  parse_json_rpc_request_body (some []) = failed_to_parse false
  parse_json_rpc_request_body (some (fs ∷ body)) =
      if fs == b'{'
      then parse_one (dec.decode_request (fs ∷ body))
      else if fs == b'['
      then parse_many (dec.decode_requests (fs ∷ body))
      else failed_to_parse false

-- The ways in which PreparePostRequest and HandleError answer instead of going on.
pub data PrepareError : Type 0 where
  invalid_content_type : PrepareError
  http_ok_with : RpcResponse → PrepareError

unfoldable pub prepare_get_request : {U S : Type 0} → CustomContext U S → String → CustomContext U S
prepare_get_request c chain_name = record c { chain_name = chain_name }

module _ (api : Api) {U S : Type 0} where
  -- PreparePostRequest, on the content type and the body that the client sent.
  unfoldable pub prepare_post_request :
      CustomContext U S
      → String
      → List ℕ
      → Option (List ℕ)
      → CustomContext U S × Option PrepareError
  unfolding set_rpc_errors set_proxy_user_error set_req_body
  prepare_post_request c chain_name content_type body =
      if not (is_content_type_valid content_type)
      then (set_proxy_user_error c true, some invalid_content_type)
      else (let c' : CustomContext U S = record c { chain_name = chain_name } in
          elim (get_request_body body) [
            | none ↦ (
              set_proxy_user_error (set_rpc_errors c' (code_of api parse_error ∷ [])) true,
              some (http_ok_with parse_error_response),
            )
            | some b ↦ (set_req_body c' b, none)
          ])

-- HandleError: context.Canceled or a text that says so is the client's doing; an HTTP error goes on as
-- it is; all else is an internal error. The errors are those that SendRequest returns.
pub data Handled : Type 0 where
  client_closed : Handled
  unchanged : SendError → Handled
  internal : SendError → Handled

-- errors.Is(err, context.Canceled)
abbrev pub is_ctx_canceled : SendError → Bool
is_ctx_canceled (context_done canceled) = true
is_ctx_canceled (request_failed (from_context canceled)) = true
is_ctx_canceled _ = false

abbrev error_text : RequestError → List ℕ
error_text (with_text s) = s
error_text _ = []

abbrev says_canceled : SendError → Bool
says_canceled (request_failed e) = contains (error_text e) (codes "operation was canceled")
says_canceled (no_balancer m) = contains (codes m) (codes "operation was canceled")
says_canceled _ = false

abbrev is_http_error : SendError → Bool
is_http_error (http_error status code) = true
is_http_error _ = false

unfoldable pub handle_error : SendError → Handled
handle_error e =
    if is_ctx_canceled e || says_canceled e
    then client_closed
    else if is_http_error e
    then unchanged e
    else internal e

-- ResponsePostHandling
module _ {U S : Type 0} where
  unfoldable pub response_post_handling :
      CustomContext U S → Option SendError → String → ℕ → ℤ → CustomContext U S
  response_post_handling c failure target_type attempts response_time_ms =
      let c' : CustomContext U S = record c {
        target_type = target_type;
        proxy_attempts = attempts;
        proxy_response_time =
            if eqb_ℤ response_time_ms (pos 0) then c.proxy_response_time else response_time_ms;
      } in
      elim failure [
        | none ↦ record c' { proxy_has_error = false }
        | some e ↦ if is_ctx_canceled e then c' else record c' { proxy_has_error = true }
      ]

-- MakeHTTPRequest. What http.NewRequest and the client return: the error that the request cannot be
-- built, or the pair (resp, err); of a response the status, what io.Copy reads of the body, and the
-- error that it ends in.
pub record Response : Type 0 where
  pub status : ℕ
  pub body : List ℕ
  pub copy_failure : Option (List ℕ)

pub record Call : Type 0 where
  pub build_failure : Option (List ℕ)
  pub response : Option Response
  pub do_failure : Option RequestError

pub data RequestType : Type 0 where
  http_post http_get : RequestType
  other_request : List ℕ → RequestType

-- fmt.Errorf("do: %w", err) keeps what errors.Is sees, and adds to the text.
abbrev wrapped : RequestError → RequestError
wrapped (with_text s) = with_text (codes "do: " ++ s)
wrapped e = e

abbrev failed_with : ℕ → RequestError → Reply
failed_with status e = record { body = []; status = status; failure = some e }

abbrev is_known_type : RequestType → Bool
is_known_type (other_request name) = false
is_known_type _ = true

-- With skipErrHandling.
abbrev skip_errors : Option Response → Option RequestError → Reply
skip_errors (some r) e = record { body = r.body; status = r.status; failure = none }
skip_errors none e = record { body = []; status = 500; failure = e }

abbrev copied : Response → Option (List ℕ) → Reply
copied r (some t) = failed_with r.status (with_text (codes "copy: " ++ t))
copied r none = record { body = r.body; status = r.status; failure = none }

abbrev read_response : Response → Reply
read_response r =
    if leb 300 r.status then failed_with r.status bad_status_code else copied r r.copy_failure

abbrev read_call : Option Response → Option RequestError → Reply
read_call resp (some e) = failed_with 500 (wrapped e)
read_call none none = failed_with 500 (with_text (codes "resp == nil"))
read_call (some r) none = read_response r

abbrev with_request : Bool → Call → Option (List ℕ) → Reply
with_request skip call (some t) = failed_with 500 (with_text (codes "NewRequest: " ++ t))
with_request true call none = skip_errors call.response call.do_failure
with_request false call none = read_call call.response call.do_failure

unfoldable pub make_http_request : RequestType → Bool → Call → Reply
make_http_request (other_request name) skip_err_handling call =
    failed_with 500 (with_text (codes "unknown request type: " ++ name))
make_http_request _ skip_err_handling call = with_request skip_err_handling call call.build_failure
