-- ===== src/Requests/Tests.antt =====
-- Bodies with white space, a body that is one request, and a call that fails.
use aura_proxy.Common.{◌≡◌, refl, false, ◌++◌, none, some, codes}
use aura_proxy.Transport.Answers.{with_text}
use aura_proxy.Requests.{get_request_body, Call, http_post, make_http_request}
use aura_proxy.Requests.Bodies.{IsKept, get_request_body_ignores_space}
use aura_proxy.Requests.Calls.{IsReported, is_answered, make_http_request-IsReported}

get_request_body_ignores_space_example :
    (get_request_body (some (codes "{a" ++ (codes " \t" ++ codes "b}")))
      ≡ get_request_body (some (codes "{ab}")))
    × IsKept (get_request_body (some (codes "{ab}")))
get_request_body_ignores_space_example =
    get_request_body_ignores_space (codes "{a") (codes " \t") (codes "b}") (refl, (refl, tt))

abbrev refused_call : Call
refused_call = record {
  build_failure = none;
  response = none;
  do_failure = some (with_text (codes "EOF"));
}

make_http_request-IsReported_example :
    IsReported (is_answered http_post refused_call) (make_http_request http_post false refused_call)
make_http_request-IsReported_example = make_http_request-IsReported http_post refused_call
