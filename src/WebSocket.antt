-- ===== src/WebSocket.antt =====
-- internal/proxy/chains/solana/websocket_transport.go and ws_transport.go: the target of a WebSocket
-- and the URL to which its request is rewritten. Texts are lists of code points; parsing of URLs and
-- `EscapedPath` belong to net/url and are arguments; the reverse proxy is httputil's.
pub mod Joining
mod Tests
use aura_proxy.Common.{
  ℕ, String, Bool, true, false, not, ◌&&◌, ◌||◌, List, [], ◌∷◌, ◌++◌, Option, none, some, ◌==◌,
  drop, get_elem?, if◌then◌else◌, codes,
}
use aura_proxy.Common.Float.{Float64}
use aura_proxy.Common.Text.{is_empty, ends_with, starts_with}
use aura_proxy.Balancer.Weighted.{
  ProbabilisticBalancer, NextError, Pick, picked, failed, out_of_range, get_next,
}
use aura_proxy.Context.{CustomContext, set_provider}
use aura_proxy.Target.{ProxyTarget}

-- url.URL, as far as it is read and written here.
pub record Url : Type 0 where
  pub scheme : List ℕ
  pub host : List ℕ
  pub path : List ℕ
  pub raw_path : List ℕ
  pub raw_query : List ℕ

abbrev pub slash : ℕ
slash = b'/'

-- The switch of singleJoiningSlash and of joinURLPath: whether the first part ends in a slash, and
-- whether the second begins with one.
abbrev pub join_with : Bool → Bool → List ℕ → List ℕ → List ℕ
join_with true true a b = a ++ drop 1 b
join_with false false a b = a ++ slash ∷ b
join_with true false a b = a ++ b
join_with false true a b = a ++ b

unfoldable pub single_joining_slash : List ℕ → List ℕ → List ℕ
single_joining_slash a [] = a
single_joining_slash a (c ∷ cs) =
    join_with (ends_with slash a) (starts_with slash (c ∷ cs)) a (c ∷ cs)

module _ (escaped_path : Url → List ℕ) where
  -- The path and the raw path.
  abbrev pub join_escaped : List ℕ → List ℕ → List ℕ → List ℕ → List ℕ × List ℕ
  join_escaped path apath path' [] = (path, apath)
  join_escaped path apath path' (c ∷ cs) =
      let aslash = ends_with slash apath in
      let bslash = starts_with slash (c ∷ cs) in
      (join_with aslash bslash path path', join_with aslash bslash apath (c ∷ cs))

  unfoldable pub join_url_path : Url → Url → List ℕ × List ℕ
  unfolding single_joining_slash
  join_url_path a b =
      if is_empty a.raw_path && is_empty b.raw_path
      then (single_joining_slash a.path b.path, [])
      else join_escaped a.path (escaped_path a) b.path (escaped_path b)

  abbrev pub join_query : List ℕ → List ℕ → List ℕ
  join_query target_query query =
      if is_empty target_query || is_empty query
      then target_query ++ query
      else target_query ++ b'&' ∷ query

  -- rewriteRequestURL, on the URL of the request.
  unfoldable pub rewrite_request_url : Url → Url → Url
  rewrite_request_url url target = record {
    scheme = target.scheme;
    host = target.host;
    path = (join_url_path target url).0;
    raw_path = (join_url_path target url).1;
    raw_query = join_query target.raw_query url.raw_query;
  }

abbrev with_query : List ℕ → List ℕ
with_query [] = []
with_query (c ∷ cs) = b'?' ∷ c ∷ cs

abbrev rest_of : List ℕ → List ℕ → List ℕ
rest_of [] route_path = if ends_with slash route_path then slash ∷ [] else []
rest_of (c ∷ cs) route_path = slash ∷ c ∷ cs

-- getRestPath, from the parameter rest_path, the path of the route, and the query.
unfoldable pub get_rest_path : List ℕ → List ℕ → List ℕ → List ℕ
get_rest_path rest_path route_path query = rest_of rest_path route_path ++ with_query query

-- How a request for a WebSocket ends: handed to the reverse proxy with its host and its URL, or with
-- an error. `panics` is the call on a transport that is nil.
pub data WsOutcome : Type 0 where
  forwarded : List ℕ → Url → WsOutcome
  no_ws_target : NextError → WsOutcome
  unmarshal_failed url_parse_failed panics : WsOutcome

-- What a request brings, and the functions of net/url; `none` is an error.
pub record WsRequest : Type 0 where
  pub rest_path : List ℕ
  pub route_path : List ℕ
  pub query : List ℕ

pub record UrlLib : Type 0 where
  pub unmarshal_text : String → Option Url
  pub parse : List ℕ → Option Url
  pub escaped_path : Url → List ℕ

abbrev empty_url : Url
empty_url = record { scheme = []; host = []; path = []; raw_path = []; raw_query = [] }

module _ (lib : UrlLib) where
  abbrev request_url : List ℕ → Option Url
  request_url [] = some empty_url
  request_url (c ∷ cs) = lib.parse (c ∷ cs)

  abbrev forward : Url → Option Url → WsOutcome
  forward wrapped none = url_parse_failed
  forward wrapped (some url) =
      forwarded wrapped.host (rewrite_request_url lib.escaped_path url wrapped)

  abbrev to_target : WsRequest → Option Url → WsOutcome
  to_target r none = unmarshal_failed
  to_target r (some wrapped) =
      forward wrapped (request_url (get_rest_path r.rest_path r.route_path r.query))

  module _ {U S : Type 0} (heap : List ProxyTarget) (r : WsRequest) where
    abbrev with_target : CustomContext U S → Option ProxyTarget → CustomContext U S × WsOutcome
    with_target c none = (c, panics)
    with_target c (some target) =
        (set_provider c target.provider, to_target r (lib.unmarshal_text target.url))

    abbrev with_pick : CustomContext U S → Pick ℕ → CustomContext U S × WsOutcome
    with_pick c (picked ref index) = with_target c (get_elem? heap ref)
    with_pick c (failed e) = (c, no_ws_target e)
    with_pick c out_of_range = (c, panics)

    -- DefaultProxyWS of wsTransport, which is nil without a balancer, and of ProxyTransport. Targets
    -- are not nil.
    unfoldable pub default_proxy_ws :
        {F : Type 0}
        → Float64 F
        → F
        → CustomContext U S
        → Option (ProbabilisticBalancer F ℕ)
        → CustomContext U S × WsOutcome
    default_proxy_ws fl draw c none = (c, panics)
    default_proxy_ws fl draw c (some b) = with_pick c (get_next fl b [] draw).0
