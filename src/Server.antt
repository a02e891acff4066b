-- ===== src/Server.antt =====
-- internal/proxy/handlers.go, initProxyHandlers: a POST request on its way through the middlewares to
-- ProxyPostRouteHandler. The users of the token checker are indices of its heap, so the context holds
-- an index. The logger, the metrics and the timeout only read the context or set the request's own, and
-- are left out.
pub mod Users
pub mod Guarded
mod Tests
use aura_proxy.Common.{ℕ, String, Bool, List, Option, none, some, get_elem?, Map}
use aura_proxy.Common.Int.{ℤ}
use aura_proxy.Common.Float.{Float64}
use aura_proxy.Analysis.{JsonParser}
use aura_proxy.Rpc.{Api}
use aura_proxy.Requests.{Decoder}
use aura_proxy.Context.{CustomContext, RequestType}
use aura_proxy.Context.Tariffs.{Service, Tariff}
use aura_proxy.Transport.Answers.{World}
use aura_proxy.Tokens.{
  CacheLib, User, TokenChecker, TokenError, Moment, api_token_checker, user_balance,
}
use aura_proxy.Limiter.{RateLib, Store, Times, Limited, passed, rate_limiter}
use aura_proxy.Streams.{Stream, too_many, stream_rate_limit, close_stream}
use aura_proxy.Handlers.{
  Proxy, Incoming, Prepared, next, PostOutcome, Served, request_prepare, proxy_post_route_handler,
}

-- What the server calls outside of the repository.
pub record Outside (F L C S : Type 0) : Type 0 where
  pub api : Api
  pub decoder : Decoder
  pub floats : Float64 F
  pub json : JsonParser
  pub cache : CacheLib C ℕ
  pub rate : RateLib L
  pub pricing : Option S → Service → Tariff
  pub is_uuid : String → Bool
  pub type_name : RequestType → String

-- The state of the server: what the middlewares and the handler keep.
pub record Site (F L C S : Type 0) : Type 0 where
  pub proxy : Proxy F
  pub checker : TokenChecker C S
  pub visitors : Store L
  pub streams : Map ℕ
  pub partner_usage : List (String × Bool)

-- One request: what it brings, and what the middlewares and the handler meet.
pub record PostRequest (F : Type 0) : Type 0 where
  pub incoming : Incoming
  pub token_param : String
  pub moment : Moment
  pub req_id : String
  pub times : Times
  pub real_ip : Option String
  pub paid_at : ℕ
  pub world : World F
  pub elapsed : ℤ

-- The middleware that answered, or the handler.
pub data Reply : Type 0 where
  refused : Prepared → Reply
  unauthorized : TokenError → Reply
  rate_limited : Limited → Reply
  too_many_streams : Reply
  reached : PostOutcome → Reply

pub record Done (F L C S : Type 0) : Type 0 where
  pub site : Site F L C S
  pub context : CustomContext ℕ S
  pub reply : Reply

-- GetUser of a user that may be nil.
abbrev name_of : Option User → String
name_of none = ""
name_of (some u) = u.user

abbrev pub user_name : List User → ℕ → String
user_name users ref = name_of (get_elem? users ref)

abbrev pub user_text : List User → Option ℕ → String
user_text users none = ""
user_text users (some ref) = user_name users ref

module _ {F L C S : Type 0} where
  abbrev pub stop : Site F L C S → CustomContext ℕ S → Reply → Option (Done F L C S)
  stop s c y = some (record { site = s; context = c; reply = y })

  -- The deferred call of StreamRateLimitMiddleware takes the stream off again.
  abbrev pub leave :
      Site F L C S → Stream → Option (Served F ℕ S PostOutcome) → Option (Done F L C S)
  leave s stream none = none
  leave s stream (some v) = some (record {
    site = record s {
      proxy = v.proxy;
      partner_usage = v.partner_usage;
      streams = close_stream s.streams stream;
    };
    context = v.context;
    reply = reached v.outcome;
  })

  module _ (out : Outside F L C S) (r : PostRequest F) where
    abbrev pub handled : Site F L C S → CustomContext ℕ S → Option (Served F ℕ S PostOutcome)
    handled s c =
        proxy_post_route_handler out.floats (user_name s.checker.users) out.type_name out.json
          r.world s.proxy r.incoming.host c s.partner_usage r.elapsed

    -- After UserBalanceMiddleware; `none` is a panic.
    abbrev pub balanced :
        Site F L C S
        → CustomContext ℕ S
        → Stream
        → Option (TokenChecker C S)
        → Option (Done F L C S)
    balanced s c stream none = none
    balanced s c stream (some t) =
        let s' = record s { checker = t } in leave s' stream (handled s' c)

    -- After StreamRateLimitMiddleware.
    abbrev pub streamed : Site F L C S → CustomContext ℕ S → Stream × Map ℕ → Option (Done F L C S)
    streamed s c (too_many, m) = stop (record s { streams = m }) c too_many_streams
    streamed s c (stream, m) =
        balanced (record s { streams = m }) c stream (user_balance out.cache s.checker c r.paid_at)

    -- After the rate limiter.
    abbrev pub limited :
        Site F L C S → CustomContext ℕ S → Store L × Limited → Option (Done F L C S)
    limited s c (v, passed) =
        streamed (record s { visitors = v }) c
          (stream_rate_limit s.streams r.incoming.is_websocket
            (user_text s.checker.users c.user_info) r.real_ip)
    limited s c (v, l) = stop (record s { visitors = v }) c (rate_limited l)

    abbrev with_id : CustomContext ℕ S → CustomContext ℕ S
    with_id c = record c { req_id = r.req_id }

    -- After APITokenCheckerMiddleware; RequestIDMiddleware comes next.
    abbrev pub signed :
        Site F L C S
        → TokenChecker C S × CustomContext ℕ S × Option TokenError
        → Option (Done F L C S)
    signed s (t, c, some e) = stop (record s { checker = t }) c (unauthorized e)
    signed s (t, c, none) =
        limited (record s { checker = t }) (with_id c)
          (rate_limiter out.rate out.pricing (user_text t.users) s.visitors (with_id c) r.times)

    -- After RequestPrepareMiddleware.
    abbrev pub prepared : Site F L C S → CustomContext ℕ S × Prepared → Option (Done F L C S)
    prepared s (c, next) =
        signed s
          (api_token_checker out.cache out.pricing out.is_uuid s.checker c r.moment r.token_param)
    prepared s (c, o) = stop s c (refused o)

    -- POST of "/" and "/:token".
    unfoldable pub post_request : Site F L C S → CustomContext ℕ S → Option (Done F L C S)
    post_request s c = prepared s (request_prepare out.api out.decoder s.proxy r.incoming c)
