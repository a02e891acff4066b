-- ===== src/Server/Guarded.antt =====
-- handlers.go, initProxyHandlers: which POST requests reach the handler, who pays, and what is counted.
use aura_proxy.Common.{
  ℕ, ◌≡◌, refl, ap, ◌∙◌, sym, String, Map, subst, Bool, false, List, [], Option, none, some,
  get_elem?, modify, if◌then◌else◌,
}
use aura_proxy.Common.Int.{ℤ}
use aura_proxy.Common.Text.{string_trim_right}
use aura_proxy.Context.{CustomContext}
use aura_proxy.Usage.{Counters, inc_user_requests}
use aura_proxy.Tokens.Payment.{get_elem?-modify_same}
use aura_proxy.Transport.Accounts.{Account, account_of}
use aura_proxy.Context.Tariffs.{get_req_cost}
use aura_proxy.Tokens.{
  CacheLib, User, TokenChecker, TokenError, sub_int64, user_balance, api_token_checker,
}
use aura_proxy.Limiter.{Store, Limited, passed, not_on_tier, denied, rate_limiter}
use aura_proxy.Streams.{not_limited, stream_rate_limit, close_stream}
use aura_proxy.Handlers.{
  Prepared, next, unknown_chain, unsupported_type, answer, no_content, gpa_in_array, adapter_for,
  inc_for, counted, request_prepare,
}
use aura_proxy.Handlers.Preparation.{IsPassedOn, request_prepare-IsPassedOn}
use aura_proxy.Handlers.Routes.{is_answered, proxy_post_route_handler-IsCounted}
use aura_proxy.Handlers.Runs.{Post, IsBuiltProxy, IsKeptServed, handle-IsKept}
use aura_proxy.Server.{
  Outside, Site, PostRequest, Reply, reached, Done, user_name, user_text, balanced, streamed,
  limited, signed, prepared, post_request,
}
use aura_proxy.Server.Users.{HasMore, ++_nil, IsSignedAs, IsSignedIn, api_token_checker-IsSignedIn}

-- A user with so much less.
abbrev pub charged_by : ℤ → User → User
charged_by credits u = record u { mplx_balance = sub_int64 u.mplx_balance credits }

user_balance-pays :
    {C S : Type 0}
    → (lib : CacheLib C ℕ) (t : TokenChecker C S) (c : CustomContext ℕ S) (now ref : ℕ) (u : User)
    → c.user_info ≡ some ref
    → get_elem? t.users ref ≡ some u
    → (t' : TokenChecker C S) × (user_balance lib t c now ≡ some t')
      × (t'.users ≡ modify (charged_by c.credits_used) t.users ref)
unfolding user_balance
user_balance-pays lib t c now ref u e f = rw (e, f) (_, refl, refl)

stream_rate_limit-not_limited :
    (rl : Map ℕ) (b : Bool) (user : String) (ip : Option String)
    → b ≡ false
    → stream_rate_limit rl b user ip ≡ (not_limited, rl)
unfolding stream_rate_limit
stream_rate_limit-not_limited rl b user ip w = rw w refl

module _ {F L C S : Type 0} (out : Outside F L C S) (s : Site F L C S) (r : PostRequest F)
    (arrived : CustomContext ℕ S) where
  abbrev pub token : String
  token = string_trim_right b'/' r.token_param

  -- What holds before the payment: the request was prepared for the chain of its host, and the user was
  -- looked up for the token and is admitted with the credits of the request.
  pub record IsAllowed (t : TokenChecker C S) (c : CustomContext ℕ S) (ref : ℕ) (u : User)
      : Type 0 where
    pub prepared_as : CustomContext ℕ S
    pub prepared_by :
        request_prepare out.api out.decoder s.proxy r.incoming arrived ≡ (prepared_as, next)
    pub is_passed :
        IsPassedOn out.api false (adapter_for s.proxy r.incoming.host) (prepared_as, next)
    pub signed_as :
        IsSignedAs out.cache out.pricing out.is_uuid s.checker prepared_as r.moment token t c ref u

  -- One more request of the user, with the credits, the chain, the token and the type in the context.
  abbrev pub one_more : CustomContext ℕ S → User → Counters
  one_more c u =
      inc_user_requests s.proxy.counters u.user c.credits_used c.chain_name c.api_token
        (out.type_name c.request_type) s.proxy.is_mainnet

  -- A request that reached the handler was allowed, exactly its user has paid, and it is counted for
  -- this user exactly if it was answered; any other request leaves the proxy and all users as they
  -- were. The streams are as before.
  abbrev pub IsGuarded : Reply → Done F L C S → Type 0
  IsGuarded (reached o) d =
      (t : TokenChecker C S) × (c : CustomContext ℕ S) × (ref : ℕ) × (u : User) × IsAllowed t c ref
        u
      × (d.site.checker.users ≡ modify (charged_by c.credits_used) t.users ref)
      × (account_of d.context ≡ account_of c)
      × (d.site.proxy.counters ≡ (if is_answered o then one_more c u else s.proxy.counters))
      × (d.site.streams ≡ s.streams)
  IsGuarded _ d =
      (d.site.proxy ≡ s.proxy)
      × HasMore s.checker.users d.site.checker.users
      × (d.site.streams ≡ s.streams)

  -- There is no panic, and the routers stay as their constructor builds them.
  abbrev pub IsGuardedRun : Option (Done F L C S) → Type 0
  IsGuardedRun none = ⊥
  IsGuardedRun (some d) = IsGuarded d.reply d × IsBuiltProxy out.floats d.site.proxy

  -- The handler counts by the account of the context, which is that of the request it was given.
  abbrev counted_by : List User → Account ℕ → Counters
  counted_by users (none, credits, chain, api_token, kind) = s.proxy.counters
  counted_by users (some ref, credits, chain, api_token, kind) =
      inc_user_requests s.proxy.counters (user_name users ref) credits chain api_token
        (out.type_name kind) s.proxy.is_mainnet

  inc_for-counted_by :
      (users : List User) (c : CustomContext ℕ S) (o : Option ℕ)
      → inc_for (user_name users) out.type_name s.proxy c o
        ≡ counted_by users (o, c.credits_used, c.chain_name, c.api_token, c.request_type)
  inc_for-counted_by users c none = refl
  inc_for-counted_by users c (some ref) = refl

  counted_by-one_more :
      (t : TokenChecker C S) (c : CustomContext ℕ S) (users : List User) (ref : ℕ) (u : User)
      → c.user_info ≡ some ref
      → get_elem? t.users ref ≡ some u
      → users ≡ modify (charged_by c.credits_used) t.users ref
      → counted_by users (account_of c) ≡ one_more c u
  counted_by-one_more t c users ref u e f g =
      let h : get_elem? users ref ≡ some (charged_by c.credits_used u) =
        ap (λ us. get_elem? us ref) g
        ∙ get_elem?-modify_same (charged_by c.credits_used) t.users ref u f in
      rw (e, h) refl

  module _ (built : IsBuiltProxy out.floats s.proxy) where
    balanced-IsGuarded :
        (t t' : TokenChecker C S) (v : Store L) (c : CustomContext ℕ S) (ref : ℕ) (u : User)
        → IsAllowed t c ref u
        → t'.users ≡ modify (charged_by c.credits_used) t.users ref
        → IsGuardedRun
            (balanced out r (record s { checker = t; visitors = v }) c not_limited (some t'))
    unfolding close_stream
    balanced-IsGuarded t t' v c ref u h e =
        let (served, f, x) =
          proxy_post_route_handler-IsCounted out.floats (user_name t'.users) out.type_name out.json
            r.world s.proxy r.incoming.host c s.partner_usage r.elapsed built in
        let (built', same) : IsKeptServed out.floats (user_name t'.users) out.type_name out.json
            (account_of c) (some served) =
          subst
            (λ o.
              IsKeptServed out.floats (user_name t'.users) out.type_name out.json (account_of c) o)
            f
            (handle-IsKept out.floats (user_name t'.users) out.type_name out.json s.proxy post
              s.partner_usage built) in
        let count : counted (user_name t'.users) out.type_name s.proxy served.context
            ≡ one_more c u =
          inc_for-counted_by t'.users served.context served.context.user_info
          ∙ ap (λ a. counted_by t'.users a) same
          ∙ counted_by-one_more t c t'.users ref u h.signed_as.user h.signed_as.found e in
        rw f (
          (
            t,
            c,
            ref,
            u,
            h,
            e,
            same,
            x.counters ∙ ap (λ k. if is_answered served.outcome then k else s.proxy.counters) count,
            refl,
          ),
          built',
        )
      where
        post : Post F ℕ S
        post = record { host = r.incoming.host; context = c; world = r.world; elapsed = r.elapsed }

    limited-IsGuarded :
        (t : TokenChecker C S) (c : CustomContext ℕ S) (ref : ℕ) (u : User)
        → r.incoming.is_websocket ≡ false
        → IsAllowed t c ref u
        → (x : Store L × Limited) → IsGuardedRun (limited out r (record s { checker = t }) c x)
    limited-IsGuarded t c ref u w h (v, passed) =
        let (t', e, f) =
          user_balance-pays out.cache t c r.paid_at ref u h.signed_as.user h.signed_as.found in
        let site : Site F L C S = record s { checker = t; visitors = v } in
        subst (λ x. IsGuardedRun (streamed out r site c x))
          (sym (
            stream_rate_limit-not_limited s.streams r.incoming.is_websocket
              (user_text t.users c.user_info) r.real_ip w))
          (subst (λ o. IsGuardedRun (balanced out r site c not_limited o)) (sym e)
            (balanced-IsGuarded t t' v c ref u h f))
    limited-IsGuarded t c ref u w h (v, not_on_tier) = ((refl, h.signed_as.kept, refl), built)
    limited-IsGuarded t c ref u w h (v, denied) = ((refl, h.signed_as.kept, refl), built)

    signed-IsGuarded :
        (c : CustomContext ℕ S)
        → r.incoming.is_websocket ≡ false
        → request_prepare out.api out.decoder s.proxy r.incoming arrived ≡ (c, next)
        → IsPassedOn out.api false (adapter_for s.proxy r.incoming.host) (c, next)
        → (x : TokenChecker C S × CustomContext ℕ S × Option TokenError)
        → IsSignedIn out.cache out.pricing out.is_uuid s.checker c r.moment token x
        → IsGuardedRun (signed out r s x)
    unfolding get_req_cost
    signed-IsGuarded c w b p (t, c', some e) h = ((refl, h, refl), built)
    signed-IsGuarded c w b p (t, c', none) (ref, u, h) =
        let c'' : CustomContext ℕ S = record c' { req_id = r.req_id } in
        limited-IsGuarded t c'' ref u w
          (record {
            prepared_as = c;
            prepared_by = b;
            is_passed = p;
            signed_as = record {
              kept = h.kept;
              same = h.same;
              not_empty = h.not_empty;
              uuid = h.uuid;
              looked_up = h.looked_up;
              token_noted = h.token_noted;
              user = h.user;
              found = h.found;
              live = h.live;
              enough = h.enough;
              credits = h.credits;
            };
          })
          (rate_limiter out.rate out.pricing (user_text t.users) s.visitors c'' r.times)

    prepared-IsGuarded :
        r.incoming.is_websocket ≡ false
        → (x : CustomContext ℕ S × Prepared)
        → request_prepare out.api out.decoder s.proxy r.incoming arrived ≡ x
        → IsPassedOn out.api false (adapter_for s.proxy r.incoming.host) x
        → IsGuardedRun (prepared out r s x)
    prepared-IsGuarded w (c, next) b p =
        signed-IsGuarded c w b p
          (api_token_checker out.cache out.pricing out.is_uuid s.checker c r.moment r.token_param)
          (api_token_checker-IsSignedIn out.cache out.pricing out.is_uuid s.checker c r.moment
            r.token_param)
    prepared-IsGuarded w (c, unknown_chain) b p = ((refl, ([], ++_nil _), refl), built)
    prepared-IsGuarded w (c, unsupported_type) b p = ((refl, ([], ++_nil _), refl), built)
    prepared-IsGuarded w (c, answer e) b p = ((refl, ([], ++_nil _), refl), built)
    prepared-IsGuarded w (c, no_content) b p = ((refl, ([], ++_nil _), refl), built)
    prepared-IsGuarded w (c, gpa_in_array) b p = ((refl, ([], ++_nil _), refl), built)

    -- With routers as the constructor builds them, a POST request without a WebSocket goes through all
    -- middlewares without a panic. If it reaches the handler, it was prepared for the chain of its host;
    -- its user is the one looked up for its token, with a subscription that goes on and a balance of at
    -- least the credits of its methods; the credits are subtracted, as an int64, from the balance of
    -- exactly this user; and exactly if it was answered it is counted, once, for this user with these
    -- credits and the request's chain, token and type. If a middleware answers, neither the proxy nor
    -- any user that was known has changed. The streams stay, and the routers are as the constructor
    -- builds them again.
    pub post_request-IsGuarded :
        r.incoming.is_websocket ≡ false → IsGuardedRun (post_request out r s arrived)
    unfolding post_request
    post_request-IsGuarded w =
        prepared-IsGuarded w (request_prepare out.api out.decoder s.proxy r.incoming arrived) refl (
          subst
            (λ b.
              IsPassedOn out.api b (adapter_for s.proxy r.incoming.host)
                (request_prepare out.api out.decoder s.proxy r.incoming arrived))
            w (request_prepare-IsPassedOn out.api out.decoder s.proxy r.incoming arrived))
