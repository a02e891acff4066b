-- ===== src/Adapter/Preparing.antt =====
-- prepare.go: what PreparePostReq lets through.
use aura_proxy.Common.{◌≡◌, refl, ◌⊎◌, true, false, [], ◌∷◌, Option, none, some, All, length, map}
use aura_proxy.Common.Int.{ℤ}
use aura_proxy.Rpc.{RpcResponse, Api, code_of}
use aura_proxy.Context.{CustomContext, set_rpc_errors, set_proxy_user_error, get_req_body}
use aura_proxy.Requests.{Decoder, Parsed, parse_json_rpc_request_body}
use aura_proxy.Requests.Bodies.{IsAccepted, IsParsed, parse_json_rpc_request_body-IsParsed}
use aura_proxy.Adapter.{
  Adapter, block_methods_validation, refuse_request, with_blocks, with_parsed, prepare_post_req,
}
use aura_proxy.Adapter.Blocks.{names_block, block_methods_validation-names}

module _ (api : Api) (dec : Decoder) {F U S : Type 0} (a : Adapter F) (c : CustomContext U S) where
  -- The context of a request that goes on: its requests have the right version and known methods, and
  -- name a block where they have to; their methods are in the context; and there is one request where
  -- the body is no array.
  pub record IsReady (c' : CustomContext U S) : Type 0 where
    pub accepted : All (IsAccepted api a.available_methods false) c'.rpc_requests_parsed
    pub named : All (λ r. names_block r ≡ true) c'.rpc_requests_parsed
    pub methods : c'.req_methods ≡ map (λ r. r.method) c'.rpc_requests_parsed
    pub single : (c'.array_requested ≡ true) ⊎ (length c'.rpc_requests_parsed ≡ 1)
    pub body : c'.req_body ≡ c.req_body

  -- A request goes on with such a context, or it is answered with an error of the user, and the
  -- context only notes that.
  abbrev pub IsPrepared : CustomContext U S × Option RpcResponse → Type 0
  IsPrepared (c', none) = IsReady c'
  IsPrepared (c', some e) =
      c' ≡ record c { rpc_errors = code_of api e.error ∷ []; proxy_user_error = true }

  refuse_request-IsPrepared : (e : RpcResponse) → IsPrepared (refuse_request api dec a c e)
  unfolding set_rpc_errors set_proxy_user_error
  refuse_request-IsPrepared e = refl

  with_blocks-IsPrepared :
      (p : Parsed) (b : ℤ × Option RpcResponse)
      → IsParsed api dec a.available_methods false p
      → (b.1 ≡ none → All (λ r. names_block r ≡ true) p.requests)
      → IsPrepared (with_blocks api dec a c p b)
  with_blocks-IsPrepared p (block, some e) h k = refuse_request-IsPrepared e
  with_blocks-IsPrepared p (block, none) h k = record {
    accepted = h.0;
    named = k refl;
    methods = refl;
    single = h.1;
    body = refl;
  }

  with_parsed-IsPrepared :
      (p : Parsed) (o : Option RpcResponse)
      → (o ≡ none → IsParsed api dec a.available_methods false p)
      → IsPrepared (with_parsed api dec a c p o)
  with_parsed-IsPrepared p (some e) h = refuse_request-IsPrepared e
  with_parsed-IsPrepared p none h =
      with_blocks-IsPrepared p (block_methods_validation p.requests) (h refl)
        (block_methods_validation-names p.requests)

  -- PreparePostReq either answers with an error, and the context notes its code and that the user is
  -- to blame and nothing else, or lets through requests of the right version with methods of the
  -- chain, which name a block where they have to, exactly one of them unless the body is an array.
  pub prepare_post_req-IsPrepared : IsPrepared (prepare_post_req api dec a c)
  unfolding prepare_post_req
  prepare_post_req-IsPrepared =
      let p = parse_json_rpc_request_body api dec a.available_methods false (get_req_body c) in
      with_parsed-IsPrepared p p.failure
        (parse_json_rpc_request_body-IsParsed api dec a.available_methods false (get_req_body c))
