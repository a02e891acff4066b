-- ===== src/Handlers/Preparation.antt =====
-- handlers.go: what RequestPrepareMiddleware hands to the next handler.
use aura_proxy.Common.{
  ℕ, ◌≡◌, refl, ◌⊎◌, Bool, true, false, ◌&&◌, [], ◌∷◌, Option, none, some, All, any, find, is_some,
  if◌then◌else◌, mem_str, map, length,
}
use aura_proxy.Common.Text.{is_empty}
use aura_proxy.Chains.Methods.{get_program_accounts, cnft_method_list}
use aura_proxy.Rpc.{RpcResponse, Api}
use aura_proxy.Context.{CustomContext, rpc, das, gpa, websocket}
use aura_proxy.Requests.{
  Decoder, PrepareError, invalid_content_type, http_ok_with, prepare_post_request,
}
use aura_proxy.Requests.Bodies.{IsAccepted}
use aura_proxy.Adapter.{Adapter, prepare_post_req}
use aura_proxy.Adapter.Blocks.{names_block}
use aura_proxy.Adapter.Preparing.{IsPrepared, IsReady, prepare_post_req-IsPrepared}
use aura_proxy.Handlers.{
  Proxy, Incoming, Prepared, next, unknown_chain, adapter_for, is_das, kind_of, is_gpa, classified,
  after_chain, after_common, with_adapter, request_prepare,
}

kind_of_lem : (g d : Bool) → kind_of g d ≡ (if g then gpa else if d then das else rpc)
kind_of_lem true d = refl
kind_of_lem false true = refl
kind_of_lem false false = refl

module _ (api : Api) {F U S : Type 0} where
  -- The context of a call that goes on to an adapter: it has at least one request, each of them of
  -- the right version, with a method of the chain, and with a block where it needs one; its type is
  -- that of its methods; and a getProgramAccounts stands alone.
  pub record IsCall (a : Adapter F) (c : CustomContext U S) : Type 0 where
    pub some_request : is_empty c.rpc_requests_parsed ≡ false
    pub accepted : All (IsAccepted api a.available_methods false) c.rpc_requests_parsed
    pub named : All (λ r. names_block r ≡ true) c.rpc_requests_parsed
    pub methods : c.req_methods ≡ map (λ r. r.method) c.rpc_requests_parsed
    pub single : (c.array_requested ≡ true) ⊎ (length c.rpc_requests_parsed ≡ 1)
    pub alone : (mem_str get_program_accounts c.req_methods && c.array_requested) ≡ false
    pub kind : c.request_type ≡ (
        if mem_str get_program_accounts c.req_methods
        then gpa
        else if any (λ m. is_some (find cnft_method_list m)) c.req_methods
        then das
        else rpc)

  -- What the next handler meets; all other outcomes answer the client.
  abbrev pub IsPassed : Adapter F → CustomContext U S × Prepared → Type 0
  IsPassed a (c, next) = IsCall a c
  IsPassed a (c, _) = Unit

  classified-IsPassed :
      (dec : Decoder) (a : Adapter F) (b c : CustomContext U S)
      → IsReady api dec a b c
      → (x y : Bool) → is_empty c.rpc_requests_parsed ≡ x
      → (is_gpa c && c.array_requested) ≡ y
      → IsPassed a (classified x y c)
  classified-IsPassed dec a b c h true y e f = tt
  classified-IsPassed dec a b c h false true e f = tt
  classified-IsPassed dec a b c h false false e f = record {
    some_request = e;
    accepted = h.accepted;
    named = h.named;
    methods = h.methods;
    single = h.single;
    alone = f;
    kind = kind_of_lem (is_gpa c) (is_das c.req_methods);
  }

  after_chain-IsPassed :
      (dec : Decoder) (a : Adapter F) (c : CustomContext U S)
      (r : CustomContext U S × Option RpcResponse)
      → IsPrepared api dec a c r
      → IsPassed a (after_chain r)
  after_chain-IsPassed dec a c (c', some e) h = tt
  after_chain-IsPassed dec a c (c', none) h =
      classified-IsPassed dec a c c' h (is_empty c'.rpc_requests_parsed)
        (is_gpa c' && c'.array_requested) refl refl

  after_common-IsPassed :
      (dec : Decoder) (a : Adapter F) (r : CustomContext U S × Option PrepareError)
      → IsPassed a (after_common api dec a r)
  after_common-IsPassed dec a (c, some invalid_content_type) = tt
  after_common-IsPassed dec a (c, some (http_ok_with e)) = tt
  after_common-IsPassed dec a (c, none) =
      after_chain-IsPassed dec a c (prepare_post_req api dec a c)
        (prepare_post_req-IsPrepared api dec a c)

  -- The same for every request: a host without an adapter never passes, and a WebSocket passes with
  -- one method of its own.
  abbrev pub IsPassedOn : Bool → Option (ℕ × Adapter F) → CustomContext U S × Prepared → Type 0
  IsPassedOn b none (c, o) = o ≡ unknown_chain
  IsPassedOn true (some (i, a)) (c, o) =
      (o ≡ next)
      × (c.request_type ≡ websocket)
      × (c.req_methods ≡ "WSConnect" ∷ [])
      × (c.chain_name ≡ a.chain_name)
  IsPassedOn false (some (i, a)) r = IsPassed a r

  with_adapter-IsPassedOn :
      (dec : Decoder) (r : Incoming) (c : CustomContext U S) (o : Option (ℕ × Adapter F)) (b : Bool)
      → r.is_websocket ≡ b
      → IsPassedOn b o (with_adapter api dec r c o)
  with_adapter-IsPassedOn dec r c none b e = refl
  with_adapter-IsPassedOn dec r c (some (i, a)) true e = rw e (refl, refl, refl, refl)
  with_adapter-IsPassedOn dec r c (some (i, a)) false e =
      rw e (
        after_common-IsPassed dec a (prepare_post_request api c a.chain_name r.content_type r.body))

  -- RequestPrepareMiddleware refuses a host without an adapter, lets every WebSocket pass as one call of
  -- the method WSConnect, and lets any other request pass only with parsed calls for the chain of its
  -- host: at least one, all of the right version, with methods of the chain and a block where one is
  -- needed, without getProgramAccounts in an array, and with the type that belongs to the methods.
  pub request_prepare-IsPassedOn :
      (dec : Decoder) (p : Proxy F) (r : Incoming) (c : CustomContext U S)
      → IsPassedOn r.is_websocket (adapter_for p r.host) (request_prepare api dec p r c)
  unfolding request_prepare
  request_prepare-IsPassedOn dec p r c =
      with_adapter-IsPassedOn dec r (record c { request_time = r.time }) (adapter_for p r.host)
        r.is_websocket refl
