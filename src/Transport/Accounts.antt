-- ===== src/Transport/Accounts.antt =====
-- unified_transport.go: what the counters of requests are told of a context, which no answer changes.
use aura_proxy.Common.{
  ℕ, ◌≡◌, refl, String, not, ◌||◌, ◌==◌, List, [], ◌∷◌, Option, none, some, is_some, Bool-cases,
  inl, inr,
}
use aura_proxy.Common.Int.{ℤ}
use aura_proxy.Common.Text.{is_empty}
use aura_proxy.Analysis.{JsonParser, with_codes, decode_node_response, rpc_error_analysis}
use aura_proxy.Context.{CustomContext, RequestType, set_rpc_errors, set_proxy_user_error}
use aura_proxy.Transport.Answers.{ContextError, RequestError, process_response}
use aura_proxy.Transport.{handle_empty_response}

-- What IncUserRequests is told of a context: the user, the credits, the chain, the token, and the type.
abbrev pub Account : Type 0 → Type 0
Account U = Option U × ℤ × String × String × RequestType

abbrev pub account_of : {U S : Type 0} → CustomContext U S → Account U
account_of c = (c.user_info, c.credits_used, c.chain_name, c.api_token, c.request_type)

module _ {U S : Type 0} (json : JsonParser) (c : CustomContext U S) where
  with_codes_account :
      (c' : CustomContext U S) (codes : List ℤ)
      → account_of (with_codes json c' codes) ≡ account_of c'
  unfolding set_rpc_errors
  with_codes_account c' [] = refl
  with_codes_account c' (code ∷ codes) = refl

  decode_node_response_account :
      (body : List ℕ) → account_of (decode_node_response json c body).0 ≡ account_of c
  unfolding decode_node_response set_rpc_errors
  decode_node_response_account [] = refl
  decode_node_response_account (fs ∷ body) = elim (Bool-cases (fs == b'{')) [
    | inl e ↦ rw e (with_codes_account (set_rpc_errors c []) _)
    | inr e ↦ elim (Bool-cases (fs == b'[')) [
      | inl f ↦ rw (e, f) (with_codes_account (set_rpc_errors c []) _)
      | inr f ↦ rw (e, f) refl
    ]
  ]

  pub handle_empty_response_account :
      (e : Option ContextError) (target : Option ℕ)
      → account_of (handle_empty_response c e target).0 ≡ account_of c
  unfolding handle_empty_response set_rpc_errors
  handle_empty_response_account (some e) target = refl
  handle_empty_response_account none none = refl
  handle_empty_response_account none (some t) = refl

  pub process_response_account :
      (context_err : Option ContextError) (body : List ℕ) (failure : Option RequestError)
      → account_of (process_response json c context_err body failure).context ≡ account_of c
  unfolding process_response set_proxy_user_error
  process_response_account context_err body (some e) = refl
  process_response_account context_err body none =
      let (c', errs) = decode_node_response json c body in
      let a = rpc_error_analysis errs in
      let k = decode_node_response_account body in
      elim (Bool-cases a.invalid_req_err) [
        | inl e ↦ rw e k
        | inr e ↦ elim (Bool-cases (not (is_empty a.joined) || is_some a.analyze_err)) [
          | inl f ↦ rw (e, f) k
          | inr f ↦ rw (e, f) k
        ]
      ]
