-- ===== src/Transport/Outcome.antt =====
-- When an answer is accepted, and when the next target is asked.
use aura_proxy.Common.{
  ℕ, ◌≡◌, refl, true, false, not, ◌&&◌, ◌||◌, List, [], ◌∷◌, Option, none, some, arith, any,
  keep_if, Bool-cases, inl, inr, if◌then◌else◌,
}
use aura_proxy.Context.{CustomContext, set_proxy_user_error}
use aura_proxy.Common.Text.{is_empty}
use aura_proxy.Analysis.{JsonParser, NodeError, decode_node_response}
use aura_proxy.Analysis.Verdict.{blames_user, lacks_method, blames_node, rpc_error_analysis-Sorted}
use aura_proxy.Transport.Answers.{RequestError, ContextError, process_response, is_muted_err}

-- If no error blames the user, each is for one of the two other uses.
sorted_out :
    (errs : List NodeError)
    → any blames_user errs ≡ false
    → (not (is_empty (keep_if blames_node errs)) || any lacks_method errs) ≡ not (is_empty errs)
sorted_out [] h = refl
sorted_out (e ∷ es) h = elim (Bool-cases (lacks_method e)) [
  | inl l ↦ ground (arith, l)
  | inr l ↦ let u : blames_user e ≡ false = ground arith in rw (u, l) refl
]

module _ (json : JsonParser) {U S : Type 0} (c : CustomContext U S)
    (context_err : Option ContextError) (body : List ℕ) where
  abbrev errors : List NodeError
  errors = (decode_node_response json c body).1

  abbrev pub IsFair : Option RequestError → Type 0
  IsFair none =
      ((process_response json c context_err body none).should_retry
        ≡ (not (any blames_user errors) && not (is_empty errors)))
      × ((process_response json c context_err body none).is_healthy
          ≡ not (process_response json c context_err body none).should_retry)
      × ((process_response json c context_err body none).context ≡ (
          if any blames_user errors
          then set_proxy_user_error (decode_node_response json c body).0 true
          else (decode_node_response json c body).0))
  IsFair (some e) =
      ((process_response json c context_err body (some e)).should_retry ≡ true)
      × ((process_response json c context_err body (some e)).is_healthy
          ≡ (is_muted_err e context_err).1)
      × ((process_response json c context_err body (some e)).context ≡ c)

  -- An answer without an error of the requester is retried exactly if it has errors and none of them
  -- blames the user; the node counts as unhealthy exactly then; and the context is marked as the
  -- user's error exactly if some error blames the user. With an error of the requester the request is
  -- always retried, the context stays as it is, and the node counts as healthy as isMutedErr says.
  pub process_response_verdict : (failure : Option RequestError) → IsFair failure
  unfolding process_response
  process_response_verdict (some e) = (refl, refl, refl)
  process_response_verdict none =
      let (user, lacking, joined) = rpc_error_analysis-Sorted errors in
      elim (Bool-cases (any blames_user errors)) [
        | inl u ↦ rw (user, u) (refl, refl, refl)
        | inr u ↦
            let some_error = sorted_out errors u in
            elim (Bool-cases (is_empty errors)) [
              | inl e ↦ rw (user, u, lacking, joined, some_error, e) (refl, refl, refl)
              | inr e ↦ rw (user, u, lacking, joined, some_error, e) (refl, refl, refl)
            ]
      ]
