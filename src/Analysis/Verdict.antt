-- ===== src/Analysis/Verdict.antt =====
-- How the errors of an answer are sorted.
use aura_proxy.Common.{
  codes, ℕ, ◌≡◌, refl, ap, sym, ◌∙◌, String, Bool, true, false, not, ◌&&◌, ◌||◌, List, [], ◌∷◌,
  ◌++◌, append-nil, append_assoc, Option, none, some, arith, is_some, any, keep_if, Bool-cases, inl,
  inr,
}
use aura_proxy.Common.Int.{ℤ, negsuc, eqb_ℤ}
use aura_proxy.Common.Text.{contains}
use aura_proxy.Analysis.{
  NodeError, rpc_error, empty_body, empty_response_body, empty_response_field, index_not_found,
  array_error, invalid_first_symbol, Analysis, no_findings, is_user_error,
  is_method_not_available_by_err_code, add_to_payload, analyze_one, analyze_all, rpc_error_analysis,
}

-- The codes that blame the request, and those of a method that a node does not serve, by their
-- numbers in JSON-RPC and in Solana's RPC: preflight, signature, precompile, signature length and
-- version of a transaction, parsing, request, params, and slots and blocks that do not exist.
abbrev user_codes : List ℤ
user_codes =
    negsuc 32001
    ∷ negsuc 32002
    ∷ negsuc 32005
    ∷ negsuc 32012
    ∷ negsuc 32014
    ∷ negsuc 32699
    ∷ negsuc 32599
    ∷ negsuc 32601
    ∷ negsuc 32006
    ∷ negsuc 32008
    ∷ negsuc 32003
    ∷ negsuc 32013
    ∷ []

abbrev is_one_of : ℤ → List ℤ → Bool
is_one_of code [] = false
is_one_of code (c ∷ cs) = eqb_ℤ code c || is_one_of code cs

-- Invalid params (-32602) that a node reports as it cannot read its own store.
abbrev store_failed : ℤ → List ℕ → Bool
store_failed code message =
    eqb_ℤ code (negsuc 32601)
    && (contains message (codes "BigTable query failed (maybe timeout due to too large range")
        || contains message (codes "blockstore error"))

abbrev pub blames_request : ℤ → List ℕ → Bool
blames_request code message = is_one_of code user_codes && not (store_failed code message)

-- -32601 and -32011
abbrev pub not_served : ℤ → Bool
not_served code = eqb_ℤ code (negsuc 32600) || eqb_ℤ code (negsuc 32010)

-- The request is at fault.
abbrev pub blames_user : NodeError → Bool
blames_user (rpc_error code message method) = blames_request code message
blames_user _ = false

-- The node does not serve the method.
abbrev pub lacks_method : NodeError → Bool
lacks_method (rpc_error code message method) = not (blames_request code message) && not_served code
lacks_method _ = false

-- Any other error.
abbrev pub blames_node : NodeError → Bool
blames_node e = not (blames_user e) && not (lacks_method e)

pub record Sorted (a : Analysis) (es : List NodeError) (a' : Analysis) : Type 0 where
  pub user : a'.invalid_req_err ≡ (a.invalid_req_err || any blames_user es)
  pub lacking : is_some a'.analyze_err ≡ (is_some a.analyze_err || any lacks_method es)
  pub others : a'.joined ≡ a.joined ++ keep_if blames_node es

is_user_error-blames_request :
    (code : ℤ) (message : List ℕ) → is_user_error code message ≡ blames_request code message
unfolding is_user_error contains
is_user_error-blames_request code message = refl

is_method_not_available_by_err_code-not_served :
    (code : ℤ) → is_method_not_available_by_err_code code ≡ not_served code
unfolding is_method_not_available_by_err_code
is_method_not_available_by_err_code-not_served code = refl

add_to_payload_found : (o : Option (List String)) (m : String) → is_some (add_to_payload o m) ≡ true
add_to_payload_found none m = refl
add_to_payload_found (some ms) m = refl

plain-Sorted :
    (a : Analysis) (e : NodeError) (slot : ℤ)
    → blames_user e ≡ false
    → lacks_method e ≡ false
    → Sorted a (e ∷ []) (record a { first_slot_on_node = slot; joined = a.joined ++ e ∷ [] })
plain-Sorted a e slot u l = record {
  user = ground (arith, u);
  lacking = ground (arith, l);
  others = rw (u, l) refl;
}

analyze_one-Sorted : (a : Analysis) (e : NodeError) → Sorted a (e ∷ []) (analyze_one a e)
unfolding analyze_one
analyze_one-Sorted a (rpc_error code message method) =
    let u = is_user_error-blames_request code message in
    let l = is_method_not_available_by_err_code-not_served code in
    elim (Bool-cases (blames_request code message)) [
      | inl user ↦
          rw (u, user)
            (record {
              user = ground (arith, user);
              lacking = ground (arith, user);
              others = rw user (sym (append-nil a.joined));
            })
      | inr other ↦
          rw (u, other)
            (elim (Bool-cases (not_served code)) [
              | inl lacks ↦
                  rw (l, lacks)
                    (record {
                      user = ground (arith, other);
                      lacking =
                          ground (arith, other, lacks, add_to_payload_found a.analyze_err method);
                      others = rw (other, lacks) (sym (append-nil a.joined));
                    })
              | inr node ↦
                  rw (l, node)
                    (plain-Sorted a (rpc_error code message method) _ other
                      (ground (arith, other, node)))
            ])
    ]
analyze_one-Sorted a empty_body = plain-Sorted a empty_body a.first_slot_on_node refl refl
analyze_one-Sorted a empty_response_body =
    plain-Sorted a empty_response_body a.first_slot_on_node refl refl
analyze_one-Sorted a empty_response_field =
    plain-Sorted a empty_response_field a.first_slot_on_node refl refl
analyze_one-Sorted a index_not_found = plain-Sorted a index_not_found a.first_slot_on_node refl refl
analyze_one-Sorted a array_error = plain-Sorted a array_error a.first_slot_on_node refl refl
analyze_one-Sorted a (invalid_first_symbol c) =
    plain-Sorted a (invalid_first_symbol c) a.first_slot_on_node refl refl

keep_if-cons :
    (p : NodeError → Bool) (e : NodeError) (es : List NodeError)
    → keep_if p (e ∷ es) ≡ keep_if p (e ∷ []) ++ keep_if p es
keep_if-cons p e es = elim (Bool-cases (p e)) [ inl q ↦ rw q refl | inr q ↦ rw q refl ]

any-cons :
    (p : NodeError → Bool) (x : Bool) (e : NodeError) (es : List NodeError)
    → ((x || any p (e ∷ [])) || any p es) ≡ (x || any p (e ∷ es))
any-cons p x e es = ground arith

analyze_all-Sorted : (a : Analysis) (es : List NodeError) → Sorted a es (analyze_all a es)
unfolding analyze_all
analyze_all-Sorted a [] = record {
  user = ground arith;
  lacking = ground arith;
  others = sym (append-nil a.joined);
}
analyze_all-Sorted a (e ∷ es) =
    let one = analyze_one-Sorted a e in
    let rest = analyze_all-Sorted (analyze_one a e) es in
    record {
      user = rest.user ∙ ap (λ x. x || any blames_user es) one.user ∙ any-cons blames_user _ e es;
      lacking =
          rest.lacking
          ∙ ap (λ x. x || any lacks_method es) one.lacking
          ∙ any-cons lacks_method _ e es;
      others =
          rest.others
          ∙ ap (λ x. x ++ keep_if blames_node es) one.others
          ∙ append_assoc a.joined (keep_if blames_node (e ∷ [])) (keep_if blames_node es)
          ∙ ap (λ x. a.joined ++ x) (sym (keep_if-cons blames_node e es));
    }

-- rpcErrorAnalysis goes through every error of the answer. It calls the request invalid exactly if
-- some error has one of twelve codes that blame the request, without invalid params for which the
-- message blames the node's store; it reports methods exactly if some other error has a code of a
-- method that is not served, and joins the rest, in their order.
pub rpc_error_analysis-Sorted :
    (errs : List NodeError)
    → ((rpc_error_analysis errs).invalid_req_err ≡ any blames_user errs)
      × (is_some (rpc_error_analysis errs).analyze_err ≡ any lacks_method errs)
      × ((rpc_error_analysis errs).joined ≡ keep_if blames_node errs)
unfolding rpc_error_analysis
rpc_error_analysis-Sorted errs =
    let h = analyze_all-Sorted no_findings errs in (h.user, h.lacking, h.others)
