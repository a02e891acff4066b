-- ===== src/Requests/Bodies.antt =====
-- What reading and parsing a body lets through.
use aura_proxy.Common.{
  ℕ, ◌≡◌, ◌≢◌, refl, ap, sym, ◌∙◌, Bool, true, false, ◌||◌, List, [], ◌∷◌, ◌++◌, Option, none, some,
  is_some, str_eq, ◌==◌, arith, Map, find, keep_if, All, All-map, Bool-cases, Option-cases, inl,
  inr, ◌⊎◌, length,
}
use aura_proxy.Common.Text.{is_space}
use aura_proxy.Rpc.{Request, RpcError, Api}
use aura_proxy.Requests.{
  is_kept, not_empty, get_request_body, check_json_rpc_body, Decoder, Parsed, check_requests,
  present, checked_one, parse_one, parse_many, parse_json_rpc_request_body,
}

keep_if-append :
    (p : ℕ → Bool) (xs ys : List ℕ) → keep_if p (xs ++ ys) ≡ keep_if p xs ++ keep_if p ys
keep_if-append p [] ys = refl
keep_if-append p (x ∷ xs) ys = elim (Bool-cases (p x)) [
  | inl e ↦ rw (e, keep_if-append p xs ys)
  | inr e ↦ rw (e, keep_if-append p xs ys)
]

keep_if-All : (p : ℕ → Bool) (xs : List ℕ) → All (λ x. p x ≡ true) (keep_if p xs)
keep_if-All p [] = tt
keep_if-All p (x ∷ xs) = elim (Bool-cases (p x)) [
  | inl e ↦ rw e (e, keep_if-All p xs)
  | inr e ↦ rw e (keep_if-All p xs)
]

keep_if-space : (space : List ℕ) → All (λ c. is_space c ≡ true) space → keep_if is_kept space ≡ []
keep_if-space [] h = refl
keep_if-space (c ∷ cs) h = rw (h.0, keep_if-space cs h.1)

not_space_of_kept : (c : ℕ) → is_kept c ≡ true → is_space c ≡ false
not_space_of_kept c h = elim (Bool-cases (is_space c)) [ inl e ↦ ground (arith, e) | inr e ↦ e ]

-- A body that is not empty and has no white space, or none.
abbrev pub IsKept : Option (List ℕ) → Type 0
IsKept none = Unit
IsKept (some b) = (b ≢ []) × All (λ c. is_space c ≡ false) b

not_empty-IsKept : (xs : List ℕ) → All (λ c. is_kept c ≡ true) xs → IsKept (not_empty xs)
not_empty-IsKept [] h = tt
not_empty-IsKept (x ∷ xs) h = (
  λ q. ground arith,
  All-map (λ c. is_kept c ≡ true) (λ c. is_space c ≡ false) (x ∷ xs) not_space_of_kept h,
)

-- The body that is kept is not empty and has no white space, and white space added or left out
-- anywhere in what the client sends, in a string of the JSON text as well, makes no difference.
pub get_request_body_ignores_space :
    (front space back : List ℕ)
    → All (λ c. is_space c ≡ true) space
    → (get_request_body (some (front ++ (space ++ back))) ≡ get_request_body (some (front ++ back)))
      × IsKept (get_request_body (some (front ++ back)))
unfolding get_request_body
get_request_body_ignores_space front space back h = (
  ap not_empty (
      keep_if-append is_kept front (space ++ back)
      ∙ ap (λ k. keep_if is_kept front ++ k)
          (keep_if-append is_kept space back
            ∙ ap (λ k. k ++ keep_if is_kept back) (keep_if-space space h))
      ∙ sym (keep_if-append is_kept front back)),
  not_empty-IsKept (keep_if is_kept (front ++ back)) (keep_if-All is_kept (front ++ back)),
)

module _ (api : Api) (method_list : Map ℕ) (skip : Bool) where
  -- A request of the right version whose method is in the list, where the list is asked.
  abbrev pub IsAccepted : Request → Type 0
  IsAccepted r =
      (str_eq r.jsonrpc api.json_rpc_version ≡ true)
      × ((skip || is_some (find method_list r.method)) ≡ true)

  check_json_rpc_body-IsAccepted :
      (r : Request) → check_json_rpc_body api method_list skip r ≡ none → IsAccepted r
  unfolding check_json_rpc_body
  check_json_rpc_body-IsAccepted r e = ground arith

module _ (api : Api) (dec : Decoder) (method_list : Map ℕ) (skip : Bool) where
  check_requests-IsAccepted :
      (rs : List (Option Request))
      → check_requests api dec method_list skip rs ≡ none
      → All (IsAccepted api method_list skip) (present api dec method_list skip rs)
  unfolding check_requests
  check_requests-IsAccepted [] e = tt
  check_requests-IsAccepted (none ∷ rs) e = ground arith
  check_requests-IsAccepted (some r ∷ rs) e =
      elim (Option-cases (check_json_rpc_body api method_list skip r)) [
        | inl f ↦ (
          check_json_rpc_body-IsAccepted api method_list skip r f,
          check_requests-IsAccepted rs (ground (arith, f)),
        )
        | inr (x, f) ↦ ground (arith, f)
      ]

  -- Requests that are accepted, exactly one unless the body is an array.
  abbrev pub IsParsed : Parsed → Type 0
  IsParsed p =
      All (IsAccepted api method_list skip) p.requests
      × ((p.array_requested ≡ true) ⊎ (length p.requests ≡ 1))

  checked_one-IsParsed :
      (r : Request) (o : Option RpcError)
      → (o ≡ none → IsAccepted api method_list skip r)
      → (checked_one api dec method_list skip r o).failure ≡ none
      → IsParsed (checked_one api dec method_list skip r o)
  checked_one-IsParsed r none f h = ((f refl, tt), inr refl)
  checked_one-IsParsed r (some x) f h = absurd (ground arith)

  parse_one-IsParsed :
      (o : Option Request)
      → (parse_one api dec method_list skip o).failure ≡ none
      → IsParsed (parse_one api dec method_list skip o)
  parse_one-IsParsed none h = ground arith
  parse_one-IsParsed (some r) h =
      checked_one-IsParsed r (check_json_rpc_body api method_list skip r)
        (check_json_rpc_body-IsAccepted api method_list skip r) h

  parse_many-IsParsed :
      (o : Option (List (Option Request)))
      → (parse_many api dec method_list skip o).failure ≡ none
      → IsParsed (parse_many api dec method_list skip o)
  parse_many-IsParsed none h = ground arith
  parse_many-IsParsed (some rs) h = (check_requests-IsAccepted rs h, inl refl)

  -- What parsing returns without an error are requests of the right version whose methods are in the
  -- list, where the list is asked; exactly one, unless the result says that the body is an array.
  pub parse_json_rpc_request_body-IsParsed :
      (body : Option (List ℕ))
      → (parse_json_rpc_request_body api dec method_list skip body).failure ≡ none
      → IsParsed (parse_json_rpc_request_body api dec method_list skip body)
  unfolding parse_json_rpc_request_body
  parse_json_rpc_request_body-IsParsed none = λ h. ground arith
  parse_json_rpc_request_body-IsParsed (some []) = λ h. ground arith
  parse_json_rpc_request_body-IsParsed (some (fs ∷ body)) = elim (Bool-cases (fs == b'{')) [
    | inl e ↦ rw e (parse_one-IsParsed (dec.decode_request (fs ∷ body)))
    | inr e ↦ elim (Bool-cases (fs == b'[')) [
      | inl f ↦ rw (e, f) (parse_many-IsParsed (dec.decode_requests (fs ∷ body)))
      | inr f ↦ rw (e, f) (λ h. ground arith)
    ]
  ]
