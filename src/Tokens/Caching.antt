-- ===== src/Tokens/Caching.antt =====
-- api_token_checker.go: a user that was fetched or charged is in the cache for each of its tokens.
use aura_proxy.Common.{
  ap, length, ◌++◌, get_elem?-append_length, ok, ℕ, ◌+◌, ◌≤◌, ◌≡◌, refl, sym, ◌∙◌, subst, String,
  str_eq, true, false, List, [], ◌∷◌, none, some, mem_str, leb, if◌then◌else◌, arith, Bool-cases,
  inl, inr,
}
use aura_proxy.Tokens.{
  CacheLib, user_info_cache_interval, set_tokens, User, TokenChecker, Moment, has_ended, cached,
  cached_or, fetched, store_user, usable, at_ref, get_user,
}

-- What go-cache documents of Get after Set: the key has the value until its time is over, and other
-- keys keep theirs.
pub record IsCache {C V : Type 0} (lib : CacheLib C V) : Type 0 where
  pub get-set :
      (c : C) (set_at : ℕ) (k : String) (v : V) (ttl now : ℕ) (j : String)
      → lib.get (lib.set c set_at k v ttl) now j
        ≡ (if str_eq k j then if leb now (set_at + ttl) then some v else none else lib.get c now j)

module _ {C : Type 0} (lib : CacheLib C ℕ) (laws : IsCache lib) where
  -- Within a minute of `set_tokens` the cache has the user for each of the tokens, and what it had for
  -- all other texts.
  pub get-set_tokens :
      (c : C) (set_at ref now : ℕ) (tokens : List String) (token : String)
      → now ≤ set_at + user_info_cache_interval
      → lib.get (set_tokens lib c set_at ref tokens) now token
        ≡ (if mem_str token tokens then some ref else lib.get c now token)
  unfolding set_tokens
  get-set_tokens c set_at ref now [] token h = refl
  get-set_tokens c set_at ref now (k ∷ ks) token h =
      get-set_tokens (lib.set c set_at k ref user_info_cache_interval) set_at ref now ks token h
      ∙ elim (Bool-cases (mem_str token ks)) [
        | inl e ↦ ground (arith, e)
        | inr e ↦
            rw e
              (laws.get-set c set_at k ref user_info_cache_interval now token ∙ ground (arith, h))
      ]

  module _ {S : Type 0} (t : TokenChecker C S) where
    cached-store_user :
        (set_at now : ℕ) (u : User) (token : String)
        → mem_str token u.tokens ≡ true
        → now ≤ set_at + user_info_cache_interval
        → has_ended now u ≡ false
        → cached lib (store_user lib t set_at u) now token ≡ some (length t.users, u)
    cached-store_user set_at now u token member fresh live =
        ap (λ o. usable now o (at_ref (t.users ++ u ∷ []) o)) found
        ∙ ap (λ o. usable now (some (length t.users)) o) (get_elem?-append_length t.users u [])
        ∙ rw live refl
      where
        found :
            lib.get (set_tokens lib t.user_cache set_at (length t.users) u.tokens) now token
            ≡ some (length t.users)
        found =
            get-set_tokens t.user_cache set_at (length t.users) now u.tokens token fresh
            ∙ rw member refl

    -- Once a user was fetched for one of its tokens, every look-up within a minute, for any of its
    -- tokens and until its subscription ends, finds the same user and leaves the cache as it is,
    -- whatever the API would answer.
    pub get_user_remembers :
        (first later : Moment) (token other : String) (u : User)
        → cached lib t first.at_lookup token ≡ none
        → first.get_user_info token ≡ some u
        → mem_str other u.tokens ≡ true
        → later.at_lookup ≤ first.at_store + user_info_cache_interval
        → has_ended later.at_lookup u ≡ false
        → get_user lib (get_user lib t first token).0 later other
          ≡ ((get_user lib t first token).0, ok (length t.users, u))
    unfolding get_user
    get_user_remembers first later token other u missed answered member fresh live =
        subst (λ s. get_user lib s later other ≡ (s, ok (length t.users, u))) (sym stored)
          (ap
            (λ o.
              cached_or lib (store_user lib t first.at_store u) later.at_store
                (later.get_user_info other) o)
            (cached-store_user first.at_store later.at_lookup u other member fresh live))
      where
        stored : (get_user lib t first token).0 ≡ store_user lib t first.at_store u
        stored =
            ap (λ o. (cached_or lib t first.at_store (first.get_user_info token) o).0) missed
            ∙ ap (λ a. (fetched lib t first.at_store a).0) answered
