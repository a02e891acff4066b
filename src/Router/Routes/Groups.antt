-- ===== src/Router/Routes/Groups.antt =====
-- The methods that an endpoint names, by groups and by itself, described without the table of groups.
use aura_proxy.Common.{
  ℕ, suc, ◌≡◌, refl, ap, ◌∙◌, String, List, [], ◌∷◌, ◌++◌, Option, none, some, arith, if◌then◌else◌,
  Map, find, put, find-put, mem_str, str_eq, Option-cases, inl, inr,
}
use mathlib.Core.Path.{ap₂}
use aura_proxy.Config.{EndpointConfig, MethodGroupConfig}
use aura_proxy.Common.Float.{Float64}
use aura_proxy.Router.Tables.{set_groups, expand_groups, expanded_methods}
use aura_proxy.Router.Routes.Steps.{hits, listing}

abbrev methods_or : Option (List String) → List String → List String
methods_or none before = before
methods_or (some ms) before = ms

abbrev found_or : Option (List String) → Option (List String) → Option (List String)
found_or none before = before
found_or (some ms) before = some ms

-- The methods of the last group with the name.
abbrev latest : List MethodGroupConfig → String → Option (List String)
latest [] name = none
latest (g ∷ gs) name =
    found_or (latest gs name) (if str_eq g.name name then some g.methods else none)

-- Those of the groups named, without the groups that are not configured.
abbrev of_groups : List MethodGroupConfig → List String → List String
of_groups gs [] = []
of_groups gs (name ∷ names) = methods_or (latest gs name) [] ++ of_groups gs names

abbrev pub named_methods : {F : Type 0} → List MethodGroupConfig → EndpointConfig F → List String
named_methods gs e = of_groups gs e.method_groups ++ e.methods

find-set_groups :
    (m : Map (List String)) (gs : List MethodGroupConfig) (k : String)
    → find (set_groups m gs) k ≡ found_or (latest gs k) (find m k)
unfolding set_groups
find-set_groups m [] k = refl
find-set_groups m (g ∷ gs) k =
    find-set_groups (put m g.name g.methods) gs k
    ∙ ap (λ o. found_or (latest gs k) o) (find-put m g.name g.methods k)
    ∙ merge (latest gs k)
  where
    merge :
        (o : Option (List String))
        → found_or o (if str_eq g.name k then some g.methods else find m k)
          ≡ found_or (found_or o (if str_eq g.name k then some g.methods else none)) (find m k)
    merge none = ground arith
    merge (some ms) = refl

module _ (gs : List MethodGroupConfig) where
  find-latest : (k : String) → find (set_groups [] gs) k ≡ latest gs k
  unfolding find
  find-latest k = find-set_groups [] gs k ∙ same (latest gs k)
    where
      same : (o : Option (List String)) → found_or o none ≡ o
      same none = refl
      same (some ms) = refl

  expand_groups-of_groups :
      (names : List String) → expand_groups (set_groups [] gs) names ≡ of_groups gs names
  unfolding expand_groups
  expand_groups-of_groups [] = refl
  expand_groups-of_groups (name ∷ names) = elim (Option-cases (latest gs name)) [
    | inl e ↦ rw (find-latest name, e, expand_groups) (expand_groups-of_groups names)
    | inr (ms, e) ↦
        rw (find-latest name, e, expand_groups) (ap (λ l. ms ++ l) (expand_groups-of_groups names))
  ]

  module _ {F : Type 0} (fl : Float64 F) where
    -- The endpoints of a list, numbered from `start`, that name method k and do not exclude it.
    abbrev pub listed : String → ℕ → List (EndpointConfig F) → List ℕ
    listed k start [] = []
    listed k start (e ∷ es) =
        (if mem_str k e.exclude_methods then [] else hits k start (named_methods gs e))
        ++ listed k (suc start) es

    pub listing-listed :
        (k : String) (start : ℕ) (es : List (EndpointConfig F))
        → listing fl (set_groups [] gs) k start es ≡ listed k start es
    unfolding expanded_methods
    listing-listed k start [] = refl
    listing-listed k start (e ∷ es) =
        ap₂
          (λ ms l.
            (if mem_str k e.exclude_methods then [] else hits k start (ms ++ e.methods)) ++ l)
          (expand_groups-of_groups e.method_groups) (listing-listed k (suc start) es)
