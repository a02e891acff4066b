-- ===== src/WebSocket/Joining.antt =====
-- websocket_transport.go: the rewritten URL against a description of the joined paths and queries.
use aura_proxy.Common.{
  ℕ, ◌≡◌, Bool, true, false, ◌&&◌, ◌||◌, drop, if◌then◌else◌, List, [], ◌∷◌, ◌++◌, ◌==◌,
}
use aura_proxy.Common.Text.{is_empty, ends_with, trim_prefix, trim_suffix}
use aura_proxy.WebSocket.{Url, slash}

-- The two parts with one slash between them, where the second is not empty.
abbrev pub joined : List ℕ → List ℕ → List ℕ
joined a [] = a
joined a (c ∷ cs) = trim_suffix slash a ++ slash ∷ trim_prefix slash (c ∷ cs)

module _ (escaped_path : Url → List ℕ) (target url : Url) where
  -- The path beside a raw path: the slash that is added or dropped is that of the escaped paths, and
  -- the target's path stays as it is if the request's escaped path is empty.
  abbrev pub path_beside : List ℕ → List ℕ → List ℕ
  path_beside apath [] = target.path
  path_beside apath (c ∷ cs) =
      target.path
      ++ ((if ends_with slash apath || c == slash then [] else slash ∷ [])
          ++ (if ends_with slash apath && c == slash then drop 1 url.path else url.path))

  -- Without raw paths the paths are joined and no raw path is set; else the raw path is the escaped
  -- paths joined, and the path goes with it.
  abbrev pub IsJoined : Bool → Url → Type 0
  IsJoined true r = (r.path ≡ joined target.path url.path) × (r.raw_path ≡ [])
  IsJoined false r =
      (r.path ≡ path_beside (escaped_path target) (escaped_path url))
      × (r.raw_path ≡ joined (escaped_path target) (escaped_path url))

  -- The queries, with a & between them if neither is empty.
  abbrev pub joined_query : List ℕ → List ℕ → List ℕ
  joined_query [] q = q
  joined_query (c ∷ cs) [] = c ∷ cs
  joined_query (c ∷ cs) (d ∷ ds) = c ∷ cs ++ b'&' ∷ d ∷ ds

  abbrev pub plain : Bool
  plain = is_empty target.raw_path && is_empty url.raw_path
