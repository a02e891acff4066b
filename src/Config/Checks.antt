-- ===== src/Config/Checks.antt =====
-- Which configurations validation accepts.
mod Tests
use aura_proxy.Common.{
  ℕ, String, Bool, true, false, not, ◌&&◌, ◌||◌, List, [], ◌∷◌, Option, none, some, str_eq, ◌==◌,
  ◌≡◌, refl, ap, sym, ◌∙◌, arith, is_some, if◌then◌else◌, Map, find, all, Bool-cases, inl, inr,
}
use aura_proxy.Config.{
  WrappedUrl, SolanaNode, SolanaConfig, Chain, ProxyConfig, ConfigError, ◌then_check◌, wrap,
  invalid_port, empty_host_list, empty_ws_host_list, unsupported_chain, in_solana, in_eclipse,
  in_chains, in_chain, validate_url, validate_urls, validate_nodes, validate_solana, validate_chain,
  validate_chains, validate,
}

abbrev good_url : WrappedUrl → Bool
good_url w = not (str_eq w.host "") && (str_eq w.scheme "http" || str_eq w.scheme "https")

abbrev good_node : SolanaNode → Bool
good_node n = good_url n.url

abbrev good_solana : {F : Type 0} → SolanaConfig F → Bool
good_solana s =
    all good_node s.das_api_nodes
    && all good_node s.basic_route_nodes
    && all good_node s.ws_host_nodes

abbrev has_any : List WrappedUrl → Bool
has_any [] = false
has_any (w ∷ ws) = true

abbrev good_chain : Chain → Bool
good_chain c =
    has_any c.hosts && all good_url c.hosts && has_any c.ws_hosts && all good_url c.ws_hosts

abbrev good_entry : Map (Map ℕ) → String × Chain → Bool
good_entry possible (name, chain) = is_some (find possible name) && good_chain chain

-- The port is set, every URL of the nodes and of the chains has a host and a web scheme, and every
-- chain is known and has URLs of both kinds.
abbrev pub is_acceptable : {F : Type 0} → Map (Map ℕ) → ProxyConfig F → Bool
is_acceptable possible p =
    not (p.port == 0)
    && good_solana p.solana
    && good_solana p.eclipse
    && all (good_entry possible) p.chains

is_some-then_check :
    (a b : Option ConfigError) → is_some (a then_check b) ≡ (is_some a || is_some b)
is_some-then_check none b = refl
is_some-then_check (some e) b = refl

is_some-wrap :
    (f : ConfigError → ConfigError) (a : Option ConfigError) → is_some (wrap f a) ≡ is_some a
is_some-wrap f none = refl
is_some-wrap f (some e) = refl

validate_url_good : (w : WrappedUrl) → is_some (validate_url w) ≡ not (good_url w)
unfolding validate_url
validate_url_good w = ground arith

validate_urls_good : (ws : List WrappedUrl) → is_some (validate_urls ws) ≡ not (all good_url ws)
unfolding validate_urls
validate_urls_good [] = refl
validate_urls_good (w ∷ ws) =
    rw
      (
        is_some-then_check (validate_url w) (validate_urls ws),
        validate_url_good w,
        validate_urls_good ws,
      )
      (ground arith)

validate_nodes_good : (ns : List SolanaNode) → is_some (validate_nodes ns) ≡ not (all good_node ns)
unfolding validate_nodes
validate_nodes_good [] = refl
validate_nodes_good (n ∷ ns) =
    rw
      (
        is_some-then_check (validate_url n.url) (validate_nodes ns),
        validate_url_good n.url,
        validate_nodes_good ns,
      )
      (ground arith)

validate_solana_good :
    {F : Type 0} (s : SolanaConfig F) → is_some (validate_solana s) ≡ not (good_solana s)
unfolding validate_solana
validate_solana_good s =
    rw
      (
        is_some-then_check,
        is_some-then_check,
        validate_nodes_good s.das_api_nodes,
        validate_nodes_good s.basic_route_nodes,
        validate_nodes_good s.ws_host_nodes,
      )
      (ground arith)

module _ (e : ConfigError) where
  list_good :
      (ws : List WrappedUrl)
      → is_some (elim ws [ [] ↦ some e | w ∷ ws' ↦ validate_urls (w ∷ ws') ])
        ≡ not (has_any ws && all good_url ws)
  list_good [] = refl
  list_good (w ∷ ws) = rw (validate_urls_good (w ∷ ws)) refl

validate_chain_good : (c : Chain) → is_some (validate_chain c) ≡ not (good_chain c)
unfolding validate_chain
validate_chain_good c =
    rw
      (
        is_some-then_check,
        list_good empty_host_list c.hosts,
        list_good empty_ws_host_list c.ws_hosts,
      )
      (ground arith)

validate_chains_good :
    (possible : Map (Map ℕ)) (cs : Map Chain)
    → is_some (validate_chains possible cs) ≡ not (all (good_entry possible) cs)
unfolding validate_chains
validate_chains_good possible [] = refl
validate_chains_good possible ((name, chain) ∷ cs) =
    rw
      (
        is_some-then_check,
        is_some-then_check,
        is_some-wrap (in_chain name),
        validate_chain_good chain,
        validate_chains_good possible cs,
      )
      (known (find possible name))
  where
    known :
        (o : Option (Map ℕ))
        → ((is_some (elim o [ none ↦ some (unsupported_chain name) | some methods ↦ none ])
              || not (good_chain chain))
            || not (all (good_entry possible) cs))
          ≡ not ((is_some o && good_chain chain) && all (good_entry possible) cs)
    known none = refl
    known (some methods) = ground arith

-- Validation returns an error exactly if the configuration is not acceptable: a port of 0, a URL of a
-- node or of a chain without a host or with a scheme other than http and https, an unknown chain, or
-- a chain without hosts or without WebSocket hosts.
pub validate_rejects :
    {F : Type 0} (possible : Map (Map ℕ)) (p : ProxyConfig F)
    → is_some (validate possible p) ≡ not (is_acceptable possible p)
unfolding validate
validate_rejects possible p =
    rw
      (
        is_some-then_check,
        is_some-then_check,
        is_some-then_check,
        is_some-wrap in_solana,
        is_some-wrap in_eclipse,
        is_some-wrap in_chains,
        validate_solana_good p.solana,
        validate_solana_good p.eclipse,
        validate_chains_good possible p.chains,
      )
      (ground arith)
