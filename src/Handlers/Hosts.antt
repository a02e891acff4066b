-- ===== src/Handlers/Hosts.antt =====
-- proxy.go: the hosts that initAdapters sets up.
use aura_proxy.Common.{
  ℕ, ◌<◌, ◌≡◌, refl, sym, ap, subst, ◌∙◌, String, Bool, true, false, ◌&&◌, List, [], ◌∷◌, ◌++◌,
  Option, none, some, All, All-append, mem_str, Map, find, put, find-put, length, length-append,
  arith, if◌then◌else◌, Bool-cases, inl, inr, ok, ◌>>=◌, get_elem?-append_length,
  get_elem?-append_left,
}
use aura_proxy.Common.Float.{Float64, IsIeee}
use aura_proxy.Config.{ProxyConfig, SolanaConfig}
use aura_proxy.Chains.Methods.{method_list, chain_name, eclipse_chain_name}
use aura_proxy.Router.Routes.{new_method_based_router_routes}
use aura_proxy.Router.Shape.{IsBuilt}
use aura_proxy.Adapter.{
  Adapter, new_adapter, new_eclipse_adapter, solana_chain_hosts, eclipse_chain_hosts,
}
use aura_proxy.Usage.{Counters}
use aura_proxy.Handlers.{
  empty_proxy, Proxy, adapter_for, at_index, deref, has_solana, has_eclipse, put_hosts, add_adapter,
  add_chain, init_adapters,
}

find-put_hosts :
    (m : Map ℕ) (hs : List String) (i : ℕ) (h : String)
    → find (put_hosts m hs i) h ≡ (if mem_str h hs then some i else find m h)
find-put_hosts m [] i h = refl
find-put_hosts m (k ∷ ks) i h =
    find-put_hosts (put m k i) ks i h ∙ elim (Bool-cases (mem_str h ks)) [
      | inl e ↦ ground (arith, e)
      | inr e ↦ rw e (find-put m k i h ∙ ground arith)
    ]

abbrev Below : ℕ → Option ℕ → Type 0
Below n none = Unit
Below n (some i) = i < n

module _ {F : Type 0} where
  abbrev chain_of : Option (ℕ × Adapter F) → Option String
  chain_of none = none
  chain_of (some (i, a)) = some a.chain_name

  -- The name of the chain that a host belongs to.
  abbrev pub chain_at : Proxy F → String → Option String
  chain_at p host = chain_of (adapter_for p host)

module _ {F : Type 0} (fl : Float64 F) where
  -- Every host stands for an adapter with a built router, of the chain that `names` gives.
  pub record IsServing (names : String → Option String) (p : Proxy F) : Type 0 where
    pub inside : (h : String) → Below (length p.heap) (find p.adapters h)
    pub built : All (λ a. IsBuilt fl a.rpc_transport.method_router) p.heap
    pub chains : (h : String) → chain_at p h ≡ names h

  module _ (p : Proxy F) (a : Adapter F) where
    chain_of-append :
        (o : Option ℕ) → Below (length p.heap) o → deref (p.heap ++ a ∷ []) o ≡ deref p.heap o
    chain_of-append none h = refl
    chain_of-append (some i) h = rw (get_elem?-append_left p.heap (a ∷ []) i h) refl

    found_new :
        (h : String)
        → mem_str h a.host_names ≡ true
        → find (put_hosts p.adapters a.host_names (length p.heap)) h ≡ some (length p.heap)
    found_new h e = find-put_hosts p.adapters a.host_names (length p.heap) h ∙ rw e refl

    found_old :
        (h : String)
        → mem_str h a.host_names ≡ false
        → find (put_hosts p.adapters a.host_names (length p.heap)) h ≡ find p.adapters h
    found_old h e = find-put_hosts p.adapters a.host_names (length p.heap) h ∙ rw e refl

    add_adapter-chain :
        (h : String)
        → Below (length p.heap) (find p.adapters h)
        → chain_at (add_adapter p a) h
          ≡ (if mem_str h a.host_names then some a.chain_name else chain_at p h)
    unfolding adapter_for
    add_adapter-chain h k = elim (Bool-cases (mem_str h a.host_names)) [
      | inl e ↦ rw e (
          ap (λ o. chain_of (deref (p.heap ++ a ∷ []) o)) (found_new h e)
          ∙ ap (λ o. chain_of (at_index (length p.heap) o)) (get_elem?-append_length p.heap a []))
      | inr e ↦ rw e (
          ap (λ o. chain_of (deref (p.heap ++ a ∷ []) o)) (found_old h e)
          ∙ ap chain_of (chain_of-append (find p.adapters h) k))
    ]

    add_adapter-inside :
        (h : String)
        → Below (length p.heap) (find p.adapters h)
        → Below
            (length (p.heap ++ a ∷ []))
            (find (put_hosts p.adapters a.host_names (length p.heap)) h)
    add_adapter-inside h k = elim (Bool-cases (mem_str h a.host_names)) [
      | inl e ↦
          subst (λ o. Below (length (p.heap ++ a ∷ [])) o) (sym (found_new h e))
            (omega (arith, length-append p.heap (a ∷ [])))
      | inr e ↦
          subst (λ o. Below (length (p.heap ++ a ∷ [])) o) (sym (found_old h e))
            (Below-append (find p.adapters h) k)
    ]
      where
        Below-append :
            (o : Option ℕ) → Below (length p.heap) o → Below (length (p.heap ++ a ∷ [])) o
        Below-append none q = tt
        Below-append (some i) q = omega (arith, length-append p.heap (a ∷ []))

    add_adapter-IsServing :
        (names : String → Option String)
        → IsServing names p
        → IsBuilt fl a.rpc_transport.method_router
        → IsServing
            (λ h. if mem_str h a.host_names then some a.chain_name else names h)
            (add_adapter p a)
    add_adapter-IsServing names s b = record {
      inside = λ h. add_adapter-inside h (s.inside h);
      built =
          All-append (λ d. IsBuilt fl d.rpc_transport.method_router) p.heap (a ∷ []) s.built
            (b, tt);
      chains = λ h.
          add_adapter-chain h (s.inside h)
          ∙ ap (λ o. if mem_str h a.host_names then some a.chain_name else o) (s.chains h);
    }

  module _ (ieee : IsIeee fl) where
    -- One chain that is set up, if it is configured.
    add_chain-IsServing :
        (b : Bool) (cfg : SolanaConfig F) (p : Proxy F) (is_mainnet : Bool) (name : String)
        (hosts : List String) (names : String → Option String)
        → IsServing names p
        → (p' : Proxy F) × (add_chain fl b cfg
              (λ r. new_adapter r is_mainnet name method_list hosts)
              p
            ≡ ok p')
          × IsServing (λ h. if b && mem_str h hosts then some name else names h) p'
    add_chain-IsServing false cfg p is_mainnet name hosts names s = (p, refl, s)
    add_chain-IsServing true cfg p is_mainnet name hosts names s =
        let (r, e, b, t, d, made) = new_method_based_router_routes fl cfg ieee in
        let a = new_adapter r is_mainnet name method_list hosts in
        (add_adapter p a, rw e refl, add_adapter-IsServing p a names s b)

    -- With IEEE arithmetic initAdapters succeeds for every configuration, on a proxy without adapters:
    -- each adapter has a router as its constructor builds it, and a host belongs to Eclipse if Eclipse
    -- is configured and lists it, else to Solana if Solana is configured and lists it, else to none.
    pub init_adapters-IsServing :
        (cfg : ProxyConfig F) (counters : Counters)
        → (p : Proxy F) × (init_adapters fl cfg (empty_proxy cfg counters) ≡ ok p)
          × IsServing
              (λ h.
                if has_eclipse cfg.eclipse && mem_str h eclipse_chain_hosts
                then some eclipse_chain_name
                else if has_solana cfg.solana && mem_str h solana_chain_hosts
                then some chain_name
                else none)
              p
    unfolding init_adapters find adapter_for
    init_adapters-IsServing cfg counters =
        let (p, e, s) =
          add_chain-IsServing (has_solana cfg.solana) cfg.solana (empty_proxy cfg counters)
            cfg.is_mainnet chain_name solana_chain_hosts (λ h. none)
            (record { inside = λ h. tt; built = tt; chains = λ h. refl }) in
        let (q, f, t) =
          add_chain-IsServing (has_eclipse cfg.eclipse) cfg.eclipse p cfg.is_mainnet
            eclipse_chain_name eclipse_chain_hosts
            (λ h.
              if has_solana cfg.solana && mem_str h solana_chain_hosts
              then some chain_name
              else none)
            s in
        (
          q,
          ap
                (λ x.
                  x
                  >>= add_chain fl (has_eclipse cfg.eclipse) cfg.eclipse
                      (λ r. new_eclipse_adapter r cfg.is_mainnet))
                e
              ∙ f,
          t,
        )
