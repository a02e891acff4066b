-- ===== src/Transport/Keeping.antt =====
-- unified_transport.go: a request leaves the router as its constructor builds it, and what the counters
-- of requests read of its context as it is.
use aura_proxy.Common.{
  ℕ, zero, suc, ◌≡◌, refl, sym, subst, String, str_eq, Bool, true, false, not, ◌&&◌, ◌∙◌, List, [],
  ◌∷◌, ◌++◌, Option, none, some, is_some, length, length-modify, AllValues, modify, get_elem?,
  Bool-cases, Option-cases, inl, inr, find, if◌then◌else◌,
}
use aura_proxy.Common.Int.{ℤ, pos}
use aura_proxy.Common.Float.{Float64}
use aura_proxy.Common.Text.{is_empty}
use aura_proxy.Balancer.Weighted.{
  ProbabilisticBalancer, Pick, picked, failed, out_of_range, get_next, is_available,
}
use aura_proxy.Chains.Methods.{cnft_method_list}
use aura_proxy.Target.{ProxyTarget}
use aura_proxy.Router.Tables.{Router}
use aura_proxy.Router.{update_target_stats, get_balancer_for_method}
use aura_proxy.Router.Shape.{IsBuilt, IsServable, OptionAll}
use aura_proxy.Analysis.{JsonParser}
use aura_proxy.Context.{set_provider, reach_partner_node}
use aura_proxy.Transport.Accounts.{
  Account, account_of, handle_empty_response_account, process_response_account,
}
use aura_proxy.Transport.Answers.{World, process_response, SendError, no_target, no_methods}
use aura_proxy.Transport.{
  refused, State, Sent, Loop, Round, done, again, finish, update_metrics_and_stats, attempt,
  after_pick, round, loop, start, with_balancer, execute_with_retries, failure_of,
}

module _ {F : Type 0} (fl : Float64 F) where
  modify-IsBuilt :
      (r : Router F) (f : ProxyTarget → ProxyTarget) (i : ℕ)
      → IsBuilt fl r
      → IsBuilt fl (record r { heap = modify f r.heap i })
  modify-IsBuilt r f i h =
      let e : length r.heap ≡ length (modify f r.heap i) = sym (length-modify f r.heap i) in
      record {
        size = refl;
        methods = subst (λ n. AllValues (IsServable fl n) r.method_map) e h.methods;
        default_info =
            subst (λ n. OptionAll (IsServable fl n) r.default_target_info) e h.default_info;
        ws_info = subst (λ n. OptionAll (IsServable fl n) r.ws_target_info) e h.ws_info;
        supported = h.supported;
      }

  abbrev pub IsKept : {U S : Type 0} → Account U → State F U S → Type 0
  IsKept account s = IsBuilt fl s.router × (account_of s.context ≡ account)

  abbrev pub IsKeptSent : {U S : Type 0} → Account U → Option (Sent F U S) → Type 0
  IsKeptSent account none = Unit
  IsKeptSent account (some r) = IsKept account r.state

  module _ {U S : Type 0} (account : Account U) (w : World F) where
    if-IsKept :
        (b : Bool) (s t : State F U S)
        → IsKept account s
        → IsKept account t
        → IsKept account (if b then s else t)
    if-IsKept true s t h k = h
    if-IsKept false s t h k = k

    update_metrics_and_stats-IsKept :
        (i : ℕ) (s : State F U S) (ref : ℕ) (target : ProxyTarget) (methods : List String)
        (should_retry is_healthy : Bool) (slot : ℤ)
        → IsKept account s
        → IsKept account
            (update_metrics_and_stats w i s ref target methods should_retry is_healthy slot)
    unfolding update_metrics_and_stats update_target_stats reach_partner_node
    update_metrics_and_stats-IsKept i s ref target methods should_retry is_healthy slot h =
        let k =
          if-IsKept (str_eq target.provider "") s
            (record s {
              context = reach_partner_node s.context;
              partner_usage = s.partner_usage ++ (target.provider, not should_retry) ∷ [];
            })
            h h in
        (modify-IsBuilt _ _ ref k.0, k.1)

  module _ {U S : Type 0} (account : Account U) (json : JsonParser) (w : World F)
      (methods : List String) (das : Bool) (b : ProbabilisticBalancer F ℕ) where
    abbrev IsKeptRound : Round F U S → Type 0
    IsKeptRound (done r) = IsKept account r.state
    IsKeptRound (again l) = IsKept account l.state

    abbrev IsKeptOption : Option (Round F U S) → Type 0
    IsKeptOption none = Unit
    IsKeptOption (some r) = IsKeptRound r

    attempt-IsKept :
        (i : ℕ) (l : Loop F U S) (index ref : ℕ) (target : ProxyTarget) (excluded : List ℕ)
        → IsKept account l.state
        → IsKeptRound (attempt fl json w methods das b i l index ref target excluded)
    unfolding attempt set_provider
    attempt-IsKept i l index ref target excluded h =
        let reply = w.do_request i target.url in
        let s = record (l.state) { context = set_provider (l.state.context) target.provider } in
        let v = process_response json (s.context) (w.after i) reply.body reply.failure in
        let fast =
          update_metrics_and_stats-IsKept account w i s ref target methods false true (pos 0) h in
        let same = process_response_account json (s.context) (w.after i) reply.body reply.failure in
        let slow =
          update_metrics_and_stats-IsKept account w i (record s { context = v.context }) ref target
            methods v.should_retry v.is_healthy v.first_slot (h.0, same ∙ h.1) in
        elim (Bool-cases (das && not (is_some reply.failure) && not (is_empty reply.body))) [
          | inl e ↦ rw e fast
          | inr e ↦
              rw e
                (elim (Bool-cases (not v.should_retry)) [ inl f ↦ rw f slow | inr f ↦ rw f slow ])
        ]

    finish-IsKept :
        (i : ℕ) (l : Loop F U S) (o : Option SendError)
        → IsKept account l.state
        → IsKept account (finish fl json w methods das b i l o).state
    unfolding finish
    finish-IsKept i l o h = elim (Bool-cases (is_empty l.body && not (is_some o))) [
      | inl e ↦
          rw e (h.0, handle_empty_response_account json l.state.context (w.after i) l.target ∙ h.1)
      | inr e ↦ rw e h
    ]

    found-IsKept :
        (i : ℕ) (l : Loop F U S) (index ref : ℕ) (excluded : List ℕ)
        → IsKept account l.state
        → IsKeptOption (after_pick fl json w methods das b i l (picked ref index, excluded))
    unfolding after_pick
    found-IsKept i l index ref excluded h =
        elim (Option-cases (get_elem? l.state.router.heap ref)) [
          | inl e ↦ rw (e, IsKeptOption) tt
          | inr (target, e) ↦ rw (e, IsKeptOption) (attempt-IsKept i l index ref target excluded h)
        ]

    after_pick-IsKept :
        (i : ℕ) (l : Loop F U S) (p : Pick ℕ × List ℕ)
        → IsKept account l.state
        → IsKeptOption (after_pick fl json w methods das b i l p)
    unfolding after_pick
    after_pick-IsKept i l (failed e, excluded) h =
        finish-IsKept i (record l { target = none; excluded = excluded }) (some (no_target e)) h
    after_pick-IsKept i l (picked ref index, excluded) h = found-IsKept i l index ref excluded h
    after_pick-IsKept i l (out_of_range, excluded) h = tt

    round-IsKept :
        (i : ℕ) (l : Loop F U S)
        → IsKept account l.state
        → IsKeptOption (round fl json w methods das b i l)
    unfolding round
    round-IsKept i l h = elim (Option-cases (w.before i)) [
      | inl e ↦ rw (e, IsKeptOption) (after_pick-IsKept i l (get_next fl b l.excluded (w.draw i)) h)
      | inr (x, e) ↦ rw (e, IsKeptOption) h
    ]

    next-IsKept :
        (k i : ℕ) (o : Option (Round F U S))
        → IsKeptOption o
        → ((l : Loop F U S)
            → IsKept account l.state
            → IsKeptSent account (loop fl json w methods das b k (suc i) l))
        → IsKeptSent account (elim o [
          | none ↦ none
          | some (done r) ↦ some r
          | some (again l') ↦ loop fl json w methods das b k (suc i) l'
        ])
    next-IsKept k i none h ih = tt
    next-IsKept k i (some (done r)) h ih = h
    next-IsKept k i (some (again l)) h ih = ih l h

    loop-IsKept :
        (k i : ℕ) (l : Loop F U S)
        → IsKept account l.state
        → IsKeptSent account (loop fl json w methods das b k i l)
    unfolding loop
    loop-IsKept zero i l h = finish-IsKept i l (failure_of l.last_failure) h
    loop-IsKept (suc k) i l h =
        next-IsKept k i (round fl json w methods das b i l) (round-IsKept i l h)
          (loop-IsKept k (suc i))

  module _ {U S : Type 0} (account : Account U) (json : JsonParser) (w : World F) (most : ℕ)
      (s : State F U S) (h : IsKept account s) where
    with_balancer-IsKept :
        (m : String) (ms : List String) (o : Option (ProbabilisticBalancer F ℕ))
        → IsKeptSent account (with_balancer fl json w most s m ms o)
    with_balancer-IsKept m ms none = h
    with_balancer-IsKept m ms (some b) = elim (Bool-cases (is_available fl b)) [
      | inl e ↦
          rw (e, IsKeptSent)
            (loop-IsKept account json w ms (is_some (find cnft_method_list m)) b most 0 (start s) h)
      | inr e ↦ rw (e, IsKeptSent) h
    ]

    pub execute_with_retries-IsKept : IsKeptSent account (execute_with_retries fl json w most s)
    unfolding execute_with_retries
    execute_with_retries-IsKept = go s.context.req_methods
      where
        go :
            (ms : List String)
            → IsKeptSent account (elim ms [
              | [] ↦ some (refused s 400 no_methods)
              | m ∷ ms' ↦
                  with_balancer fl json w most s m (m ∷ ms') (get_balancer_for_method fl s.router m)
            ])
        go [] = h
        go (m ∷ ms) = with_balancer-IsKept m (m ∷ ms) (get_balancer_for_method fl s.router m)
