-- ===== src/Transport.antt =====
-- internal/proxy/chains/solana/unified_transport.go: sending a request to upstream targets, with
-- retries. What a request meets from outside is a parameter: the clock, the draws of the balancer,
-- the state of its context, and the answers of the targets.
pub mod Answers
pub mod Sending
pub mod Retries
pub mod Outcome
pub mod Accounts
pub mod Keeping
pub mod Samples
mod Tests
use aura_proxy.Common.{
  ℕ, zero, suc, ◌+◌, String, Bool, true, false, not, ◌&&◌, ◌||◌, List, [], ◌∷◌, ◌++◌, Option, none,
  some, ◌==◌, if◌then◌else◌, get_elem?, find, is_some, str_eq, codes, all,
}
use aura_proxy.Common.Int.{ℤ, pos, ◌+ℤ◌, ◌-ℤ◌, eqb_ℤ}
use aura_proxy.Common.Float.{Float64}
use aura_proxy.Balancer.Weighted.{
  ProbabilisticBalancer, NextError, Pick, picked, failed, out_of_range, get_next, is_available,
}
use aura_proxy.Chains.Methods.{cnft_method_list}
use aura_proxy.Target.{ProxyTarget}
use aura_proxy.Router.Tables.{Router}
use aura_proxy.Router.{
  get_balancer_for_method, is_method_supported, router_is_available, update_target_stats,
}
use aura_proxy.Context.{
  CustomContext, RequestType, set_rpc_errors, set_proxy_user_error, set_provider,
  reach_partner_node,
}
use aura_proxy.Common.Text.{is_empty, contains}
use aura_proxy.Analysis.{JsonParser, NodeError, decode_node_response, rpc_error_analysis}
use Answers.{
  ContextError, deadline_exceeded, canceled, RequestError, bad_status_code, from_context, with_text,
  SendError, no_methods, no_balancer, context_done, no_target, request_failed, http_error, Reply,
  World, Verdict, process_response, is_muted_err,
}

abbrev pub default_max_attempts : ℕ
default_max_attempts = 10

-- calculateSlot; `slot_now` is mainnetSlot plus the slots since it was read.
unfoldable pub calculate_slot : ℤ → ℤ → ℤ
unfolding ◌-ℤ◌
calculate_slot slot_now slot = slot_now -ℤ slot

-- canHandle and isAvailable
module _ {F : Type 0} (fl : Float64 F) where
  unfoldable pub can_handle : Router F → List String → Bool
  can_handle r [] = false
  can_handle r (m ∷ ms) = all (is_method_supported fl r) (m ∷ ms)

  unfoldable pub transport_is_available : Router F → Bool
  transport_is_available r = router_is_available fl r

-- The state that an attempt changes: the context of the request, the statistics of the targets, and
-- the metrics of partner nodes (the provider and whether the attempt succeeded).
pub record State (F U S : Type 0) : Type 0 where
  pub context : CustomContext U S
  pub router : Router F
  pub partner_usage : List (String × Bool)

module _ {F U S : Type 0} (w : World F) where
  -- updateMetricsAndStats for attempt i on the target at `ref`.
  unfoldable pub update_metrics_and_stats :
      ℕ → State F U S → ℕ → ProxyTarget → List String → Bool → Bool → ℤ → State F U S
  unfolding calculate_slot update_target_stats reach_partner_node
  update_metrics_and_stats i s ref target methods should_retry is_healthy first_slot =
      let s' = if str_eq target.provider "" then s else record s {
        context = reach_partner_node s.context;
        partner_usage = s.partner_usage ++ (target.provider, not should_retry) ∷ [];
      } in
      let slots =
        if eqb_ℤ first_slot (pos 0) then first_slot else calculate_slot (w.slot_now i) first_slot in
      record s' {
        router =
            update_target_stats s'.router (some ref) (w.now i) (w.clock i) is_healthy methods
              (w.took i) slots;
      }

-- The results of executeWithRetries, with the attempts made: the index in the balancer and the
-- target, in order.
pub record Sent (F U S : Type 0) : Type 0 where
  pub state : State F U S
  pub body : List ℕ
  pub status : ℕ
  pub attempts : ℕ
  pub failure : Option SendError
  pub tried : List (ℕ × ℕ)

-- The variables of the loop: the last answer, the last target, the excluded indices.
pub record Loop (F U S : Type 0) : Type 0 where
  pub state : State F U S
  pub body : List ℕ
  pub status : ℕ
  pub last_failure : Option RequestError
  pub target : Option ℕ
  pub excluded : List ℕ
  pub tried : List (ℕ × ℕ)

abbrev failure_of : Option RequestError → Option SendError
failure_of none = none
failure_of (some e) = some (request_failed e)

-- handleEmptyResponse
unfoldable pub handle_empty_response :
    {U S : Type 0}
    → CustomContext U S
    → Option ContextError
    → Option ℕ
    → CustomContext U S × SendError
unfolding set_rpc_errors
handle_empty_response c (some e) target = (c, context_done e)
handle_empty_response c none none = (set_rpc_errors c (pos 2000 ∷ []), http_error 503 (pos 2000))
handle_empty_response c none (some t) =
    (set_rpc_errors c (pos 2001 ∷ []), http_error 500 (pos 2000))

-- What a round of the loop leads to: the request is done, or the loop goes on.
pub data Round (F U S : Type 0) : Type 0 where
  done : Sent F U S → Round F U S
  again : Loop F U S → Round F U S

module _ {F U S : Type 0} (fl : Float64 F) (json : JsonParser) (w : World F) (methods : List String)
    (is_das_method : Bool) (b : ProbabilisticBalancer F ℕ) where
  -- What follows the loop, after `attempts` rounds; `failure` is err.
  unfoldable pub finish : ℕ → Loop F U S → Option SendError → Sent F U S
  unfolding handle_empty_response
  finish attempts l failure =
      let (c, e) = handle_empty_response l.state.context (w.after attempts) l.target in
      let plain : Sent F U S = record {
        state = l.state;
        body = l.body;
        status = l.status;
        attempts = attempts;
        failure = failure;
        tried = l.tried;
      } in
      if is_empty l.body && not (is_some failure)
      then record plain { state = record (l.state) { context = c }; failure = some e }
      else plain

  abbrev sent : ℕ → State F U S → Reply → Option SendError → List (ℕ × ℕ) → Sent F U S
  sent attempts s reply failure tried = record {
    state = s;
    body = reply.body;
    status = reply.status;
    attempts = attempts;
    failure = failure;
    tried = tried;
  }

  unfoldable pub attempt : ℕ → Loop F U S → ℕ → ℕ → ProxyTarget → List ℕ → Round F U S
  attempt i l index ref target excluded =
      let reply = w.do_request i target.url in
      let s = record (l.state) { context = set_provider (l.state.context) target.provider } in
      let tried = l.tried ++ (index, ref) ∷ [] in
      let v = process_response json (s.context) (w.after i) reply.body reply.failure in
      let fast = update_metrics_and_stats w i s ref target methods false true (pos 0) in
      let slow =
        update_metrics_and_stats w i (record s { context = v.context }) ref target methods
          v.should_retry v.is_healthy v.first_slot in
      if is_das_method && not (is_some reply.failure) && not (is_empty reply.body)
      then done (sent (i + 1) fast reply none tried)
      else if not v.should_retry
      then done (sent (i + 1) slow reply (failure_of reply.failure) tried)
      else again (record {
        state = slow;
        body = reply.body;
        status = reply.status;
        last_failure = reply.failure;
        target = some ref;
        excluded = excluded ++ index ∷ [];
        tried = tried;
      })

  -- What follows GetNext, which sorts the slice of excluded indices. `none` is a panic, or a pointer
  -- that is not in the heap.
  unfoldable pub after_pick : ℕ → Loop F U S → Pick ℕ × List ℕ → Option (Round F U S)
  after_pick i l (failed e, excluded) =
      some (done (finish i (record l { target = none; excluded = excluded }) (some (no_target e))))
  after_pick i l (picked ref index, excluded) = elim (get_elem? l.state.router.heap ref) [
    | none ↦ none
    | some target ↦ some (attempt i l index ref target excluded)
  ]
  after_pick i l (out_of_range, excluded) = none

  -- The body of the loop, for attempt i.
  unfoldable pub round : ℕ → Loop F U S → Option (Round F U S)
  round i l = elim (w.before i) [
    | some e ↦ some (
        done (record {
          state = l.state;
          body = [];
          status = l.status;
          attempts = i;
          failure = some (context_done e);
          tried = l.tried;
        }))
    | none ↦ after_pick i l (get_next fl b l.excluded (w.draw i))
  ]

  -- The loop, with the number of rounds left.
  unfoldable pub loop : ℕ → ℕ → Loop F U S → Option (Sent F U S)
  loop zero i l = some (finish i l (failure_of l.last_failure))
  loop (suc k) i l = elim (round i l) [
    | none ↦ none
    | some (done r) ↦ some r
    | some (again l') ↦ loop k (suc i) l'
  ]

abbrev pub refused : {F U S : Type 0} → State F U S → ℕ → SendError → Sent F U S
refused s status e = record {
  state = s;
  body = [];
  status = status;
  attempts = 0;
  failure = some e;
  tried = [];
}

abbrev pub start : {F U S : Type 0} → State F U S → Loop F U S
start s = record {
  state = s;
  body = [];
  status = 0;
  last_failure = none;
  target = none;
  excluded = [];
  tried = [];
}

module _ {F U S : Type 0} (fl : Float64 F) (json : JsonParser) (w : World F)
    (max_attempts : ℕ) where
  abbrev pub with_balancer :
      State F U S → String → List String → Option (ProbabilisticBalancer F ℕ) → Option (Sent F U S)
  with_balancer s primary methods none = some (refused s 503 (no_balancer primary))
  with_balancer s primary methods (some b) =
      if not (is_available fl b)
      then some (refused s 503 (no_balancer primary))
      else loop fl json w methods (is_some (find cnft_method_list primary)) b max_attempts 0
          (start s)

  -- executeWithRetries
  unfoldable pub execute_with_retries : State F U S → Option (Sent F U S)
  execute_with_retries s = elim s.context.req_methods [
    | [] ↦ some (refused s 400 no_methods)
    | m ∷ ms ↦ with_balancer s m (m ∷ ms) (get_balancer_for_method fl s.router m)
  ]
