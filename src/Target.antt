-- ===== src/Target.antt =====
-- internal/proxy/chains/solana/proxy_targets.go: one upstream node and its statistics. Every method
-- holds the target's lock, so it is one step. Time is an argument: nanoseconds since the epoch,
-- read once for each call of the clock.
pub mod Jail
pub mod History
pub mod Window
mod Tests
use aura_proxy.Common.{
  ℕ, zero, suc, ◌+◌, ◌-◌, ◌*◌, ◌/◌, ◌%◌, ◌^◌, String, Bool, true, false, not, ◌&&◌, ◌||◌, List, [],
  ◌∷◌, ◌++◌, Option, none, some, ◌==◌, ltb, leb, str_eq, if◌then◌else◌, Map, find, put, length,
  drop, get_or,
}
use aura_proxy.Common.Int.{
  ℤ, pos, negsuc, ◌+ℤ◌, ◌-ℤ◌, ltb_ℤ, eqb_ℤ, quot_ℤ, floor_div, wrap_int64, int64_mod,
}
use aura_proxy.Chains.Methods.{block_related_method, tx_related_method}
use aura_proxy.Chains.NodeType.{NodeType, archive_solana_node, is_support_method}
use aura_proxy.Models.{SupportedMethod, UrlWithMethods, TokenType, speed_type, reliable_type}

pub record TargetRestriction : Type 0 where
  pub last_responses_time_ms : List ℤ
  pub jail_expire_time : ℤ
  pub err_counter : ℕ
  pub success_counter : ℕ

pub record ProxyTarget : Type 0 where
  pub available_methods : Map TargetRestriction
  pub provider : String
  pub target_type : NodeType
  pub url : String
  pub req_counter : ℕ
  pub req_limit : ℕ
  pub req_window : ℕ
  pub slot_amount : ℤ

abbrev pub last_responses_time_ms_arr_len : ℕ
last_responses_time_ms_arr_len = 10

abbrev pub no_full_history_penalty : ℕ
no_full_history_penalty = 1

-- A second, in the nanoseconds of a time.Duration.
abbrev pub second : ℕ
second = 1_000_000_000

abbrev pub target_jail_time : ℕ
target_jail_time = second

abbrev pub consecutive_success_responses : ℕ
consecutive_success_responses = 10

abbrev pub limit_window_seconds : ℕ
limit_window_seconds = 10

abbrev pub zero_restriction : TargetRestriction
zero_restriction = record {
  last_responses_time_ms = [];
  jail_expire_time = pos 0;
  err_counter = 0;
  success_counter = 0;
}

abbrev add_supported : Map TargetRestriction → List SupportedMethod → Map TargetRestriction
add_supported m [] = m
add_supported m (sm ∷ sms) =
    add_supported
      (put m sm.name
        (record zero_restriction { last_responses_time_ms = sm.response_time_ms ∷ [] }))
      sms

unfoldable pub new_proxy_target : UrlWithMethods → ℕ → String → NodeType → ProxyTarget
new_proxy_target url_with_methods req_limit provider target_type = record {
  available_methods = add_supported [] url_with_methods.supported_methods;
  provider = provider;
  target_type = target_type;
  url = url_with_methods.url;
  req_counter = 0;
  req_limit = req_limit;
  req_window = 0;
  slot_amount = url_with_methods.slot_amount;
}

-- getCurrentTimeWindow: the start of the window of ten seconds, and the second.
unfoldable pub get_current_time_window : ℕ → ℕ × ℕ
get_current_time_window now =
    (now / (second * limit_window_seconds) * limit_window_seconds, now / second)

unfoldable pub add_last_responses_time_ms : TargetRestriction → ℤ → TargetRestriction
add_last_responses_time_ms t v =
    let times = t.last_responses_time_ms ++ v ∷ [] in
    record t {
      last_responses_time_ms =
          if ltb last_responses_time_ms_arr_len (length times)
          then drop (length times - last_responses_time_ms_arr_len) times
          else times;
    }

abbrev sum_from : ℤ → List ℤ → ℤ
sum_from res [] = res
sum_from res (rt ∷ rts) = sum_from (res +ℤ rt) rts

-- The mean, rounded towards zero; an overflow of the int64 sum is left out.
unfoldable pub get_last_responses_time_ms : TargetRestriction → ℤ
unfolding ◌+ℤ◌ quot_ℤ
get_last_responses_time_ms t = elim t.last_responses_time_ms [
  | [] ↦ pos 0
  | rt ∷ rts ↦ quot_ℤ (sum_from (pos 0) (rt ∷ rts)) (length (rt ∷ rts))
]

-- time.Now().Add(targetJailTime * time.Duration(errCounter)).Unix(), with the product of the two
-- int64 wrapped.
unfoldable pub jail_until : ℕ → ℕ → ℤ
unfolding floor_div ◌+ℤ◌ wrap_int64
jail_until now err_counter =
    floor_div (pos now +ℤ wrap_int64 (target_jail_time * err_counter)) second

-- The part of UpdateStats that keeps the response times.
unfoldable pub record_time : Bool → ℤ → Option TargetRestriction → TargetRestriction
unfolding add_last_responses_time_ms
record_time success response_time_ms (some restriction) =
    if success then add_last_responses_time_ms restriction response_time_ms else restriction
record_time success response_time_ms none =
    if success
    then record zero_restriction { last_responses_time_ms = response_time_ms ∷ [] }
    else zero_restriction

-- The switch of UpdateStats; uint64 counters wrap.
unfoldable pub count_result : ℕ → Bool → TargetRestriction → TargetRestriction
count_result now false restriction =
    let errs = (restriction.err_counter + 1) % int64_mod in
    record restriction {
      success_counter = 0;
      err_counter = errs;
      jail_expire_time = jail_until now errs;
    }
count_result now true restriction =
    if ltb restriction.success_counter consecutive_success_responses
    then record restriction { success_counter = restriction.success_counter + 1 }
    else record restriction { success_counter = 0; err_counter = 0 }

unfoldable pub update_method : ℕ → Bool → ℤ → Map TargetRestriction → String → Map TargetRestriction
unfolding record_time count_result
update_method now success response_time_ms methods rm =
    put methods rm
      (count_result now success (record_time success response_time_ms (find methods rm)))

-- The loop over the methods of the request; each round reads the clock anew, at `clock i`.
unfoldable pub update_methods :
    (ℕ → ℕ) → Bool → ℤ → Map TargetRestriction → List String → Map TargetRestriction
unfolding update_method
update_methods clock success response_time_ms methods [] = methods
update_methods clock success response_time_ms methods (rm ∷ rms) =
    update_methods (λ i. clock (suc i)) success response_time_ms
      (update_method (clock 0) success response_time_ms methods rm) rms

-- UpdateStats. `now` is the first reading of the clock.
unfoldable pub update_stats : ProxyTarget → ℕ → (ℕ → ℕ) → Bool → List String → ℤ → ℤ → ProxyTarget
unfolding update_methods get_current_time_window
update_stats t now clock success req_methods response_time_ms slot_amount =
    let window = (get_current_time_window now).0 in
    record t {
      req_window = if ltb t.req_window window then window else t.req_window;
      req_counter = if ltb t.req_window window then 1 else (t.req_counter + 1) % int64_mod;
      slot_amount = if eqb_ℤ slot_amount (pos 0) then t.slot_amount else slot_amount;
      available_methods =
          update_methods clock success response_time_ms t.available_methods req_methods;
    }

-- What isAvailable returns: the answer, the error count and the response time.
pub record Availability : Type 0 where
  pub available : Bool
  pub failed_reqs : ℕ
  pub last_resp_time : ℤ

abbrev is_reliable : TokenType → Bool
is_reliable reliable_type = true
is_reliable _ = false

abbrev is_speed : TokenType → Bool
is_speed speed_type = true
is_speed _ = false

module _ (t : ProxyTarget) (req_type : TokenType) (req_block slot_now : ℤ) (time_now : ℕ) where
  -- A block that the node no longer holds. `slot_now` is the slot estimated for this moment, from
  -- which calculateSlot subtracts the history of the node.
  unfoldable pub not_contain_block : Bool
  unfolding ◌-ℤ◌
  not_contain_block =
      not (str_eq t.target_type.name archive_solana_node)
      && ltb_ℤ req_block (slot_now -ℤ t.target_type.available_slots_history)

  unfoldable pub worse_failures : TargetRestriction → String → ℕ → ℕ
  worse_failures am rm failed_reqs =
      if is_reliable req_type && ltb failed_reqs am.err_counter
      then if not (str_eq t.target_type.name archive_solana_node) && tx_related_method rm
        then (am.err_counter * 2 + no_full_history_penalty) % int64_mod
        else am.err_counter
      else failed_reqs

  unfoldable pub worse_time : TargetRestriction → ℤ → ℤ
  unfolding get_last_responses_time_ms
  worse_time am last_resp_time =
      if is_speed req_type && ltb_ℤ last_resp_time (get_last_responses_time_ms am)
      then get_last_responses_time_ms am
      else last_resp_time

  -- One round of the loop refuses the target.
  unfoldable pub refuses : String → Bool
  unfolding not_contain_block
  refuses rm =
      not (is_support_method t.target_type rm).0
      || (block_related_method rm && not_contain_block)
      || ltb_ℤ (pos time_now)
          (get_or (find t.available_methods rm) zero_restriction).jail_expire_time

  unfoldable pub check_methods : List String → ℕ → ℤ → Availability
  unfolding refuses worse_failures worse_time
  check_methods [] failed_reqs last_resp_time = record {
    available = true;
    failed_reqs = failed_reqs;
    last_resp_time = last_resp_time;
  }
  check_methods (rm ∷ rms) failed_reqs last_resp_time =
      let am = get_or (find t.available_methods rm) zero_restriction in
      let rest =
        check_methods rms (worse_failures am rm failed_reqs) (worse_time am last_resp_time) in
      if refuses rm
      then record { available = false; failed_reqs = failed_reqs; last_resp_time = last_resp_time }
      else rest

-- isAvailable
unfoldable pub is_available : ProxyTarget → ℕ → List String → TokenType → ℤ → ℤ → Availability
unfolding check_methods get_current_time_window
is_available t now req_methods req_type req_block slot_now =
    let (current_window, time_now) = get_current_time_window now in
    if ltb 0 t.req_limit && (current_window == t.req_window) && leb t.req_limit t.req_counter
    then record { available = false; failed_reqs = 0; last_resp_time = pos 0 }
    else check_methods t req_type req_block slot_now time_now req_methods 0 (pos 0)
