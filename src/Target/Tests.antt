-- ===== src/Target/Tests.antt =====
-- Runs of a target, and the theorems at concrete inputs.
use aura_proxy.Common.{
  ℕ, ◌+◌, ◌*◌, ◌<◌, ◌^◌, ◌≡◌, refl, true, false, [], ◌∷◌, arith, find, put, AllValues,
}
use aura_proxy.Common.Int.{pos}
use aura_proxy.Chains.Methods.{block_related_method}
use aura_proxy.Chains.NodeType.{is_support_method, account_methods, ledger_methods}
use aura_proxy.Models.{default_type, speed_type}
use aura_proxy.Target.{
  ProxyTarget, zero_restriction, update_stats, is_available, second, count_result, jail_until,
  get_current_time_window,
}
use aura_proxy.Target.Jail.{after_successes, update_stats_jails, after_successes_forgives}
use aura_proxy.Target.History.{add_all, last_ten, add_all_lem, IsBounded, update_stats-IsBounded}
use aura_proxy.Target.Window.{Update, apply_updates, is_available_window}

abbrev fresh : ProxyTarget
fresh = record {
  available_methods = [];
  provider = "node";
  target_type = record { name = "extended_node"; available_slots_history = pos 0 };
  url = "http://node";
  req_counter = 0;
  req_limit = 2;
  req_window = 0;
  slot_amount = pos 0;
}

abbrev at_100 : ℕ
at_100 = 100_000_000_000

abbrev failed : ProxyTarget
failed = update_stats fresh at_100 (λ i. at_100) false ("getSlot" ∷ []) (pos 5) (pos 0)

runs : Unit {0}
unfolding update_stats is_available is_support_method account_methods ledger_methods find put
    block_related_method
runs = tt

-- The first failure jails the method for the current second only, and other methods not at all.
failure_runs :
    ((is_available failed at_100 ("getSlot" ∷ []) default_type (pos 0) (pos 0)).available ≡ false)
    × ((is_available failed
          (at_100 + second)
          ("getSlot" ∷ [])
          default_type
          (pos 0)
          (pos 0)).available
        ≡ true)
    × ((is_available failed at_100 ("getBlockHeight" ∷ []) default_type (pos 0) (pos 0)).available
        ≡ true)
unfolding runs jail_until
failure_runs = (refl, refl, refl)

update_stats_jails_example :
    (is_available failed
      (at_100 + 999_999_999)
      ("getBalance" ∷ "getSlot" ∷ [])
      speed_type
      (pos 0)
      (pos 0)).available
    ≡ false
unfolding find
update_stats_jails_example =
    update_stats_jails fresh at_100 (λ i. at_100) "getSlot" (pos 5) (pos 0) (at_100 + 999_999_999)
      ("getBalance" ∷ "getSlot" ∷ []) speed_type (pos 0) (pos 0) (omega arith) (omega arith) refl

after_successes_forgives_example :
    let once = count_result at_100 false zero_restriction in
    ((after_successes 10 at_100 once).err_counter ≡ once.err_counter)
    × ((after_successes 10 at_100 once).success_counter ≡ 10)
    × ((after_successes 11 at_100 once).err_counter ≡ 0)
    × ((after_successes 11 at_100 once).success_counter ≡ 0)
    × ((after_successes 11 at_100 once).jail_expire_time ≡ once.jail_expire_time)
after_successes_forgives_example =
    after_successes_forgives at_100 at_100 zero_restriction 10 (omega arith)

add_all_lem_example :
    (add_all zero_restriction (pos 7 ∷ pos 8 ∷ [])).last_responses_time_ms
    ≡ last_ten (pos 7 ∷ pos 8 ∷ [])
add_all_lem_example = add_all_lem zero_restriction (pos 7 ∷ pos 8 ∷ []) (omega arith)

update_stats-IsBounded_example :
    AllValues IsBounded failed.available_methods × (failed.req_counter < 2 ^ 64)
update_stats-IsBounded_example =
    update_stats-IsBounded fresh at_100 (λ i. at_100) false ("getSlot" ∷ []) (pos 5) (pos 0) tt

abbrev served : Update
served = record {
  now = at_100;
  clock = λ i. at_100;
  success = true;
  methods = "getSlot" ∷ [];
  time = pos 5;
  slots = pos 0;
}

is_available_window_example :
    (is_available
      (apply_updates fresh (served ∷ served ∷ []))
      (at_100 + 9 * second)
      ("getSlot" ∷ [])
      default_type
      (pos 0)
      (pos 0)).available
    ≡ false
unfolding get_current_time_window
is_available_window_example =
    is_available_window 100 fresh served (served ∷ []) (at_100 + 9 * second) ("getSlot" ∷ [])
      default_type (pos 0) (pos 0) (omega arith) (refl, (refl, tt)) (omega arith) (omega arith)
      (omega arith) refl
