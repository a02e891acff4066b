-- ===== src/Target/Jail.antt =====
-- Failing targets are put aside for a while, longer with each failure, and forgiven after a run of
-- successes.
use aura_proxy.Common.{
  ℕ, zero, suc, ◌+◌, ◌*◌, ◌/◌, ◌%◌, ◌^◌, ◌≤◌, ◌<◌, ◌≡◌, refl, ap, ◌∙◌, String, true, false, List,
  [], ◌∷◌, Option, none, some, arith, str_eq_refl, find, find-put, get_or, mem_str, eq_iff,
}
use aura_proxy.Common.Int.{ℤ, pos, int64_mod}
use aura_proxy.Models.{TokenType}
use aura_proxy.Target.{
  ProxyTarget, TargetRestriction, zero_restriction, second, target_jail_time, jail_until,
  count_result, record_time, update_method, update_methods, update_stats, refuses, check_methods,
  worse_failures, worse_time, is_available, consecutive_success_responses,
}

-- As long as the product of durations fits an int64 (for 292 years of jail), a target that failed
-- in second s with n failures is jailed until second s + n.
pub jail_until_lem :
    (now n : ℕ) → target_jail_time * n < 2 ^ 63 → jail_until now n ≡ pos (now / second + n)
unfolding jail_until
jail_until_lem now n h = ground arith

-- A method that is refused makes the whole request unavailable, wherever it stands in it.
check_methods_refused :
    (t : ProxyTarget) (req_type : TokenType) (req_block slot_now : ℤ) (time_now : ℕ) (rm : String)
    (rms : List String) (failed : ℕ) (worst : ℤ)
    → mem_str rm rms ≡ true
    → refuses t req_type req_block slot_now time_now rm ≡ true
    → (check_methods t req_type req_block slot_now time_now rms failed worst).available ≡ false
unfolding check_methods
check_methods_refused t req_type req_block slot_now time_now rm [] failed worst m h = cc
check_methods_refused t req_type req_block slot_now time_now rm (x ∷ rms) failed worst m h =
    ground (
      arith,
      eq_iff x rm,
      check_methods_refused t req_type req_block slot_now time_now rm rms
          (worse_failures t req_type req_block slot_now time_now
            (get_or (find t.available_methods x) zero_restriction) x failed)
          (worse_time t req_type req_block slot_now time_now
            (get_or (find t.available_methods x) zero_restriction) worst),
    )

-- The errors counted for a method so far.
abbrev pub errors_of : ProxyTarget → String → ℕ
errors_of t rm = (get_or (find t.available_methods rm) zero_restriction).err_counter

err_counter_count_result :
    (now : ℕ) (r : TargetRestriction)
    → r.err_counter + 1 < 2 ^ 64
    → (count_result now false r).err_counter ≡ r.err_counter + 1
unfolding count_result
err_counter_count_result now r h = omega arith

err_counter_record_time :
    (v : ℤ) (o : Option TargetRestriction)
    → (record_time false v o).err_counter ≡ (get_or o zero_restriction).err_counter
unfolding record_time
err_counter_record_time v none = refl
err_counter_record_time v (some r) = refl

jail_count_result :
    (now : ℕ) (r : TargetRestriction)
    → target_jail_time * (r.err_counter + 1) < 2 ^ 63
    → (count_result now false r).jail_expire_time ≡ pos (now / second + (r.err_counter + 1))
unfolding count_result
jail_count_result now r h =
    ap (jail_until now) (fits64 (r.err_counter + 1) h) ∙ jail_until_lem now (r.err_counter + 1) h
  where
    fits64 : (n : ℕ) → target_jail_time * n < 2 ^ 63 → n % int64_mod ≡ n
    fits64 n h = omega arith

entry_after_failure :
    (t : ProxyTarget) (now : ℕ) (clock : ℕ → ℕ) (rm : String) (time slots : ℤ)
    → find (update_stats t now clock false (rm ∷ []) time slots).available_methods rm
      ≡ some (count_result (clock 0) false (record_time false time (find t.available_methods rm)))
unfolding update_stats update_methods update_method
entry_after_failure t now clock rm time slots = simp (find-put, str_eq_refl rm)

refuses_jailed :
    (u : ProxyTarget) (req_type : TokenType) (req_block slot_now : ℤ) (time_now : ℕ) (rm : String)
    (r : TargetRestriction) (until : ℕ)
    → find u.available_methods rm ≡ some r
    → r.jail_expire_time ≡ pos until
    → time_now < until
    → refuses u req_type req_block slot_now time_now rm ≡ true
unfolding refuses
refuses_jailed u req_type req_block slot_now time_now rm r until e j h = ground arith

is_available_refused :
    (u : ProxyTarget) (later : ℕ) (rm : String) (rms : List String) (req_type : TokenType)
    (req_block slot_now : ℤ)
    → mem_str rm rms ≡ true
    → refuses u req_type req_block slot_now (later / second) rm ≡ true
    → (is_available u later rms req_type req_block slot_now).available ≡ false
unfolding is_available
is_available_refused u later rm rms req_type req_block slot_now m h =
    ground
      (arith, check_methods_refused u req_type req_block slot_now (later / second) rm rms 0 (pos 0))

-- After a failure of one method at `clock 0` with n errors counted before, and as long as fewer
-- than n + 1 whole seconds have passed, the target is unavailable for every request that names the
-- method, whatever the rest of the request, the kind of token and the slots.
pub update_stats_jails :
    (t : ProxyTarget) (now : ℕ) (clock : ℕ → ℕ) (rm : String) (time slots : ℤ) (later : ℕ)
    (rms : List String) (req_type : TokenType) (req_block slot_now : ℤ)
    → target_jail_time * (errors_of t rm + 1) < 2 ^ 63
    → later / second < clock 0 / second + (errors_of t rm + 1)
    → mem_str rm rms ≡ true
    → (is_available
        (update_stats t now clock false (rm ∷ []) time slots)
        later
        rms
        req_type
        req_block
        slot_now).available
      ≡ false
update_stats_jails t now clock rm time slots later rms req_type req_block slot_now fits early
      named =
    is_available_refused (update_stats t now clock false (rm ∷ []) time slots) later rm rms req_type
      req_block slot_now named
      (refuses_jailed (update_stats t now clock false (rm ∷ []) time slots) req_type req_block
        slot_now (later / second) rm _ _ (entry_after_failure t now clock rm time slots)
        (jail_count_result (clock 0) failing (rw same fits)) (rw same early))
  where
    failing : TargetRestriction
    failing = record_time false time (find t.available_methods rm)

    same : failing.err_counter ≡ errors_of t rm
    same = err_counter_record_time time (find t.available_methods rm)

-- The restriction after n successes in a row.
pub after_successes : ℕ → ℕ → TargetRestriction → TargetRestriction
after_successes zero now r = r
after_successes (suc n) now r = after_successes n now (count_result now true r)

count_result_counting :
    (now : ℕ) (r : TargetRestriction)
    → r.success_counter < consecutive_success_responses
    → count_result now true r ≡ record r { success_counter = r.success_counter + 1 }
unfolding count_result
count_result_counting now r h = ground arith

after_successes_counting :
    (n now : ℕ) (r : TargetRestriction)
    → r.success_counter + n ≤ consecutive_success_responses
    → after_successes n now r ≡ record r { success_counter = r.success_counter + n }
unfolding after_successes
after_successes_counting zero now r h = ground arith
after_successes_counting (suc n) now r h = rw (count_result_counting now r (omega arith)) (
    after_successes_counting n now (record r { success_counter = r.success_counter + 1 })
      (omega arith)
    ∙ ap (λ k. record r { success_counter = k }) (omega arith))

-- Right after a failure the errors survive ten successes in a row; the eleventh clears them. The
-- jail time itself is never shortened.
pub after_successes_forgives :
    (now : ℕ) (later : ℕ) (r : TargetRestriction) (n : ℕ)
    → n ≤ 10
    → let failed = count_result now false r in
      ((after_successes n later failed).err_counter ≡ failed.err_counter)
      × ((after_successes n later failed).success_counter ≡ n)
      × ((after_successes 11 later failed).err_counter ≡ 0)
      × ((after_successes 11 later failed).success_counter ≡ 0)
      × ((after_successes 11 later failed).jail_expire_time ≡ failed.jail_expire_time)
unfolding after_successes count_result
after_successes_forgives now later r n h =
    let failed = count_result now false r in
    let e = after_successes_counting n later failed (omega arith) in
    (ap (λ q. q.err_counter) e, ap (λ q. q.success_counter) e ∙ omega arith, refl, refl, refl)
