-- ===== src/Target/Window.antt =====
-- The limit on requests in a window of ten seconds.
use aura_proxy.Common.{
  ℕ, suc, ◌+◌, ◌^◌, ◌≤◌, ◌<◌, ◌≡◌, refl, ◌∙◌, sym, String, Bool, false, List, [], ◌∷◌, arith,
}
use aura_proxy.Common.Int.{ℤ}
use aura_proxy.Models.{TokenType}
use aura_proxy.Target.{ProxyTarget, get_current_time_window, update_stats, is_available}

-- A call of UpdateStats: the time, the result, the methods, the response time and the slots.
pub record Update : Type 0 where
  pub now : ℕ
  pub clock : ℕ → ℕ
  pub success : Bool
  pub methods : List String
  pub time : ℤ
  pub slots : ℤ

pub apply_update : ProxyTarget → Update → ProxyTarget
apply_update t u = update_stats t u.now u.clock u.success u.methods u.time u.slots

pub apply_updates : ProxyTarget → List Update → ProxyTarget
unfolding apply_update
apply_updates t [] = t
apply_updates t (u ∷ us) = apply_updates (apply_update t u) us

abbrev pub updates_count : List Update → ℕ
updates_count [] = 0
updates_count (u ∷ us) = suc (updates_count us)

-- All the updates fall into the window that starts at second w.
abbrev pub InWindow : ℕ → List Update → Type 0
InWindow w [] = Unit
InWindow w (u ∷ us) = ((get_current_time_window u.now).0 ≡ w) × InWindow w us

abbrev Counted : ℕ → ℕ → ProxyTarget → ProxyTarget → Type 0
Counted w n t u = (u.req_window ≡ w) × (u.req_counter ≡ n) × (u.req_limit ≡ t.req_limit)

apply_update_same :
    (w : ℕ) (t : ProxyTarget) (u : Update)
    → (get_current_time_window u.now).0 ≡ w
    → t.req_window ≡ w
    → t.req_counter + 1 < 2 ^ 64
    → Counted w (t.req_counter + 1) t (apply_update t u)
unfolding apply_update update_stats
apply_update_same w t u i h b = ground arith

apply_update_later :
    (w : ℕ) (t : ProxyTarget) (u : Update)
    → (get_current_time_window u.now).0 ≡ w
    → t.req_window < w
    → Counted w 1 t (apply_update t u)
unfolding apply_update update_stats
apply_update_later w t u i h = ground arith

counts_on :
    (w : ℕ) (t : ProxyTarget) (us : List Update)
    → InWindow w us
    → t.req_window ≡ w
    → t.req_counter + updates_count us < 2 ^ 64
    → Counted w (t.req_counter + updates_count us) t (apply_updates t us)
unfolding apply_updates
counts_on w t [] i h b = (h, omega arith, refl)
counts_on w t (u ∷ us) i h b =
    let (e, n, l) = apply_update_same w t u i.0 h (omega arith) in
    let (e', n', l') = counts_on w (apply_update t u) us i.1 e (omega arith) in
    (e', omega arith, l' ∙ l)

is_available_limited :
    (t : ProxyTarget) (now : ℕ) (rms : List String) (req_type : TokenType) (req_block slot_now : ℤ)
    → 0 < t.req_limit
    → t.req_limit ≤ t.req_counter
    → (get_current_time_window now).0 ≡ t.req_window
    → (is_available t now rms req_type req_block slot_now).available ≡ false
unfolding is_available
is_available_limited t now rms req_type req_block slot_now h k e = ground arith

-- A target with a limit that enters a new window and then serves at least that many requests within
-- it is unavailable for the rest of the window, whatever is asked of it.
pub is_available_window :
    (w : ℕ) (t : ProxyTarget) (u : Update) (us : List Update) (now : ℕ) (rms : List String)
    (req_type : TokenType) (req_block slot_now : ℤ)
    → t.req_window < w
    → InWindow w (u ∷ us)
    → 0 < t.req_limit
    → t.req_limit ≤ updates_count (u ∷ us)
    → updates_count (u ∷ us) < 2 ^ 64
    → (get_current_time_window now).0 ≡ w
    → (is_available (apply_updates t (u ∷ us)) now rms req_type req_block slot_now).available
      ≡ false
unfolding apply_updates
is_available_window w t u us now rms req_type req_block slot_now new i limited served fits here =
    let (e, n, l) = apply_update_later w t u i.0 new in
    let (e', n', l') = counts_on w (apply_update t u) us i.1 e (omega arith) in
    is_available_limited (apply_updates (apply_update t u) us) now rms req_type req_block slot_now
      (omega arith) (omega arith) (here ∙ sym e')
