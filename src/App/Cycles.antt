-- ===== src/App/Cycles.antt =====
-- What `_usage_refresh_loop` leaves as it was, after any number of cycles.
use ollama_proxy.Prelude.{ℕ, zero, suc, ◌≡◌, refl, ◌∙◌, map}
use ollama_proxy.Usage.{UsageEnv}
use ollama_proxy.Usage.Store.{Desk}
use ollama_proxy.Usage.Refresh.{without_usage, refresh_all_active-frame}
use ollama_proxy.App.{refresh_cycles}

-- The background refresh never disturbs the proxy: after any number of cycles, whatever the upstream
-- answers in each, the rows of the keys stand in the same order with the same states, cooldowns,
-- counters, windows and secrets, only what is known of the accounts and their usage and the times of the
-- last changes (updated_at) may differ, and the user tokens and the reservations are as they were.
pub refresh_cycles-frame :
    (world : ℕ → UsageEnv) (moment : ℕ → ℕ) (cycles : ℕ) (d : Desk)
    → let d' = refresh_cycles world moment cycles d in
      (map without_usage d'.pool.api_keys ≡ map without_usage d.pool.api_keys)
      × (d'.pool.user_tokens ≡ d.pool.user_tokens)
      × (d'.pool.manager ≡ d.pool.manager)
unfolding refresh_cycles
refresh_cycles-frame world moment zero d = (refl, refl, refl)
refresh_cycles-frame world moment (suc n) d =
    let before = refresh_cycles-frame world moment n d in
    let last = refresh_all_active-frame (world n) (moment n) (refresh_cycles world moment n d) in
    (last.1 ∙ before.0, last.2 ∙ before.1, last.3 ∙ before.2)
