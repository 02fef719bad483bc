-- ===== src/KeysOps/Health.antt =====
-- What the health snapshot says of the table.
use ollama_proxy.Prelude.{ℕ, ◌+◌, ◌<◌, ◌≡◌, ◌↔◌, refl, arith}
use ollama_proxy.Models.{active, depleted, disabled, value}
use ollama_proxy.KeyManager.{Pool}
use ollama_proxy.KeyManager.Counts.{rows_with, get_count-count_by_status}
use ollama_proxy.KeysOps.{ok, down, overall, build_health_snapshot}

overall_iff :
    (a dep dis : ℕ)
    → ((overall a dep dis ≡ ok) ↔ (0 < a)) × ((overall a dep dis ≡ down) ↔ (a + dep + dis ≡ 0))
overall_iff a dep dis = ground arith

-- The snapshot counts the rows of each status; it is "ok" exactly where a key is active, and "down"
-- exactly where no row has any of the three statuses.
pub build_health_snapshot-counts :
    (now : ℕ) (s : Pool)
    → let h = build_health_snapshot now s in
      (h.active_keys ≡ rows_with (value active) s.api_keys)
      × (h.depleted_keys ≡ rows_with (value depleted) s.api_keys)
      × (h.disabled_keys ≡ rows_with (value disabled) s.api_keys)
      × ((h.status ≡ ok) ↔ (0 < rows_with (value active) s.api_keys))
      × ((h.status ≡ down) ↔ (
          rows_with (value active) s.api_keys
            + rows_with (value depleted) s.api_keys
            + rows_with (value disabled) s.api_keys
          ≡ 0))
unfolding build_health_snapshot
build_health_snapshot-counts now s =
    rw (get_count-count_by_status (value active) s.api_keys) rw
      (get_count-count_by_status (value depleted) s.api_keys) rw
      (get_count-count_by_status (value disabled) s.api_keys)
      (let o =
          overall_iff (rows_with (value active) s.api_keys) (rows_with (value depleted) s.api_keys)
            (rows_with (value disabled) s.api_keys) in
        (refl, refl, refl, o.0, o.1))
