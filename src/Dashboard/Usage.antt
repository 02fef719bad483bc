-- ===== src/Dashboard/Usage.antt =====
-- app/api/dashboard_routes.py: the usage of the keys.
use Prim.Native.String.{◌++◌ as append}
use ollama_proxy.Prelude.{
  ℕ, ◌-◌, String, not, Option, none, some, List, ◌==◌, if◌then◌else◌, length, count,
}
use ollama_proxy.Python.{decimal, strip}
use ollama_proxy.Exec.{Exec, Exception, returned}
use ollama_proxy.Usage.{
  KeyUsageSnapshot, UpstreamStatus, ok, unreachable, unauthorised, pending, Reason, text, message,
  vault_reason,
}
use ollama_proxy.Usage.Store.{Desk, is_ok}
use ollama_proxy.DashboardAuth.Guard.{Request}
use ollama_proxy.DashboardBackend
use ollama_proxy.Dashboard.Texts.{key_text, level_if}
use ollama_proxy.Dashboard.{
  Web, Response, key_usage_page, redirect, set_flash, flashed, paged, with_session, submit,
  try_client,
}

abbrev status_text : UpstreamStatus → String
status_text ok = "ok"
status_text unreachable = "unreachable"
status_text unauthorised = "unauthorised"
status_text pending = "pending"

abbrev reason_text : (Exception → String) → Option Reason → String
reason_text error_text none = ""
reason_text error_text (some (text reason)) = reason
reason_text error_text (some (message e)) = error_text e
reason_text error_text (some (vault_reason e)) = append "vault: " (error_text e)

unfoldable pub refresh_text : (Exception → String) → ℕ → KeyUsageSnapshot → String
unfolding decimal
refresh_text error_text key_id snap =
    if is_ok snap.upstream_status
    then key_text key_id ": usage refreshed"
    else strip (
        key_text key_id (
          append ": refresh failed (" (
            append (status_text snap.upstream_status)
              (append ") " (reason_text error_text snap.upstream_error)))))

abbrev pub count_failures : List KeyUsageSnapshot → ℕ
count_failures = count (λ snap. not (is_ok snap.upstream_status))

unfoldable pub refresh_all_text : ℕ → ℕ → String
unfolding decimal
refresh_all_text total failures =
    if total == 0
    then "no active keys to refresh"
    else if failures == 0
    then append "refreshed " (append (decimal total) " active keys")
    else append "refreshed " (
        append (decimal (total - failures)) (
          append "/" (
            append (decimal total)
              (append " active keys (" (append (decimal failures) " failed)")))))

module _ (web : Web) where
  abbrev pub usage_path : ℕ → String
  unfolding decimal
  usage_path key_id = append "/dashboard/keys/" (append (decimal key_id) "/usage")

  -- GET /dashboard/keys/{key_id}/usage
  unfoldable pub key_usage_view : ℕ → Request → Exec Desk Response
  unfolding with_session try_client paged set_flash
  key_usage_view key_id request = with_session web request (λ session_id.
      try_client web (DashboardBackend.get_key_usage web.usage_env key_id)
        (λ short. set_flash web "error" short (redirect "/dashboard"))
        (λ snapshot. paged web request session_id (key_usage_page key_id snapshot)))

  -- POST /dashboard/keys/{key_id}/usage/refresh
  unfoldable pub key_usage_refresh_submit : ℕ → Request → Exec Desk Response
  unfolding submit flashed
  key_usage_refresh_submit key_id request =
      submit web request (DashboardBackend.refresh_key_usage web.usage_env web.moment key_id)
        (usage_path key_id)
        (λ session_id snap.
          flashed web request session_id (usage_path key_id) (level_if (is_ok snap.upstream_status))
            (refresh_text web.error_text key_id snap))

  abbrev refresh_all : Exec Desk (List KeyUsageSnapshot)
  refresh_all d =
      let (snapshots, d') = DashboardBackend.refresh_all_usage web.usage_env web.moment d in
      (returned snapshots, d')

  -- POST /dashboard/keys/usage/refresh-all
  unfoldable pub usage_refresh_all_submit : Request → Exec Desk Response
  unfolding submit flashed
  usage_refresh_all_submit request =
      submit web request refresh_all "/dashboard" (λ session_id snapshots.
        let total = length snapshots in
        let failures = count_failures snapshots in
        flashed web request session_id "/dashboard" (level_if (failures == 0))
          (refresh_all_text total failures))
