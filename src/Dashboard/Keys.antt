-- ===== src/Dashboard/Keys.antt =====
-- app/api/dashboard_routes.py: the pages and forms of the keys.
use Prim.Native.String.{◌++◌ as append}
use ollama_proxy.Prelude.{
  ℕ, ◌-◌, String, Option, none, some, List, [], ◌==◌, str_eq, if◌then◌else◌, length,
}
use ollama_proxy.Python.{decimal, strip}
use ollama_proxy.Exec.{Exec, Result, returned, and_then, lift}
use ollama_proxy.AdminKeys.{ApiKeyOut}
use ollama_proxy.Usage.Store.{Desk}
use ollama_proxy.DashboardAuth.Guard.{Request}
use ollama_proxy.DashboardBackend
use ollama_proxy.Dashboard.Texts.{
  current_status, shown_keys, or_none, stripped_or_none, overall_text, level_if, key_text,
  health_text, reset_text, count_ok, test_all_text, test_text, method_of, is_patch, method_text,
  bad_status, bad_status_text, new_key_mark, marked_in,
}
use ollama_proxy.Dashboard.{
  Web, Response, home_page, key_form_page, key_created_page, key_edit_page, redirect, set_flash,
  set_session_cookie, reissued, flashed, paged, with_session, post, submit, try_client, on_pool,
  always,
}

module _ (web : Web) where
  unfoldable pub home_with :
      Request → String → String → (Option String) → List ApiKeyOut → Result Response
  unfolding paged current_status shown_keys
  home_with request session_id status error all_keys =
      let current = current_status status in
      paged web request session_id
        (home_page (shown_keys current all_keys) (length all_keys) current error)

  -- GET /dashboard
  unfoldable pub dashboard_home : Request → String → Exec Desk Response
  unfolding with_session try_client home_with
  dashboard_home request status = with_session web request (λ session_id.
      try_client web (on_pool DashboardBackend.list_keys)
        (λ short. home_with request session_id status (some short) [])
        (home_with request session_id status none))

  -- POST /dashboard/keys/refresh-health. The CSRF token stays as it is.
  unfoldable pub refresh_health : Request → Exec Desk Response
  unfolding post try_client set_flash
  refresh_health request = post web request (λ session_id.
      try_client web (always (DashboardBackend.health web.moment))
        (λ short. kept request "error" (append "health check failed: " short))
        (λ health.
          kept request (level_if (str_eq (overall_text health.status) "ok")) (health_text health)))
    where
      kept : Request → String → String → Result Response
      kept request level msg =
          and_then (set_flash web level msg (redirect "/dashboard"))
            (λ response. returned (set_session_cookie web (reissued web request) response))

  -- GET /dashboard/keys/new
  unfoldable pub new_key_form : Request → Exec Desk Response
  unfolding with_session paged
  new_key_form request =
      with_session web request (λ session_id. lift (paged web request session_id key_form_page))

  abbrev pub created_answer : Request → String → ApiKeyOut × String → Result Response
  unfolding flashed
  created_answer request session_id body =
      if str_eq body.1 ""
      then flashed web request session_id "/dashboard" "error"
          "key created, but proxy did not return raw_key — recreate and check logs"
      else flashed web request session_id "/dashboard/keys/created" "ok"
          (append new_key_mark body.1)

  -- POST /dashboard/keys
  unfoldable pub create_key_submit : Request → String → String → Exec Desk Response
  unfolding submit flashed
  create_key_submit request label key =
      submit web request
        (on_pool (
          DashboardBackend.create_key web.sha256 web.vault web.moment (stripped_or_none label) key))
        "/dashboard/keys/new" (created_answer request)

  -- GET /dashboard/keys/created
  unfoldable pub key_created : Request → Exec Desk Response
  unfolding with_session paged
  key_created request = with_session web request (λ session_id.
      lift
        (paged web request session_id (λ flash. key_created_page (marked_in new_key_mark flash))))

  -- GET /dashboard/keys/{key_id}
  unfoldable pub edit_key_form : ℕ → Request → Exec Desk Response
  unfolding with_session try_client paged set_flash
  edit_key_form key_id request = with_session web request (λ session_id.
      try_client web (on_pool (DashboardBackend.get_key key_id))
        (λ short. set_flash web "error" short (redirect "/dashboard"))
        (λ key. paged web request session_id (key_edit_page key)))

  -- POST /dashboard/keys/test-all
  unfoldable pub test_all_submit : Request → Exec Desk Response
  unfolding submit flashed
  test_all_submit request =
      submit web request (on_pool (DashboardBackend.test_all_keys web.probes web.probe_model))
        "/dashboard"
        (λ session_id body.
          let (total, results) = body in
          let good = count_ok results in
          flashed web request session_id "/dashboard" (level_if (total - good == 0))
            (test_all_text total good))

  -- POST /dashboard/keys/reset-states
  unfoldable pub reset_states_submit : Request → Exec Desk Response
  unfolding submit flashed
  reset_states_submit request =
      submit web request (always (DashboardBackend.reset_states web.moment)) "/dashboard"
        (λ session_id health.
          flashed web request session_id "/dashboard"
            (level_if (str_eq (overall_text health.status) "ok")) (reset_text health))

  abbrev pub key_path : ℕ → String
  key_path key_id = append "/dashboard/keys/" (decimal key_id)

  abbrev pub update_valid :
      ℕ → Request → String → Option String → Option String → Option String → Exec Desk Response
  unfolding try_client flashed
  update_valid key_id request session_id label status (some bad) =
      lift (flashed web request session_id (key_path key_id) "error" (bad_status_text web.repr bad))
  update_valid key_id request session_id label status none =
      try_client web (on_pool (DashboardBackend.update_key web.moment key_id label status))
        (flashed web request session_id (key_path key_id) "error")
        (λ out. flashed web request session_id "/dashboard" "ok" (key_text key_id " updated"))

  -- POST /dashboard/keys/{key_id}
  unfoldable pub update_key_submit : ℕ → Request → String → String → Exec Desk Response
  unfolding post try_client flashed
  update_key_submit key_id request label status = post web request (λ session_id.
      let status_clean = or_none (web.lower (strip status)) in
      if is_patch (method_of request)
      then update_valid key_id request session_id (stripped_or_none label) status_clean
          (bad_status status_clean)
      else lift (
          flashed web request session_id (key_path key_id) "error"
            (append "unsupported method: " (method_text (method_of request)))))

  -- POST /dashboard/keys/{key_id}/delete
  unfoldable pub delete_key_submit : ℕ → Request → Exec Desk Response
  unfolding submit flashed
  delete_key_submit key_id request =
      submit web request (on_pool (DashboardBackend.delete_key key_id)) "/dashboard"
        (λ session_id done.
          flashed web request session_id "/dashboard" "ok" (key_text key_id " deleted"))

  -- POST /dashboard/keys/{key_id}/test
  unfoldable pub test_key_submit : ℕ → Request → Exec Desk Response
  unfolding submit flashed
  test_key_submit key_id request =
      submit web request (on_pool (DashboardBackend.test_key web.probes web.probe_model key_id))
        "/dashboard"
        (λ session_id body.
          flashed web request session_id "/dashboard" (level_if body.1.ok)
            (test_text web.error_text key_id body.1))
