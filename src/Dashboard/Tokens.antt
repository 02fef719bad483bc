-- ===== src/Dashboard/Tokens.antt =====
-- app/api/dashboard_routes.py: the pages and forms of the user tokens.
use Prim.Native.String.{◌++◌ as append}
use ollama_proxy.Prelude.{
  ℕ, String, Bool, ◌||◌, Option, none, some, List, [], str_eq, if◌then◌else◌, length, keep,
}
use ollama_proxy.Clock.{Datetime, as_utc, wall}
use ollama_proxy.Python.{decimal, strip}
use ollama_proxy.Exec.{Exec, Result, returned, raised, value_error, attribute_error, and_then, lift}
use ollama_proxy.Models.{UserTokenStatus, active, revoked, token_value}
use ollama_proxy.AdminUserTokens.{UserTokenOut}
use ollama_proxy.Usage.Store.{Desk}
use ollama_proxy.DashboardAuth.{issue_csrf}
use ollama_proxy.DashboardAuth.Guard.{Request}
use ollama_proxy.DashboardBackend
use ollama_proxy.Dashboard.Texts.{
  or_none, stripped_or_none, method_of, is_patch, method_text, marked_in,
}
use ollama_proxy.Dashboard.{
  Web, Response, tokens_page, token_form_page, token_created_page, token_edit_page, redirect,
  set_flash, flashed, paged, with_session, post, submit, try_client, on_db,
}

abbrev pub is_token_status : String → Bool
is_token_status status = str_eq status "active" || str_eq status "revoked"

unfoldable pub current_token_status : String → String
current_token_status status =
    if str_eq status "all" || is_token_status status then status else "active"

unfoldable pub shown_tokens : String → List UserTokenOut → List UserTokenOut
shown_tokens current tokens =
    if str_eq current "all"
    then tokens
    else keep (λ t. str_eq (token_value t.status) current) tokens

-- `UserTokenStatus(status)`, once the status has been checked.
abbrev token_status : Option String → Option UserTokenStatus
token_status none = none
token_status (some status) = if str_eq status "active" then some active else some revoked

abbrev bad_token_status : Option String → Option String
bad_token_status none = none
bad_token_status (some status) = if is_token_status status then none else some status

abbrev pub token_text : ℕ → String → String
unfolding decimal
token_text token_id tail = append "token " (append (decimal token_id) tail)

abbrev pub token_path : ℕ → String
unfolding decimal
token_path token_id = append "/dashboard/user-tokens/" (decimal token_id)

abbrev new_token_mark : String
new_token_mark = "NEW_TOKEN::"

abbrev parsed : Option Datetime → Result (Option Datetime)
unfolding as_utc
parsed none = raised value_error
parsed (some t) = returned (as_utc (some t))

-- `_parse_user_token_expiry`: a blank text is no expiry.
unfoldable pub parse_user_token_expiry :
    (String → Option Datetime) → String → Result (Option Datetime)
unfolding as_utc
parse_user_token_expiry from_iso raw =
    if str_eq (strip raw) "" then returned none else parsed (from_iso (strip raw))

-- What stands in the dictionary of a token: the text that `model_dump(mode="json")` makes of a
-- datetime. `_format_user_token_expiry` is written for the datetime itself.
pub data Expiry : Type 0 where
  moment : Datetime → Expiry
  iso_text : String → Expiry

abbrev pub dumped : (Datetime → String) → Option Datetime → Option Expiry
dumped isoformat none = none
dumped isoformat (some t) = some (iso_text (isoformat t))

unfoldable pub format_user_token_expiry : (String → ℕ → String) → Option Expiry → Result String
format_user_token_expiry strftime none = returned ""
format_user_token_expiry strftime (some (moment t)) = returned (strftime "%Y-%m-%dT%H:%M" (wall t))
format_user_token_expiry strftime (some (iso_text text)) = raised attribute_error

abbrev is_one_of_yes : String → Bool
is_one_of_yes text = str_eq text "1" || str_eq text "true" || str_eq text "on" || str_eq text "yes"

abbrev bad_expiry_text : String → String
bad_expiry_text reason =
    append "invalid expires_at (" (append reason "); expected YYYY-MM-DDTHH:MM[:SS]")

module _ (web : Web) where
  unfoldable pub tokens_with :
      Request → String → String → Option String → List UserTokenOut → Result Response
  unfolding paged current_token_status shown_tokens
  tokens_with request session_id status error all_tokens =
      let current = current_token_status status in
      paged web request session_id
        (tokens_page (shown_tokens current all_tokens) (length all_tokens) current error)

  -- GET /dashboard/user-tokens
  unfoldable pub user_tokens_home : Request → String → Exec Desk Response
  unfolding with_session try_client tokens_with
  user_tokens_home request status = with_session web request (λ session_id.
      try_client web (on_db DashboardBackend.list_user_tokens)
        (λ short. tokens_with request session_id status (some short) [])
        (tokens_with request session_id status none))

  -- GET /dashboard/user-tokens/new
  unfoldable pub new_user_token_form : Request → Exec Desk Response
  unfolding with_session paged
  new_user_token_form request =
      with_session web request (λ session_id. lift (paged web request session_id token_form_page))

  abbrev failed : Request → String → String → String → Exec Desk Response
  unfolding flashed
  failed request session_id path msg = lift (flashed web request session_id path "error" msg)

  abbrev create_with :
      Request → String → String → Result (Option Datetime) → String → Exec Desk Response
  unfolding try_client flashed
  create_with request session_id label (raised e) expires_at =
      failed request session_id "/dashboard/user-tokens/new"
        (bad_expiry_text (web.iso_error (strip expires_at)))
  create_with request session_id label (returned expires_dt) expires_at =
      try_client web
        (on_db (
          DashboardBackend.create_user_token web.sha256 web.moment web.token_random label
            expires_dt))
        (flashed web request session_id "/dashboard/user-tokens/new" "error")
        (λ body.
          if str_eq body.1 ""
          then flashed web request session_id "/dashboard/user-tokens" "error"
              "token created, but proxy did not return raw_key — recreate and check logs"
          else flashed web request session_id "/dashboard/user-tokens/created" "ok"
              (append new_token_mark body.1))

  -- POST /dashboard/user-tokens
  unfoldable pub create_user_token_submit : Request → String → String → Exec Desk Response
  unfolding post try_client flashed parse_user_token_expiry
  create_user_token_submit request label expires_at = post web request (λ session_id.
      if str_eq (strip label) ""
      then failed request session_id "/dashboard/user-tokens/new" "label is required"
      else create_with request session_id (strip label)
          (parse_user_token_expiry web.from_iso expires_at) expires_at)

  -- GET /dashboard/user-tokens/created
  unfoldable pub user_token_created : Request → Exec Desk Response
  unfolding with_session paged
  user_token_created request = with_session web request (λ session_id.
      lift (
        paged web request session_id
          (λ flash. token_created_page (marked_in new_token_mark flash))))

  -- The form's value is made while the page is rendered, after the CSRF token.
  unfoldable pub edit_page : Request → String → UserTokenOut → Result Response
  unfolding paged issue_csrf format_user_token_expiry
  edit_page request session_id token =
      and_then (issue_csrf web.auth session_id web.csrf_random web.seconds) (λ csrf_token.
        and_then (format_user_token_expiry web.strftime (dumped web.isoformat token.expires_at))
          (λ value. paged web request session_id (token_edit_page token value)))

  -- GET /dashboard/user-tokens/{token_id}
  unfoldable pub edit_user_token_form : ℕ → Request → Exec Desk Response
  unfolding with_session try_client set_flash edit_page
  edit_user_token_form token_id request = with_session web request (λ session_id.
      try_client web (on_db (DashboardBackend.get_user_token token_id))
        (λ short. set_flash web "error" short (redirect "/dashboard/user-tokens"))
        (edit_page request session_id))

  abbrev update_parsed :
      ℕ
      → Request
      → String
      → Option String
      → Option UserTokenStatus
      → Bool
      → String
      → Result (Option Datetime)
      → Exec Desk Response
  unfolding try_client flashed
  update_parsed token_id request session_id label status clear expires_at (raised e) =
      failed request session_id (token_path token_id)
        (bad_expiry_text (web.iso_error (strip expires_at)))
  update_parsed token_id request session_id label status clear expires_at (returned expires_dt) =
      try_client web
        (on_db (
          DashboardBackend.update_user_token web.moment token_id (record {
            label = label;
            expires_at = if clear then none else expires_dt;
            clear_expires_at = clear;
            status = status;
          })))
        (flashed web request session_id (token_path token_id) "error")
        (λ out.
          flashed web request session_id "/dashboard/user-tokens" "ok"
            (token_text token_id " updated"))

  abbrev update_valid :
      ℕ
      → Request
      → String
      → String
      → String
      → String
      → Option String
      → Option String
      → Exec Desk Response
  unfolding try_client flashed parse_user_token_expiry
  update_valid token_id request session_id label expires_at clear status (some bad) =
      failed request session_id (token_path token_id)
        (append "invalid status " (append (web.repr bad) "; expected one of ['active', 'revoked']"))
  update_valid token_id request session_id label expires_at clear status none =
      update_parsed token_id request session_id (stripped_or_none label) (token_status status)
        (is_one_of_yes (web.lower (strip clear))) expires_at
        (parse_user_token_expiry web.from_iso expires_at)

  -- POST /dashboard/user-tokens/{token_id}
  unfoldable pub update_user_token_submit :
      ℕ → Request → String → String → String → String → Exec Desk Response
  unfolding post try_client flashed parse_user_token_expiry
  update_user_token_submit token_id request label expires_at clear_expires_at status =
      post web request (λ session_id.
        let status_clean = or_none (web.lower (strip status)) in
        if is_patch (method_of request)
        then update_valid token_id request session_id label expires_at clear_expires_at status_clean
            (bad_token_status status_clean)
        else failed request session_id (token_path token_id)
            (append "unsupported method: " (method_text (method_of request))))

  -- POST /dashboard/user-tokens/{token_id}/delete
  unfoldable pub delete_user_token_submit : ℕ → Request → Exec Desk Response
  unfolding submit flashed
  delete_user_token_submit token_id request =
      submit web request (on_db (DashboardBackend.delete_user_token token_id))
        "/dashboard/user-tokens"
        (λ session_id done.
          flashed web request session_id "/dashboard/user-tokens" "ok"
            (token_text token_id " deleted"))
