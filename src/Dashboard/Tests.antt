-- ===== src/Dashboard/Tests.antt =====
-- The dashboard at a concrete session.
use ollama_proxy.Prelude.{
  ◌+◌, ◌≡◌, refl, ◌⊎◌, String, true, false, none, some, [], ◌∷◌, arith, str_eq, leb, if◌then◌else◌,
  is_some, ap, ◌∙◌,
}
use ollama_proxy.Clock.{aware}
use ollama_proxy.Exec.{lift, Exception, returned, raised, attribute_error}
use ollama_proxy.Table
use ollama_proxy.Models.{ApiKeyStatus, UserToken, UserTokenStatus, preview}
use ollama_proxy.KeyManager.Tests.{sample_pool}
use ollama_proxy.UserTokens.{new_token}
use ollama_proxy.AdminKeys.{ApiKeyOut}
use ollama_proxy.AdminKeys.Tests.{plain_vault, probe_env}
use ollama_proxy.Usage.Store.{Desk}
use ollama_proxy.Usage.Tests.{env, desk}
use ollama_proxy.DashboardAuth.{
  Flash, session_cookie, verify_session, csrf_cookie_max_age, flash_payload, csrf_payload,
}
use ollama_proxy.DashboardAuth
use ollama_proxy.DashboardAuth.Guard.{Request, require_dashboard_csrf, get_dashboard_session}
use ollama_proxy.DashboardAuth.Sessions.{Passes}
use ollama_proxy.DashboardAuth.Tests.{
  auth, auth-IsSigned, flash_json, flash_json_reads, signers, request,
}
use ollama_proxy.Dashboard.{Web, Response, Page, login_submit, paged, redirect, key_form_page}
use ollama_proxy.Dashboard
use ollama_proxy.Dashboard.Access.{FormRoute, PageRoute, serve_page, serve_form, serve_form-guarded}
use ollama_proxy.Dashboard.Login.{sent, login_submit-IsExact, login_submit-Passes}
use ollama_proxy.Dashboard.Expiry.{edit_user_token_form_fails}
use ollama_proxy.Dashboard.Renewal.{serve_page_renews}
use ollama_proxy.Dashboard.Created.{key_created_shows, with_session_lem}
use ollama_proxy.Dashboard.Keys.{create_key_submit, key_created, new_key_form}
use ollama_proxy.DashboardBackend
use ollama_proxy.Vault.{encrypt}
use ollama_proxy.AdminKeys.{find_key_hash}
use ollama_proxy.Python.{get}
use ollama_proxy.Dashboard.Tokens.{edit_user_token_form}

abbrev same : String → String
same s = s

abbrev web : Web
web = record {
  auth = auth;
  json = flash_json;
  password = some "secret";
  ready = true;
  seconds = 10;
  moment = 10;
  session_random = "sid";
  csrf_random = "t";
  token_random = "r";
  sha256 = same;
  vault = plain_vault;
  probes = probe_env;
  probe_model = some "m";
  usage_env = env;
  from_iso = λ text. none;
  lower = same;
  repr = same;
  iso_error = same;
  error_text = λ e. "error";
  isoformat = λ t. "2026-01-01T00:00:00Z";
  strftime = λ format t. format;
}

-- A browser that was never here.
abbrev stranger : Request
stranger = record { cookies = []; form = []; csrf_header = none }

strange : get_dashboard_session auth 10 stranger ≡ none
unfolding get_dashboard_session verify_session
strange = refl

serve_form-guarded_example :
    Passes auth 10 stranger
    ⊎ ((e : Exception) × (serve_form web stranger (FormRoute.delete_key 1) desk ≡ (raised e, desk)))
serve_form-guarded_example = serve_form-guarded web stranger (FormRoute.delete_key 1) desk

login_submit-IsExact_example :
    (response : Response) × (login_submit web "guess" ≡ returned response)
    × (is_some (sent session_cookie response) ≡ str_eq "guess" "secret")
login_submit-IsExact_example =
    login_submit-IsExact web auth-IsSigned "guess" "secret" refl refl refl

abbrev token : String
token = signers.csrf.dumps (csrf_payload "sid" "t") 10

abbrev cookie_value : String
cookie_value = signers.session.dumps "sid" 10

abbrev welcome : Response
welcome = record {
  body = Dashboard.see_other "/dashboard";
  cookies =
      Dashboard.set_cookie "opdash_sid" cookie_value 3600 true true
      ∷ Dashboard.set_cookie "opdash_csrf" token 86400 true true
      ∷ Dashboard.set_cookie "opdash_flash"
          (signers.flash.dumps (flash_json.dumps (flash_payload "ok" "Logged in.")) 10) 60 true true
      ∷ [];
}

logged_in : login_submit web "secret" ≡ returned welcome
unfolding login_submit DashboardAuth.issue_session verify_session DashboardAuth.issue_csrf
    Dashboard.set_flash DashboardAuth.flash_put
logged_in = refl

login_submit-Passes_example : require_dashboard_csrf auth 20 request ≡ returned tt
login_submit-Passes_example =
    login_submit-Passes web auth-IsSigned "secret" welcome request 20 refl refl refl logged_in
      (cookie_value, token, refl, refl, refl, refl, refl) (ground arith) (ground arith)
      (ground arith)

found : get_dashboard_session auth 10 request ≡ some "sid"
unfolding get_dashboard_session verify_session
found = refl

abbrev form : Response
form = record {
  body = Dashboard.html (key_form_page none token);
  cookies =
      Dashboard.set_cookie "opdash_csrf" token 86400 true true
      ∷ Dashboard.set_cookie "opdash_csrf" token 86400 true true
      ∷ Dashboard.delete_cookie "opdash_flash" false false
      ∷ Dashboard.set_cookie "opdash_sid" cookie_value 3600 true true
      ∷ [];
}

form_shown : paged web request "sid" key_form_page ≡ returned form
unfolding paged DashboardAuth.issue_csrf DashboardAuth.flash_read Dashboard.reissued verify_session
    DashboardAuth.reissue_session
form_shown = refl

form_served : (serve_page web request PageRoute.new_key desk).0 ≡ returned form
unfolding serve_page new_key_form
form_served =
    ap (λ out. out.0)
      (with_session_lem web request "sid"
        (λ session_id. lift (paged web request session_id key_form_page)) desk found)
    ∙ form_shown

serve_page_renews_example :
    (value : String) × (sent session_cookie form ≡ some value)
    × (verify_session auth value 30 ≡ (if leb 30 (10 + 3600) then some "sid" else none))
serve_page_renews_example =
    serve_page_renews web request "sid" PageRoute.new_key desk form (key_form_page none token) 30
      auth-IsSigned found refl form_served refl (ground arith)

abbrev expiring : UserToken
expiring = new_token same 1 "opk_c" "carol" (some (aware 50)) 10

abbrev with_token : Desk
with_token = record desk {
  pool = record (sample_pool []) { db = record { api_keys = []; user_tokens = expiring ∷ [] } };
}

edit_user_token_form_fails_example :
    edit_user_token_form web 1 request with_token ≡ (raised attribute_error, with_token)
unfolding Table.find
edit_user_token_form_fails_example =
    edit_user_token_form_fails web 1 request "sid" with_token expiring UserTokenStatus.active
      (aware 50) found refl refl refl refl refl

abbrev second_out : ApiKeyOut
second_out = record {
  id = 2;
  label = none;
  preview = "sk-9…";
  status = ApiKeyStatus.active;
  last_used_at = none;
  last_status_code = none;
  cooldown_until = none;
  total_requests = 0;
  total_failures = 0;
  created_at = aware 10;
  updated_at = aware 10;
  session_usage_fraction = none;
  weekly_usage_fraction = none;
  last_usage_fetch_at = none;
}

created :
    (DashboardBackend.create_key same plain_vault 10 none "sk-9" desk.pool).0
    ≡ returned (second_out, "sk-9")
unfolding DashboardBackend.create_key encrypt Table.next_id preview find_key_hash
created = refl

abbrev new_flash : String
new_flash = signers.flash.dumps (flash_json.dumps (flash_payload "ok" "NEW_KEY::sk-9")) 10

abbrev answer : Response
answer = record {
  body = Dashboard.see_other "/dashboard/keys/created";
  cookies =
      Dashboard.set_cookie "opdash_flash" new_flash 60 true true
      ∷ Dashboard.set_cookie "opdash_csrf" token 86400 true true
      ∷ Dashboard.set_cookie "opdash_sid" cookie_value 3600 true true
      ∷ [];
}

submitted : (create_key_submit web request "" "sk-9" desk).0 ≡ returned answer
unfolding create_key_submit Dashboard.submit Dashboard.post Dashboard.try_client
    Dashboard.with_session Dashboard.flashed Dashboard.set_flash Dashboard.rotate_csrf
    Dashboard.reissued DashboardAuth.flash_put DashboardAuth.issue_csrf
    DashboardAuth.reissue_session verify_session DashboardAuth.verify_csrf require_dashboard_csrf
    get_dashboard_session get DashboardBackend.create_key encrypt Table.next_id preview
    find_key_hash
submitted = refl

passed : require_dashboard_csrf auth 10 request ≡ returned tt
unfolding require_dashboard_csrf get_dashboard_session verify_session DashboardAuth.verify_csrf get
passed = refl

abbrev back : Request
back = record {
  cookies = ("opdash_sid", cookie_value) ∷ ("opdash_flash", new_flash) ∷ [];
  form = [];
  csrf_header = none;
}

still_there : get_dashboard_session auth 20 back ≡ some "sid"
unfolding get_dashboard_session verify_session
still_there = refl

key_created_shows_example :
    (page : Response) × (token : String) × (key_created (record web { seconds = 20 }) back desk
      ≡ (returned page, desk))
    × (page.body ≡ Dashboard.html (Dashboard.key_created_page (some "sk-9") token))
key_created_shows_example =
    key_created_shows web request back 20 "sid" "sid" "" "sk-9" "sk-9" new_flash desk desk
      second_out answer auth-IsSigned flash_json_reads passed found refl refl created refl submitted
      refl refl still_there refl (ground arith) (ground arith)
