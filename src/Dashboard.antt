-- ===== src/Dashboard.antt =====
-- app/api/dashboard_routes.py: the pages of the dashboard. This module has the cookies, the flash
-- messages, the login and the logout; the children have the handlers of the pages. A template is its
-- name with its context (`Page`), and a handler is what FastAPI calls once the parameters are valid.
pub mod Texts
pub mod Keys
pub mod Usage
pub mod Tokens
pub mod Access
pub mod Login
pub mod Created
pub mod Expiry
pub mod Filters
pub mod Renewal
pub mod Tests
use Prim.Native.String.{◌++◌ as append}
use ollama_proxy.Prelude.{
  ℕ, String, Bool, true, false, not, Option, none, some, List, [], ◌∷◌, ◌++◌, str_eq, if◌then◌else◌,
  or_else, Option-cases,
}
use ollama_proxy.Clock.{Datetime}
use ollama_proxy.Exec.{
  Exec, Exception, Result, returned, raised, value_error, http_exception, dashboard_client_error,
  and_then, lift, ◌>>=◌,
}
use ollama_proxy.Models.{Db, ApiKeyStatus}
use ollama_proxy.Vault.{Vault}
use ollama_proxy.KeyManager.{Pool}
use ollama_proxy.KeysOps.{ProbeEnv}
use ollama_proxy.AdminKeys.{ApiKeyOut}
use ollama_proxy.AdminUserTokens.{UserTokenOut}
use ollama_proxy.Usage.{KeyUsageSnapshot, UsageEnv}
use ollama_proxy.Usage.Store.{Desk}
use ollama_proxy.DashboardAuth.{
  DashboardAuth, JsonText, Flash, session_cookie, csrf_cookie, flash_cookie, issue_session,
  verify_session, reissue_session, issue_csrf, flash_put, flash_read,
}
use ollama_proxy.DashboardAuth.Guard.{
  Request, cookie, get_dashboard_session, require_dashboard_csrf,
}
use ollama_proxy.DashboardBackend.{short}

-- The world of one request. `ready` says whether `_client_dep` finds the client and the usage service.
-- `seconds` is the moment of the signatures, `moment` that of the rows. `session_random` and
-- `csrf_random` are what `secrets` returns, and the last seven fields what Python's text functions do.
pub record Web : Type 0 where
  pub auth : DashboardAuth
  pub json : JsonText
  pub password : Option String
  pub ready : Bool
  pub seconds : ℕ
  pub moment : ℕ
  pub session_random : String
  pub csrf_random : String
  pub token_random : String
  pub sha256 : String → String
  pub vault : Vault
  pub probes : ProbeEnv
  pub probe_model : Option String
  pub usage_env : UsageEnv
  pub from_iso : String → Option Datetime
  pub lower : String → String
  pub repr : String → String
  pub iso_error : String → String
  pub error_text : Exception → String
  pub isoformat : Datetime → String
  pub strftime : String → ℕ → String

-- A Set-Cookie header. All are for the path "/", with SameSite=Lax.
pub data SetCookie : Type 0 where
  set_cookie : (name value : String) → (max_age : ℕ) → (http_only secure : Bool) → SetCookie
  delete_cookie : (name : String) → (http_only secure : Bool) → SetCookie

-- The templates with their contexts; the `csrf_token` of a form is the last field.
pub data Page : Type 0 where
  login_page : Option Flash → Page
  home_page :
      List ApiKeyOut
      → (total : ℕ) → (current : String) → (error : Option String) → Option Flash
      → String
      → Page
  key_form_page : Option Flash → String → Page
  key_created_page : Option String → String → Page
  key_edit_page : ApiKeyOut → Option Flash → String → Page
  key_usage_page : ℕ → KeyUsageSnapshot → Option Flash → String → Page
  tokens_page :
      List UserTokenOut
      → (total : ℕ) → (current : String) → (error : Option String) → Option Flash
      → String
      → Page
  token_form_page : Option Flash → String → Page
  token_created_page : Option String → String → Page
  token_edit_page : UserTokenOut → (expires_at : String) → Option Flash → String → Page

pub data Body : Type 0 where
  see_other : String → Body
  html : Page → Body

pub record Response : Type 0 where
  pub body : Body
  pub cookies : List SetCookie

abbrev pub redirect : String → Response
redirect path = record { body = see_other path; cookies = [] }

abbrev pub with_cookie : SetCookie → Response → Response
with_cookie c response = record response { cookies = response.cookies ++ c ∷ [] }

-- `except DashboardClientError`
abbrev pub client_error_of : Exception → Option (ℕ × String)
client_error_of (dashboard_client_error code detail) = some (code, detail)
client_error_of e = none

module _ (web : Web) where
  abbrev pub set_session_cookie : String → Response → Response
  set_session_cookie value =
      with_cookie
        (set_cookie session_cookie value web.auth.session_ttl_seconds true web.auth.cookie_secure)

  -- Every caller gives the `auth`.
  abbrev pub csrf_header : String → SetCookie
  csrf_header value = set_cookie csrf_cookie value 86400 true web.auth.cookie_secure

  abbrev pub clear_session_cookie : Response → Response
  clear_session_cookie = with_cookie (delete_cookie session_cookie true web.auth.cookie_secure)

  abbrev pub clear_csrf_cookie : Response → Response
  clear_csrf_cookie = with_cookie (delete_cookie csrf_cookie true web.auth.cookie_secure)

  abbrev pub clear_flash_cookie : SetCookie
  clear_flash_cookie = delete_cookie flash_cookie false false

  unfoldable pub set_flash : String → String → Response → Result Response
  unfolding flash_put
  set_flash level msg response =
      and_then (flash_put web.auth web.json level msg web.seconds) (λ value.
        returned
          (with_cookie (set_cookie flash_cookie value 60 true web.auth.cookie_secure) response))

  abbrev pub flash_in : Request → Option Flash
  unfolding flash_read
  flash_in request = flash_read web.auth web.json (cookie request flash_cookie) web.seconds

  -- `_reissue_session`: the session that the request has, signed anew.
  unfoldable pub reissued : Request → String
  unfolding verify_session reissue_session
  reissued request =
      reissue_session web.auth
        (or_else (verify_session web.auth (cookie request session_cookie) web.seconds) "")
        web.seconds

  unfoldable pub rotate_csrf : String → Response → Result Response
  unfolding issue_csrf
  rotate_csrf session_id response =
      and_then (issue_csrf web.auth session_id web.csrf_random web.seconds)
        (λ token. returned (with_cookie (csrf_header token) response))

  -- How a form post ends: a redirection with a flash, a new CSRF token and the session again.
  unfoldable pub flashed : Request → String → String → String → String → Result Response
  unfolding set_flash rotate_csrf reissued
  flashed request session_id path level msg =
      and_then (set_flash level msg (redirect path)) (λ response.
        and_then (rotate_csrf session_id response)
          (λ response'. returned (set_session_cookie (reissued request) response')))

  -- How a page is shown: the first rendering gives the cookies that the second one gets besides its
  -- own, and the flash is read between the two.
  unfoldable pub paged : Request → String → (Option Flash → String → Page) → Result Response
  unfolding issue_csrf flash_read reissued
  paged request session_id template =
      and_then (issue_csrf web.auth session_id web.csrf_random web.seconds) (λ csrf_token.
        returned (
          set_session_cookie (reissued request) (record {
            body = html (template (flash_in request) csrf_token);
            cookies = csrf_header csrf_token ∷ csrf_header csrf_token ∷ clear_flash_cookie ∷ [];
          })))

  abbrev pub unless_none : Option String → (String → Exec Desk Response) → Exec Desk Response
  unless_none none handler d = (returned (redirect "/dashboard/login"), d)
  unless_none (some session_id) handler d = handler session_id d

  -- `if session_id is None: return _redirect("/dashboard/login")`
  unfoldable pub with_session : Request → (String → Exec Desk Response) → Exec Desk Response
  unfolding get_dashboard_session
  with_session request = unless_none (get_dashboard_session web.auth web.seconds request)

  abbrev pub if_passed : Result (Unit {0}) → Exec Desk Response → Exec Desk Response
  if_passed (raised e) handler d = (raised e, d)
  if_passed (returned _) handler d = handler d

  -- A form post: the guard is a dependency, which runs before the handler.
  unfoldable pub post : Request → (String → Exec Desk Response) → Exec Desk Response
  unfolding require_dashboard_csrf with_session
  post request handler =
      if_passed (require_dashboard_csrf web.auth web.seconds request) (with_session request handler)

  abbrev pub answered :
      {A : Type 0}
      → (String → Result Response)
      → (A → Result Response)
      → Result A × Desk
      → Result Response × Desk
  unfolding short
  answered failed done (returned a, d) = (done a, d)
  answered failed done (raised e, d) = elim (client_error_of e) [
    | none ↦ (raised e, d)
    | some (code, detail) ↦ (failed (short code detail), d)
  ]

  -- `async with _client_or_503(request) as client`, with `except DashboardClientError`.
  unfoldable pub try_client :
      {A : Type 0}
      → Exec Desk A
      → (String → Result Response)
      → (A → Result Response)
      → Exec Desk Response
  unfolding short
  try_client call failed done d =
      if web.ready
      then answered failed done (call d)
      else (raised (http_exception 503 "dashboard not fully initialised"), d)

  -- A post that calls the backend and says how it went.
  unfoldable pub submit :
      {A : Type 0}
      → Request
      → Exec Desk A
      → String
      → (String → A → Result Response)
      → Exec Desk Response
  unfolding post try_client flashed
  submit request call failed_path done = post request (λ session_id.
      try_client call (flashed request session_id failed_path "error") (done session_id))

  -- GET /dashboard/login
  unfoldable pub login_form : Request → Result Response
  unfolding get_dashboard_session flash_read
  login_form request = elim (get_dashboard_session web.auth web.seconds request) [
    | some session_id ↦ returned (redirect "/dashboard")
    | none ↦
        returned (record {
          body = html (login_page (flash_in request));
          cookies = clear_flash_cookie ∷ [];
        })
  ]

  -- `auth.verify_session(session_cookie) or ""`
  abbrev pub logged_in_as : String → Option String → Result Response
  unfolding issue_csrf set_flash
  logged_in_as value session_id =
      and_then (issue_csrf web.auth (or_else session_id "") web.csrf_random web.seconds) (λ csrf.
        set_flash "ok" "Logged in."
          (with_cookie (csrf_header csrf) (set_session_cookie value (redirect "/dashboard"))))

  abbrev pub logged_in : Result Response
  unfolding issue_session verify_session issue_csrf set_flash
  logged_in =
      let value = issue_session web.auth web.session_random web.seconds in
      logged_in_as value (verify_session web.auth value web.seconds)

  abbrev pub check_password : String → String → Result Response
  unfolding issue_session verify_session issue_csrf set_flash
  check_password expected password =
      if str_eq expected ""
      then raised (http_exception 503 "dashboard password is not configured")
      else if str_eq password expected
      then logged_in
      else set_flash "error" "Invalid password." (redirect "/dashboard/login")

  -- POST /dashboard/login. No password in the settings is an empty one.
  unfoldable pub login_submit : String → Result Response
  unfolding issue_session verify_session issue_csrf set_flash
  login_submit password = check_password (or_else web.password "") password

  -- POST /dashboard/logout
  unfoldable pub logout : Request → Result Response
  unfolding require_dashboard_csrf set_flash
  logout request = and_then (require_dashboard_csrf web.auth web.seconds request) (λ passed.
      set_flash "ok" "Logged out."
        (clear_csrf_cookie (clear_session_cookie (redirect "/dashboard/login"))))

abbrev pub on_pool : {A : Type 0} → Exec Pool A → Exec Desk A
on_pool m d = let (result, pool) = m d.pool in (result, record d { pool = pool })

abbrev pub on_db : {A : Type 0} → Exec Db A → Exec Desk A
on_db m d =
    let (result, db) = m d.pool.db in (result, record d { pool = record d.pool { db = db } })

-- What cannot fail.
abbrev pub always : {A : Type 0} → (Pool → A × Pool) → Exec Desk A
always m d = let (a, pool) = m d.pool in (returned a, record d { pool = pool })
