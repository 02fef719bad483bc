-- ===== src/DashboardAuth/Guard.antt =====
-- app/api/deps_dashboard.py: who may use the dashboard, and which form posts pass.
use ollama_proxy.Prelude.{
  ℕ, String, Option, none, some, List, [], ◌∷◌, str_eq, if◌then◌else◌, or_else,
}
use ollama_proxy.Exec.{Exception, Result, returned, raised, http_exception}
use ollama_proxy.DashboardAuth.{
  DashboardAuth, session_cookie, csrf_cookie, verify_session, verify_csrf,
}

-- A field of a form is a text, or a file with its `repr`.
pub data FormValue : Type 0 where
  text : String → FormValue
  file : String → FormValue

-- The cookies and the form as Starlette's dictionaries, and the X-CSRF-Token header.
pub record Request : Type 0 where
  pub cookies : List (String × String)
  pub form : List (String × FormValue)
  pub csrf_header : Option String

abbrev pub lookup : {A : Type 0} → String → List (String × A) → Option A
lookup key [] = none
lookup key ((name, value) ∷ rest) = if str_eq name key then some value else lookup key rest

-- `request.cookies.get(name, "")`
abbrev pub cookie : Request → String → String
cookie request name = or_else (lookup name request.cookies) ""

unfoldable pub get_dashboard_session : DashboardAuth → ℕ → Request → Option String
unfolding verify_session
get_dashboard_session auth now request = verify_session auth (cookie request session_cookie) now

-- The texts of the form.
abbrev pub read_form : List (String × FormValue) → List (String × String)
read_form [] = []
read_form ((name, text value) ∷ rest) = (name, value) ∷ read_form rest
read_form ((name, file shown) ∷ rest) = read_form rest

-- The form's own token, or else the header's.
abbrev pub or_header : Option String → Option String → Option String
or_header none header = header
or_header (some token) header = if str_eq token "" then header else some token

abbrev pub presented : Request → Option String
presented request = or_header (lookup "csrf_token" (read_form request.form)) request.csrf_header

abbrev pub forbidden : String → Result (Unit {0})
forbidden detail = raised (http_exception 403 detail)

abbrev pub no_session : Exception
no_session = http_exception 401 "no session"

-- `hmac.compare_digest` is equality.
abbrev pub check_token : DashboardAuth → ℕ → String → String → Option String → Result (Unit {0})
unfolding verify_csrf
check_token auth now session_id cookie_token none = forbidden "missing csrf_token"
check_token auth now session_id cookie_token (some token) =
    if str_eq cookie_token ""
    then forbidden "missing csrf cookie"
    else if str_eq token cookie_token
    then (if verify_csrf auth session_id (some token) now
        then returned tt
        else forbidden "invalid csrf token")
    else forbidden "csrf token mismatch"

abbrev pub check_session : DashboardAuth → ℕ → Request → Option String → Result (Unit {0})
unfolding verify_csrf
check_session auth now request none = raised no_session
check_session auth now request (some session_id) =
    if str_eq session_id ""
    then raised no_session
    else check_token auth now session_id (cookie request csrf_cookie) (presented request)

unfoldable pub require_dashboard_csrf : DashboardAuth → ℕ → Request → Result (Unit {0})
unfolding get_dashboard_session verify_csrf
require_dashboard_csrf auth now request =
    check_session auth now request (get_dashboard_session auth now request)
