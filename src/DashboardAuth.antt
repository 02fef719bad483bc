-- ===== src/DashboardAuth.antt =====
-- app/services/dashboard_auth.py: the sessions of the dashboard, its CSRF tokens and its flash
-- messages. The signing serializers of itsdangerous are parameters, and so are what `secrets` returns
-- and the JSON text of a flash message. Moments are the whole seconds that a signature carries.
pub mod Guard
pub mod Sessions
pub mod Tests
use ollama_proxy.Prelude.{
  ℕ, zero, suc, String, Bool, true, false, ◌&&◌, ◌||◌, not, Option, none, some, str_eq,
  if◌then◌else◌, leb,
}
use ollama_proxy.Prelude.Int.{ℤ}
use ollama_proxy.Exec.{Exception, Result, returned, raised, value_error, runtime_error}
use ollama_proxy.Python.{Json, Fields, str, dict, end, field, get, strip}

-- A `URLSafeTimedSerializer`: `dumps` at a moment, and `loads` with a `max_age` at a moment, which is
-- nothing where the library raises SignatureExpired or BadSignature.
pub record Serializer (P : Type 0) : Type 0 where
  pub dumps : P → ℕ → String
  pub loads : String → ℕ → ℕ → Option P

-- The serializers of one secret, by their salt: a session's payload is a text, a CSRF token's is an
-- object, and a flash's is the text of an object.
pub record Serializers : Type 0 where
  pub session : Serializer String
  pub csrf : Serializer Json
  pub flash : Serializer String

-- `json.dumps` and `json.loads`, which gives nothing where it raises ValueError.
pub record JsonText : Type 0 where
  pub dumps : Json → String
  pub loads : String → Option Json

pub record DashboardAuth : Type 0 where
  pub secret : String
  pub session_ttl_seconds : ℕ
  pub cookie_secure : Bool
  pub signers : Serializers

abbrev pub session_cookie : String
session_cookie = "opdash_sid"

abbrev pub csrf_cookie : String
csrf_cookie = "opdash_csrf"

abbrev pub flash_cookie : String
flash_cookie = "opdash_flash"

abbrev pub csrf_cookie_max_age : ℕ
csrf_cookie_max_age = 86400

abbrev pub flash_max_age : ℕ
flash_max_age = 60

abbrev with_ttl : (String → Serializers) → String → ℤ → Bool → Result DashboardAuth
with_ttl signers secret (ℤ.pos (suc ttl)) cookie_secure = returned (record {
  secret = secret;
  session_ttl_seconds = suc ttl;
  cookie_secure = cookie_secure;
  signers = signers secret;
})
with_ttl signers secret _ cookie_secure = raised value_error

unfoldable pub init : (String → Serializers) → String → ℤ → Bool → Result DashboardAuth
init signers secret ttl cookie_secure =
    if str_eq secret "" then raised value_error else with_ttl signers secret ttl cookie_secure

-- A flash, as the templates get it.
pub record Flash : Type 0 where
  pub level : String
  pub msg : String

abbrev pub csrf_payload : String → String → Json
csrf_payload session_id token = dict (field "sid" (str session_id) (field "t" (str token) end))

abbrev pub is_text : Option Json → String → Bool
is_text (some (str text)) session_id = str_eq text session_id
is_text _ session_id = false

abbrev pub names_session : Option Json → String → Bool
unfolding get
names_session (some (dict payload)) session_id = is_text (get payload "sid") session_id
names_session _ session_id = false

module _ (auth : DashboardAuth) where
  -- `raw` is what `secrets.token_urlsafe(32)` gives.
  unfoldable pub issue_session : String → ℕ → String
  issue_session raw now = auth.signers.session.dumps raw now

  unfoldable pub verify_session : String → ℕ → Option String
  verify_session value now =
      if str_eq value ""
      then none
      else auth.signers.session.loads value auth.session_ttl_seconds now

  unfoldable pub reissue_session : String → ℕ → String
  reissue_session session_id now =
      if str_eq session_id "" then "" else auth.signers.session.dumps session_id now

  -- `token` is what `secrets.token_urlsafe(16)` gives.
  unfoldable pub issue_csrf : String → String → ℕ → Result String
  issue_csrf session_id token now =
      if str_eq session_id ""
      then raised value_error
      else returned (auth.signers.csrf.dumps (csrf_payload session_id token) now)

  abbrev pub verify_nonempty : String → Option String → ℕ → Bool
  unfolding get
  verify_nonempty session_id none now = false
  verify_nonempty session_id (some token) now =
      if str_eq token ""
      then false
      else names_session (auth.signers.csrf.loads token csrf_cookie_max_age now) session_id

  unfoldable pub verify_csrf : String → Option String → ℕ → Bool
  unfolding get
  verify_csrf session_id token now =
      if str_eq session_id "" then false else verify_nonempty session_id token now

abbrev pub is_level : String → Bool
is_level level = str_eq level "ok" || str_eq level "error"

abbrev pub flash_payload : String → String → Json
flash_payload level msg = dict (field "level" (str level) (field "msg" (str msg) end))

abbrev pub flash_of : Option Json → Option Json → Option Flash
flash_of (some (str level)) (some (str msg)) =
    if is_level level && not (str_eq (strip msg) "")
    then some (record { level = level; msg = msg })
    else none
flash_of _ _ = none

abbrev pub flash_of_json : Option Json → Option Flash
unfolding get
flash_of_json (some (dict payload)) = flash_of (get payload "level") (get payload "msg")
flash_of_json _ = none

module _ (auth : DashboardAuth) (json : JsonText) where
  unfoldable pub flash_put : String → String → ℕ → Result String
  flash_put level msg now =
      if is_level level
      then returned (auth.signers.flash.dumps (json.dumps (flash_payload level msg)) now)
      else raised value_error

  abbrev pub flash_loaded : Option String → Option Flash
  unfolding get
  flash_loaded none = none
  flash_loaded (some raw) = flash_of_json (json.loads raw)

  -- A cookie that is not there reads as an empty text.
  unfoldable pub flash_read : String → ℕ → Option Flash
  unfolding get
  flash_read value now =
      if str_eq value ""
      then none
      else flash_loaded (auth.signers.flash.loads value flash_max_age now)

-- The instance of the module, until it is set.
unfoldable pub get_dashboard_auth : Option DashboardAuth → Result DashboardAuth
get_dashboard_auth none = raised runtime_error
get_dashboard_auth (some auth) = returned auth
