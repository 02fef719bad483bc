-- ===== src/Guards.antt =====
-- app/api/deps.py: who may call the administration and the proxy.
-- FastAPI's `get_authorization_scheme_param`, which splits the header, is a parameter.
pub mod Admin
pub mod Users
pub mod Tests
use ollama_proxy.Prelude.{
  ℕ, String, Bool, true, false, not, ◌||◌, Option, none, some, str_eq, if◌then◌else◌,
}
use ollama_proxy.Exec.{Exec, Exception, Result, returned, raised, value_error, http_exception}
use ollama_proxy.Models.{Db, UserToken}
use ollama_proxy.UserTokens.{authenticate, has_any_active_token}
use ollama_proxy.KeyManager.RetryAfter.{lower_is}

-- The database, and the flag `_dev_mode_warned` of the module.
pub record GuardState : Type 0 where
  pub db : Db
  pub dev_mode_warned : Bool

abbrev pub unauthorized : String → Exception
unauthorized detail = http_exception 401 detail

abbrev pub missing_admin : Exception
missing_admin = unauthorized "missing Authorization: Bearer <ADMIN_TOKEN>"

abbrev pub invalid_admin : Exception
invalid_admin = unauthorized "invalid admin token"

abbrev pub missing_user : Exception
missing_user = unauthorized "missing Authorization: Bearer <opk_…>"

abbrev pub invalid_user : Exception
invalid_user = unauthorized "invalid bearer token"

abbrev pub expired_user : Exception
expired_user = unauthorized "invalid or expired bearer token"

abbrev pub log_dev_mode_once : GuardState → GuardState
log_dev_mode_once s = record s { dev_mode_warned = true }

-- `except ValueError`, and a token that was not found.
abbrev pub or_401 :
    Result (Option UserToken) × Db → GuardState → Result (Option UserToken) × GuardState
or_401 (returned (some token), db) s = (returned (some token), record s { db = db })
or_401 (returned none, db) s = (raised expired_user, record s { db = db })
or_401 (raised value_error, db) s = (raised invalid_user, record s { db = db })
or_401 (raised e, db) s = (raised e, record s { db = db })

-- `hmac.compare_digest` is equality.
abbrev pub check_admin : String → Option String → Result (Unit {0})
check_admin configured none = raised missing_admin
check_admin configured (some presented) =
    if str_eq presented configured then returned tt else raised invalid_admin

module _ (scheme_param : String → String × String) where
  -- The value of the request's Authorization header, if it has one.
  unfoldable pub extract_bearer : Option String → Option String
  unfolding lower_is
  extract_bearer none = none
  extract_bearer (some auth) =
      if str_eq auth ""
      then none
      else if not (lower_is (scheme_param auth).0 "bearer") || str_eq (scheme_param auth).1 ""
      then none
      else some (scheme_param auth).1

  unfoldable pub require_admin_token : Option String → Option String → Result (Unit {0})
  unfolding extract_bearer
  require_admin_token none header = returned tt
  require_admin_token (some configured) header =
      if str_eq configured "" then returned tt else check_admin configured (extract_bearer header)

  module _ (sha256 : String → String) (checked now : ℕ) where
    unfoldable pub guard_user : Option String → Exec GuardState (Option UserToken)
    unfolding authenticate has_any_active_token
    guard_user none s =
        if not (has_any_active_token s.db)
        then (returned none, log_dev_mode_once s)
        else (raised missing_user, s)
    guard_user (some presented) s = or_401 (authenticate sha256 checked now presented s.db) s

    unfoldable pub require_user_token : Option String → Exec GuardState (Option UserToken)
    unfolding guard_user extract_bearer
    require_user_token header s = guard_user (extract_bearer header) s
