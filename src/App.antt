-- ===== src/App.antt =====
-- app/main.py: the start of the application, its background refresh, its CORS settings and its health
-- check. The engine of SQLAlchemy, the HTTP client, the templates and the routers are not modelled.
pub mod Config
pub mod Database
pub mod Migration
pub mod Cycles
pub mod Start
pub mod Tests
use Prim.Native.Char.{Char, code}
use ollama_proxy.Prelude.{
  ℕ, zero, suc, String, Bool, true, false, not, ◌&&◌, ◌||◌, Option, none, some, List, [], ◌∷◌, ◌==◌,
  ltb, str_eq, if◌then◌else◌, or_else, is_some, keep, map,
}
use ollama_proxy.Prelude.Int.{ℤ, pos_part}
use ollama_proxy.Python.{strip}
use ollama_proxy.Exec.{Result, returned, raised, runtime_error, and_then}
use ollama_proxy.Vault.{Vault}
use ollama_proxy.ModelCache
use ollama_proxy.ModelCache.{ModelCache}
use ollama_proxy.Usage
use ollama_proxy.Usage.{UsageService, UsageEnv}
use ollama_proxy.Usage.Store.{Desk, refresh_all_active}
use ollama_proxy.DashboardAuth
use ollama_proxy.DashboardAuth.{DashboardAuth, Serializers}
use ollama_proxy.App.Config.{Settings}

-- What `lifespan` puts on the application's state, and the singletons that it sets.
pub record App : Type 0 where
  pub vault : Vault
  pub model_cache : ModelCache
  pub usage_service : UsageService
  pub dashboard_auth : Option DashboardAuth
  pub refreshing : Bool

abbrev pub missing_if : Bool → String → List String → List String
missing_if given name rest = if given then rest else name ∷ rest

-- A setting that is there and not empty.
abbrev pub is_given : Option String → Bool
is_given setting = not (str_eq (or_else setting "") "")

-- The environment variables that the dashboard misses.
unfoldable pub missing_settings : Settings → List String
missing_settings settings =
    missing_if (is_given settings.dashboard_password) "DASHBOARD_PASSWORD"
      (missing_if (is_given settings.dashboard_session_secret) "DASHBOARD_SESSION_SECRET" [])

module _ (signers : String → Serializers) where
  abbrev pub auth_unless_missing : Settings → List String → Result (Option DashboardAuth)
  unfolding DashboardAuth.init
  auth_unless_missing settings (name ∷ names) = raised runtime_error
  auth_unless_missing settings [] =
      and_then
        (DashboardAuth.init signers (or_else settings.dashboard_session_secret "")
          settings.dashboard_session_ttl_seconds settings.dashboard_cookie_secure)
        (λ auth. returned (some auth))

  unfoldable pub dashboard_of : Settings → Result (Option DashboardAuth)
  unfolding missing_settings DashboardAuth.init
  dashboard_of settings =
      if settings.enable_dashboard
      then auth_unless_missing settings (missing_settings settings)
      else returned none

  -- The part of `lifespan` before the `yield`, with the vault that `build_vault` gives.
  unfoldable pub start : Vault → Settings → Result App
  unfolding dashboard_of ModelCache.init Usage.init
  start vault settings = and_then (dashboard_of settings) (λ auth. returned (record {
    vault = vault;
    model_cache = ModelCache.init (pos_part settings.model_cache_ttl_seconds);
    usage_service = Usage.init settings.usage_refresh_interval_seconds;
    dashboard_auth = auth;
    refreshing = ltb 0 (pos_part settings.usage_refresh_interval_seconds);
  }))

-- The `finally`: the task ends, and the dashboard's singleton is taken back.
unfoldable pub stop : App → App
stop app = record app { dashboard_auth = none; refreshing = false }

-- `_usage_refresh_loop`, cycle by cycle: each has a world and a moment of its own. A cycle raises
-- nothing here, and what it would raise is logged.
unfoldable pub refresh_cycles : (ℕ → UsageEnv) → (ℕ → ℕ) → ℕ → Desk → Desk
unfolding refresh_all_active
refresh_cycles world moment zero d = d
refresh_cycles world moment (suc n) d =
    (refresh_all_active (world n) (moment n) (refresh_cycles world moment n d)).1

abbrev longer : Char → List String → List String
longer c [] = String.◌∷◌ c "" ∷ []
longer c (part ∷ parts) = String.◌∷◌ c part ∷ parts

-- `text.split(",")`
abbrev pub split_commas : String → List String
split_commas String.[] = "" ∷ []
split_commas (String.◌∷◌ c s) =
    let rest = split_commas s in if code c == 44 then "" ∷ rest else longer c rest

-- What the CORS middleware is given.
pub record Cors : Type 0 where
  pub origins : List String
  pub credentials : Bool

abbrev is_wildcard : List String → Bool
is_wildcard (origin ∷ []) = str_eq origin "*"
is_wildcard _ = false

abbrev with_origins : List String → Cors
with_origins origins = record { origins = origins; credentials = not (is_wildcard origins) }

-- No middleware without the setting.
unfoldable pub cors_of : String → Option Cors
cors_of setting =
    let raw = strip setting in
    if str_eq raw ""
    then none
    else some (
        if str_eq raw "*"
        then with_origins ("*" ∷ [])
        else with_origins (keep (λ o. not (str_eq o "")) (map strip (split_commas raw))))

-- GET /healthz: the status code, and the status of the body.
unfoldable pub healthz : Bool → Bool → Bool → ℕ × String
healthz engine_ready is_persistent vault_initialised =
    if engine_ready && (is_persistent || vault_initialised) then (200, "ok") else (503, "starting")
