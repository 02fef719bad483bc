-- ===== src/App/Config.antt =====
-- app/core/config.py: the settings, their defaults, and their validators. A raw value is what
-- pydantic has read from the environment or a keyword: a text, a Boolean, a number or nothing.
-- `str.lower` is a parameter.
use ollama_proxy.Prelude.{String, Bool, ◌||◌, Option, ltb, str_eq, if◌then◌else◌, none, true, false}
use ollama_proxy.Prelude.Int.{ℤ, pos, negsuc}
use ollama_proxy.Exec.{Result, returned, raised, value_error}
use ollama_proxy.Python.{Float, finite, Json, null, bool_false, bool_true, str}

pub record Settings : Type 0 where
  pub ollama_base_url : String
  pub db_path : String
  pub probe_model : Option String
  pub timeout : Float
  pub max_rotation_iterations_safety_margin : ℤ
  pub model_cache_ttl_seconds : ℤ
  pub usage_refresh_interval_seconds : ℤ
  pub usage_request_timeout_seconds : Float
  pub admin_token : Option String
  pub cors_allow_origins : String
  pub enable_docs : Bool
  pub enable_dashboard : Bool
  pub dashboard_password : Option String
  pub dashboard_session_secret : Option String
  pub dashboard_session_ttl_seconds : ℤ
  pub dashboard_cookie_secure : Bool
  pub dashboard_templates_dir : String

abbrev pub defaults : Settings
defaults = record {
  ollama_base_url = "https://ollama.com";
  db_path = "./data/ollama_proxy.db";
  probe_model = none;
  timeout = finite (pos 30) 0;
  max_rotation_iterations_safety_margin = pos 1;
  model_cache_ttl_seconds = pos 300;
  usage_refresh_interval_seconds = pos 300;
  usage_request_timeout_seconds = finite (pos 15) 0;
  admin_token = none;
  cors_allow_origins = "";
  enable_docs = false;
  enable_dashboard = false;
  dashboard_password = none;
  dashboard_session_secret = none;
  dashboard_session_ttl_seconds = pos 3600;
  dashboard_cookie_secure = true;
  dashboard_templates_dir = "./templates";
}

-- The four validators that turn an empty text into None.
unfoldable pub empty_to_none : Json → Json
empty_to_none (str text) = if str_eq text "" then null else str text
empty_to_none value = value

abbrev pub is_off : String → Bool
is_off text = str_eq text "0" || str_eq text "false" || str_eq text "no" || str_eq text "off"

abbrev pub is_off_as_given : String → Bool
is_off_as_given text = str_eq text "" || str_eq text "False" || is_off text

-- The three validators of the flags.
unfoldable pub empty_to_false : (String → String) → Json → Json
empty_to_false lower null = bool_false
empty_to_false lower (str text) =
    if is_off_as_given text || is_off (lower text) then bool_false else bool_true
empty_to_false lower value = value

-- `_validate_dashboard_ttl`
unfoldable pub validate_dashboard_ttl : ℤ → Result ℤ
validate_dashboard_ttl (negsuc n) = raised value_error
validate_dashboard_ttl (pos n) =
    if ltb n 60
    then raised value_error
    else if ltb 86400 n
    then raised value_error
    else returned (pos n)
