-- ===== src/Models.antt =====
-- The two tables: app/models/api_key.py and app/models/user_token.py.
use Prim.Native.String.{◌++◌}
use ollama_proxy.Prelude.{ℕ, String, Bool, Option, List, [], ◌∷◌, str_eq, if◌then◌else◌}
use ollama_proxy.Prelude.Int.{ℤ}
use ollama_proxy.Clock.{Datetime}
use ollama_proxy.Python.{Float}

pub data ApiKeyStatus : Type 0 where
  active depleted disabled : ApiKeyStatus

-- `.value` of the enum. The column itself holds any text.
abbrev pub value : ApiKeyStatus → String
value active = "active"
value depleted = "depleted"
value disabled = "disabled"

abbrev pub values : List ApiKeyStatus
values = active ∷ depleted ∷ disabled ∷ []

pub record ApiKey : Type 0 where
  pub id : ℕ
  pub key_hash : String
  pub key_prefix : String
  pub key_encrypted : String
  pub label : Option String
  pub status : String
  pub last_used_at : Option Datetime
  pub last_status_code : Option ℕ
  pub cooldown_until : Option Datetime
  pub total_requests : ℕ
  pub total_failures : ℕ
  pub created_at : Datetime
  pub updated_at : Datetime
  pub account_email : Option String
  pub account_name : Option String
  pub account_plan : Option String
  pub account_id : Option String
  pub last_usage_fetch_at : Option Datetime
  pub last_usage_session : Option ℤ
  pub last_usage_weekly : Option ℤ
  pub last_usage_models_json : Option String
  pub last_usage_session_fraction : Option Float
  pub last_usage_weekly_fraction : Option Float
  pub session_prompt_tokens : ℕ
  pub session_completion_tokens : ℕ
  pub session_window_started_at : Option Datetime
  pub weekly_prompt_tokens : ℕ
  pub weekly_completion_tokens : ℕ
  pub weekly_window_started_at : Option Datetime
  pub last_token_at : Option Datetime

-- `f"{prefix}…"`, or nothing for an empty prefix.
unfoldable pub preview : String → String
preview prefix = if str_eq prefix "" then "" else prefix ++ "…"

abbrev pub key_preview : ApiKey → String
key_preview key = preview key.key_prefix

pub data UserTokenStatus : Type 0 where
  active revoked : UserTokenStatus

abbrev pub token_value : UserTokenStatus → String
token_value active = "active"
token_value revoked = "revoked"

pub record UserToken : Type 0 where
  pub id : ℕ
  pub key_hash : String
  pub key_prefix : String
  pub label : String
  pub status : String
  pub expires_at : Option Datetime
  pub last_used_at : Option Datetime
  pub total_requests : ℕ
  pub created_at : Datetime
  pub updated_at : Datetime

abbrev pub token_preview : UserToken → String
token_preview token = preview token.key_prefix

-- What one session reads and writes.
pub record Db : Type 0 where
  pub api_keys : List ApiKey
  pub user_tokens : List UserToken

abbrev pub has_status : ApiKeyStatus → ApiKey → Bool
has_status s key = str_eq key.status (value s)
