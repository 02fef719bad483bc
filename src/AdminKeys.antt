-- ===== src/AdminKeys.antt =====
-- app/api/v1/admin.py: the administration of the stored keys. Its routes of the
-- usage stand with the service, in Usage. SHA-256 is a parameter.
pub mod Create
pub mod Reset
pub mod Probes
pub mod Tests
use ollama_proxy.Prelude.{
  ℕ, String, Bool, true, false, Option, none, some, List, [], ◌∷◌, ◌++◌, str_eq, if◌then◌else◌,
  length,
}
use ollama_proxy.Clock.{Datetime, aware}
use ollama_proxy.Python.{Float}
use ollama_proxy.Exec.{
  Exec, Exception, Result, returned, raised, value_error, vault_decrypt_error, api_key_not_found,
  probe_model_missing, http_exception, continue, ◌>>=◌, pure, lift, raise,
}
use ollama_proxy.Table
use ollama_proxy.Models.{ApiKey, ApiKeyStatus, active, depleted, disabled, value, key_preview}
use ollama_proxy.Vault.{Vault, encrypt, safe_decrypt}
use ollama_proxy.OllamaClient.{HttpRequest, HttpResult}
use ollama_proxy.OllamaClient.Probe.{ProbeResult, probe}
use ollama_proxy.KeyManager.{Pool, with_keys}
use ollama_proxy.KeyManager.Records.{find_key, set_key}
use ollama_proxy.UserTokens.{first_chars, or_keep}
use ollama_proxy.KeysOps.{
  ApiKeyHealth, ProbeEnv, load_or_404, build_health_snapshot, require_probe_model, classify,
  probe_all_active,
}

-- An `ApiKeyOut`.
pub record ApiKeyOut : Type 0 where
  pub id : ℕ
  pub label : Option String
  pub preview : String
  pub status : ApiKeyStatus
  pub last_used_at : Option Datetime
  pub last_status_code : Option ℕ
  pub cooldown_until : Option Datetime
  pub total_requests : ℕ
  pub total_failures : ℕ
  pub created_at : Datetime
  pub updated_at : Datetime
  pub session_usage_fraction : Option Float
  pub weekly_usage_fraction : Option Float
  pub last_usage_fetch_at : Option Datetime

-- `ApiKeyStatus(text)`
abbrev pub status_of : String → Result ApiKeyStatus
status_of text =
    if str_eq text (value active)
    then returned active
    else if str_eq text (value depleted)
    then returned depleted
    else if str_eq text (value disabled)
    then returned disabled
    else raised value_error

abbrev pub out_with : ApiKey → Result ApiKeyStatus → Result ApiKeyOut
out_with key (raised e) = raised e
out_with key (returned status) = returned (record {
  id = key.id;
  label = key.label;
  preview = key_preview key;
  status = status;
  last_used_at = key.last_used_at;
  last_status_code = key.last_status_code;
  cooldown_until = key.cooldown_until;
  total_requests = key.total_requests;
  total_failures = key.total_failures;
  created_at = key.created_at;
  updated_at = key.updated_at;
  session_usage_fraction = key.last_usage_session_fraction;
  weekly_usage_fraction = key.last_usage_weekly_fraction;
  last_usage_fetch_at = key.last_usage_fetch_at;
})

abbrev pub from_orm_key : ApiKey → Result ApiKeyOut
from_orm_key key = out_with key (status_of key.status)

abbrev pub key_not_found : Exception
key_not_found = http_exception 404 "API key not found"

abbrev pub key_exists : Exception
key_exists = http_exception 409 "API key with the same value already exists"

-- `except ApiKeyNotFoundError`
abbrev pub or_404 : Result ApiKey → Result ApiKey
or_404 (raised (api_key_not_found key_id)) = raised key_not_found
or_404 r = r

abbrev pub load_for_route : ℕ → Exec Pool ApiKey
load_for_route key_id s = (or_404 (load_or_404 key_id s).0, s)

unfoldable pub find_key_hash : String → List ApiKey → Option ApiKey
find_key_hash h [] = none
find_key_hash h (k ∷ rows) = if str_eq k.key_hash h then some k else find_key_hash h rows

-- The columns that the route gives, and the defaults of the others.
abbrev pub new_key : ℕ → String → String → String → Option String → ℕ → ApiKey
new_key id key_hash key_prefix key_encrypted label now = record {
  id = id;
  key_hash = key_hash;
  key_prefix = key_prefix;
  key_encrypted = key_encrypted;
  label = label;
  status = value active;
  last_used_at = none;
  last_status_code = none;
  cooldown_until = none;
  total_requests = 0;
  total_failures = 0;
  created_at = aware now;
  updated_at = aware now;
  account_email = none;
  account_name = none;
  account_plan = none;
  account_id = none;
  last_usage_fetch_at = none;
  last_usage_session = none;
  last_usage_weekly = none;
  last_usage_models_json = none;
  last_usage_session_fraction = none;
  last_usage_weekly_fraction = none;
  session_prompt_tokens = 0;
  session_completion_tokens = 0;
  session_window_started_at = none;
  weekly_prompt_tokens = 0;
  weekly_completion_tokens = 0;
  weekly_window_started_at = none;
  last_token_at = none;
}

module _ (sha256 : String → String) (vault : Vault) where
  -- The existence check, and the insertion.
  abbrev pub insert_key :
      ℕ → Option String → String → String → Option ApiKey → Exec Pool (ApiKeyOut × String)
  insert_key now label raw_key key_encrypted (some existing) s = (raised key_exists, s)
  insert_key now label raw_key key_encrypted none s =
      let id = Table.next_id (λ (k : ApiKey). k.id) s.api_keys in
      let row = new_key id (sha256 raw_key) (first_chars 8 raw_key) key_encrypted label now in
      continue (from_orm_key row) (λ out. pure (out, raw_key))
        (with_keys s (s.api_keys ++ row ∷ []))

  abbrev pub create_encrypted :
      ℕ → Option String → String → Result String → Exec Pool (ApiKeyOut × String)
  create_encrypted now label raw_key (raised e) s = (raised e, s)
  create_encrypted now label raw_key (returned key_encrypted) s =
      insert_key now label raw_key key_encrypted (find_key_hash (sha256 raw_key) s.api_keys) s

  unfoldable pub create_key : ℕ → Option String → String → Exec Pool (ApiKeyOut × String)
  unfolding find_key_hash
  create_key now label raw_key s = create_encrypted now label raw_key (encrypt vault raw_key) s

-- `[ApiKeyOut.from_orm_key(k) for k in rows]`
abbrev pub outs : List ApiKey → Result (List ApiKeyOut)
outs [] = returned []
outs (key ∷ keys) = cons_out (from_orm_key key) (outs keys)
  where
    cons_out : Result ApiKeyOut → Result (List ApiKeyOut) → Result (List ApiKeyOut)
    cons_out (raised e) rest = raised e
    cons_out (returned out) (raised e) = raised e
    cons_out (returned out) (returned rest) = returned (out ∷ rest)

abbrev pub list_keys : Exec Pool (List ApiKeyOut)
list_keys s = (outs (Table.order_by_id (λ (k : ApiKey). k.id) s.api_keys), s)

abbrev pub get_key : ℕ → Exec Pool ApiKeyOut
get_key key_id = load_for_route key_id >>= λ key. lift (from_orm_key key)

-- What a PATCH sets; the cooldown stays as it is.
unfoldable pub patched : ℕ → Option String → Option ApiKeyStatus → ApiKey → ApiKey
patched now label none key = record key {
  label = elim label [ none ↦ key.label | some l ↦ some l ];
  updated_at = aware now;
}
patched now label (some status) key = record key {
  label = elim label [ none ↦ key.label | some l ↦ some l ];
  status = value status;
  updated_at = aware now;
}

abbrev pub update_found :
    ℕ → Option String → Option ApiKeyStatus → Result ApiKey → Exec Pool ApiKeyOut
update_found now label status (raised e) s = (raised e, s)
update_found now label status (returned key) s = (
  from_orm_key (patched now label status key),
  with_keys s (set_key key.id (patched now label status) s.api_keys),
)

unfoldable pub update_key : ℕ → ℕ → Option String → Option ApiKeyStatus → Exec Pool ApiKeyOut
unfolding load_or_404 patched
update_key now key_id label status s = update_found now label status (load_for_route key_id s).0 s

abbrev pub delete_found : Result ApiKey → Exec Pool (Unit {0})
delete_found (raised e) s = (raised e, s)
delete_found (returned key) s =
    (returned tt, with_keys s (Table.delete_row (λ k. k.id) key.id s.api_keys))

unfoldable pub delete_key : ℕ → Exec Pool (Unit {0})
unfolding load_or_404
delete_key key_id s = delete_found (load_for_route key_id s).0 s

-- The SET clause of the reset.
unfoldable pub cleared : ℕ → ApiKey → ApiKey
cleared now key = record key {
  status = value active;
  cooldown_until = none;
  last_status_code = none;
  total_failures = 0;
  updated_at = aware now;
}

abbrev pub every_row : ApiKey → Bool
every_row key = true

unfoldable pub reset_key_states : ℕ → Pool → ApiKeyHealth × Pool
unfolding cleared build_health_snapshot
reset_key_states now s =
    let s' = with_keys s (Table.update_where every_row (cleared now) s.api_keys) in
    (build_health_snapshot now s', s')

unfoldable pub health : ℕ → Pool → ApiKeyHealth × Pool
unfolding build_health_snapshot
health now s = (build_health_snapshot now s, s)
