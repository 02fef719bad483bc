-- ===== src/DashboardBackend.antt =====
-- app/services/dashboard_backend.py: the operations behind the pages of the dashboard. A dictionary
-- that `model_dump` makes is the record that it is made of, and a session is the database it opens.
-- What is a parameter of the services is one here.
pub mod Admin
pub mod Tests
use Prim.Native.String.{◌++◌ as append}
use ollama_proxy.Prelude.{
  ℕ, String, Bool, true, false, Option, none, some, List, [], ◌∷◌, ◌++◌, str_eq, if◌then◌else◌,
  is_some,
}
use ollama_proxy.Clock.{Datetime, aware}
use ollama_proxy.Python.{decimal}
use ollama_proxy.Exec.{
  Exec, Exception, Result, returned, raised, value_error, lookup_error, vault_decrypt_error,
  probe_model_missing, dashboard_client_error, continue, ◌>>=◌, pure, lift, raise,
}
use ollama_proxy.Table
use ollama_proxy.Models.{ApiKey, Db, UserToken, UserTokenStatus, active, value}
use ollama_proxy.Vault.{Vault, encrypt, safe_decrypt}
use ollama_proxy.OllamaClient.Probe.{ProbeResult, probe}
use ollama_proxy.KeyManager.{Pool, with_keys}
use ollama_proxy.KeyManager.Records.{find_key, set_key}
use ollama_proxy.UserTokens.{
  Changes, first_chars, create_token, list_tokens, get_token, update_token, hard_delete_user_token,
}
use ollama_proxy.KeysOps.{
  ApiKeyHealth, ProbeEnv, require_probe_model, classify, probe_all_active, build_health_snapshot,
}
use ollama_proxy.AdminKeys.{
  ApiKeyOut, from_orm_key, outs, find_key_hash, new_key, every_row, cleared,
}
use ollama_proxy.AdminKeys.Probes.{probe_model_text}
use ollama_proxy.AdminUserTokens.{UserTokenOut, from_orm_token, token_outs, with_raw}
use ollama_proxy.Usage.{KeyUsageSnapshot, UsageEnv, UsageService, fetch_snapshot}
use ollama_proxy.Usage.Store.{Desk, persist_snapshot, refresh_all_active, nothing_else}

-- `DashboardClientError.short`, for the source "in-process" and a body with a detail.
unfoldable pub short : ℕ → String → String
unfolding decimal
short code detail = append "in-process error " (append (decimal code) (append ": " detail))

abbrev pub client_error : {A : Type 0} → ℕ → String → Result A
client_error code detail = raised (dashboard_client_error code detail)

abbrev pub model_or_client_error : Result String → Result String
model_or_client_error (raised probe_model_missing) = client_error 503 probe_model_text
model_or_client_error r = r

-- `_require_probe_model`, from the settings' `probe_model`.
unfoldable pub require_model : Option String → Result String
unfolding require_probe_model
require_model setting = model_or_client_error (require_probe_model setting)

-- `session.get(ApiKey, key_id)`, and the error where there is none.
abbrev pub key_or_client_error : Option ApiKey → Result ApiKey
key_or_client_error none = client_error 404 "API key not found"
key_or_client_error (some key) = returned key

abbrev pub load : ℕ → Exec Pool ApiKey
load key_id s = (key_or_client_error (find_key key_id s.api_keys), s)

abbrev pub list_keys : Exec Pool (List ApiKeyOut)
list_keys s = (outs (Table.order_by_id (λ (k : ApiKey). k.id) s.api_keys), s)

abbrev pub get_key : ℕ → Exec Pool ApiKeyOut
get_key key_id = load key_id >>= λ key. lift (from_orm_key key)

module _ (sha256 : String → String) (vault : Vault) where
  -- The dictionary goes with its `raw_key`.
  abbrev pub insert_key :
      ℕ → Option String → String → String → Option ApiKey → Exec Pool (ApiKeyOut × String)
  insert_key now label key key_encrypted (some existing) s =
      (client_error 409 "API key with the same value already exists", s)
  insert_key now label key key_encrypted none s =
      let id = Table.next_id (λ (k : ApiKey). k.id) s.api_keys in
      let row = new_key id (sha256 key) (first_chars 8 key) key_encrypted label now in
      continue (from_orm_key row) (λ payload. pure (payload, key))
        (with_keys s (s.api_keys ++ row ∷ []))

  abbrev pub create_encrypted :
      ℕ → Option String → String → Result String → Exec Pool (ApiKeyOut × String)
  create_encrypted now label key (raised e) s = (raised e, s)
  create_encrypted now label key (returned key_encrypted) s =
      insert_key now label key key_encrypted (find_key_hash (sha256 key) s.api_keys) s

  unfoldable pub create_key : ℕ → Option String → String → Exec Pool (ApiKeyOut × String)
  unfolding find_key_hash
  create_key now label key s = create_encrypted now label key (encrypt vault key) s

-- The status comes as a text here.
unfoldable pub edited : ℕ → Option String → Option String → ApiKey → ApiKey
edited now label status key = record key {
  label = elim label [ none ↦ key.label | some l ↦ some l ];
  status = elim status [ none ↦ key.status | some text ↦ text ];
  updated_at = aware now;
}

abbrev pub update_found : ℕ → Option String → Option String → Result ApiKey → Exec Pool ApiKeyOut
unfolding edited
update_found now label status (raised e) s = (raised e, s)
update_found now label status (returned key) s = (
  from_orm_key (edited now label status key),
  with_keys s (set_key key.id (edited now label status) s.api_keys),
)

unfoldable pub update_key : ℕ → ℕ → Option String → Option String → Exec Pool ApiKeyOut
unfolding edited
update_key now key_id label status s = update_found now label status (load key_id s).0 s

abbrev pub delete_found : Result ApiKey → Exec Pool (Unit {0})
delete_found (raised e) s = (raised e, s)
delete_found (returned key) s =
    (returned tt, with_keys s (Table.delete_row (λ k. k.id) key.id s.api_keys))

unfoldable pub delete_key : ℕ → Exec Pool (Unit {0})
delete_key key_id s = delete_found (load key_id s).0 s

abbrev pub raw_or_client_error : Result String → Result String
raw_or_client_error (raised (vault_decrypt_error key_id)) =
    client_error 500 "cannot decrypt stored key: "
raw_or_client_error r = r

module _ (env : ProbeEnv) (setting : Option String) where
  -- Here the probe model is asked for before the key.
  unfoldable pub test_key : ℕ → Exec Pool (ApiKey × ProbeResult)
  unfolding require_model classify
  test_key key_id = do
    model ← lift (require_model setting)
    key ← load key_id
    raw_key ← lift (raw_or_client_error (safe_decrypt env.vault key))
    result ← lift (probe (env.post key.id) env.base_url raw_key model)
    done ← classify env key.id result
    pure (key, result)

  unfoldable pub test_all_keys : Exec Pool (ℕ × List (ApiKey × ProbeResult))
  unfolding require_model probe_all_active
  test_all_keys = do
    model ← lift (require_model setting)
    probe_all_active (record env { probe_model = model })

unfoldable pub reset_states : ℕ → Pool → ApiKeyHealth × Pool
unfolding cleared build_health_snapshot
reset_states now s =
    let s' = with_keys s (Table.update_where every_row (cleared now) s.api_keys) in
    (build_health_snapshot now s', s')

unfoldable pub health : ℕ → Pool → ApiKeyHealth × Pool
unfolding build_health_snapshot
health now s = (build_health_snapshot now s, s)

module _ (env : UsageEnv) where
  abbrev pub usage_found : Result ApiKey → Desk → Result KeyUsageSnapshot × Desk
  unfolding fetch_snapshot
  usage_found (raised e) d = (raised e, d)
  usage_found (returned key) d =
      let (snap, u) = fetch_snapshot env (nothing_else env) key false d.usage in
      (returned snap, record d { usage = u })

  unfoldable pub get_key_usage : ℕ → Desk → Result KeyUsageSnapshot × Desk
  unfolding fetch_snapshot
  get_key_usage key_id d = usage_found (load key_id d.pool).0 d

  abbrev pub refresh_found : ℕ → Result ApiKey → Desk → Result KeyUsageSnapshot × Desk
  unfolding fetch_snapshot persist_snapshot
  refresh_found now (raised e) d = (raised e, d)
  refresh_found now (returned key) d =
      let (snap, u) = fetch_snapshot env (nothing_else env) key true d.usage in
      (
        returned snap,
        record {
          pool = with_keys d.pool (persist_snapshot env.dumps now key snap d.pool.api_keys);
          usage = u;
        },
      )

  unfoldable pub refresh_key_usage : ℕ → ℕ → Desk → Result KeyUsageSnapshot × Desk
  unfolding fetch_snapshot persist_snapshot
  refresh_key_usage now key_id d = refresh_found now (load key_id d.pool).0 d

  unfoldable pub refresh_all_usage : ℕ → Desk → List KeyUsageSnapshot × Desk
  unfolding refresh_all_active
  refresh_all_usage now d = refresh_all_active env now d

abbrev pub list_user_tokens : Exec Db (List UserTokenOut)
list_user_tokens db = (token_outs (list_tokens db), db)

abbrev pub token_or_client_error : Option UserToken → Result UserToken
token_or_client_error none = client_error 404 "user token not found"
token_or_client_error (some token) = returned token

abbrev pub get_user_token : ℕ → Exec Db UserTokenOut
get_user_token token_id db =
    continue (token_or_client_error (get_token db token_id)) (λ token. lift (from_orm_token token))
      db

-- `except ValueError`: the detail is the error's own text.
abbrev pub unprocessable_client_error : {A : Type 0} → Result A → Result A
unprocessable_client_error (raised value_error) = client_error 422 ""
unprocessable_client_error r = r

abbrev pub created_payload : Result (UserToken × String) → Result (UserTokenOut × String)
created_payload (raised e) = raised e
created_payload (returned (token, raw_key)) = with_raw (from_orm_token token) raw_key

unfoldable pub create_user_token :
    (String → String) → ℕ → String → String → Option Datetime → Exec Db (UserTokenOut × String)
unfolding create_token
create_user_token sha256 now random label expires_at db =
    let (result, db') = create_token sha256 now random label expires_at db in
    (created_payload (unprocessable_client_error result), db')

abbrev pub update_token_found : ℕ → Changes → Result UserToken → Exec Db UserTokenOut
unfolding update_token
update_token_found now changes (raised e) db = (raised e, db)
update_token_found now changes (returned token) db =
    let (result, db') = update_token now token changes db in
    continue (unprocessable_client_error result) (λ updated. lift (from_orm_token updated)) db'

unfoldable pub update_user_token : ℕ → ℕ → Changes → Exec Db UserTokenOut
unfolding update_token
update_user_token now token_id changes db =
    update_token_found now changes (token_or_client_error (get_token db token_id)) db

-- `except LookupError`
abbrev pub deleted_or_client_error : Result (Unit {0}) → Result (Unit {0})
deleted_or_client_error (raised (lookup_error token_id)) = client_error 404 "user token not found"
deleted_or_client_error r = r

unfoldable pub delete_user_token : ℕ → Exec Db (Unit {0})
unfolding hard_delete_user_token
delete_user_token token_id db =
    let (result, db') = hard_delete_user_token token_id db in (deleted_or_client_error result, db')
