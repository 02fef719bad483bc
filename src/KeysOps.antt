-- ===== src/KeysOps.antt =====
-- app/services/_keys_ops: what the administration and the dashboard share on the stored keys.
pub mod Health
pub mod Probing
use Prim.Native.Char.{Char, code}
use ollama_proxy.Prelude.{
  ℕ, ◌+◌, ◌<◌, String, Bool, true, false, ◌&&◌, ◌||◌, not, Option, none, some, List, [], ◌∷◌, ◌==◌,
  ltb, leb, str_eq, if◌then◌else◌, length, or_else,
}
use ollama_proxy.Python.{strip}
use ollama_proxy.Exec.{
  Exec, Exception, Result, returned, raised, vault_decrypt_error, api_key_not_found,
  probe_model_missing, transport_error, pure, lift, raise, continue, ◌>>=◌, ◌>>◌,
}
use ollama_proxy.Models.{ApiKey, value, active, depleted, disabled}
use ollama_proxy.Vault.{Vault, safe_decrypt}
use ollama_proxy.OllamaClient.{HttpRequest, HttpResult, is_success}
use ollama_proxy.OllamaClient.Probe.{ProbeResult, failed_probe, probe}
use ollama_proxy.KeyManager.{Pool, load_active, count_by_status, get_count}
use ollama_proxy.KeyManager.RetryAfter.{HeaderValue, plain_dict, extract_retry_after}
use ollama_proxy.KeyManager.Records.{
  find_key, record_success, record_unauthorized, record_rate_limited, record_server_error,
}
use ollama_proxy.Rotation.Attempt.{with_floats}

abbrev pub found_or_404 : ℕ → Option ApiKey → Result ApiKey
found_or_404 key_id none = raised (api_key_not_found key_id)
found_or_404 key_id (some key) = returned key

unfoldable pub load_or_404 : ℕ → Exec Pool ApiKey
load_or_404 key_id s = (found_or_404 key_id (find_key key_id s.api_keys), s)

-- From the settings' `probe_model`.
unfoldable pub require_probe_model : Option String → Result String
require_probe_model setting =
    let model = strip (or_else setting "") in
    if str_eq model "" then raised probe_model_missing else returned model

pub data Overall : Type 0 where
  ok degraded down : Overall

pub record ApiKeyHealth : Type 0 where
  pub status : Overall
  pub active_keys : ℕ
  pub depleted_keys : ℕ
  pub disabled_keys : ℕ
  pub timestamp : ℕ

abbrev pub overall : ℕ → ℕ → ℕ → Overall
overall a dep dis = if ltb 0 a then ok else if ltb 0 (dep + dis) then degraded else down

unfoldable pub build_health_snapshot : ℕ → Pool → ApiKeyHealth
build_health_snapshot now s =
    let counts = count_by_status s.api_keys in
    let a = get_count (value active) counts in
    let dep = get_count (value depleted) counts in
    let dis = get_count (value disabled) counts in
    record {
      status = overall a dep dis;
      active_keys = a;
      depleted_keys = dep;
      disabled_keys = dis;
      timestamp = now;
    }

-- The world of a probe: `post` by the key that is probed.
pub record ProbeEnv : Type 0 where
  pub vault : Vault
  pub base_url : String
  pub post : ℕ → HttpRequest → HttpResult
  pub float_text : String → HeaderValue
  pub record_at : ℕ
  pub probe_model : String

module _ (env : ProbeEnv) where
  -- `ProbeClassifier.classify`. Here a 404 disables the key, as the rotation does not.
  unfoldable pub classify_code : ℕ → ProbeResult → ℕ → Exec Pool (Unit {0})
  classify_code key_id result code =
      if is_success code
      then (do record_success env.record_at key_id code; pure tt)
      else if code == 401 || code == 403 || code == 404
      then (do record_unauthorized env.record_at key_id code; pure tt)
      else if code == 429
      then (do
        seconds ←
            lift (
              extract_retry_after
                (plain_dict (with_floats env.float_text result.ratelimit_headers)))
        record_rate_limited env.record_at key_id code seconds
        pure tt)
      else if leb 500 code
      then (do record_server_error env.record_at key_id code; pure tt)
      else pure tt

  abbrev pub classify_found : ℕ → ProbeResult → Option ℕ → Exec Pool (Unit {0})
  classify_found key_id result none = pure tt
  classify_found key_id result (some code) = classify_code key_id result code

  unfoldable pub classify : ℕ → ProbeResult → Exec Pool (Unit {0})
  unfolding classify_code
  classify key_id result = classify_found key_id result result.status_code

  -- `_run`: the exceptions that its second handler names, `probe` has caught before.
  abbrev pub after_probe : ApiKey → Result ProbeResult → Exec Pool (ApiKey × ProbeResult)
  after_probe key (returned result) = pure (key, result)
  after_probe key (raised transport_error) = do
    record_server_error env.record_at key.id 0
    pure (key, failed_probe transport_error)
  after_probe key (raised e) = raise e

  abbrev pub run_with : ApiKey → Result String → Exec Pool (ApiKey × ProbeResult)
  run_with key (returned raw_key) =
      after_probe key (probe (env.post key.id) env.base_url raw_key env.probe_model)
  run_with key (raised (vault_decrypt_error key_id)) =
      pure (key, failed_probe (vault_decrypt_error key_id))
  run_with key (raised e) = raise e

  unfoldable pub run : ApiKey → Exec Pool (ApiKey × ProbeResult)
  run key = run_with key (safe_decrypt env.vault key)

  -- `asyncio.gather` over the keys; the first exception is the gather's.
  unfoldable pub run_all : List ApiKey → Exec Pool (List (ApiKey × ProbeResult))
  unfolding run
  run_all [] = pure []
  run_all (key ∷ keys) = do pair ← run key; pairs ← run_all keys; pure (pair ∷ pairs)

  unfoldable pub classify_all : List (ApiKey × ProbeResult) → Exec Pool (Unit {0})
  unfolding classify
  classify_all [] = pure tt
  classify_all ((key, result) ∷ pairs) = do classify key.id result; classify_all pairs

  abbrev pub probe_keys : List ApiKey → Exec Pool (ℕ × List (ApiKey × ProbeResult))
  probe_keys [] = pure (0, [])
  probe_keys (key ∷ keys) = do
    pairs ← run_all (key ∷ keys)
    classify_all pairs
    pure (length pairs, pairs)

  -- A result goes with its key: the joined record has the id, the label and the preview besides.
  unfoldable pub probe_all_active : Exec Pool (ℕ × List (ApiKey × ProbeResult))
  unfolding load_active run_all classify_all
  probe_all_active s = probe_keys (load_active s.api_keys) s
