-- ===== src/AdminKeys/Probes.antt =====
-- The two routes of app/api/v1/admin.py that probe keys.
use ollama_proxy.Prelude.{ℕ, String, Option, List}
use ollama_proxy.Exec.{
  Exec, Result, raised, vault_decrypt_error, probe_model_missing, http_exception, ◌>>=◌, pure, lift,
}
use ollama_proxy.Models.{ApiKey}
use ollama_proxy.Vault.{safe_decrypt}
use ollama_proxy.OllamaClient.Probe.{ProbeResult, probe}
use ollama_proxy.KeyManager.{Pool}
use ollama_proxy.KeysOps.{ProbeEnv, load_or_404, require_probe_model, classify, probe_all_active}
use ollama_proxy.AdminKeys.{load_for_route}

abbrev pub probe_model_text : String
probe_model_text =
    "probe_model is not configured; set PROBE_MODEL env var to a model that the upstream accounts have access to"

-- `_probe_model_or_503`
abbrev pub model_or_503 : Result String → Result String
model_or_503 (raised probe_model_missing) = raised (http_exception 503 probe_model_text)
model_or_503 r = r

-- `except VaultDecryptError`: the text ends with the inner error, which has no text here.
abbrev pub raw_or_500 : Result String → Result String
raw_or_500 (raised (vault_decrypt_error key_id)) =
    raised (http_exception 500 "cannot decrypt stored key: ")
raw_or_500 r = r

module _ (env : ProbeEnv) (setting : Option String) where
  -- One key, active or not; a result goes with its key.
  unfoldable pub test_one_key : ℕ → Exec Pool (ApiKey × ProbeResult)
  unfolding load_or_404 require_probe_model classify
  test_one_key key_id = do
    key ← load_for_route key_id
    raw_key ← lift (raw_or_500 (safe_decrypt env.vault key))
    model ← lift (model_or_503 (require_probe_model setting))
    result ← lift (probe (env.post key.id) env.base_url raw_key model)
    done ← classify env key.id result
    pure (key, result)

  unfoldable pub test_all_keys : Exec Pool (ℕ × List (ApiKey × ProbeResult))
  unfolding require_probe_model probe_all_active
  test_all_keys = do
    model ← lift (model_or_503 (require_probe_model setting))
    probe_all_active (record env { probe_model = model })
