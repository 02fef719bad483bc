-- ===== src/AdminKeys/Tests.antt =====
-- The administration at concrete keys.
use ollama_proxy.Prelude.{inl, ℕ, ◌≡◌, refl, String, false, none, some, [], All}
use ollama_proxy.Exec.{returned}
use ollama_proxy.Clock.{aware}
use ollama_proxy.Table
use ollama_proxy.Models.{ApiKey, ApiKeyStatus, depleted, preview}
use ollama_proxy.Vault.{Vault, encrypt}
use ollama_proxy.OllamaClient.{request_error}
use ollama_proxy.KeyManager.{Pool, cooled_down}
use ollama_proxy.KeyManager.Records.{find_key}
use ollama_proxy.KeyManager.RetryAfter.{not_a_number}
use ollama_proxy.KeyManager.Tests.{sample_key, sample_pool}
use ollama_proxy.KeyManager.Lifecycle.{IsCoherent}
use ollama_proxy.Rotation.Tests.{plain_fernet, pool}
use ollama_proxy.KeysOps.{ProbeEnv, probe_all_active}
use ollama_proxy.KeysOps.Probing.{probe_all_active-IsCoherent, probe_all_active-outage}
use ollama_proxy.AdminKeys.{ApiKeyOut, create_key, update_key}
use ollama_proxy.AdminKeys.Create.{Opens, create_key-Opens}
use ollama_proxy.AdminKeys.Reset.{update_key_never_revives}

abbrev same : String → String
same s = s

abbrev pub plain_vault : Vault
plain_vault = record { fernet = some plain_fernet }

abbrev empty_pool : Pool
empty_pool = sample_pool []

abbrev first_out : ApiKeyOut
first_out = record {
  id = 1;
  label = none;
  preview = "sk-1…";
  status = ApiKeyStatus.active;
  last_used_at = none;
  last_status_code = none;
  cooldown_until = none;
  total_requests = 0;
  total_failures = 0;
  created_at = aware 7;
  updated_at = aware 7;
  session_usage_fraction = none;
  weekly_usage_fraction = none;
  last_usage_fetch_at = none;
}

created : (create_key same plain_vault 7 none "sk-1" empty_pool).0 ≡ returned (first_out, "sk-1")
unfolding create_key encrypt Table.next_id preview
created = refl

create_key-Opens_example :
    Opens plain_vault
      (first_out, "sk-1")
      "sk-1"
      (create_key same plain_vault 7 none "sk-1" empty_pool).1
create_key-Opens_example =
    create_key-Opens same plain_fernet 7 none "sk-1" (λ text. refl) empty_pool (first_out, "sk-1")
      created

first_found : find_key 1 pool.api_keys ≡ some (sample_key 1 "active")
unfolding Table.find
first_found = refl

update_key_never_revives_example :
    let s' = (update_key 9 1 none (some depleted) pool).1 in
    (row : ApiKey) × (find_key 1 s'.api_keys ≡ some row)
    × (row.status ≡ "depleted")
    × ((later : ℕ) → cooled_down later row ≡ false)
update_key_never_revives_example =
    update_key_never_revives 9 1 none pool (sample_key 1 "active") first_found refl

abbrev pub probe_env : ProbeEnv
probe_env = record {
  vault = plain_vault;
  base_url = "https://ollama.com";
  post = λ key_id req. request_error;
  float_text = λ text. not_a_number;
  record_at = 5;
  probe_model = "m";
}

probe_all_active-IsCoherent_example : All IsCoherent (probe_all_active probe_env pool).1.api_keys
probe_all_active-IsCoherent_example = probe_all_active-IsCoherent probe_env pool (refl, (refl, tt))

probe_all_active-outage_example : (probe_all_active probe_env pool).1 ≡ pool
probe_all_active-outage_example = probe_all_active-outage probe_env pool (λ key_id req. inl refl)
