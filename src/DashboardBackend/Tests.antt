-- ===== src/DashboardBackend/Tests.antt =====
-- The dashboard's operations at concrete rows.
use ollama_proxy.Prelude.{◌≡◌, refl, String, none, some, [], ◌∷◌}
use ollama_proxy.Exec.{raised, dashboard_client_error}
use ollama_proxy.Table
use ollama_proxy.Models.{ApiKeyStatus, Db}
use ollama_proxy.KeyManager.Tests.{sample_key, sample_pool}
use ollama_proxy.KeyManager.{Pool}
use ollama_proxy.Python.{decimal}
use ollama_proxy.AdminKeys
use ollama_proxy.AdminKeys.Tests.{plain_vault}
use ollama_proxy.DashboardBackend
use ollama_proxy.DashboardBackend.{short}
use ollama_proxy.DashboardBackend.Admin.{dressed, status_text, keys-dressed}

abbrev same : String → String
same s = s

abbrev pool : Pool
pool = sample_pool (sample_key 1 "active" ∷ [])

abbrev no_tokens : Db
no_tokens = record { api_keys = []; user_tokens = [] }

short_text : short 404 "API key not found" ≡ "in-process error 404: API key not found"
unfolding short decimal
short_text = refl

missing :
    (DashboardBackend.delete_key 9 pool).0 ≡ raised (dashboard_client_error 404 "API key not found")
unfolding DashboardBackend.delete_key Table.find
missing = refl

keys-dressed_example :
    (DashboardBackend.create_key same plain_vault 7 none "sk-1" pool
      ≡ dressed (AdminKeys.create_key same plain_vault 7 none "sk-1" pool))
    × (DashboardBackend.list_keys pool ≡ dressed (AdminKeys.list_keys pool))
    × (DashboardBackend.get_key 1 pool ≡ dressed (AdminKeys.get_key 1 pool))
    × (DashboardBackend.update_key 7 1 none (status_text (some ApiKeyStatus.disabled)) pool
        ≡ dressed (AdminKeys.update_key 7 1 none (some ApiKeyStatus.disabled) pool))
    × (DashboardBackend.delete_key 1 pool ≡ dressed (AdminKeys.delete_key 1 pool))
keys-dressed_example =
    keys-dressed same plain_vault 7 1 none "sk-1" (some ApiKeyStatus.disabled) pool
