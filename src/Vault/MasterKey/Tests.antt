-- ===== src/Vault/MasterKey/Tests.antt =====
-- The master key at a host with an empty disk.
use ollama_proxy.Prelude.{◌≡◌, ◌≢◌, refl, sym, ap, ◌∙◌, String, Bool, true, false, none, some}
use native.Mathlib.Omega.{arith}
use ollama_proxy.Exec.{returned, raised, runtime_error}
use ollama_proxy.Vault.{Fernet, Vault}
use ollama_proxy.Vault.MasterKey.{
  Files, Host, read_master_key_from_env, read_master_key_from_file, resolve_master_key, build_vault,
}
use ollama_proxy.Vault.MasterKey.Restart.{IsKeyText, build_vault-again}

abbrev fernet_under : String → Fernet
fernet_under key = record { seal = λ raw. raw; open_seal = λ blob. some blob }

abbrev host : Host
host = record {
  master_key_var = none;
  accepts = λ key. true;
  fernet_of = fernet_under;
  key_path = λ db_path. "/data/.master_key";
}

abbrev no_files : Files
no_files path = none

abbrev first_vault : Vault
first_vault = record { fernet = some (fernet_under "k1") }

started : (build_vault host "k1" (some "/data/db") no_files).0 ≡ returned first_vault
unfolding build_vault resolve_master_key read_master_key_from_env read_master_key_from_file
started = refl

refused :
    (build_vault
      (record host { master_key_var = some "bad"; accepts = λ key. false })
      "k1"
      none
      no_files).0
    ≡ raised runtime_error
unfolding build_vault resolve_master_key read_master_key_from_env
refused = refl

abbrev starts_filled : String → Bool
starts_filled String.[] = false
starts_filled (String.◌∷◌ c s) = true

false-≢-true : false ≢ true
false-≢-true e = ground arith

filled : (text wanted : String) → text ≡ wanted → starts_filled wanted ≡ true → text ≢ ""
filled text wanted e f q = false-≢-true (ap starts_filled (sym q ∙ e) ∙ f)

k1-IsKeyText : IsKeyText "k1"
k1-IsKeyText = record { stripped = refl; filled = filled "k1" "k1" refl refl; ascii = refl }

build_vault-again_example :
    let files' = (build_vault host "k1" (some "/data/db") no_files).1 in
    build_vault host "k2" (some "/data/db") files' ≡ (returned first_vault, files')
build_vault-again_example =
    build_vault-again host "k1" "k2" k1-IsKeyText "/data/db" no_files first_vault
      (filled "/data/db" "/data/db" refl refl) started
