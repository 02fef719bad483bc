-- ===== src/Vault/MasterKey/Restart.antt =====
-- A restart finds the master key again.
use ollama_proxy.Prelude.{
  ◌≡◌, ◌≢◌, refl, ap, ◌∙◌, inl, inr, String, true, Option, none, some, arith, str_eq, eq_iff,
  Bool-cases,
}
use ollama_proxy.Python.{strip}
use ollama_proxy.Exec.{Result, returned, raised}
use ollama_proxy.Vault.{Vault}
use ollama_proxy.Vault.MasterKey.{
  Files, Host, is_ascii, write_file, check_file, read_master_key_from_env,
  read_master_key_from_file, file_or_new, beside_database, env_or, resolve_master_key, vault_under,
  vault_of, read_text, build_vault,
}

-- A key as the library generates it: no blank around it, and ASCII.
pub record IsKeyText (key : String) : Type 0 where
  pub stripped : strip key ≡ key
  pub filled : key ≢ ""
  pub ascii : is_ascii key ≡ true

module _ (host : Host) where
  check_file-eq : (key : String) → IsKeyText key → check_file host (strip key) ≡ returned (some key)
  check_file-eq key k = elim (Bool-cases (str_eq key "")) [
    | inl q ↦ elim (k.filled ((eq_iff key "").0 q)) [ ]
    | inr q ↦ ap (check_file host) k.stripped ∙ rw q rw k.ascii refl
  ]

  write_file-eq : (path key : String) (files : Files) → write_file path key files path ≡ some key
  unfolding write_file
  write_file-eq path key files = ground (arith, eq_iff path path)

  read-write_file :
      (path key : String) (files : Files)
      → IsKeyText key
      → read_master_key_from_file host path (write_file path key files) ≡ returned (some key)
  unfolding read_master_key_from_file
  read-write_file path key files k =
      ap (read_text host) (write_file-eq path key files) ∙ check_file-eq key k

  file_or_new-again :
      (path first second : String) (r : Result (Option String)) (files : Files)
      → IsKeyText first
      → read_master_key_from_file host path files ≡ r
      → (key : String) → (file_or_new host path first r files).0 ≡ returned key
      → let files' = (file_or_new host path first r files).1 in
        file_or_new host path second (read_master_key_from_file host path files') files'
        ≡ (returned key, files')
  file_or_new-again path first second (raised e) files k q key out = ground arith
  file_or_new-again path first second (returned (some found)) files k q key out =
      rw q (ground (arith, out))
  file_or_new-again path first second (returned none) files k q key out =
      rw (read-write_file path first files k) (ground (arith, out))

  pair_up :
      (files : Files) {r : Result Vault} {vault : Vault}
      → r ≡ returned vault
      → ◌≡◌ {A = Result Vault × Files} (r, files) (returned vault, files)
  pair_up files e = ap (λ x. (x, files)) e

  vault_under-again :
      (r r' : Result String × Files)
      → ((key : String) → r.0 ≡ returned key → r' ≡ (returned key, r.1))
      → (vault : Vault) → vault_under host r.0 ≡ returned vault
      → vault_of host r' ≡ (returned vault, r.1)
  vault_under-again (raised e, files) r' again vault out = ground (arith, out)
  vault_under-again (returned key, files) r' again vault out =
      ap (vault_of host) (again key refl) ∙ pair_up files out

  module _ (first second : String) (k : IsKeyText first) where
    beside_database-again :
        (db_path : String) (files : Files) (key : String)
        → db_path ≢ ""
        → (beside_database host first (some db_path) files).0 ≡ returned key
        → let files' = (beside_database host first (some db_path) files).1 in
          beside_database host second (some db_path) files' ≡ (returned key, files')
    beside_database-again db_path files key h = elim (Bool-cases (str_eq db_path "")) [
      | inl q ↦ elim (h ((eq_iff db_path "").0 q)) [ ]
      | inr q ↦
          let path = host.key_path db_path in
          rw q (
            file_or_new-again path first second (read_master_key_from_file host path files) files k
              refl key)
    ]

    env_or-again :
        (r : Result (Option String)) (db_path : String) (files : Files) (key : String)
        → db_path ≢ ""
        → (env_or host r (beside_database host first (some db_path)) files).0 ≡ returned key
        → let files' = (env_or host r (beside_database host first (some db_path)) files).1 in
          env_or host r (beside_database host second (some db_path)) files' ≡ (returned key, files')
    env_or-again (raised e) db_path files key h out = ground arith
    env_or-again (returned (some found)) db_path files key h out = ground (arith, out)
    env_or-again (returned none) db_path files key h out =
        beside_database-again db_path files key h out

    -- A start that has a vault leaves the files so that the next start, with the same environment and the
    -- same database, has the same vault, whatever new key the cipher's library would offer it: what was
    -- sealed before a restart opens after it. The premise is that a generated key is plain ASCII text.
    pub build_vault-again :
        (db_path : String) (files : Files) (vault : Vault)
        → db_path ≢ ""
        → (build_vault host first (some db_path) files).0 ≡ returned vault
        → let files' = (build_vault host first (some db_path) files).1 in
          build_vault host second (some db_path) files' ≡ (returned vault, files')
    unfolding build_vault resolve_master_key
    build_vault-again db_path files vault h out =
        let start = resolve_master_key host first (some db_path) files in
        vault_under-again start (resolve_master_key host second (some db_path) start.1)
          (λ key q. env_or-again (read_master_key_from_env host) db_path files key h q) vault out
