-- ===== src/Vault/MasterKey.antt =====
-- Where app/services/vault.py takes its master key from: the environment, a file beside the database,
-- or a new key. The cipher's own tests and keys are parameters, and so is the path beside a database.
pub mod Restart
pub mod Tests
use Prim.Native.Char.{code}
use ollama_proxy.Prelude.{
  ℕ, String, Bool, true, false, ◌&&◌, Option, none, some, ltb, str_eq, if◌then◌else◌, or_else,
}
use ollama_proxy.Python.{strip}
use ollama_proxy.Exec.{
  Exec, Exception, Result, returned, raised, runtime_error, value_error, continue, pure, lift,
  ◌>>=◌,
}
use ollama_proxy.Vault.{Fernet, Vault}

-- The files, by their paths.
abbrev pub Files : Type 0
Files = String → Option String

-- `accepts` is whether `Fernet(key)` takes a key, `fernet_of` what it then is, and `key_path` the path
-- of `.master_key` for a database's path.
pub record Host : Type 0 where
  pub master_key_var : Option String
  pub accepts : String → Bool
  pub fernet_of : String → Fernet
  pub key_path : String → String

-- `text.encode("ascii")` succeeds.
abbrev pub is_ascii : String → Bool
is_ascii String.[] = true
is_ascii (String.◌∷◌ c s) = ltb (code c) 128 && is_ascii s

unfoldable pub write_file : String → String → Files → Files
write_file path text files other = if str_eq other path then some text else files other

module _ (host : Host) where
  abbrev pub check_env : String → Result (Option String)
  check_env raw =
      if str_eq raw ""
      then returned none
      else if host.accepts raw
      then returned (some raw)
      else raised runtime_error

  unfoldable pub read_master_key_from_env : Result (Option String)
  read_master_key_from_env = check_env (strip (or_else host.master_key_var ""))

  abbrev pub check_file : String → Result (Option String)
  check_file raw =
      if str_eq raw ""
      then returned none
      else if is_ascii raw
      then returned (some raw)
      else raised value_error

  abbrev pub read_text : Option String → Result (Option String)
  read_text none = returned none
  read_text (some text) = check_file (strip text)

  unfoldable pub read_master_key_from_file : String → Files → Result (Option String)
  read_master_key_from_file path files = read_text (files path)

  -- The file's key, or the new one, written.
  abbrev pub file_or_new : String → String → Result (Option String) → Exec Files String
  file_or_new path new_key (raised e) files = (raised e, files)
  file_or_new path new_key (returned (some key)) files = (returned key, files)
  file_or_new path new_key (returned none) files = (returned new_key, write_file path new_key files)

  abbrev pub beside_database : String → Option String → Exec Files String
  beside_database new_key none files = (returned new_key, files)
  beside_database new_key (some db_path) files =
      if str_eq db_path ""
      then (returned new_key, files)
      else (let path = host.key_path db_path in
          file_or_new path new_key (read_master_key_from_file path files) files)

  abbrev pub env_or : Result (Option String) → Exec Files String → Exec Files String
  env_or (raised e) next files = (raised e, files)
  env_or (returned (some key)) next files = (returned key, files)
  env_or (returned none) next files = next files

  unfoldable pub resolve_master_key : String → Option String → Exec Files String
  unfolding read_master_key_from_env read_master_key_from_file write_file
  resolve_master_key new_key db_path =
      env_or read_master_key_from_env (beside_database new_key db_path)

  abbrev pub vault_under : Result String → Result Vault
  vault_under (raised e) = raised e
  vault_under (returned key) =
      if host.accepts key
      then returned (record { fernet = some (host.fernet_of key) })
      else raised value_error

  abbrev pub vault_of : Result String × Files → Result Vault × Files
  vault_of (key, files) = (vault_under key, files)

  unfoldable pub build_vault : String → Option String → Exec Files Vault
  unfolding resolve_master_key
  build_vault new_key db_path files = vault_of (resolve_master_key new_key db_path files)

  -- The module's `_vault_override` beside the files. A first use without `set_vault` builds a vault
  -- that has no database's path.
  abbrev pub remember : Result Vault × Files → Result Vault × (Option Vault × Files)
  remember (raised e, files) = (raised e, (none, files))
  remember (returned vault, files) = (returned vault, (some vault, files))

  unfoldable pub get_vault : String → Exec (Option Vault × Files) Vault
  unfolding build_vault
  get_vault new_key (some vault, files) = (returned vault, (some vault, files))
  get_vault new_key (none, files) = remember (build_vault new_key none files)

abbrev pub set_vault : Vault → Option Vault × Files → Option Vault × Files
set_vault vault (override, files) = (some vault, files)

abbrev pub reset_vault_for_tests : Option Vault × Files → Option Vault × Files
reset_vault_for_tests (override, files) = (none, files)
