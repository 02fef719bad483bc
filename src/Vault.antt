-- ===== src/Vault.antt =====
-- The `Vault` class of app/services/vault.py and `safe_decrypt` of app/services/_keys_ops/vault.py.
-- The cipher is a parameter: `cryptography.fernet.Fernet` is not part of the repository.
pub mod MasterKey
use ollama_proxy.Prelude.{String, Bool, Option, none, some, is_some}
use ollama_proxy.Exec.{Result, returned, raised, runtime_error, value_error, vault_decrypt_error}
use ollama_proxy.Models.{ApiKey}

-- A Fernet under one key: `decrypt` gives nothing where the library raises InvalidToken. Texts stand
-- for their UTF-8 bytes.
pub record Fernet : Type 0 where
  pub seal : String → String
  pub open_seal : String → Option String

pub record Vault : Type 0 where
  pub fernet : Option Fernet

abbrev pub is_persistent : Vault → Bool
is_persistent vault = is_some vault.fernet

abbrev pub encrypt_with : Option Fernet → String → Result String
encrypt_with none raw_key = raised runtime_error
encrypt_with (some f) raw_key = returned (f.seal raw_key)

unfoldable pub encrypt : Vault → String → Result String
encrypt vault raw_key = encrypt_with vault.fernet raw_key

-- `except InvalidToken: raise ValueError`
abbrev pub or_value_error : Option String → Result String
or_value_error none = raised value_error
or_value_error (some raw) = returned raw

abbrev pub decrypt_with : Option Fernet → String → Result String
decrypt_with none blob = raised runtime_error
decrypt_with (some f) blob = or_value_error (f.open_seal blob)

unfoldable pub decrypt : Vault → String → Result String
decrypt vault blob = decrypt_with vault.fernet blob

-- `except (ValueError, RuntimeError)`
abbrev pub as_decrypt_error : ApiKey → Result String → Result String
as_decrypt_error key (returned raw) = returned raw
as_decrypt_error key (raised value_error) = raised (vault_decrypt_error key.id)
as_decrypt_error key (raised runtime_error) = raised (vault_decrypt_error key.id)
as_decrypt_error key (raised e) = raised e

unfoldable pub safe_decrypt : Vault → ApiKey → Result String
unfolding decrypt
safe_decrypt vault key = as_decrypt_error key (decrypt vault key.key_encrypted)
