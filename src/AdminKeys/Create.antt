-- ===== src/AdminKeys/Create.antt =====
-- A key from its creation on: what is stored opens again.
use ollama_proxy.Prelude.{
  ℕ, ◌≤◌, ◌≡◌, refl, sym, subst, String, Option, none, some, List, [], ◌∷◌, ◌++◌, arith,
}
use ollama_proxy.Exec.{returned}
use ollama_proxy.Table
use ollama_proxy.Models.{ApiKey, value, active}
use ollama_proxy.Vault.{Fernet, Vault, encrypt, decrypt, safe_decrypt}
use ollama_proxy.KeyManager.{Pool}
use ollama_proxy.KeyManager.Records.{find_key}
use ollama_proxy.UserTokens.{first_chars}
use ollama_proxy.AdminKeys.{ApiKeyOut, find_key_hash, new_key, insert_key, create_key}

-- Above every key of a table there is no row.
find_of_fresh :
    (key : ℕ) (rows : List ApiKey) → Table.next_id (λ k. k.id) rows ≤ key → find_key key rows ≡ none
unfolding Table.find Table.next_id
find_of_fresh key [] h = refl
find_of_fresh key (r ∷ rows) h = ground (arith, find_of_fresh key rows)

find-append :
    (key : ℕ) (rows : List ApiKey) (k : ApiKey)
    → find_key key rows ≡ none
    → k.id ≡ key
    → find_key key (rows ++ k ∷ []) ≡ some k
unfolding Table.find
find-append key [] k e q = ground arith
find-append key (r ∷ rows) k e q = ground (arith, find-append key rows k)

-- What the answer of a creation is worth: the row with the answer's id opens to the raw key.
abbrev pub Opens : Vault → ApiKeyOut × String → String → Pool → Type 0
Opens vault answer raw_key s =
    (answer.1 ≡ raw_key)
    × ((row : ApiKey) × (find_key answer.0.id s.api_keys ≡ some row)
        × (row.status ≡ value active)
        × (safe_decrypt vault row ≡ returned raw_key))

module _ (sha256 : String → String) (fernet : Fernet) (now : ℕ) (label : Option String)
    (raw_key : String)
    (law : (text : String) → fernet.open_seal (fernet.seal text) ≡ some text) where
  abbrev vault : Vault
  vault = record { fernet = some fernet }

  insert_key-Opens :
      (o : Option ApiKey) (s : Pool) (answer : ApiKeyOut × String)
      → (insert_key sha256 vault now label raw_key (fernet.seal raw_key) o s).0 ≡ returned answer
      → Opens vault answer raw_key
          (insert_key sha256 vault now label raw_key (fernet.seal raw_key) o s).1
  unfolding safe_decrypt decrypt
  insert_key-Opens (some k) s answer e = ground arith
  insert_key-Opens none s answer e =
      let id = Table.next_id (λ (k : ApiKey). k.id) s.api_keys in
      let row =
        new_key id (sha256 raw_key) (first_chars 8 raw_key) (fernet.seal raw_key) label now in
      let found = find-append id s.api_keys row (find_of_fresh id s.api_keys (omega arith)) refl in
      let same : answer.0.id ≡ id = ground (arith, e) in
      (
        ground (arith, e),
        (
          row,
          subst (λ i. find_key i (s.api_keys ++ row ∷ []) ≡ some row) (sym same) found,
          refl,
          rw (law raw_key) refl,
        ),
      )

  -- A creation that returns has stored a row, active and under the id of the answer, that the vault
  -- opens to the very raw key that was given, which the answer repeats. The cipher's law is the premise.
  pub create_key-Opens :
      (s : Pool) (answer : ApiKeyOut × String)
      → (create_key sha256 vault now label raw_key s).0 ≡ returned answer
      → Opens vault answer raw_key (create_key sha256 vault now label raw_key s).1
  unfolding create_key encrypt
  create_key-Opens s answer e =
      insert_key-Opens (find_key_hash (sha256 raw_key) s.api_keys) s answer e
