-- ===== src/UserTokens.antt =====
-- app/services/user_token_service.py: the tokens of end users. Only a hash of a token is stored.
-- SHA-256 is a parameter, and so is what `secrets.token_urlsafe` gives.
pub mod Authenticate
pub mod Hashes
pub mod Lifecycle
pub mod Tests
use Prim.Native.String.{◌++◌}
use ollama_proxy.Prelude.{
  ℕ, zero, suc, ◌+◌, String, Bool, true, false, ◌&&◌, ◌||◌, not, Option, none, some, List, [], ◌∷◌,
  ◌++◌ as append, ◌==◌, leb, str_eq, if◌then◌else◌, is_some, count,
}
use ollama_proxy.Clock.{Datetime, naive, aware, wall, as_utc}
use ollama_proxy.Exec.{
  Exec, Exception, Result, returned, raised, type_error, value_error, lookup_error,
}
use ollama_proxy.Table
use ollama_proxy.Models.{Db, UserToken, UserTokenStatus, active, revoked, token_value}

abbrev pub token_prefix : String
token_prefix = "opk_"

-- The first characters of a text: `raw_key[:n]`.
abbrev pub first_chars : ℕ → String → String
first_chars zero s = ""
first_chars (suc n) String.[] = ""
first_chars (suc n) (String.◌∷◌ c s) = String.◌∷◌ c (first_chars n s)

abbrev pub generate_raw_key : String → String
generate_raw_key random = token_prefix ++ random

abbrev pub prefix_of : String → String
prefix_of raw_key = first_chars 12 raw_key

abbrev pub with_tokens : Db → List UserToken → Db
with_tokens db rows = record db { user_tokens = rows }

abbrev pub find_token : ℕ → List UserToken → Option UserToken
find_token = Table.find (λ t. t.id)

abbrev pub set_token : ℕ → (UserToken → UserToken) → List UserToken → List UserToken
set_token = Table.update_row (λ t. t.id)

-- SELECT … WHERE key_hash = h: the column is unique.
unfoldable pub find_hash : String → List UserToken → Option UserToken
find_hash h [] = none
find_hash h (t ∷ rows) = if str_eq t.key_hash h then some t else find_hash h rows

-- `expires_at is not None and _as_utc(expires_at) <= now`
abbrev pub is_past : Option Datetime → ℕ → Bool
is_past none now = false
is_past (some t) now = leb (wall t) now

abbrev pub has_token_status : UserTokenStatus → UserToken → Bool
has_token_status s t = str_eq t.status (token_value s)

-- UPDATE … SET total_requests = total_requests + 1, last_used_at = now; `updated_at` follows by the
-- column's `onupdate`.
unfoldable pub count_use : ℕ → UserToken → UserToken
count_use now token = record token {
  total_requests = token.total_requests + 1;
  last_used_at = some (aware now);
  updated_at = aware now;
}

-- The token that was found, with the two columns that the UPDATE returned.
unfoldable pub with_use : ℕ → UserToken → UserToken
unfolding as_utc
with_use now token = record token {
  total_requests = token.total_requests + 1;
  last_used_at = as_utc (some (aware now));
}

unfoldable pub admit : ℕ → ℕ → Option UserToken → Db → Option UserToken × Db
unfolding count_use with_use as_utc
admit checked now none db = (none, db)
admit checked now (some token) db =
    if not (has_token_status active token)
    then (none, db)
    else if is_past (as_utc token.expires_at) checked
    then (none, db)
    else (
      some (with_use now token),
      with_tokens db (set_token token.id (count_use now) db.user_tokens),
    )

-- `expires_at is not None and expires_at <= datetime.now(UTC)`, where a naive value cannot be compared.
abbrev pub expiry_error : Option Datetime → ℕ → Option Exception
expiry_error none now = none
expiry_error (some (naive t)) now = some type_error
expiry_error (some (aware t)) now = if leb t now then some value_error else none

module _ (sha256 : String → String) where
  abbrev pub hash_key : String → String
  hash_key raw_key = sha256 raw_key

  abbrev pub new_token : ℕ → String → String → Option Datetime → ℕ → UserToken
  new_token id raw label expires_at now = record {
    id = id;
    key_hash = hash_key raw;
    key_prefix = prefix_of raw;
    label = label;
    status = token_value active;
    expires_at = expires_at;
    last_used_at = none;
    total_requests = 0;
    created_at = aware now;
    updated_at = aware now;
  }

  -- The flush fails where another row has the hash; the rollback leaves the table as it was.
  abbrev pub insert_token :
      UserToken → String → Db → Option UserToken → Result (UserToken × String) × Db
  insert_token token raw db (some other) = (raised value_error, db)
  insert_token token raw db none =
      (returned (token, raw), with_tokens db (append db.user_tokens (token ∷ [])))

  abbrev pub create_checked :
      Option Exception → ℕ → String → String → Option Datetime → Exec Db (UserToken × String)
  create_checked (some e) now random label expires_at db = (raised e, db)
  create_checked none now random label expires_at db =
      let raw = generate_raw_key random in
      let id = Table.next_id (λ (t : UserToken). t.id) db.user_tokens in
      insert_token (new_token id raw label expires_at now) raw db
        (find_hash (hash_key raw) db.user_tokens)

  unfoldable pub create_token : ℕ → String → String → Option Datetime → Exec Db (UserToken × String)
  unfolding find_hash
  create_token now random label expires_at =
      create_checked (expiry_error expires_at now) now random label expires_at

  unfoldable pub authenticate : ℕ → ℕ → String → Exec Db (Option UserToken)
  unfolding admit find_hash
  authenticate checked now raw_key db =
      if str_eq raw_key ""
      then (raised value_error, db)
      else (let (token, db') = admit checked now (find_hash (hash_key raw_key) db.user_tokens) db in
          (returned token, db'))

unfoldable pub has_any_active_token : Db → Bool
has_any_active_token db = not (count (has_token_status active) db.user_tokens == 0)

-- What a PATCH may set. `clear_expires_at` goes before `expires_at`.
pub record Changes : Type 0 where
  pub label : Option String
  pub expires_at : Option Datetime
  pub clear_expires_at : Bool
  pub status : Option UserTokenStatus

abbrev pub or_keep {ℓ} : {A : Type ℓ} → Option A → A → A
or_keep none old = old
or_keep (some new) old = new

abbrev pub changed_expiry : Bool → Option Datetime → Option Datetime → Option Datetime
changed_expiry true new old = none
changed_expiry false none old = old
changed_expiry false (some t) old = some t

abbrev pub status_text : Option UserTokenStatus → String → String
status_text none old = old
status_text (some s) old = token_value s

abbrev pub same_datetime : Option Datetime → Option Datetime → Bool
same_datetime none none = true
same_datetime (some (naive a)) (some (naive b)) = a == b
same_datetime (some (aware a)) (some (aware b)) = a == b
same_datetime _ _ = false

-- The flush writes a row, and the column's `onupdate` fires, only where a value is new.
abbrev pub stamp_if_new : ℕ → UserToken → UserToken → UserToken
stamp_if_new now old new =
    if str_eq old.label new.label
      && str_eq old.status new.status
      && same_datetime old.expires_at new.expires_at
    then new
    else record new { updated_at = aware now }

unfoldable pub changed : ℕ → Changes → UserToken → UserToken
changed now c token = stamp_if_new now token (record token {
  label = or_keep c.label token.label;
  expires_at = changed_expiry c.clear_expires_at c.expires_at token.expires_at;
  status = status_text c.status token.status;
})

unfoldable pub update_token : ℕ → UserToken → Changes → Exec Db UserToken
unfolding changed
update_token now token c db = (
  returned (changed now c token),
  with_tokens db (set_token token.id (changed now c) db.user_tokens),
)

abbrev pub revoking : Changes
revoking = record {
  label = none;
  expires_at = none;
  clear_expires_at = false;
  status = some revoked;
}

unfoldable pub revoke_token : ℕ → UserToken → Exec Db UserToken
unfolding changed
revoke_token now token db = (
  returned (changed now revoking token),
  with_tokens db (set_token token.id (changed now revoking) db.user_tokens),
)

abbrev pub delete_found : ℕ → Option UserToken → Exec Db (Unit {0})
delete_found token_id none db = (raised (lookup_error token_id), db)
delete_found token_id (some token) db =
    (returned tt, with_tokens db (Table.delete_row (λ t. t.id) token_id db.user_tokens))

unfoldable pub hard_delete_user_token : ℕ → Exec Db (Unit {0})
hard_delete_user_token token_id db = delete_found token_id (find_token token_id db.user_tokens) db

abbrev reverse_onto {ℓ} : {A : Type ℓ} → List A → List A → List A
reverse_onto [] done = done
reverse_onto (x ∷ xs) done = reverse_onto xs (x ∷ done)

abbrev pub reverse {ℓ} : {A : Type ℓ} → List A → List A
reverse xs = reverse_onto xs []

abbrev pub get_token : Db → ℕ → Option UserToken
get_token db token_id = find_token token_id db.user_tokens

-- ORDER BY id DESC
abbrev pub list_tokens : Db → List UserToken
list_tokens db = reverse (Table.order_by_id (λ (t : UserToken). t.id) db.user_tokens)
