-- ===== src/DashboardBackend/Admin.antt =====
-- The dashboard's operations against the routes of the administration: the same but for the dress
-- of the exception.
use ollama_proxy.Prelude.{
  ℕ, ◌≡◌, ◌⊎◌, refl, sym, ap, String, Option, none, some, List, [], ◌∷◌, arith, leb, str_eq,
  Bool-cases, Option-cases, inl, inr,
}
use ollama_proxy.Clock.{Datetime, naive, aware}
use ollama_proxy.Exec.{
  Exception, Result, returned, raised, http_exception, dashboard_client_error, type_error,
  value_error, Result-cases,
}
use ollama_proxy.Table
use ollama_proxy.Models.{ApiKey, ApiKeyStatus, value, Db, UserToken}
use ollama_proxy.Vault.{Vault, encrypt}
use ollama_proxy.KeyManager.{Pool}
use ollama_proxy.KeyManager.Records.{find_key}
use ollama_proxy.KeysOps.{load_or_404}
use ollama_proxy.AdminKeys
use ollama_proxy.AdminKeys.{from_orm_key, status_of, out_with, outs, find_key_hash, patched}
use ollama_proxy.UserTokens.{
  get_token, list_tokens, hard_delete_user_token, insert_token, create_token, new_token,
  expiry_error, find_hash, hash_key, generate_raw_key,
}
use ollama_proxy.AdminUserTokens
use ollama_proxy.AdminUserTokens.{from_orm_token, token_outs, created_out, or_422}
use ollama_proxy.DashboardBackend
use ollama_proxy.DashboardBackend.{edited, created_payload, unprocessable_client_error}

-- What is a DashboardClientError on the one side is an HTTPException on the other.
abbrev pub dress : Exception → Exception
dress (http_exception code detail) = dashboard_client_error code detail
dress e = e

abbrev pub as_client : {A : Type 0} → Result A → Result A
as_client (returned a) = returned a
as_client (raised e) = raised (dress e)

abbrev pub dressed : {S A : Type 0} → Result A × S → Result A × S
dressed (r, s) = (as_client r, s)

from_orm_key-plain : (key : ApiKey) → as_client (from_orm_key key) ≡ from_orm_key key
from_orm_key-plain key = elim (Bool-cases (str_eq key.status "active")) [
  | inl a ↦ rw a refl
  | inr a ↦ elim (Bool-cases (str_eq key.status "depleted")) [
    | inl b ↦ rw a rw b refl
    | inr b ↦ elim (Bool-cases (str_eq key.status "disabled")) [
      | inl c ↦ rw a rw b rw c refl
      | inr c ↦ rw a rw b rw c refl
    ]
  ]
]

-- An exception that wears no HTTP status is the same on both sides.
plain_exception :
    {A : Type 0} (r : Result A) (e : Exception) → as_client r ≡ r → r ≡ raised e → dress e ≡ e
plain_exception (returned a) e h q = ground (arith, q)
plain_exception (raised x) e h q = ground (arith, h, q)

outs-plain : (keys : List ApiKey) → as_client (outs keys) ≡ outs keys
outs-plain [] = refl
outs-plain (key ∷ keys) = elim (Result-cases (from_orm_key key)) [
  | inl (out, e) ↦ elim (Result-cases (outs keys)) [
    | inl (rest, q) ↦ rw e rw q refl
    | inr (x, q) ↦ rw e rw q (ap raised (plain_exception (outs keys) x (outs-plain keys) q))
  ]
  | inr (x, e) ↦ rw e (ap raised (plain_exception (from_orm_key key) x (from_orm_key-plain key) e))
]

create_key-dressed :
    (sha256 : String → String) (vault : Vault) (now : ℕ) (label : Option String) (key : String)
    (s : Pool)
    → DashboardBackend.create_key sha256 vault now label key s
      ≡ dressed (AdminKeys.create_key sha256 vault now label key s)
unfolding DashboardBackend.create_key AdminKeys.create_key encrypt
create_key-dressed sha256 vault now label key s = elim (Option-cases vault.fernet) [
  | inl e ↦ rw e refl
  | inr (f, e) ↦ elim (Option-cases (find_key_hash (sha256 key) s.api_keys)) [
    | inl q ↦ rw e rw q refl
    | inr (k, q) ↦ rw e rw q refl
  ]
]

get_key-dressed :
    (key_id : ℕ) (s : Pool)
    → DashboardBackend.get_key key_id s ≡ dressed (AdminKeys.get_key key_id s)
unfolding load_or_404
get_key-dressed key_id s = elim (Option-cases (find_key key_id s.api_keys)) [
  | inl e ↦ rw e refl
  | inr (key, e) ↦ rw e rw (from_orm_key-plain key) refl
]

delete_key-dressed :
    (key_id : ℕ) (s : Pool)
    → DashboardBackend.delete_key key_id s ≡ dressed (AdminKeys.delete_key key_id s)
unfolding load_or_404 DashboardBackend.delete_key AdminKeys.delete_key
delete_key-dressed key_id s = elim (Option-cases (find_key key_id s.api_keys)) [
  | inl e ↦ rw e refl
  | inr (key, e) ↦ rw e refl
]

abbrev pub status_text : Option ApiKeyStatus → Option String
status_text none = none
status_text (some status) = some (value status)

edited-patched :
    (now : ℕ) (label : Option String) (status : Option ApiKeyStatus) (key : ApiKey)
    → edited now label (status_text status) key ≡ patched now label status key
unfolding edited patched
edited-patched now label none key = refl
edited-patched now label (some status) key = refl

update_key-dressed :
    (now key_id : ℕ) (label : Option String) (status : Option ApiKeyStatus) (s : Pool)
    → DashboardBackend.update_key now key_id label (status_text status) s
      ≡ dressed (AdminKeys.update_key now key_id label status s)
unfolding load_or_404 DashboardBackend.update_key AdminKeys.update_key edited patched
update_key-dressed now key_id label none s = elim (Option-cases (find_key key_id s.api_keys)) [
  | inl e ↦ rw e refl
  | inr (key, e) ↦ rw e rw (from_orm_key-plain (patched now label none key)) refl
]
update_key-dressed now key_id label (some status) s =
    elim (Option-cases (find_key key_id s.api_keys)) [
      | inl e ↦ rw e refl
      | inr (key, e) ↦ rw e rw (from_orm_key-plain (patched now label (some status) key)) refl
    ]

-- Whatever the pool and the arguments, the dashboard's creation, listing, lookup, update and deletion
-- of keys do what the administration's routes do: the same answer and the same pool, where the route's
-- HTTPException is a DashboardClientError with its status and detail.
pub keys-dressed :
    (sha256 : String → String) (vault : Vault) (now key_id : ℕ) (label : Option String)
    (key : String) (status : Option ApiKeyStatus) (s : Pool)
    → (DashboardBackend.create_key sha256 vault now label key s
        ≡ dressed (AdminKeys.create_key sha256 vault now label key s))
      × (DashboardBackend.list_keys s ≡ dressed (AdminKeys.list_keys s))
      × (DashboardBackend.get_key key_id s ≡ dressed (AdminKeys.get_key key_id s))
      × (DashboardBackend.update_key now key_id label (status_text status) s
          ≡ dressed (AdminKeys.update_key now key_id label status s))
      × (DashboardBackend.delete_key key_id s ≡ dressed (AdminKeys.delete_key key_id s))
keys-dressed sha256 vault now key_id label key status s = (
  create_key-dressed sha256 vault now label key s,
  ap (λ r. (r, s)) (sym (outs-plain (Table.order_by_id (λ (k : ApiKey). k.id) s.api_keys))),
  get_key-dressed key_id s,
  update_key-dressed now key_id label status s,
  delete_key-dressed key_id s,
)

from_orm_token-plain : (token : UserToken) → as_client (from_orm_token token) ≡ from_orm_token token
from_orm_token-plain token = elim (Bool-cases (str_eq token.status "active")) [
  | inl a ↦ rw a refl
  | inr a ↦ elim (Bool-cases (str_eq token.status "revoked")) [
    | inl b ↦ rw a rw b refl
    | inr b ↦ rw a rw b refl
  ]
]

get_user_token-dressed :
    (token_id : ℕ) (db : Db)
    → DashboardBackend.get_user_token token_id db
      ≡ dressed (AdminUserTokens.get_user_token token_id db)
get_user_token-dressed token_id db = elim (Option-cases (get_token db token_id)) [
  | inl e ↦ rw e refl
  | inr (token, e) ↦ rw e rw (from_orm_token-plain token) refl
]

delete_user_token-dressed :
    (token_id : ℕ) (db : Db)
    → DashboardBackend.delete_user_token token_id db
      ≡ dressed (AdminUserTokens.revoke_user_token token_id db)
unfolding DashboardBackend.delete_user_token AdminUserTokens.revoke_user_token
    hard_delete_user_token
delete_user_token-dressed token_id db = elim (Option-cases (get_token db token_id)) [
  | inl e ↦ rw e refl
  | inr (token, e) ↦ rw e (rw e refl)
]

expiry_error-cases :
    (expires_at : Option Datetime) (now : ℕ)
    → (expiry_error expires_at now ≡ none)
      ⊎ ((expiry_error expires_at now ≡ some type_error)
          ⊎ (expiry_error expires_at now ≡ some value_error))
expiry_error-cases none now = inl refl
expiry_error-cases (some (naive t)) now = inr (inl refl)
expiry_error-cases (some (aware t)) now = elim (Bool-cases (leb t now)) [
  | inl e ↦ rw e (inr (inr refl))
  | inr e ↦ rw e (inl refl)
]

inserted-dressed :
    (token : UserToken) (raw : String) (db : Db) (o : Option UserToken) (sha256 : String → String)
    → created_payload (unprocessable_client_error (insert_token sha256 token raw db o).0)
      ≡ as_client (created_out (or_422 (insert_token sha256 token raw db o).0))
inserted-dressed token raw db none sha256 = elim (Result-cases (from_orm_token token)) [
  | inl (out, e) ↦ rw e refl
  | inr (x, e) ↦
      rw e
        (ap raised (sym (plain_exception (from_orm_token token) x (from_orm_token-plain token) e)))
]
inserted-dressed token raw db (some other) sha256 = refl

create_user_token-dressed :
    (sha256 : String → String) (now : ℕ) (random label : String) (expires_at : Option Datetime)
    (db : Db)
    → DashboardBackend.create_user_token sha256 now random label expires_at db
      ≡ dressed (AdminUserTokens.create_user_token sha256 now random label expires_at db)
unfolding DashboardBackend.create_user_token AdminUserTokens.create_user_token create_token
    find_hash
create_user_token-dressed sha256 now random label expires_at db =
    let raw = generate_raw_key random in
    let id = Table.next_id (λ (t : UserToken). t.id) db.user_tokens in
    let token = new_token sha256 id raw label expires_at now in
    let o = find_hash (hash_key sha256 raw) db.user_tokens in
    elim (expiry_error-cases expires_at now) [
      | inl e ↦ rw e (
          ap (λ r. (r, (insert_token sha256 token raw db o).1))
            (inserted-dressed token raw db o sha256))
      | inr (inl e) ↦ rw e refl
      | inr (inr e) ↦ rw e refl
    ]

token_outs-plain : (tokens : List UserToken) → as_client (token_outs tokens) ≡ token_outs tokens
token_outs-plain [] = refl
token_outs-plain (token ∷ tokens) = elim (Result-cases (from_orm_token token)) [
  | inl (out, e) ↦ elim (Result-cases (token_outs tokens)) [
    | inl (rest, q) ↦ rw e rw q refl
    | inr (x, q) ↦
        rw e rw q (ap raised (plain_exception (token_outs tokens) x (token_outs-plain tokens) q))
  ]
  | inr (x, e) ↦
      rw e (ap raised (plain_exception (from_orm_token token) x (from_orm_token-plain token) e))
]

-- The dashboard's minting, listing, lookup and deletion of user tokens do what the administration's
-- routes do: the same answer and the same tables, but for the dress of the exception.
pub tokens-dressed :
    (sha256 : String → String) (now token_id : ℕ) (random label : String)
    (expires_at : Option Datetime) (db : Db)
    → (DashboardBackend.create_user_token sha256 now random label expires_at db
        ≡ dressed (AdminUserTokens.create_user_token sha256 now random label expires_at db))
      × (DashboardBackend.list_user_tokens db ≡ dressed (AdminUserTokens.list_user_tokens db))
      × (DashboardBackend.get_user_token token_id db
          ≡ dressed (AdminUserTokens.get_user_token token_id db))
      × (DashboardBackend.delete_user_token token_id db
          ≡ dressed (AdminUserTokens.revoke_user_token token_id db))
tokens-dressed sha256 now token_id random label expires_at db = (
  create_user_token-dressed sha256 now random label expires_at db,
  ap (λ r. (r, db)) (sym (token_outs-plain (list_tokens db))),
  get_user_token-dressed token_id db,
  delete_user_token-dressed token_id db,
)
