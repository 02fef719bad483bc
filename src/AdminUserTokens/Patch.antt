-- ===== src/AdminUserTokens/Patch.antt =====
-- What a PATCH of a token leaves as it was.
use ollama_proxy.Prelude.{ℕ, ◌≡◌, ◌≢◌, refl, inl, inr, false, some, arith, is_some, Bool-cases}
use ollama_proxy.Table
use ollama_proxy.Models.{Db, UserToken}
use ollama_proxy.UserTokens.{changed, stamp_if_new, get_token, update_token}
use ollama_proxy.AdminUserTokens.{UserTokenUpdate, changes_of, sets_nothing, patch_user_token}

-- The token keeps its key and its use, and each field that the payload does not set.
pub record Kept (payload : UserTokenUpdate) (t t' : UserToken) : Type 0 where
  pub id : t'.id ≡ t.id
  pub key_hash : t'.key_hash ≡ t.key_hash
  pub total_requests : t'.total_requests ≡ t.total_requests
  pub last_used_at : t'.last_used_at ≡ t.last_used_at
  pub label : is_some payload.label ≡ false → t'.label ≡ t.label
  pub expires_at : is_some payload.expires_at ≡ false → t'.expires_at ≡ t.expires_at
  pub status : is_some payload.status ≡ false → t'.status ≡ t.status

same-Kept : (payload : UserTokenUpdate) (t : UserToken) → Kept payload t t
same-Kept payload t = record {
  id = refl;
  key_hash = refl;
  total_requests = refl;
  last_used_at = refl;
  label = λ e. refl;
  expires_at = λ e. refl;
  status = λ e. refl;
}

stamp_if_new-Kept :
    (payload : UserTokenUpdate) (now : ℕ) (t old new : UserToken)
    → Kept payload t new
    → Kept payload t (stamp_if_new now old new)
stamp_if_new-Kept payload now t old new k = record {
  id = ground (arith, k.id);
  key_hash = ground (arith, k.key_hash);
  total_requests = ground (arith, k.total_requests);
  last_used_at = ground (arith, k.last_used_at);
  label = λ e. ground (arith, k.label e);
  expires_at = λ e. ground (arith, k.expires_at e);
  status = λ e. ground (arith, k.status e);
}

changed-Kept :
    (payload : UserTokenUpdate) (now : ℕ) (t : UserToken)
    → Kept payload t (changed now (changes_of payload) t)
unfolding changed
changed-Kept payload now t = stamp_if_new-Kept payload now t t _ (record {
  id = refl;
  key_hash = refl;
  total_requests = refl;
  last_used_at = refl;
  label = λ e. ground (arith, e);
  expires_at = λ e. ground (arith, e);
  status = λ e. ground (arith, e);
})

-- Against the database before: the token is there still, kept, and so is every other, as it was.
abbrev pub Patched : ℕ → UserTokenUpdate → UserToken → Db → Db → Type 0
Patched token_id payload t db db' =
    (t' : UserToken) × (get_token db' token_id ≡ some t')
    × Kept payload t t'
    × ((j : ℕ) → j ≢ token_id → get_token db' j ≡ get_token db j)

-- A PATCH of a token that exists leaves its key, its count of requests and its last use, each field
-- that the payload does not set, and every other token, as they were.
pub patch_user_token-Patched :
    (now token_id : ℕ) (payload : UserTokenUpdate) (db : Db) (t : UserToken)
    → get_token db token_id ≡ some t
    → Patched token_id payload t db (patch_user_token now token_id payload db).1
unfolding patch_user_token update_token
patch_user_token-Patched now token_id payload db t found =
    elim (Bool-cases (sets_nothing payload)) [
      | inl q ↦ rw found rw q (t, found, same-Kept payload t, λ j apart. refl)
      | inr q ↦
          let f = changed now (changes_of payload) in
          let same = Table.id-find (λ (x : UserToken). x.id) token_id db.user_tokens t found in
          let see =
            Table.find-update_row (λ (x : UserToken). x.id) t.id f db.user_tokens
              (λ r. (changed-Kept payload now r).id) in
          rw found rw q (
            f t,
            ground (arith, see token_id, found, same),
            changed-Kept payload now t,
            λ j apart. ground (arith, see j, same, apart),
          )
    ]
