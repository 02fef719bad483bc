-- ===== src/UserTokens/Lifecycle.antt =====
-- A token from its creation to its end: what the operations on its row do to `authenticate`.
use ollama_proxy.Prelude.{
  ℕ, ◌≡◌, ◌≢◌, refl, sym, ap, subst, ◌∙◌, inl, inr, String, Bool, true, false, Option, none, some,
  List, [], ◌∷◌, ◌++◌, ◌==◌, str_eq, eq_iff, if◌then◌else◌, All, arith, Bool-cases, Option-cases,
}
use Prim.Native.String.append
use ollama_proxy.Clock.{Datetime, as_utc}
use ollama_proxy.Exec.{returned}
use ollama_proxy.Table
use ollama_proxy.Models.{Db, UserToken, revoked, token_value}
use ollama_proxy.UserTokens.{
  generate_raw_key, hash_key, new_token, find_hash, find_token, expiry_error, is_past, set_token,
  with_tokens, count_use, with_use, admit, authenticate, create_token, insert_token, Changes,
  changed, revoking, stamp_if_new, revoke_token, hard_delete_user_token,
}
use ollama_proxy.UserTokens.Authenticate.{admit-cases, DistinctHashes, authenticate-admit}

-- An update of a row by its key, that leaves the hash, is seen in what is found by the hash.
find_hash-set_token :
    (h : String) (key : ℕ) (f : UserToken → UserToken) (rows : List UserToken)
    → ((r : UserToken) → (f r).key_hash ≡ r.key_hash)
    → find_hash h (set_token key f rows)
      ≡ (elim (find_hash h rows) [ none ↦ none | some r ↦ some (if r.id == key then f r else r) ])
unfolding find_hash Table.update_where
find_hash-set_token h key f [] keeps = refl
find_hash-set_token h key f (r ∷ rows) keeps =
    ground (arith, keeps r, find_hash-set_token h key f rows keeps)

find_hash-append :
    (h : String) (rows : List UserToken) (t : UserToken)
    → find_hash h rows ≡ none
    → t.key_hash ≡ h
    → find_hash h (rows ++ t ∷ []) ≡ some t
unfolding find_hash
find_hash-append h [] t e q = ground (arith, eq_iff t.key_hash h)
find_hash-append h (r ∷ rows) t e q = ground (arith, find_hash-append h rows t)

abbrev pub is_empty_text : String → Bool
is_empty_text String.[] = true
is_empty_text (String.◌∷◌ c s) = false

pub true-≢-false : true ≢ false
true-≢-false e = ground arith

generate_raw_key-NonEmpty : (random : String) → generate_raw_key random ≢ ""
generate_raw_key-NonEmpty random e =
    true-≢-false (sym (ap is_empty_text (sym (append.cons "o" "pk_" random) ∙ e)))

pub changed-key_hash :
    (now : ℕ) (c : Changes) (t : UserToken) → (changed now c t).key_hash ≡ t.key_hash
unfolding changed
changed-key_hash now c t = ground arith

stamp_if_new-status :
    (now : ℕ) (old new : UserToken) → (stamp_if_new now old new).status ≡ new.status
stamp_if_new-status now old new = ground arith

pub changed_status : (at : ℕ) (t : UserToken) → (changed at revoking t).status ≡ "revoked"
unfolding changed
changed_status at t =
    stamp_if_new-status at t
      (record t { label = t.label; expires_at = t.expires_at; status = token_value revoked })

admit-revoked :
    (at checked now : ℕ) (t : UserToken) (db : Db)
    → admit checked now (some (changed at revoking t)) db ≡ (none, db)
unfolding admit
admit-revoked at checked now t db = rw (changed_status at t) refl

-- A raw key whose token is revoked is refused from then on, at every moment.
pub authenticate-revoke_token :
    (sha256 : String → String) (at checked now : ℕ) (raw : String) (db : Db) (t : UserToken)
    → raw ≢ ""
    → find_hash (sha256 raw) db.user_tokens ≡ some t
    → let db' = (revoke_token at t db).1 in
      authenticate sha256 checked now raw db' ≡ (returned none, db')
unfolding revoke_token
authenticate-revoke_token sha256 at checked now raw db t h e =
    let db' = (revoke_token at t db).1 in
    let after =
      find_hash-set_token (sha256 raw) t.id (changed at revoking) db.user_tokens
        (changed-key_hash at revoking) in
    let found : find_hash (sha256 raw) db'.user_tokens ≡ some (changed at revoking t) =
      ground (arith, after, e) in
    authenticate-admit sha256 checked now raw db' (some (changed at revoking t)) h found
    ∙ rw (admit-revoked at checked now t db') refl

find_hash_of_All :
    (h : String) (rows : List UserToken) → All (λ r. r.key_hash ≢ h) rows → find_hash h rows ≡ none
unfolding find_hash
find_hash_of_All h [] d = refl
find_hash_of_All h (r ∷ rows) d =
    ground (arith, d.0, eq_iff r.key_hash h, find_hash_of_All h rows d.1)

-- What no row has, no row has after a deletion.
find_hash-delete_row-none :
    (h : String) (key : ℕ) (rows : List UserToken)
    → find_hash h rows ≡ none
    → find_hash h (Table.delete_row (λ r. r.id) key rows) ≡ none
unfolding find_hash Table.delete_row
find_hash-delete_row-none h key [] e = refl
find_hash-delete_row-none h key (r ∷ rows) e =
    ground (arith, e, find_hash-delete_row-none h key rows)

-- Who is found by the hash is found by the key, though perhaps not first.
find_token_of_hash :
    (h : String) (rows : List UserToken) (t : UserToken)
    → find_hash h rows ≡ some t
    → find_token t.id rows ≢ none
unfolding find_hash Table.find
find_token_of_hash h [] t e q = ground arith
find_token_of_hash h (r ∷ rows) t e q = ground (arith, e, q, find_token_of_hash h rows t)

find_hash-delete_row :
    (h : String) (rows : List UserToken) (t : UserToken)
    → DistinctHashes rows
    → find_hash h rows ≡ some t
    → find_hash h (Table.delete_row (λ r. r.id) t.id rows) ≡ none
unfolding find_hash Table.delete_row
find_hash-delete_row h [] t d e = refl
find_hash-delete_row h (r ∷ rows) t d e = elim (Bool-cases (str_eq r.key_hash h)) [
  | inl q ↦
      let others =
        find_hash_of_All h rows
          (subst (λ k. All (λ x. x.key_hash ≢ k) rows) ((eq_iff r.key_hash h).0 q) d.0) in
      ground (arith, q, e, find_hash-delete_row-none h t.id rows others)
  | inr q ↦ ground (arith, find_hash-delete_row h rows t d.1)
]

-- A raw key whose row is deleted is refused from then on, at every moment.
pub authenticate-hard_delete_user_token :
    (sha256 : String → String) (checked now : ℕ) (raw : String) (db : Db) (t : UserToken)
    → raw ≢ ""
    → DistinctHashes db.user_tokens
    → find_hash (sha256 raw) db.user_tokens ≡ some t
    → let db' = (hard_delete_user_token t.id db).1 in
      authenticate sha256 checked now raw db' ≡ (returned none, db')
unfolding hard_delete_user_token admit
authenticate-hard_delete_user_token sha256 checked now raw db t h d e =
    let gone = find_hash-delete_row (sha256 raw) db.user_tokens t d e in
    elim (Option-cases (find_token t.id db.user_tokens)) [
      | inl q ↦ elim (find_token_of_hash (sha256 raw) db.user_tokens t e q) [ ]
      | inr (u, q) ↦ rw q (
          authenticate-admit sha256 checked now raw
            (with_tokens db (Table.delete_row (λ r. r.id) t.id db.user_tokens)) none h gone)
    ]

insert_token-some :
    (sha256 : String → String) (token t : UserToken) (raw raw' : String) (db : Db)
    (o : Option UserToken)
    → find_hash token.key_hash db.user_tokens ≡ o
    → (insert_token sha256 token raw db o).0 ≡ returned (t, raw')
    → (token ≡ t)
      × (raw ≡ raw')
      × (find_hash token.key_hash (insert_token sha256 token raw db o).1.user_tokens ≡ some token)
insert_token-some sha256 token t raw raw' db (some other) f e = ground arith
insert_token-some sha256 token t raw raw' db none f e =
    (ground arith, ground arith, find_hash-append token.key_hash db.user_tokens token f refl)

-- What a creation that returns leaves behind.
create_token-some :
    (sha256 : String → String) (at : ℕ) (random label : String) (expires_at : Option Datetime)
    (db : Db) (t : UserToken) (raw : String)
    → (create_token sha256 at random label expires_at db).0 ≡ returned (t, raw)
    → (raw ≢ "")
      × (t.status ≡ "active")
      × (find_hash (sha256 raw) (create_token sha256 at random label expires_at db).1.user_tokens
          ≡ some t)
unfolding create_token
create_token-some sha256 at random label expires_at db t raw e =
    elim (Option-cases (expiry_error expires_at at)) [
      | inr (x, q) ↦ ground (arith, q, e)
      | inl q ↦
          let key = generate_raw_key random in
          let row =
            new_token sha256 (Table.next_id (λ (x : UserToken). x.id) db.user_tokens) key label
              expires_at at in
          let r =
            insert_token-some sha256 row t key raw db
              (find_hash (hash_key sha256 key) db.user_tokens) refl (ground (arith, q, e)) in
          (
            subst (λ k. k ≢ "") r.1 (generate_raw_key-NonEmpty random),
            ap (λ x. x.status) (sym r.0),
            rw q (
                subst
                  (λ k.
                    find_hash (sha256 k)
                      (insert_token sha256 row key db
                        (find_hash (hash_key sha256 key) db.user_tokens)).1.user_tokens
                    ≡ some t)
                  r.1 (r.2 ∙ ap some r.0)),
          )
    ]

-- A raw key that was handed out at the creation of a token lets its owner in, and counts that use,
-- for as long as the token has not expired.
pub authenticate-create_token :
    (sha256 : String → String) (at checked now : ℕ) (random label : String)
    (expires_at : Option Datetime) (db : Db) (t : UserToken) (raw : String)
    → (create_token sha256 at random label expires_at db).0 ≡ returned (t, raw)
    → is_past (as_utc t.expires_at) checked ≡ false
    → let db' = (create_token sha256 at random label expires_at db).1 in
      authenticate sha256 checked now raw db' ≡ (
        returned (some (with_use now t)),
        with_tokens db' (set_token t.id (count_use now) db'.user_tokens),
      )
unfolding create_token
authenticate-create_token sha256 at checked now random label expires_at db t raw e p =
    let db' = (create_token sha256 at random label expires_at db).1 in
    let made = create_token-some sha256 at random label expires_at db t raw e in
    let step = authenticate-admit sha256 checked now raw db' (some t) made.0 made.2 in
    elim (admit-cases checked now db' t) [
      | inl q ↦ step ∙ rw q.2 refl
      | inr (inl q, _) ↦ elim (true-≢-false (sym (ap (λ s. str_eq s "active") made.1) ∙ q)) [ ]
      | inr (inr q, _) ↦ ground (arith, p, q)
    ]
