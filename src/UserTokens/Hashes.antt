-- ===== src/UserTokens/Hashes.antt =====
-- The rows of the token table have different hashes, whatever operations were run.
use ollama_proxy.Prelude.{
  ℕ, ◌≡◌, ◌≢◌, refl, sym, subst, inl, inr, String, Option, none, some, List, [], ◌∷◌, ◌++◌, ◌==◌,
  str_eq, eq_iff, All, arith, Bool-cases, Option-cases, All-append,
}
use ollama_proxy.Clock.{Datetime}
use ollama_proxy.Table
use ollama_proxy.Models.{Db, UserToken}
use ollama_proxy.UserTokens.{
  generate_raw_key, hash_key, new_token, find_hash, find_token, expiry_error, set_token, count_use,
  admit, authenticate, create_token, insert_token, Changes, changed, revoking, update_token,
  revoke_token, delete_found, hard_delete_user_token,
}
use ollama_proxy.UserTokens.Authenticate.{DistinctHashes, admit-cases}
use ollama_proxy.UserTokens.Lifecycle.{changed-key_hash}

abbrev pub IsOther : UserToken → UserToken → Type 0
IsOther t r = r.key_hash ≢ t.key_hash

-- One operation of the service on the database.
pub data Step (sha256 : String → String) : Db → Db → Type 0 where
  creates :
      (at : ℕ) (random label : String) (expires_at : Option Datetime) (db : Db)
      → Step sha256 db (create_token sha256 at random label expires_at db).1
  authenticates :
      (checked now : ℕ) (raw : String) (db : Db)
      → Step sha256 db (authenticate sha256 checked now raw db).1
  updates :
      (now : ℕ) (t : UserToken) (c : Changes) (db : Db) → Step sha256 db (update_token now t c db).1
  revokes : (now : ℕ) (t : UserToken) (db : Db) → Step sha256 db (revoke_token now t db).1
  deletes : (key : ℕ) (db : Db) → Step sha256 db (hard_delete_user_token key db).1

-- The databases that a run of operations leads to.
pub data Reach (sha256 : String → String) : Db → Db → Type 0 where
  stays : (db : Db) → Reach sha256 db db
  steps : (a b c : Db) → Step sha256 a b → Reach sha256 b c → Reach sha256 a c

All-set_token :
    (t : UserToken) (key : ℕ) (f : UserToken → UserToken) (rows : List UserToken)
    → ((r : UserToken) → (f r).key_hash ≡ r.key_hash)
    → All (IsOther t) rows
    → All (IsOther t) (set_token key f rows)
All-set_token t key f rows keeps h =
    Table.All-update_where (IsOther t) (λ r. r.id == key) f rows
      (λ r e apart. subst (λ k. k ≢ t.key_hash) (sym (keeps r)) apart) h

DistinctHashes-set_token :
    (key : ℕ) (f : UserToken → UserToken) (rows : List UserToken)
    → ((r : UserToken) → (f r).key_hash ≡ r.key_hash)
    → DistinctHashes rows
    → DistinctHashes (set_token key f rows)
unfolding Table.update_where
DistinctHashes-set_token key f [] keeps d = tt
DistinctHashes-set_token key f (t ∷ rows) keeps d =
    let rest = DistinctHashes-set_token key f rows keeps d.1 in
    let others = All-set_token t key f rows keeps d.0 in
    elim (Bool-cases (t.id == key)) [
      | inl q ↦ rw q (
        subst (λ k. All (λ r. r.key_hash ≢ k) (set_token key f rows)) (sym (keeps t)) others,
        rest,
      )
      | inr q ↦ rw q (others, rest)
    ]

All-delete_row :
    (t : UserToken) (key : ℕ) (rows : List UserToken)
    → All (IsOther t) rows
    → All (IsOther t) (Table.delete_row (λ r. r.id) key rows)
unfolding Table.delete_row
All-delete_row t key [] h = tt
All-delete_row t key (r ∷ rows) h = elim (Bool-cases (r.id == key)) [
  | inl q ↦ rw q (All-delete_row t key rows h.1)
  | inr q ↦ rw q (h.0, All-delete_row t key rows h.1)
]

DistinctHashes-delete_row :
    (key : ℕ) (rows : List UserToken)
    → DistinctHashes rows
    → DistinctHashes (Table.delete_row (λ r. r.id) key rows)
unfolding Table.delete_row
DistinctHashes-delete_row key [] d = tt
DistinctHashes-delete_row key (r ∷ rows) d = elim (Bool-cases (r.id == key)) [
  | inl q ↦ rw q (DistinctHashes-delete_row key rows d.1)
  | inr q ↦ rw q (All-delete_row r key rows d.0, DistinctHashes-delete_row key rows d.1)
]

DistinctHashes-append :
    (rows : List UserToken) (t : UserToken)
    → DistinctHashes rows
    → find_hash t.key_hash rows ≡ none
    → DistinctHashes (rows ++ t ∷ [])
unfolding find_hash
DistinctHashes-append [] t d e = (tt, tt)
DistinctHashes-append (r ∷ rows) t d e = elim (Bool-cases (str_eq r.key_hash t.key_hash)) [
  | inl q ↦ ground (arith, q, e)
  | inr q ↦ (
    All-append (IsOther r) rows (t ∷ []) d.0 (ground (arith, q, eq_iff r.key_hash t.key_hash), tt),
    DistinctHashes-append rows t d.1 (ground (arith, q, e)),
  )
]

module _ (sha256 : String → String) where
  insert_token-DistinctHashes :
      (token : UserToken) (raw : String) (db : Db) (o : Option UserToken)
      → find_hash token.key_hash db.user_tokens ≡ o
      → DistinctHashes db.user_tokens
      → DistinctHashes (insert_token sha256 token raw db o).1.user_tokens
  insert_token-DistinctHashes token raw db (some t) e d = d
  insert_token-DistinctHashes token raw db none e d = DistinctHashes-append db.user_tokens token d e

  create_token-DistinctHashes :
      (at : ℕ) (random label : String) (expires_at : Option Datetime) (db : Db)
      → DistinctHashes db.user_tokens
      → DistinctHashes (create_token sha256 at random label expires_at db).1.user_tokens
  unfolding create_token
  create_token-DistinctHashes at random label expires_at db d =
      elim (Option-cases (expiry_error expires_at at)) [
        | inr (x, q) ↦ rw q d
        | inl q ↦
            let key = generate_raw_key random in
            let row =
              new_token sha256 (Table.next_id (λ (x : UserToken). x.id) db.user_tokens) key label
                expires_at at in
            rw q (
              insert_token-DistinctHashes row key db
                (find_hash (hash_key sha256 key) db.user_tokens) refl d)
      ]

  admit-DistinctHashes :
      (checked now : ℕ) (db : Db) (o : Option UserToken)
      → DistinctHashes db.user_tokens
      → DistinctHashes (admit checked now o db).1.user_tokens
  unfolding count_use admit
  admit-DistinctHashes checked now db none d = d
  admit-DistinctHashes checked now db (some t) d = elim (admit-cases checked now db t) [
    | inl q ↦ rw q.2 (DistinctHashes-set_token t.id (count_use now) db.user_tokens (λ r. refl) d)
    | inr q ↦ rw q.1 d
  ]

  delete_found-DistinctHashes :
      (key : ℕ) (o : Option UserToken) (db : Db)
      → DistinctHashes db.user_tokens
      → DistinctHashes (delete_found key o db).1.user_tokens
  delete_found-DistinctHashes key none db d = d
  delete_found-DistinctHashes key (some t) db d = DistinctHashes-delete_row key db.user_tokens d

  Step-DistinctHashes :
      (a b : Db) → Step sha256 a b → DistinctHashes a.user_tokens → DistinctHashes b.user_tokens
  unfolding authenticate update_token revoke_token hard_delete_user_token
  Step-DistinctHashes a b (creates at random label expires_at db) d =
      create_token-DistinctHashes at random label expires_at db d
  Step-DistinctHashes a b (authenticates checked now raw db) d = elim (Bool-cases (str_eq raw "")) [
    | inl q ↦ rw q d
    | inr q ↦
        rw q
          (admit-DistinctHashes checked now db (find_hash (hash_key sha256 raw) db.user_tokens) d)
  ]
  Step-DistinctHashes a b (updates now t c db) d =
      DistinctHashes-set_token t.id (changed now c) db.user_tokens (changed-key_hash now c) d
  Step-DistinctHashes a b (revokes now t db) d =
      DistinctHashes-set_token t.id (changed now revoking) db.user_tokens
        (changed-key_hash now revoking) d
  Step-DistinctHashes a b (deletes key db) d =
      delete_found-DistinctHashes key (find_token key db.user_tokens) db d

  -- From a database whose tokens have different hashes, every run of creations, authentications,
  -- updates, revocations and deletions, whatever they answer, leads to one whose tokens do.
  pub Reach-DistinctHashes :
      (a b : Db) → Reach sha256 a b → DistinctHashes a.user_tokens → DistinctHashes b.user_tokens
  Reach-DistinctHashes a b (stays db) d = d
  Reach-DistinctHashes a b (steps x y z s rest) d =
      Reach-DistinctHashes y z rest (Step-DistinctHashes x y s d)
