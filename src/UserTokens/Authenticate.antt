-- ===== src/UserTokens/Authenticate.antt =====
-- Whom `authenticate` lets in, told without the code's search: by the rows of the table.
use ollama_proxy.Prelude.{
  ℕ, zero, suc, ◌≡◌, ◌≢◌, refl, ap, ◌∙◌, ◌⊎◌, inl, inr, String, true, false, Option, none, some,
  List, [], ◌∷◌, str_eq, eq_iff, All, get_elem?, arith, Bool-cases, Option-cases, All-get_elem?,
}
use ollama_proxy.Clock.{as_utc}
use ollama_proxy.Exec.{returned}
use ollama_proxy.Models.{Db, UserToken, active}
use ollama_proxy.UserTokens.{
  find_hash, is_past, has_token_status, set_token, with_tokens, count_use, with_use, admit,
  authenticate,
}

-- No two rows have one hash: the column's UNIQUE constraint.
abbrev pub DistinctHashes : List UserToken → Type 0
DistinctHashes [] = Unit
DistinctHashes (t ∷ rows) = All (λ r. r.key_hash ≢ t.key_hash) rows × DistinctHashes rows

-- A row lets the owner of the hash h in at a moment.
abbrev pub IsLive : String → ℕ → UserToken → Type 0
IsLive h now t =
    (t.key_hash ≡ h)
    × (has_token_status active t ≡ true)
    × (is_past (as_utc t.expires_at) now ≡ false)

pub find_hash_of_mem :
    (h : String) (rows : List UserToken) (i : ℕ) (t : UserToken)
    → DistinctHashes rows
    → get_elem? rows i ≡ some t
    → t.key_hash ≡ h
    → find_hash h rows ≡ some t
unfolding find_hash
find_hash_of_mem h [] i t d e q = ground arith
find_hash_of_mem h (r ∷ rows) zero t d e q = ground (arith, eq_iff t.key_hash h)
find_hash_of_mem h (r ∷ rows) (suc i) t d e q =
    let apart = All-get_elem? (λ x. x.key_hash ≢ r.key_hash) rows i d.0 e in
    ground (arith, eq_iff r.key_hash h, apart, find_hash_of_mem h rows i t d.1 e q)

pub mem_of_find_hash :
    (h : String) (rows : List UserToken) (t : UserToken)
    → find_hash h rows ≡ some t
    → (t.key_hash ≡ h) × ((i : ℕ) × (get_elem? rows i ≡ some t))
unfolding find_hash
mem_of_find_hash h [] t e = ground arith
mem_of_find_hash h (r ∷ rows) t e = elim (Bool-cases (str_eq r.key_hash h)) [
  | inl q ↦ (ground (arith, eq_iff r.key_hash h), (0, ground arith))
  | inr q ↦
      let rest = mem_of_find_hash h rows t (ground arith) in (rest.0, (suc rest.1.0, rest.1.1))
]

module _ (checked now : ℕ) (db : Db) where
  -- What `admit` does with a row, by whether the row is active and not past.
  pub admit-cases :
      (t : UserToken)
      → (has_token_status active t ≡ true)
          × (is_past (as_utc t.expires_at) checked ≡ false)
          × (admit checked now (some t) db ≡ (
            some (with_use now t),
            with_tokens db (set_token t.id (count_use now) db.user_tokens),
          ))
        ⊎ (((has_token_status active t ≡ false) ⊎ (is_past (as_utc t.expires_at) checked ≡ true))
            × (admit checked now (some t) db ≡ (none, db)))
  unfolding admit
  admit-cases t = elim (Bool-cases (has_token_status active t)) [
    | inr q ↦ inr (inl q, rw q refl)
    | inl q ↦ elim (Bool-cases (is_past (as_utc t.expires_at) checked)) [
      | inl p ↦ inr (inr p, rw q rw p refl)
      | inr p ↦ inl (q, p, rw q rw p refl)
    ]
  ]

admit-none : (checked now : ℕ) (db : Db) → admit checked now none db ≡ (none, db)
unfolding admit
admit-none checked now db = refl

pub authenticate-admit :
    (sha256 : String → String) (checked now : ℕ) (raw : String) (db : Db) (o : Option UserToken)
    → raw ≢ ""
    → find_hash (sha256 raw) db.user_tokens ≡ o
    → authenticate sha256 checked now raw db
      ≡ (returned (admit checked now o db).0, (admit checked now o db).1)
unfolding authenticate
authenticate-admit sha256 checked now raw db o h e = elim (Bool-cases (str_eq raw "")) [
  | inl q ↦ elim (h (ground (arith, eq_iff raw ""))) [ ]
  | inr q ↦ rw q rw e refl
]

-- With a text that is not empty, `authenticate` gives a token exactly where a row of the table is
-- live for its hash at the moment of the check: that row, used once more. It then counts the
-- use in the row with that key, and leaves the table alone otherwise.
pub authenticate-IsExact :
    (sha256 : String → String) (checked now : ℕ) (raw : String) (db : Db)
    → raw ≢ ""
    → DistinctHashes db.user_tokens
    → let r = authenticate sha256 checked now raw db in
      ((i : ℕ) (t : UserToken)
        → get_elem? db.user_tokens i ≡ some t
        → IsLive (sha256 raw) checked t
        → r ≡ (
          returned (some (with_use now t)),
          with_tokens db (set_token t.id (count_use now) db.user_tokens),
        ))
      × (((i : ℕ) (t : UserToken)
            → get_elem? db.user_tokens i ≡ some t
            → ¬ IsLive (sha256 raw) checked t)
          → r ≡ (returned none, db))
unfolding admit
authenticate-IsExact sha256 checked now raw db h d = (
  λ i t e live.
      let found = find_hash_of_mem (sha256 raw) db.user_tokens i t d e live.0 in
      let step = authenticate-admit sha256 checked now raw db (some t) h found in
      elim (admit-cases checked now db t) [
        | inl q ↦ step ∙ rw q.2 refl
        | inr (inl q, _) ↦ ground (arith, live.1, q)
        | inr (inr q, _) ↦ ground (arith, live.2, q)
      ],
  λ dead. elim (Option-cases (find_hash (sha256 raw) db.user_tokens)) [
    | inl q ↦ authenticate-admit sha256 checked now raw db none h q
    | inr (t, q) ↦
        let at_row = mem_of_find_hash (sha256 raw) db.user_tokens t q in
        let step = authenticate-admit sha256 checked now raw db (some t) h q in
        elim (admit-cases checked now db t) [
          | inl p ↦ elim (dead at_row.1.0 t at_row.1.1 (at_row.0, p.0, p.1)) [ ]
          | inr p ↦ step ∙ rw p.1 refl
        ]
  ],
)

-- A token that `authenticate` gives is a live row of the table, used once more.
pub authenticate_sound :
    (sha256 : String → String) (checked now : ℕ) (raw : String) (db : Db) (u : UserToken)
    → raw ≢ ""
    → (authenticate sha256 checked now raw db).0 ≡ returned (some u)
    → (t : UserToken) × ((i : ℕ) × (get_elem? db.user_tokens i ≡ some t))
      × IsLive (sha256 raw) checked t
      × (with_use now t ≡ u)
authenticate_sound sha256 checked now raw db u h e =
    elim (Option-cases (find_hash (sha256 raw) db.user_tokens)) [
      | inl q ↦ ground (
        arith,
        e,
        ap (λ r. r.0) (authenticate-admit sha256 checked now raw db none h q),
        admit-none checked now db,
      )
      | inr (t, q) ↦
          let at_row = mem_of_find_hash (sha256 raw) db.user_tokens t q in
          let step = ap (λ r. r.0) (authenticate-admit sha256 checked now raw db (some t) h q) in
          elim (admit-cases checked now db t) [
            | inl p ↦ (t, at_row.1, (at_row.0, p.0, p.1), ground (arith, e, step, p.2))
            | inr p ↦ ground (arith, e, step, p.1)
          ]
    ]
