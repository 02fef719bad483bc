-- ===== src/Table.antt =====
-- A table of the database, as the services' SQL sees it: the rows, and SELECT, UPDATE and DELETE
-- by a condition or by the primary key. One session at a time reads and writes it.
use ollama_proxy.Prelude.{
  ℕ, suc, ◌+◌, ◌≤◌, ◌≡◌, refl, ap, Bool, true, Option, none, some, List, [], ◌∷◌, arith, ◌==◌, leb,
  if◌then◌else◌, All, Bool-cases, inl, inr, length,
}

module _ {R : Type 0} where
  -- UPDATE … SET f WHERE p
  unfoldable pub update_where : (R → Bool) → (R → R) → List R → List R
  update_where p f [] = []
  update_where p f (r ∷ rows) = (if p r then f r else r) ∷ update_where p f rows

  pub length-update_where :
      (p : R → Bool) (f : R → R) (rows : List R) → length (update_where p f rows) ≡ length rows
  unfolding update_where
  length-update_where p f [] = refl
  length-update_where p f (r ∷ rows) = ap suc (length-update_where p f rows)

  pub All-update_where {κ} :
      (P : R → Type κ) (p : R → Bool) (f : R → R) (rows : List R)
      → ((r : R) → p r ≡ true → P r → P (f r))
      → All P rows
      → All P (update_where p f rows)
  unfolding update_where
  All-update_where P p f [] step h = tt
  All-update_where P p f (r ∷ rows) step h = elim (Bool-cases (p r)) [
    | inl e ↦ rw e (step r e h.0, All-update_where P p f rows step h.1)
    | inr e ↦ rw e (h.0, All-update_where P p f rows step h.1)
  ]

module _ {R : Type 0} (id : R → ℕ) where
  -- `session.get(Model, key)`
  unfoldable pub find : ℕ → List R → Option R
  find key [] = none
  find key (r ∷ rows) = if id r == key then some r else find key rows

  -- UPDATE … SET f WHERE id = key
  abbrev pub update_row : ℕ → (R → R) → List R → List R
  update_row key f = update_where (λ r. id r == key) f

  -- DELETE … WHERE id = key
  unfoldable pub delete_row : ℕ → List R → List R
  delete_row key [] = []
  delete_row key (r ∷ rows) =
      let rest = delete_row key rows in if id r == key then rest else r ∷ rest

  insert_by_id : R → List R → List R
  insert_by_id r [] = r ∷ []
  insert_by_id r (x ∷ rows) =
      let rest = insert_by_id r rows in if leb (id r) (id x) then r ∷ x ∷ rows else x ∷ rest

  -- ORDER BY id
  unfoldable pub order_by_id : List R → List R
  unfolding insert_by_id
  order_by_id [] = []
  order_by_id (r ∷ rows) = insert_by_id r (order_by_id rows)

  -- The key of a new row of an `INTEGER PRIMARY KEY`: one more than every key in use.
  unfoldable pub next_id : List R → ℕ
  next_id [] = 1
  next_id (r ∷ rows) = let rest = next_id rows in if leb rest (id r) then id r + 1 else rest

  pub find-update_row :
      (key : ℕ) (f : R → R) (rows : List R)
      → ((r : R) → id (f r) ≡ id r)
      → (j : ℕ)
      → find j (update_row key f rows) ≡ (
          if j == key
          then (elim (find j rows) [ none ↦ none | some r ↦ some (f r) ])
          else find j rows)
  unfolding find update_where
  find-update_row key f [] keeps j = ground arith
  find-update_row key f (r ∷ rows) keeps j =
      ground (arith, keeps r, find-update_row key f rows keeps j)

  -- What is found carries the key that was asked for.
  pub id-find : (key : ℕ) (rows : List R) (r : R) → find key rows ≡ some r → id r ≡ key
  unfolding find
  id-find key [] r e = ground arith
  id-find key (x ∷ rows) r e = ground (arith, id-find key rows r)

  pub find-delete_row :
      (key : ℕ) (rows : List R) (j : ℕ)
      → find j (delete_row key rows) ≡ (if j == key then none else find j rows)
  unfolding find delete_row
  find-delete_row key [] j = ground arith
  find-delete_row key (r ∷ rows) j = ground (arith, find-delete_row key rows j)

  module _ {κ} (P : R → Type κ) where
    All-insert_by_id : (r : R) (rows : List R) → P r → All P rows → All P (insert_by_id r rows)
    unfolding insert_by_id
    All-insert_by_id r [] h hs = (h, tt)
    All-insert_by_id r (x ∷ rows) h hs = ground (arith, All-insert_by_id r rows h hs.1)

    -- Sorting keeps what holds of every row.
    pub All-order_by_id : (rows : List R) → All P rows → All P (order_by_id rows)
    unfolding order_by_id
    All-order_by_id [] h = tt
    All-order_by_id (r ∷ rows) h =
        All-insert_by_id r (order_by_id rows) h.0 (All-order_by_id rows h.1)

  length-insert_by_id : (r : R) (rows : List R) → length (insert_by_id r rows) ≡ suc (length rows)
  unfolding insert_by_id
  length-insert_by_id r [] = refl
  length-insert_by_id r (x ∷ rows) = ground (arith, length-insert_by_id r rows)

  pub length-order_by_id : (rows : List R) → length (order_by_id rows) ≡ length rows
  unfolding order_by_id
  length-order_by_id [] = refl
  length-order_by_id (r ∷ rows) =
      omega (arith, length-insert_by_id r (order_by_id rows), length-order_by_id rows)

  -- The rows stand by strictly rising keys: how SQLite keeps a table with an integer primary key.
  abbrev pub Rising : ℕ → List R → Type 0
  Rising n [] = Unit
  Rising n (r ∷ rows) = (n ≤ id r) × Rising (suc (id r)) rows

  order_by_id_of_Rising : (n : ℕ) (rows : List R) → Rising n rows → order_by_id rows ≡ rows
  unfolding order_by_id insert_by_id
  order_by_id_of_Rising n [] h = refl
  order_by_id_of_Rising n (r ∷ []) h = refl
  order_by_id_of_Rising n (r ∷ x ∷ rows) h =
      ground (arith, order_by_id_of_Rising (suc (id r)) (x ∷ rows) h.1)
