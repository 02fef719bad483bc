-- ===== src/App/Migration.antt =====
-- What `_ensure_usage_columns` does to a table of keys.
use ollama_proxy.Prelude.{
  ◌≡◌, refl, sym, ◌∙◌, ap, subst, String, Bool, true, false, some, List, [], ◌∷◌, ◌++◌, arith,
  str_eq, eq_iff, if◌then◌else◌, All, Bool-cases, inl, inr,
}
use ollama_proxy.Exec.{returned}
use ollama_proxy.UserTokens.Lifecycle.{true-≢-false}
use ollama_proxy.App.Database.{
  usage_columns, has_column, add_columns, missing_columns, ensure_usage_columns,
}

-- A name that stands in no other entry.
abbrev is_fresh : String → List (String × String) → Bool
is_fresh name [] = true
is_fresh name (d ∷ rest) = if str_eq name d.0 then false else is_fresh name rest

abbrev are_distinct : List (String × String) → Bool
are_distinct [] = true
are_distinct (c ∷ rest) = if is_fresh c.0 rest then are_distinct rest else false

abbrev AreDistinct : List (String × String) → Type 0
AreDistinct [] = Unit
AreDistinct (c ∷ rest) = All (λ d. str_eq c.0 d.0 ≡ false) rest × AreDistinct rest

fresh-All :
    (name : String) (columns : List (String × String))
    → is_fresh name columns ≡ true
    → All (λ d. str_eq name d.0 ≡ false) columns
fresh-All name [] h = tt
fresh-All name (d ∷ rest) h = elim (Bool-cases (str_eq name d.0)) [
  | inl e ↦ absurd (true-≢-false (sym h ∙ rw e refl))
  | inr e ↦ (e, fresh-All name rest (rw e refl ∙ h))
]

distinct-AreDistinct :
    (columns : List (String × String)) → are_distinct columns ≡ true → AreDistinct columns
distinct-AreDistinct [] h = tt
distinct-AreDistinct (c ∷ rest) h = elim (Bool-cases (is_fresh c.0 rest)) [
  | inl e ↦ (fresh-All c.0 rest e, distinct-AreDistinct rest (rw e refl ∙ h))
  | inr e ↦ absurd (true-≢-false (sym h ∙ rw e refl))
]

abbrev pub names : List (String × String) → List String
names [] = []
names (c ∷ rest) = c.0 ∷ names rest

-- The two lists of columns agree on the names of the entries.
abbrev Agree : List String → List String → List (String × String) → Type 0
Agree xs ys = All (λ c. has_column c.0 xs ≡ has_column c.0 ys)

has_column-append :
    (name other : String) (xs : List String)
    → has_column name (xs ++ other ∷ []) ≡ (if str_eq other name then true else has_column name xs)
has_column-append name other [] = refl
has_column-append name other (x ∷ xs) = ground (arith, has_column-append name other xs)

Agree-append :
    (name : String) (xs ys : List String) (rest : List (String × String))
    → All (λ d. str_eq name d.0 ≡ false) rest
    → Agree xs ys rest
    → Agree (xs ++ name ∷ []) ys rest
Agree-append name xs ys [] h g = tt
Agree-append name xs ys (d ∷ rest) h g =
    (has_column-append d.0 name xs ∙ rw h.0 g.0, Agree-append name xs ys rest h.1 g.1)

append_assoc :
    (xs : List String) (y : String) (zs : List String) → (xs ++ y ∷ []) ++ zs ≡ xs ++ y ∷ zs
append_assoc [] y zs = refl
append_assoc (x ∷ xs) y zs = ap (λ l. x ∷ l) (append_assoc xs y zs)

append_nil : (xs : List String) → xs ++ [] ≡ xs
append_nil [] = refl
append_nil (x ∷ xs) = ap (λ l. x ∷ l) (append_nil xs)

-- The missing columns are added, each once, and none that is there.
add_columns-missing :
    (existing now : List String) (columns : List (String × String))
    → AreDistinct columns
    → Agree now existing columns
    → add_columns (missing_columns existing columns) (some now)
      ≡ (returned tt, some (now ++ names (missing_columns existing columns)))
unfolding add_columns
add_columns-missing existing now [] d g = ap (λ l. (returned tt, some l)) (sym (append_nil now))
add_columns-missing existing now (c ∷ rest) d g = elim (Bool-cases (has_column c.0 existing)) [
  | inl e ↦ rw e (add_columns-missing existing now rest d.1 g.1)
  | inr e ↦ rw e (
      rw (g.0 ∙ e) (
        add_columns-missing existing (now ++ c.0 ∷ []) rest d.1
          (Agree-append c.0 now existing rest d.0 g.1)
        ∙ ap (λ l. (returned tt, some l))
            (append_assoc now c.0 (names (missing_columns existing rest)))))
]

Agree-refl : (xs : List String) (columns : List (String × String)) → Agree xs xs columns
Agree-refl xs [] = tt
Agree-refl xs (c ∷ rest) = (refl, Agree-refl xs rest)

has_column-or :
    (name : String) (xs ys : List String)
    → has_column name (xs ++ ys) ≡ (if has_column name xs then true else has_column name ys)
has_column-or name [] ys = refl
has_column-or name (x ∷ xs) ys = ground (arith, has_column-or name xs ys)

-- The name stands in the one list or in the other.
abbrev Covers : List String → List String → List (String × String) → Type 0
Covers xs ys = All (λ c. (if has_column c.0 xs then true else has_column c.0 ys) ≡ true)

Covers-more :
    (xs ys : List String) (name : String) (columns : List (String × String))
    → Covers xs ys columns
    → Covers xs (name ∷ ys) columns
Covers-more xs ys name [] h = tt
Covers-more xs ys name (c ∷ rest) h = (ground (arith, h.0), Covers-more xs ys name rest h.1)

missing_of_present :
    (existing : List String) (c : String × String) (rest : List (String × String))
    → has_column c.0 existing ≡ true
    → missing_columns existing (c ∷ rest) ≡ missing_columns existing rest
missing_of_present existing c rest e = rw e refl

missing_of_absent :
    (existing : List String) (c : String × String) (rest : List (String × String))
    → has_column c.0 existing ≡ false
    → missing_columns existing (c ∷ rest) ≡ c ∷ missing_columns existing rest
missing_of_absent existing c rest e = rw e refl

Covers-missing :
    (existing : List String) (columns : List (String × String))
    → Covers existing (names (missing_columns existing columns)) columns
Covers-missing existing [] = tt
Covers-missing existing (c ∷ rest) =
    let later = Covers-missing existing rest in
    elim (Bool-cases (has_column c.0 existing)) [
      | inl e ↦
          subst (λ m. Covers existing (names m) (c ∷ rest))
            (sym (missing_of_present existing c rest e)) (rw e refl, later)
      | inr e ↦
          subst (λ m. Covers existing (names m) (c ∷ rest))
            (sym (missing_of_absent existing c rest e))
            (
              ground (arith, e, eq_iff c.0 c.0),
              Covers-more existing (names (missing_columns existing rest)) c.0 rest later,
            )
    ]

abbrev pub HasAll : List String → List (String × String) → Type 0
HasAll xs = All (λ c. has_column c.0 xs ≡ true)

Covers-HasAll :
    (xs ys : List String) (columns : List (String × String))
    → Covers xs ys columns
    → HasAll (xs ++ ys) columns
Covers-HasAll xs ys [] h = tt
Covers-HasAll xs ys (c ∷ rest) h = (has_column-or c.0 xs ys ∙ h.0, Covers-HasAll xs ys rest h.1)

missing_of_HasAll :
    (xs : List String) (columns : List (String × String))
    → HasAll xs columns
    → missing_columns xs columns ≡ []
missing_of_HasAll xs [] h = refl
missing_of_HasAll xs (c ∷ rest) h = rw h.0 (missing_of_HasAll xs rest h.1)

usage_columns-distinct : AreDistinct usage_columns
usage_columns-distinct = distinct-AreDistinct usage_columns refl

add_none :
    (missing : List (String × String)) (xs : List String)
    → missing ≡ []
    → add_columns missing (some xs) ≡ (returned tt, some xs)
unfolding add_columns
add_none missing xs e = ap (λ m. add_columns m (some xs)) e

-- On any table of keys the migration ends without an error: it appends the columns of the usage that
-- the table lacks, in their order, so that all of them are there, and a second run changes nothing.
pub ensure_usage_columns-HasAll :
    (columns : List String)
    → let columns' = columns ++ names (missing_columns columns usage_columns) in
      (ensure_usage_columns (some columns) ≡ (returned tt, some columns'))
      × HasAll columns' usage_columns
      × (ensure_usage_columns (some columns') ≡ (returned tt, some columns'))
unfolding ensure_usage_columns
ensure_usage_columns-HasAll columns =
    let added = names (missing_columns columns usage_columns) in
    let all = Covers-HasAll columns added usage_columns (Covers-missing columns usage_columns) in
    (
      add_columns-missing columns columns usage_columns usage_columns-distinct
          (Agree-refl columns usage_columns),
      all,
      add_none (missing_columns (columns ++ added) usage_columns) (columns ++ added)
          (missing_of_HasAll (columns ++ added) usage_columns all),
    )
