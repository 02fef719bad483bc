-- ===== src/KeyManager/Counts.antt =====
-- `count_by_status`, `_load_active` and `_reactivate_locked` against the rows of the table.
use ollama_proxy.Prelude.{
  ℕ, ◌+◌, String, ◌≡◌, refl, ◌∙◌, Bool, false, List, [], ◌∷◌, arith, str_eq, eq_iff, if◌then◌else◌,
  length, length-keep, keep, count, sum_of,
}
use ollama_proxy.Table.{update_where, length-order_by_id}
use ollama_proxy.Models.{ApiKey, active, depleted, disabled, value, has_status}
use ollama_proxy.KeyManager.{
  Pool, load_active, cooled_down, revive, reactivate_locked, bump, tally, count_by_status,
  get_count,
}

-- How many rows have the status.
abbrev pub rows_with : String → List ApiKey → ℕ
rows_with s = count (λ k. str_eq k.status s)

get_count-bump :
    (k j : String) (m : List (String × ℕ))
    → get_count j (bump k m) ≡ get_count j m + (if str_eq k j then 1 else 0)
unfolding get_count bump
get_count-bump k j [] = ground (arith, eq_iff k j)
get_count-bump k j ((i, n) ∷ m) =
    ground (arith, eq_iff i k, eq_iff i j, eq_iff k j, get_count-bump k j m)

get_count-tally :
    (j : String) (rows : List ApiKey) (m : List (String × ℕ))
    → get_count j (tally rows m) ≡ get_count j m + rows_with j rows
unfolding tally
get_count-tally j [] m = omega arith
get_count-tally j (r ∷ rows) m =
    omega (arith, get_count-tally j rows (bump r.status m), get_count-bump r.status j m)

-- Each status, one of the three or not, is counted as often as rows have it.
pub get_count-count_by_status :
    (j : String) (rows : List ApiKey) → get_count j (count_by_status rows) ≡ rows_with j rows
unfolding count_by_status get_count
get_count-count_by_status j rows = get_count-tally j rows _ ∙ ground (arith)

sum-bump :
    (k : String) (m : List (String × ℕ)) → sum_of (λ e. e.1) (bump k m) ≡ sum_of (λ e. e.1) m + 1
unfolding bump
sum-bump k [] = omega arith
sum-bump k ((i, n) ∷ m) = ground (arith, sum-bump k m)

sum-tally :
    (rows : List ApiKey) (m : List (String × ℕ))
    → sum_of (λ e. e.1) (tally rows m) ≡ sum_of (λ e. e.1) m + length rows
unfolding tally
sum-tally [] m = omega arith
sum-tally (r ∷ rows) m = omega (arith, sum-tally rows (bump r.status m), sum-bump r.status m)

-- The counts add up to the number of rows.
pub sum-count_by_status :
    (rows : List ApiKey) → sum_of (λ e. e.1) (count_by_status rows) ≡ length rows
unfolding count_by_status
sum-count_by_status rows =
    omega
      (arith, sum-tally rows ((value active, 0) ∷ (value depleted, 0) ∷ (value disabled, 0) ∷ []))

-- The number of loaded keys is the count that the rotation bounds its loop by.
pub length-load_active :
    (rows : List ApiKey)
    → length (load_active rows) ≡ get_count (value active) (count_by_status rows)
unfolding load_active
length-load_active rows = omega (
  arith,
  length-order_by_id (λ k. k.id) (keep (has_status active) rows),
  length-keep (has_status active) rows,
  get_count-count_by_status (value active) rows,
)

abbrev one_if : Bool → ℕ
one_if b = if b then 1 else 0

-- A row that is revived leaves `depleted` for `active`; any other stays as it is.
row-revive :
    (now : ℕ) (j : String) (k : ApiKey)
    → one_if (str_eq (if cooled_down now k then revive now k else k).status j)
        + (if cooled_down now k then one_if (str_eq (value depleted) j) else 0)
      ≡ one_if (str_eq k.status j)
        + (if cooled_down now k then one_if (str_eq (value active) j) else 0)
unfolding cooled_down revive
row-revive now j k =
    ground (arith, eq_iff k.status (value depleted), eq_iff k.status j, eq_iff (value depleted) j)

moved : ℕ → Bool → ℕ
moved n b = if b then n else 0

rows_with-update :
    (now : ℕ) (j : String) (rows : List ApiKey)
    → rows_with j (update_where (cooled_down now) (revive now) rows)
        + moved (count (cooled_down now) rows) (str_eq (value depleted) j)
      ≡ rows_with j rows + moved (count (cooled_down now) rows) (str_eq (value active) j)
unfolding update_where moved
rows_with-update now j [] = ground arith
rows_with-update now j (k ∷ rows) = ground (arith, rows_with-update now j rows, row-revive now j k)

-- The rows that `_reactivate_locked` reports are those that went from depleted to active: every
-- status keeps its count but for these two.
pub reactivate_moves :
    (now : ℕ) (j : String) (s : Pool)
    → let n = count (cooled_down now) s.api_keys in
      rows_with j (reactivate_locked now s).1.api_keys
        + (if str_eq (value depleted) j then n else 0)
      ≡ rows_with j s.api_keys + (if str_eq (value active) j then n else 0)
unfolding reactivate_locked moved
reactivate_moves now j s = rows_with-update now j s.api_keys

cooled-revive : (now : ℕ) (k : ApiKey) → cooled_down now (revive now k) ≡ false
unfolding cooled_down revive
cooled-revive now k = refl

none_cooled :
    (now : ℕ) (rows : List ApiKey)
    → count (cooled_down now) (update_where (cooled_down now) (revive now) rows) ≡ 0
unfolding update_where
none_cooled now [] = refl
none_cooled now (k ∷ rows) = ground (arith, none_cooled now rows, cooled-revive now k)

-- After a reactivation no row is left whose cooldown has passed.
pub reactivate_complete :
    (now : ℕ) (s : Pool) → count (cooled_down now) (reactivate_locked now s).1.api_keys ≡ 0
unfolding reactivate_locked
reactivate_complete now s = none_cooled now s.api_keys
