-- ===== src/AdminKeys/Reset.antt =====
-- What the administration does to the states of the keys.
use ollama_proxy.Prelude.{
  ℕ, ◌≡◌, refl, sym, subst, ◌∙◌, String, false, Option, none, some, List, [], ◌∷◌, arith, All,
  length,
}
use ollama_proxy.Table
use ollama_proxy.Models.{ApiKey, value, active, depleted}
use ollama_proxy.KeyManager.{Pool, cooled_down}
use ollama_proxy.KeyManager.Counts.{rows_with, get_count-count_by_status}
use ollama_proxy.KeyManager.Records.{find_key, set_key, find-set_key}
use ollama_proxy.KeysOps.{build_health_snapshot, load_or_404}
use ollama_proxy.AdminKeys.{every_row, cleared, reset_key_states, patched, update_key}

-- A row as the reset leaves it.
abbrev pub IsReset : ApiKey → Type 0
IsReset key = (key.status ≡ value active) × (key.cooldown_until ≡ none) × (key.total_failures ≡ 0)

rows-IsReset :
    (now : ℕ) (rows : List ApiKey)
    → All IsReset (Table.update_where every_row (cleared now) rows)
      × (rows_with (value active) (Table.update_where every_row (cleared now) rows) ≡ length rows)
unfolding Table.update_where cleared
rows-IsReset now [] = (tt, refl)
rows-IsReset now (k ∷ rows) =
    let rest = rows-IsReset now rows in (((refl, refl, refl), rest.0), omega (arith, rest.1))

-- A reset makes every key active, with neither a cooldown nor failures, and its answer counts the
-- whole table as active.
pub reset_key_states-IsReset :
    (now : ℕ) (s : Pool)
    → let r = reset_key_states now s in
      All IsReset r.1.api_keys × (r.0.active_keys ≡ length s.api_keys)
unfolding reset_key_states build_health_snapshot
reset_key_states-IsReset now s =
    let rows = Table.update_where every_row (cleared now) s.api_keys in
    let r = rows-IsReset now s.api_keys in
    (r.0, get_count-count_by_status (value active) rows ∙ r.1)

-- A key that a PATCH makes depleted, and that has no cooldown, is never revived: at no moment does the
-- reactivation's condition hold of its row.
pub update_key_never_revives :
    (now key_id : ℕ) (label : Option String) (s : Pool) (key : ApiKey)
    → find_key key_id s.api_keys ≡ some key
    → key.cooldown_until ≡ none
    → let s' = (update_key now key_id label (some depleted) s).1 in
      (row : ApiKey) × (find_key key_id s'.api_keys ≡ some row)
      × (row.status ≡ value depleted)
      × ((later : ℕ) → cooled_down later row ≡ false)
unfolding update_key load_or_404 cooled_down patched
update_key_never_revives now key_id label s key found e =
    let f = patched now label (some depleted) in
    let rows = s.api_keys in
    let same = Table.id-find (λ (k : ApiKey). k.id) key_id rows key found in
    let here = subst (λ j. find_key j rows ≡ some key) (sym same) found in
    let after = find-set_key key.id f rows key (λ r. refl) here in
    rw found (
      f key,
      subst (λ j. find_key j (set_key key.id f rows) ≡ some (f key)) same after,
      refl,
      λ later. rw e refl,
    )
