-- ===== src/KeyManager.antt =====
-- app/services/key_manager.py: which key the next request uses, and which keys are taken.
-- `pick_next_key` holds the manager's lock, so it is one step; the children have the state of the
-- keys (`Records`), the token windows (`Windows`) and the cooldown header (`RetryAfter`).
pub mod Scan
pub mod Pick
pub mod InFlight
pub mod Counts
pub mod RetryAfter
pub mod Records
pub mod Windows
pub mod Lifecycle
pub mod Revival
pub mod Calls
pub mod Tests
use ollama_proxy.Prelude.{
  ℕ, zero, suc, ◌+◌, ◌%◌, String, Bool, true, false, not, ◌&&◌, Option, none, some, List, [], ◌∷◌,
  ◌==◌, leb, str_eq, if◌then◌else◌, length, get_elem?, keep, count, contains,
}
use ollama_proxy.Clock.{Datetime, aware, wall}
use ollama_proxy.Exec.{Exec, returned}
use ollama_proxy.Table
use ollama_proxy.Models.{
  ApiKey, ApiKeyStatus, Db, active, depleted, disabled, value, values, has_status,
}

-- The rotation counter and the set of reserved key ids.
pub record KeyManager : Type 0 where
  pub next_idx : ℕ
  pub in_flight : List ℕ

abbrev pub new_manager : KeyManager
new_manager = record { next_idx = 0; in_flight = [] }

-- The database of the session beside the process-wide manager.
pub record Pool : Type 0 where
  pub db : Db
  pub open db use *
  pub manager : KeyManager
  pub open manager use *

abbrev pub with_keys : Pool → List ApiKey → Pool
with_keys s rows = record s { db = record (s.db) { api_keys = rows } }

-- `set.add` and `set.discard`
unfoldable pub add : ℕ → List ℕ → List ℕ
add a xs = if contains a xs then xs else a ∷ xs

unfoldable pub discard : ℕ → List ℕ → List ℕ
discard a = keep (λ x. not (x == a))

unfoldable pub load_active : List ApiKey → List ApiKey
load_active rows = Table.order_by_id (λ k. k.id) (keep (has_status active) rows)

-- The WHERE clause of `_reactivate_locked`.
unfoldable pub cooled_down : ℕ → ApiKey → Bool
cooled_down now key =
    has_status depleted key
    && (elim key.cooldown_until [ none ↦ false | some t ↦ leb (wall t) now ])

-- Its SET clause; `updated_at` follows by the column's `onupdate`.
unfoldable pub revive : ℕ → ApiKey → ApiKey
revive stamp key = record key {
  status = value active;
  cooldown_until = none;
  updated_at = aware stamp;
}

unfoldable pub reactivate_locked : ℕ → Exec Pool ℕ
unfolding cooled_down revive
reactivate_locked now s = (
  returned (count (cooled_down now) s.api_keys),
  with_keys s (Table.update_where (cooled_down now) (revive now) s.api_keys),
)

abbrev pub reactivate_expired_depleted : ℕ → Exec Pool ℕ
reactivate_expired_depleted = reactivate_locked

-- The scan of `pick_next_key`: `left` rounds from `offset` on, over the n active keys.
unfoldable pub scan : List ApiKey → List ℕ → ℕ → ℕ → ℕ → Option (ApiKey × ℕ)
scan keys busy start zero offset = none
scan keys busy start (suc left) offset =
    let rest = scan keys busy start left (offset + 1) in
    elim (get_elem? keys ((start + offset) % length keys)) [
      | none ↦ none
      | some candidate ↦ if contains candidate.id busy then rest else some (candidate, offset)
    ]

-- From the active keys on: the first free one is reserved.
unfoldable pub choose : List ApiKey → Pool → Option ApiKey × Pool
unfolding scan add
choose keys s = elim (scan keys s.in_flight s.next_idx (length keys) 0) [
  | none ↦ (none, s)
  | some (chosen, offset) ↦ (
    some chosen,
    record s {
      manager = record {
        next_idx = (s.next_idx + offset + 1) % length keys;
        in_flight = add chosen.id s.in_flight;
      };
    },
  )
]

-- `if not active: return None`
unfoldable pub choose_any : List ApiKey → Pool → Option ApiKey × Pool
unfolding choose
choose_any [] s = (none, s)
choose_any (k ∷ keys) s = choose (k ∷ keys) s

-- `if not active:` reactivate and load again.
unfoldable pub pick_from : List ApiKey → ℕ → Pool → Option ApiKey × Pool
unfolding choose_any reactivate_locked
pick_from [] now s = let s' = (reactivate_locked now s).1 in choose_any (load_active s'.api_keys) s'
pick_from (k ∷ keys) now s = choose_any (k ∷ keys) s

unfoldable pub pick_next_key : ℕ → Pool → Option ApiKey × Pool
unfolding pick_from load_active
pick_next_key now s = pick_from (load_active s.api_keys) now s

unfoldable pub release : ℕ → Pool → Pool
unfolding discard
release key_id s = record s {
  manager = record (s.manager) { in_flight = discard key_id s.in_flight };
}

abbrev pub in_flight_count : Pool → ℕ
in_flight_count s = length s.in_flight

-- `counts[status] = counts.get(status, 0) + 1`
unfoldable pub bump : String → List (String × ℕ) → List (String × ℕ)
bump k [] = (k, 1) ∷ []
bump k ((j, n) ∷ m) = if str_eq j k then (j, n + 1) ∷ m else (j, n) ∷ bump k m

unfoldable pub tally : List ApiKey → List (String × ℕ) → List (String × ℕ)
unfolding bump
tally [] counts = counts
tally (k ∷ rows) counts = tally rows (bump k.status counts)

unfoldable pub count_by_status : List ApiKey → List (String × ℕ)
unfolding tally
count_by_status rows =
    tally rows ((value active, 0) ∷ (value depleted, 0) ∷ (value disabled, 0) ∷ [])

-- `counts.get(status, 0)`
unfoldable pub get_count : String → List (String × ℕ) → ℕ
get_count k [] = 0
get_count k ((j, n) ∷ m) = if str_eq j k then n else get_count k m
