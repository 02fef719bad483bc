-- ===== src/KeyManager/Pick.antt =====
-- `pick_next_key`: round robin over the active keys that nobody holds.
use native.Mathlib.Nat.{mod-lt, mod-eq_of_lt, mod-add-mod, add-mod_right}
use ollama_proxy.Prelude.{
  ℕ, ◌+◌, ◌-◌, ◌%◌, ◌≤◌, ◌<◌, ◌≡◌, refl, sym, ap, subst, ◌∙◌, ◌↔◌, true, false, Option, none, some,
  List, [], ◌∷◌, inl, inr, arith, leb, if◌then◌else◌, Bool-cases, All, All-of_index, All-get_elem?,
  All-keep, length, lt-length, get_elem?, contains, eq_iff,
}
use ollama_proxy.Table.{All-order_by_id}
use ollama_proxy.Models.{ApiKey, active, value, has_status}
use ollama_proxy.KeyManager.{
  KeyManager, Pool, load_active, reactivate_locked, scan, choose, choose_any, pick_from,
  pick_next_key,
}
use ollama_proxy.KeyManager.Scan.{at, BusyAt, Found, scan-Found}

-- The round in which the scan meets the key at index j.
round : (n start j : ℕ) → ℕ
round n start j = if leb (start % n) j then j - start % n else j + n - start % n

round_lem : (n start j : ℕ) → j < n → (round n start j < n) × ((start + round n start j) % n ≡ j)
unfolding round
round_lem n start j h =
    let r : start % n < n = mod-lt start (omega arith) in
    elim (Bool-cases (leb (start % n) j)) [
      | inl e ↦
          let le : start % n ≤ j = ground arith in
          let sum : start % n + (j - start % n) ≡ j = omega arith in
          rw e (
            omega arith,
            sym (mod-add-mod start n (j - start % n)) ∙ ap (λ t. t % n) sum ∙ mod-eq_of_lt h,
          )
      | inr e ↦
          let lt : j < start % n = ground arith in
          let sum : start % n + (j + n - start % n) ≡ j + n = omega arith in
          rw e (
            omega arith,
            sym (mod-add-mod start n (j + n - start % n))
                ∙ ap (λ t. t % n) sum
                ∙ add-mod_right j n
                ∙ mod-eq_of_lt h,
          )
    ]

-- In flight, as a set of ids has it.
abbrev pub Held : List ℕ → ApiKey → Type 0
Held busy k = contains k.id busy ≡ true

-- A scan of all rounds that finds nothing has met every key.
scan-none :
    (keys : List ApiKey) (busy : List ℕ) (start : ℕ)
    → Found keys busy start 0 (length keys) none
    → All (Held busy) keys
scan-none keys busy start f = All-of_index (Held busy) keys λ j k e.
    let (lt, same) = round_lem (length keys) start j (lt-length keys j e) in
    let (k', e', held) = f (round (length keys) start j) (omega arith) lt in
    let at_j : get_elem? keys ((start + round (length keys) start j) % length keys) ≡ some k =
      rw same e in
    ground arith

-- What a pick over the given active keys may do: reserve the first free key in the order of the
-- rotation and move the counter behind it, or find all of them held and change nothing.
abbrev pub Picked : List ApiKey → Pool → Option ApiKey × Pool → Type 0
Picked keys s (none, s') = All (Held s.in_flight) keys × (s' ≡ s)
Picked keys s (some k, s') =
    (offset : ℕ) × (offset < length keys)
    × (at keys s.in_flight s.next_idx offset ≡ some k)
    × (contains k.id s.in_flight ≡ false)
    × ((i : ℕ) → i < offset → BusyAt keys s.in_flight s.next_idx i)
    × (s' ≡ record s {
      manager = record {
        next_idx = (s.next_idx + offset + 1) % length keys;
        in_flight = k.id ∷ s.in_flight;
      };
    })

choose-Picked : (keys : List ApiKey) (s : Pool) → 0 < length keys → Picked keys s (choose keys s)
unfolding choose
choose-Picked keys s h =
    go (scan keys s.in_flight s.next_idx (length keys) 0)
      (let all : 0 + length keys ≡ length keys = omega arith in
        rw all at (scan-Found keys s.in_flight s.next_idx (length keys) 0 h))
      refl
  where
    go :
        (r : Option (ApiKey × ℕ))
        → Found keys s.in_flight s.next_idx 0 (length keys) r
        → scan keys s.in_flight s.next_idx (length keys) 0 ≡ r
        → Picked keys s (choose keys s)
    go none f e = rw (e, choose) (scan-none keys s.in_flight s.next_idx f, refl)
    go (some (k, offset)) f e =
        rw (e, choose) (offset, f.1, f.2, f.3, λ i lt. f.4 i (omega arith) lt, rw f.3 refl)

choose_any-Picked : (keys : List ApiKey) (s : Pool) → Picked keys s (choose_any keys s)
unfolding choose_any
choose_any-Picked [] s = (tt, refl)
choose_any-Picked (k ∷ keys) s = choose-Picked (k ∷ keys) s (omega arith)

-- The keys that a pick chooses among: the active ones, and where there are none, those that are
-- active once the cooldowns that have passed are lifted; beside them the pool that they stand in.
abbrev pub revived : ℕ → Pool → Pool
revived now s = (reactivate_locked now s).1

abbrev pub choices : List ApiKey → ℕ → Pool → List ApiKey × Pool
choices [] now s = (load_active (revived now s).api_keys, revived now s)
choices (k ∷ keys) now s = (k ∷ keys, s)

abbrev pub candidates : ℕ → Pool → List ApiKey
candidates now s = (choices (load_active s.api_keys) now s).0

abbrev pub pool_at_pick : ℕ → Pool → Pool
pool_at_pick now s = (choices (load_active s.api_keys) now s).1

pick_from-Picked :
    (keys : List ApiKey) (now : ℕ) (s : Pool)
    → Picked (choices keys now s).0 (choices keys now s).1 (pick_from keys now s)
unfolding pick_from
pick_from-Picked [] now s = choose_any-Picked (load_active (revived now s).api_keys) (revived now s)
pick_from-Picked (k ∷ keys) now s = choose_any-Picked (k ∷ keys) s

-- Every pick reserves the first key in rotation order that nobody holds, among the active keys or,
-- where there are none, among those whose cooldown has passed; it returns nothing, and reserves
-- nothing, only where all of these are held.
pub pick-Picked :
    (now : ℕ) (s : Pool) → Picked (candidates now s) (pool_at_pick now s) (pick_next_key now s)
unfolding pick_next_key
pick-Picked now s = pick_from-Picked (load_active s.api_keys) now s

manager-choices :
    (keys : List ApiKey) (now : ℕ) (s : Pool) → (choices keys now s).1.manager ≡ s.manager
unfolding reactivate_locked
manager-choices [] now s = refl
manager-choices (k ∷ keys) now s = refl

pub manager-pool_at_pick : (now : ℕ) (s : Pool) → (pool_at_pick now s).manager ≡ s.manager
manager-pool_at_pick now s = manager-choices (load_active s.api_keys) now s

load_active-All : (rows : List ApiKey) → All (λ k. has_status active k ≡ true) (load_active rows)
unfolding load_active
load_active-All rows =
    All-order_by_id (λ k. k.id) (λ k. has_status active k ≡ true) _
      (All-keep (λ k. has_status active k ≡ true) (has_status active) rows (λ x e. e))

choices-All :
    (keys : List ApiKey) (now : ℕ) (s : Pool)
    → All (λ k. has_status active k ≡ true) keys
    → All (λ k. has_status active k ≡ true) (choices keys now s).0
choices-All [] now s h = load_active-All (revived now s).api_keys
choices-All (k ∷ keys) now s h = h

Picked-none :
    (keys : List ApiKey) (s : Pool) (r : Option ApiKey × Pool)
    → Picked keys s r
    → All (Held s.in_flight) keys
    → r.0 ≡ none
Picked-none keys s (none, s') p all = refl
Picked-none keys s (some k, s') p all =
    let held : contains k.id s.in_flight ≡ true = All-get_elem? (Held s.in_flight) keys _ all p.2 in
    ground (arith, p.3)

none-Picked :
    (keys : List ApiKey) (s : Pool) (r : Option ApiKey × Pool)
    → Picked keys s r
    → r.0 ≡ none
    → All (Held s.in_flight) keys
none-Picked keys s (none, s') p e = p.0
none-Picked keys s (some k, s') p e = cc

-- A pick comes back empty exactly when every key it may choose is held by another request.
pub pick-none_iff :
    (now : ℕ) (s : Pool)
    → ((pick_next_key now s).0 ≡ none) ↔ All (Held s.in_flight) (candidates now s)
pick-none_iff now s =
    let p = pick-Picked now s in
    let same : (pool_at_pick now s).in_flight ≡ s.in_flight =
      ap (λ (m : KeyManager). m.in_flight) (manager-pool_at_pick now s) in
    (
      λ e.
          subst (λ busy. All (Held busy) (candidates now s)) same
            (none-Picked (candidates now s) (pool_at_pick now s) (pick_next_key now s) p e),
      λ all.
          Picked-none (candidates now s) (pool_at_pick now s) (pick_next_key now s) p
            (subst (λ busy. All (Held busy) (candidates now s)) (sym same) all),
    )

reserved_fields :
    (keys : List ApiKey) (t : Pool) (k : ApiKey) (s' : Pool)
    → Picked keys t (some k, s')
    → All (λ k. has_status active k ≡ true) keys
    → (k.status ≡ value active)
      × (contains k.id t.in_flight ≡ false)
      × (s'.in_flight ≡ k.id ∷ t.in_flight)
reserved_fields keys t k s' p all = (
  (eq_iff k.status (value active)).0
      (All-get_elem? (λ k. has_status active k ≡ true) keys _ all p.2),
  p.3,
  rw p.5 refl,
)

-- A key that a pick returns is active, was not in flight before and is in flight after, and the
-- other reservations stay.
pub pick-active :
    (now : ℕ) (s : Pool) (k : ApiKey) (s' : Pool)
    → pick_next_key now s ≡ (some k, s')
    → (k.status ≡ value active)
      × (contains k.id s.in_flight ≡ false)
      × (s'.in_flight ≡ k.id ∷ s.in_flight)
pick-active now s k s' e =
    let same : (pool_at_pick now s).in_flight ≡ s.in_flight =
      ap (λ (m : KeyManager). m.in_flight) (manager-pool_at_pick now s) in
    let r =
      reserved_fields (candidates now s) (pool_at_pick now s) k s' (rw e at (pick-Picked now s))
        (choices-All (load_active s.api_keys) now s (load_active-All s.api_keys)) in
    (
      r.0,
      subst (λ busy. contains k.id busy ≡ false) same r.1,
      subst (λ busy. s'.in_flight ≡ k.id ∷ busy) same r.2,
    )
