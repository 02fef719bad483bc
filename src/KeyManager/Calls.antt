-- ===== src/KeyManager/Calls.antt =====
-- The two counters of every row together: how many upstream calls the table has on record.
use ollama_proxy.Prelude.{
  ℕ, ◌+◌, ◌≤◌, ◌≡◌, refl, sym, subst, Bool, false, List, [], ◌∷◌, map, inl, inr, arith, ◌==◌,
  ==_iff, Bool-cases, contains, Distinct, sum_of,
}
use ollama_proxy.Table.{update_where}
use ollama_proxy.Models.{ApiKey, Db}
use ollama_proxy.KeyManager.{
  Pool, cooled_down, revive, reactivate_locked, pick_next_key, load_active,
}
use ollama_proxy.KeyManager.Pick.{choices, candidates, pool_at_pick, pick-Picked}
use ollama_proxy.KeyManager.Records.{set_key}
use ollama_proxy.KeyManager.Lifecycle.{Event, Effect-counts, record_event, record_event-Recorded}
use ollama_proxy.KeyManager.Revival.{Picked-db}

abbrev pub ids : List ApiKey → List ℕ
ids = map (λ k. k.id)

abbrev pub weight : ApiKey → ℕ
weight k = k.total_requests + k.total_failures

abbrev pub calls_on_record : List ApiKey → ℕ
calls_on_record = sum_of weight

ids-update_where :
    (p : ApiKey → Bool) (f : ApiKey → ApiKey) (rows : List ApiKey)
    → ((r : ApiKey) → (f r).id ≡ r.id)
    → ids (update_where p f rows) ≡ ids rows
unfolding update_where
ids-update_where p f [] keeps = refl
ids-update_where p f (r ∷ rows) keeps = ground (arith, keeps r, ids-update_where p f rows keeps)

set_key_absent :
    (key_id : ℕ) (f : ApiKey → ApiKey) (rows : List ApiKey)
    → contains key_id (ids rows) ≡ false
    → set_key key_id f rows ≡ rows
unfolding update_where
set_key_absent key_id f [] h = refl
set_key_absent key_id f (r ∷ rows) h = ground (arith, set_key_absent key_id f rows)

calls-set_key :
    (key_id : ℕ) (f : ApiKey → ApiKey) (rows : List ApiKey)
    → Distinct (ids rows)
    → ((r : ApiKey) → weight (f r) ≡ weight r + 1)
    → calls_on_record (set_key key_id f rows) ≤ calls_on_record rows + 1
unfolding update_where
calls-set_key key_id f [] d h = omega arith
calls-set_key key_id f (r ∷ rows) d h = elim (Bool-cases (r.id == key_id)) [
  | inl e ↦
      let e' : r.id ≡ key_id = (==_iff r.id key_id).0 e in
      let rest = set_key_absent key_id f rows (subst (λ a. contains a (ids rows) ≡ false) e' d.0) in
      rw (e, rest) (omega (arith, h r))
  | inr e ↦ rw e (omega (arith, calls-set_key key_id f rows d.1 h))
]

weight-revive : (now : ℕ) (r : ApiKey) → weight (revive now r) ≡ weight r
unfolding revive
weight-revive now r = refl

calls-revive :
    (now : ℕ) (rows : List ApiKey)
    → calls_on_record (update_where (cooled_down now) (revive now) rows) ≡ calls_on_record rows
unfolding update_where
calls-revive now [] = refl
calls-revive now (r ∷ rows) = elim (Bool-cases (cooled_down now r)) [
  | inl e ↦ rw e (omega (arith, weight-revive now r, calls-revive now rows))
  | inr e ↦ rw e (omega (arith, calls-revive now rows))
]

-- The ids are distinct, and no more than so many calls are on record.
pub record AtMost (n : ℕ) (rows : List ApiKey) : Type 0 where
  pub distinct : Distinct (ids rows)
  pub within : calls_on_record rows ≤ n

-- An outcome puts one call on record at the most.
pub record_event-AtMost :
    (ev : Event) (key_id n : ℕ) (s : Pool)
    → AtMost n s.api_keys
    → AtMost (n + 1) (record_event ev key_id s).1.api_keys
record_event-AtMost ev key_id n s a = elim (record_event-Recorded ev key_id s) [
  | inl (e, same) ↦ rw same (record { distinct = a.distinct; within = omega (arith, a.within) })
  | inr (k, out, f, found, same, x) ↦ rw same (record {
    distinct =
        subst Distinct (sym (ids-update_where (λ r. r.id == key_id) f s.api_keys x.keeps_id))
          a.distinct;
    within =
        omega
          (arith, a.within, calls-set_key key_id f s.api_keys a.distinct (Effect-counts ev f x));
  })
]

reactivate-AtMost :
    (now n : ℕ) (s : Pool) → AtMost n s.api_keys → AtMost n (reactivate_locked now s).1.api_keys
unfolding reactivate_locked
reactivate-AtMost now n s a = record {
  distinct =
      subst Distinct
        (sym
          (ids-update_where (cooled_down now) (revive now) s.api_keys (unfold revive in λ r. refl)))
        a.distinct;
  within = omega (arith, a.within, calls-revive now s.api_keys);
}

choices-AtMost :
    (keys : List ApiKey) (now n : ℕ) (s : Pool)
    → AtMost n s.api_keys
    → AtMost n (choices keys now s).1.api_keys
choices-AtMost [] now n s a = reactivate-AtMost now n s a
choices-AtMost (k ∷ keys) now n s a = a

-- A pick puts none on record.
pub pick-AtMost :
    (now n : ℕ) (s : Pool) → AtMost n s.api_keys → AtMost n (pick_next_key now s).1.api_keys
pick-AtMost now n s a =
    subst (λ (d : Db). AtMost n d.api_keys)
      (sym (
        Picked-db (candidates now s) (pool_at_pick now s) (pick_next_key now s)
          (pick-Picked now s)))
      (choices-AtMost (load_active s.api_keys) now n s a)
