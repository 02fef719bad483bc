-- ===== src/Rotation/Bounds.antt =====
-- How much one request may do to the key table.
use ollama_proxy.Prelude.{
  ℕ, zero, suc, ◌+◌, ◌≤◌, ◌≡◌, sym, subst, Bool, true, false, inl, inr, arith, max, List, Distinct,
}
use ollama_proxy.Models.{ApiKey, Db}
use ollama_proxy.KeyManager.{Pool, release, pick_next_key}
use ollama_proxy.KeyManager.Calls.{AtMost, ids, calls_on_record, record_event-AtMost, pick-AtMost}
use ollama_proxy.Rotation.Attempt.{Env, Body, wait_from, wait_for_free_slot, wait_rounds}
use ollama_proxy.Rotation.{execute_with_rotation, count_active, max_iter, first_flags}
use ollama_proxy.Rotation.Dispatch.{Touches, dispatch_one-Touches}
use ollama_proxy.Rotation.Loop.{Keeps, rotate_rule}

-- While this request waits, nobody else writes to the database.
pub record IsAlone (env : Env) : Type 0 where
  pub others : (i : ℕ) (s : Pool) → (env.others i s).db ≡ s.db
  pub meanwhile : (i : ℕ) (s : Pool) → (env.meanwhile i s).db ≡ s.db
  pub polls : (i k : ℕ) (s : Pool) → (env.polls i k s).db ≡ s.db

-- While this request waits, the other tasks keep a property of the key table.
pub record Respects (env : Env) (P : List ApiKey → Type 0) : Type 0 where
  pub others : (i : ℕ) (s : Pool) → P s.api_keys → P (env.others i s).api_keys
  pub meanwhile : (i : ℕ) (s : Pool) → P s.api_keys → P (env.meanwhile i s).api_keys
  pub polls : (i k : ℕ) (s : Pool) → P s.api_keys → P (env.polls i k s).api_keys

module _ (env : Env) (P : List ApiKey → Type 0) (x : Respects env P) where
  pub wait_from-Respects :
      (attempt fuel poll : ℕ) (slept : Bool) (s : Pool)
      → P s.api_keys
      → P (wait_from env attempt fuel poll slept s).1.api_keys
  unfolding wait_from
  wait_from-Respects attempt zero poll slept s h = h
  wait_from-Respects attempt (suc fuel) poll slept s h = ground (
    arith,
    h,
    x.polls attempt poll s h,
    wait_from-Respects attempt fuel (poll + 1) true (env.polls attempt poll s)
        (x.polls attempt poll s h),
  )

module _ (env : Env) (body : Body) (alone : IsAlone env) where
  respects : (n : ℕ) → Respects env (AtMost n)
  respects n = record {
    others = λ i s a. subst (λ (d : Db). AtMost n d.api_keys) (sym (alone.others i s)) a;
    meanwhile = λ i s a. subst (λ (d : Db). AtMost n d.api_keys) (sym (alone.meanwhile i s)) a;
    polls = λ i k s a. subst (λ (d : Db). AtMost n d.api_keys) (sym (alone.polls i k s)) a;
  }

  Touches-AtMost :
      (key_id n : ℕ) (s t : Pool)
      → Touches key_id s t
      → AtMost n s.api_keys
      → AtMost (n + 1) t.api_keys
  Touches-AtMost key_id n s t (inl e) a =
      subst (λ (p : Pool). AtMost (n + 1) p.api_keys) (sym e)
        (record { distinct = a.distinct; within = omega (arith, a.within) })
  Touches-AtMost key_id n s t (inr (ev, e)) a =
      subst (λ (p : Pool). AtMost (n + 1) p.api_keys) (sym e) (record_event-AtMost ev key_id n s a)

  module _ (start : ℕ) where
    FewCalls : ℕ → Pool → Type 0
    FewCalls j s = AtMost (start + j) s.api_keys

    one_more :
        (i : ℕ) (rows : List ApiKey) → AtMost (start + i + 1) rows → AtMost (start + (i + 1)) rows
    one_more i rows a = record { distinct = a.distinct; within = omega (arith, a.within) }

    weaken : (i : ℕ) (rows : List ApiKey) → AtMost (start + i) rows → AtMost (start + (i + 1)) rows
    weaken i rows a = record { distinct = a.distinct; within = omega (arith, a.within) }

    picked :
        (i : ℕ) (s : Pool)
        → AtMost (start + i) s.api_keys
        → AtMost (start + i) (pick_next_key (env.pick_at i) (env.others i s)).1.api_keys
    picked i s a =
        pick-AtMost (env.pick_at i) (start + i) (env.others i s)
          ((respects (start + i)).others i s a)

    keeps_few : (n : ℕ) → Keeps env body n FewCalls
    unfolding FewCalls wait_for_free_slot release
    keeps_few n = record {
      no_key = λ i s s₁ a e. weaken i s₁.api_keys (rw e at (picked i s a));
      waits = λ i s a.
          wait_from-Respects env (AtMost (start + (i + 1))) (respects (start + (i + 1))) i
            wait_rounds 0 false s a;
      tries = λ i s s₁ key a e. one_more i _ (
          Touches-AtMost key.id (start + i) (env.meanwhile i s₁) _
            (dispatch_one-Touches env i key body.stream s₁)
            ((respects (start + i)).meanwhile i s₁ (rw e at (picked i s a))));
    }

  -- A request that is alone on the database puts at most max_iter calls on record, that is one for
  -- each active key (one at the least) and the safety margin, whatever the upstream answers.
  pub calls-execute :
      (s : Pool)
      → Distinct (ids s.api_keys)
      → calls_on_record (execute_with_rotation env body s).1.api_keys
        ≤ calls_on_record s.api_keys + (max 1 (count_active s) + env.safety_margin)
  unfolding execute_with_rotation FewCalls max_iter
  calls-execute s d =
      let start = calls_on_record s.api_keys in
      let (j, le, few) =
        rotate_rule env body (count_active s) (FewCalls start) (keeps_few start (count_active s))
          (max_iter env s) 0 first_flags s (record { distinct = d; within = omega arith }) in
      omega (arith, few.within)
