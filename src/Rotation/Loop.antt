-- ===== src/Rotation/Loop.antt =====
-- An invariant rule for the loop of `execute_with_rotation`: what every kind of round keeps holds
-- when the loop ends, by an answer, by a `break`, by an exception or by its last round.
use ollama_proxy.Prelude.{
  ℕ, zero, suc, ◌+◌, ◌≤◌, ◌≡◌, refl, Bool, Option, none, some, inl, inr, arith, ◌==◌, Bool-cases,
  Option-cases,
}
use ollama_proxy.Exec.{Exec, Result, returned, raised}
use ollama_proxy.Models.{ApiKey}
use ollama_proxy.KeyManager.{Pool, pick_next_key, release}
use ollama_proxy.Rotation.Attempt.{Env, Body, DispatchOutcome, dispatch_one, wait_for_free_slot}
use ollama_proxy.Rotation.{Flags, LoopEnd, conclude, round, rotate_from}

conclude_rule :
    (Q : Pool → Type 0) (next : Flags → Exec Pool LoopEnd) (flags : Flags) (stream : Bool)
    (outcome : Result DispatchOutcome) (s : Pool)
    → Q s
    → ((f : Flags) → Q (next f s).1)
    → Q (conclude next flags stream outcome s).1
conclude_rule Q next flags stream (raised e) s h go = h
conclude_rule Q next flags stream (returned o) s h go = elim (Bool-cases o.rotate) [
  | inl e ↦ rw e (go _)
  | inr e ↦ elim (Option-cases o.terminal) [
    | inr (t, e') ↦ rw (e, e') h
    | inl e' ↦ elim (Option-cases o.response) [
      | inr (r, e'') ↦ rw (e, e', e'') h
      | inl e'' ↦ rw (e, e', e'') h
    ]
  ]
]

module _ (env : Env) (body : Body) (initial_count : ℕ) (P : ℕ → Pool → Type 0) where
  -- The three kinds of rounds, from a pool in which the invariant holds for the attempt.
  pub record Keeps : Type 0 where
    pub no_key :
        (i : ℕ) (s s₁ : Pool)
        → P i s
        → pick_next_key (env.pick_at i) (env.others i s) ≡ (none, s₁)
        → P (i + 1) s₁
    pub waits : (i : ℕ) (s : Pool) → P (i + 1) s → P (i + 1) (wait_for_free_slot env i s).1
    pub tries :
        (i : ℕ) (s s₁ : Pool) (key : ApiKey)
        → P i s
        → pick_next_key (env.pick_at i) (env.others i s) ≡ (some key, s₁)
        → P (i + 1) (release key.id (dispatch_one env i key body.stream s₁).1)

  abbrev pub Ends : ℕ → Pool → Type 0
  Ends last s = (j : ℕ) × (j ≤ last) × P j s

  round_rule :
      Keeps
      → (i : ℕ) (next : Flags → Exec Pool LoopEnd) (flags : Flags) (s : Pool) (Q : Pool → Type 0)
        (r : Option ApiKey × Pool)
      → P i s
      → pick_next_key (env.pick_at i) (env.others i s) ≡ r
      → ((t : Pool) → P (i + 1) t → Q t)
      → ((f : Flags) (t : Pool) → P (i + 1) t → Q (next f t).1)
      → Q (round env body initial_count i next flags r).1
  unfolding round
  round_rule keeps i next flags s Q (none, s₁) h e stop go =
      let here = keeps.no_key i s s₁ h e in
      let after = keeps.waits i s₁ here in
      elim (Bool-cases (initial_count == 0)) [
        | inl z ↦ rw z (stop s₁ here)
        | inr z ↦ elim (Bool-cases (wait_for_free_slot env i s₁).0) [
          | inl w ↦ rw (z, w) (go flags _ after)
          | inr w ↦ rw (z, w) (stop _ after)
        ]
      ]
  round_rule keeps i next flags s Q (some key, s₁) h e stop go =
      let here = keeps.tries i s s₁ key h e in
      conclude_rule Q next flags body.stream (dispatch_one env i key body.stream s₁).0 _
        (stop _ here) (λ f. go f _ here)

  pub rotate_rule :
      Keeps
      → (left i : ℕ) (flags : Flags) (s : Pool) → P i s
      → Ends (i + left) (rotate_from env body initial_count left i flags s).1
  unfolding rotate_from
  rotate_rule keeps zero i flags s h = (i, omega arith, h)
  rotate_rule keeps (suc left) i flags s h =
      round_rule keeps i (rotate_from env body initial_count left (i + 1)) flags s
        (Ends (i + suc left)) (pick_next_key (env.pick_at i) (env.others i s)) h refl
        (λ t p. (i + 1, omega arith, p))
        (λ f t p. let (j, le, q) = rotate_rule keeps left (i + 1) f t p in (j, omega arith, q))
