-- ===== src/Rotation/Waiting.antt =====
-- `_wait_for_free_slot`: how long it waits and what it answers.
use ollama_proxy.Prelude.{ℕ, zero, suc, ◌+◌, ◌*◌, ◌≤◌, ◌≡◌, refl, Bool, true, false, arith, ltb}
use ollama_proxy.KeyManager.{Pool}
use ollama_proxy.Rotation.Attempt.{
  Env, wait_from, wait_for_free_slot, saturation_wait_total, saturation_backoff, wait_rounds,
}

module _ (env : Env) (attempt : ℕ) where
  -- `asyncio.sleep(_SATURATION_BACKOFF)` takes its time, and the clock does not go back.
  abbrev pub SleepsThrough : Type 0
  SleepsThrough =
      (env.wait_start attempt ≤ env.monotonic attempt 0)
      × ((k : ℕ) → env.monotonic attempt k + saturation_backoff ≤ env.monotonic attempt (k + 1))

  wait_from-stable :
      (fuel extra poll : ℕ) (slept : Bool) (s : Pool)
      → ((k : ℕ) → env.monotonic attempt k + saturation_backoff ≤ env.monotonic attempt (k + 1))
      → env.wait_start attempt + saturation_wait_total
        ≤ env.monotonic attempt poll + fuel * saturation_backoff
      → wait_from env attempt (fuel + extra) poll slept s ≡ wait_from env attempt fuel poll slept s
  unfolding wait_from
  wait_from-stable zero zero poll slept s clock h = ground arith
  wait_from-stable zero (suc extra) poll slept s clock h = ground arith
  wait_from-stable (suc fuel) extra poll slept s clock h =
      let e : suc fuel + extra ≡ suc (fuel + extra) = omega arith in
      let s' = env.polls attempt poll s in
      let ih = wait_from-stable fuel extra (poll + 1) true s' clock (omega (arith, clock poll)) in
      rw e (rw ih refl)

  -- The rounds given are enough: with sleeps that take their time the loop has ended by its own
  -- test, so more rounds change neither the answer nor the pool that it leaves.
  pub wait_for_free_slot_ends :
      (extra : ℕ) (s : Pool)
      → SleepsThrough
      → wait_from env attempt (wait_rounds + extra) 0 false s ≡ wait_for_free_slot env attempt s
  unfolding wait_for_free_slot
  wait_for_free_slot_ends extra s (start, clock) =
      wait_from-stable wait_rounds extra 0 false s clock (omega arith)

  wait_from-slept : (fuel poll : ℕ) (s : Pool) → (wait_from env attempt fuel poll true s).0 ≡ true
  unfolding wait_from
  wait_from-slept zero poll s = refl
  wait_from-slept (suc fuel) poll s =
      ground (arith, wait_from-slept fuel (poll + 1) (env.polls attempt poll s))

  first_test :
      (fuel : ℕ) (s : Pool)
      → (wait_from env attempt (suc fuel) 0 false s).0
        ≡ ltb (env.monotonic attempt 0) (env.wait_start attempt + saturation_wait_total)
  unfolding wait_from
  first_test fuel s = ground (arith, wait_from-slept fuel (0 + 1) (env.polls attempt 0 s))

  -- The wait answers yes exactly when its first test of the clock passes, whether a key has come
  -- free or the time is over: a wait that sleeps at all never answers no.
  pub wait_for_free_slot-eq :
      (s : Pool)
      → (wait_for_free_slot env attempt s).0
        ≡ ltb (env.monotonic attempt 0) (env.wait_start attempt + saturation_wait_total)
  unfolding wait_for_free_slot
  wait_for_free_slot-eq s = first_test 1000 s
