-- ===== src/Rotation/Reservations.antt =====
-- The key of every attempt is given back, however the attempt ends.
use ollama_proxy.Prelude.{
  ℕ, zero, suc, ◌+◌, ◌≡◌, refl, ap, subst, ◌∙◌, Bool, true, false, some, List, ◌∷◌, arith, contains,
}
use ollama_proxy.Models.{ApiKey}
use ollama_proxy.KeyManager.{Pool, KeyManager, pick_next_key, release, discard}
use ollama_proxy.KeyManager.Pick.{pick-active}
use ollama_proxy.KeyManager.InFlight.{none-in_flight, discard-cons}
use ollama_proxy.Rotation.Dispatch.{Touches-in_flight, dispatch_one-Touches}
use ollama_proxy.Rotation.Loop.{Keeps, rotate_rule}
use ollama_proxy.Rotation.Attempt.{
  Env, Body, dispatch_one, wait_from, wait_for_free_slot, wait_rounds,
}
use ollama_proxy.Rotation.{execute_with_rotation, count_active, max_iter, first_flags}

-- While this request waits, the other tasks give back what they take: they leave the set of
-- reserved ids as it was.
pub record IsQuiet (env : Env) : Type 0 where
  pub others : (i : ℕ) (s : Pool) → (env.others i s).in_flight ≡ s.in_flight
  pub meanwhile : (i : ℕ) (s : Pool) → (env.meanwhile i s).in_flight ≡ s.in_flight
  pub polls : (i k : ℕ) (s : Pool) → (env.polls i k s).in_flight ≡ s.in_flight

module _ (env : Env) (body : Body) (quiet : IsQuiet env) where
  wait_from-in_flight :
      (attempt fuel poll : ℕ) (slept : Bool) (s : Pool)
      → (wait_from env attempt fuel poll slept s).1.in_flight ≡ s.in_flight
  unfolding wait_from
  wait_from-in_flight attempt zero poll slept s = refl
  wait_from-in_flight attempt (suc fuel) poll slept s = ground (
    arith,
    quiet.polls attempt poll s,
    wait_from-in_flight attempt fuel (poll + 1) true (env.polls attempt poll s),
  )

  module _ (busy : List ℕ) where
    SameSet : ℕ → Pool → Type 0
    SameSet j s = s.in_flight ≡ busy

    tried :
        (i : ℕ) (s s₁ : Pool) (key : ApiKey)
        → s.in_flight ≡ busy
        → pick_next_key (env.pick_at i) (env.others i s) ≡ (some key, s₁)
        → (release key.id (dispatch_one env i key body.stream s₁).1).in_flight ≡ busy
    unfolding release
    tried i s s₁ key h e =
        let (_, free, grown) = pick-active (env.pick_at i) (env.others i s) key s₁ e in
        let before : (env.others i s).in_flight ≡ busy = quiet.others i s ∙ h in
        let during : (dispatch_one env i key body.stream s₁).1.in_flight ≡ key.id ∷ busy =
          Touches-in_flight key.id (env.meanwhile i s₁) _
            (dispatch_one-Touches env i key body.stream s₁)
          ∙ quiet.meanwhile i s₁
          ∙ grown
          ∙ ap (λ t. key.id ∷ t) before in
        ap (discard key.id) during
        ∙ discard-cons key.id busy (subst (λ t. contains key.id t ≡ false) before free)

    keeps_set : (n : ℕ) → Keeps env body n SameSet
    unfolding SameSet wait_for_free_slot
    keeps_set n = record {
      no_key = λ i s s₁ h e.
          ap (λ (m : KeyManager). m.in_flight)
            (none-in_flight (env.pick_at i) (env.others i s) s₁ e)
          ∙ quiet.others i s
          ∙ h;
      waits = λ i s h. wait_from-in_flight i wait_rounds 0 false s ∙ h;
      tries = tried;
    }

  -- However a request ends, by an answer or by an exception, the set of reserved ids is the one it
  -- started with, when the other tasks leave that set as it was: no path leaks a reservation.
  pub in_flight-execute : (s : Pool) → (execute_with_rotation env body s).1.in_flight ≡ s.in_flight
  unfolding execute_with_rotation SameSet
  in_flight-execute s =
      let (j, le, same) =
        rotate_rule env body (count_active s) (SameSet s.in_flight)
          (keeps_set s.in_flight (count_active s)) (max_iter env s) 0 first_flags s refl in
      same
