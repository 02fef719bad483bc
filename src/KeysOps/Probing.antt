-- ===== src/KeysOps/Probing.antt =====
-- The probes: what they may do to the table of keys.
use ollama_proxy.Prelude.{
  ℕ, ◌≡◌, ◌⊎◌, refl, sym, subst, inl, inr, String, false, ◌||◌, Option, none, some, List, [], ◌∷◌,
  ◌==◌, leb, All, length, str_eq, Bool-cases,
}
use ollama_proxy.Exec.{
  Exec, Result, returned, raised, vault_decrypt_error, transport_error, continue, pure, lift, ◌>>=◌,
  ◌>>◌,
}
use ollama_proxy.Models.{ApiKey}
use ollama_proxy.Vault.{safe_decrypt}
use ollama_proxy.OllamaClient.{
  HttpRequest, HttpResult, request_error, os_error, is_success, chat_request,
}
use ollama_proxy.OllamaClient.Probe.{ProbeResult, failed_probe, probe}
use ollama_proxy.KeyManager.{Pool, load_active}
use ollama_proxy.KeyManager.RetryAfter.{extract_retry_after, plain_dict}
use ollama_proxy.KeyManager.Records.{record_rate_limited}
use ollama_proxy.KeyManager.Lifecycle.{IsCoherent, succeeded, rejected, limited}
use ollama_proxy.KeyManager.Lifecycle
use ollama_proxy.Rotation.Attempt.{with_floats}
use ollama_proxy.Rotation.Dispatch.{Touches, Touches-IsCoherent, if-Touches, event-Touches}
use ollama_proxy.KeysOps.{
  ProbeEnv, classify_code, classify, after_probe, classify_found, run_with, run, run_all,
  classify_all, probe_keys, probe_all_active,
}

Keeps : {A : Type 0} → Exec Pool A → Type 0
Keeps m = (s : Pool) → All IsCoherent s.api_keys → All IsCoherent (m s).1.api_keys

module _ {A B : Type 0} where
  bind-Keeps :
      (m : Exec Pool A) (f : A → Exec Pool B) → Keeps m → ((a : A) → Keeps (f a)) → Keeps (m >>= f)
  unfolding Keeps
  bind-Keeps m f keeps_m keeps_f s h = go (m s).0 (m s).1 (keeps_m s h)
    where
      go :
          (r : Result A) (t : Pool)
          → All IsCoherent t.api_keys
          → All IsCoherent (continue r f t).1.api_keys
      go (returned a) t k = keeps_f a t k
      go (raised e) t k = k

-- The pool is left as it is, and what is returned has a property.
abbrev Leaves : {A : Type 0} → (A → Type 0) → Pool → Result A × Pool → Type 0
Leaves P s (returned a, t) = P a × (t ≡ s)
Leaves P s (raised e, t) = t ≡ s

Leaves-pool :
    {A : Type 0} (P : A → Type 0) (r : Result A × Pool) (s : Pool) → Leaves P s r → r.1 ≡ s
Leaves-pool P (returned a, t) s h = h.1
Leaves-pool P (raised e, t) s h = h

bind-Leaves :
    {A B : Type 0} (P : A → Type 0) (Q : B → Type 0) (m : Exec Pool A) (f : A → Exec Pool B)
    (s : Pool)
    → Leaves P s (m s)
    → ((a : A) → P a → Leaves Q s (f a s))
    → Leaves Q s ((m >>= f) s)
bind-Leaves {A} P Q m f s h step = go (m s).0 (m s).1 h
  where
    go : (r : Result A) (t : Pool) → Leaves P s (r, t) → Leaves Q s (continue r f t)
    go (returned a) t k = subst (λ u. Leaves Q s (f a u)) (sym k.1) (step a k.0)
    go (raised e) t k = k

module _ (env : ProbeEnv) where
  limited-Touches :
      (key_id code : ℕ) (r : Result ℕ) (s : Pool)
      → Touches key_id s
          ((do
            seconds ← lift r
            record_rate_limited env.record_at key_id code seconds
            pure {A = Unit {0}} tt)
            s).1
  limited-Touches key_id code (returned seconds) s =
      event-Touches key_id s (limited env.record_at code seconds) tt
  limited-Touches key_id code (raised e) s = inl refl

  classify_code-Touches :
      (key_id : ℕ) (result : ProbeResult) (code : ℕ) (s : Pool)
      → Touches key_id s (classify_code env key_id result code s).1
  unfolding classify_code
  classify_code-Touches key_id result code s =
      if-Touches key_id s (is_success code) _ _
        (event-Touches key_id s (succeeded env.record_at code) tt)
        (if-Touches key_id s (code == 401 || code == 403 || code == 404) _ _
          (event-Touches key_id s (rejected env.record_at code) tt)
          (if-Touches key_id s (code == 429) _ _
            (limited-Touches key_id code
              (extract_retry_after
                (plain_dict (with_floats env.float_text result.ratelimit_headers)))
              s)
            (if-Touches key_id s (leb 500 code) _ _
              (event-Touches key_id s (Lifecycle.failed env.record_at code) tt) (inl refl))))

  classify-Touches :
      (key_id : ℕ) (result : ProbeResult) (o : Option ℕ) (s : Pool)
      → Touches key_id s (classify_found env key_id result o s).1
  classify-Touches key_id result none s = inl refl
  classify-Touches key_id result (some code) s = classify_code-Touches key_id result code s

  after_probe-Touches :
      (key : ApiKey) (r : Result ProbeResult) (s : Pool)
      → Touches key.id s (after_probe env key r s).1
  after_probe-Touches key (returned result) s = inl refl
  after_probe-Touches key (raised transport_error) s =
      event-Touches key.id s (Lifecycle.failed env.record_at 0) (key, failed_probe transport_error)
  after_probe-Touches key (raised e) s = inl refl

  run_with-Touches :
      (key : ApiKey) (r : Result String) (s : Pool) → Touches key.id s (run_with env key r s).1
  run_with-Touches key (returned raw_key) s =
      after_probe-Touches key (probe (env.post key.id) env.base_url raw_key env.probe_model) s
  run_with-Touches key (raised (vault_decrypt_error key_id)) s = inl refl
  run_with-Touches key (raised e) s = inl refl

  run-Keeps : (key : ApiKey) → Keeps (run env key)
  unfolding Keeps run
  run-Keeps key s h =
      Touches-IsCoherent key.id s _ (run_with-Touches key (safe_decrypt env.vault key) s) h

  pure-Keeps : {A : Type 0} (a : A) → Keeps (pure a)
  unfolding Keeps
  pure-Keeps a s h = h

  run_all-Keeps : (keys : List ApiKey) → Keeps (run_all env keys)
  unfolding run_all
  run_all-Keeps [] = pure-Keeps []
  run_all-Keeps (key ∷ keys) =
      bind-Keeps _ _ (run-Keeps key)
        (λ pair. bind-Keeps _ _ (run_all-Keeps keys) (λ pairs. pure-Keeps (pair ∷ pairs)))

  classify_all-Keeps : (pairs : List (ApiKey × ProbeResult)) → Keeps (classify_all env pairs)
  unfolding classify_all classify Keeps
  classify_all-Keeps [] = λ s h. h
  classify_all-Keeps ((key, result) ∷ pairs) =
      bind-Keeps (classify env key.id result) (λ _. classify_all env pairs)
        (λ s h.
          Touches-IsCoherent key.id s _ (classify-Touches key.id result result.status_code s) h)
        (λ a. classify_all-Keeps pairs)

  probe_keys-Keeps : (keys : List ApiKey) → Keeps (probe_keys env keys)
  probe_keys-Keeps [] = pure-Keeps (0, [])
  probe_keys-Keeps (key ∷ keys) =
      bind-Keeps _ _ (run_all-Keeps (key ∷ keys))
        (λ pairs. bind-Keeps _ _ (classify_all-Keeps pairs) (λ a. pure-Keeps (length pairs, pairs)))

  -- A batch of probes, whatever the upstream answers and wherever it stops, keeps every key depleted
  -- exactly while it has a cooldown.
  pub probe_all_active-IsCoherent :
      (s : Pool) → All IsCoherent s.api_keys → All IsCoherent (probe_all_active env s).1.api_keys
  unfolding probe_all_active Keeps
  probe_all_active-IsCoherent s h = probe_keys-Keeps (load_active s.api_keys) s h

  abbrev pub IsDown : (HttpRequest → HttpResult) → Type 0
  IsDown post = (req : HttpRequest) → (post req ≡ request_error) ⊎ (post req ≡ os_error)

  -- No code to classify.
  abbrev IsCodeless : ApiKey × ProbeResult → Type 0
  IsCodeless pair = pair.1.status_code ≡ none

  run_with-Leaves :
      (key : ApiKey) (r : Result String) (s : Pool)
      → IsDown (env.post key.id)
      → Leaves IsCodeless s (run_with env key r s)
  unfolding probe
  run_with-Leaves key (returned raw_key) s down = elim (Bool-cases (str_eq env.probe_model "")) [
    | inl q ↦ rw q refl
    | inr q ↦ elim (down (chat_request env.base_url raw_key false)) [
      | inl e ↦ rw q (rw e (refl, refl))
      | inr e ↦ rw q (rw e (refl, refl))
    ]
  ]
  run_with-Leaves key (raised (vault_decrypt_error key_id)) s down = (refl, refl)
  run_with-Leaves key (raised e) s down = refl

  run_all-Leaves :
      (keys : List ApiKey) (s : Pool)
      → ((key_id : ℕ) → IsDown (env.post key_id))
      → Leaves (All IsCodeless) s (run_all env keys s)
  unfolding run_all run
  run_all-Leaves [] s down = (tt, refl)
  run_all-Leaves (key ∷ keys) s down =
      bind-Leaves IsCodeless (All IsCodeless) (run env key)
        (λ pair. do pairs ← run_all env keys; pure (pair ∷ pairs)) s
        (run_with-Leaves key (safe_decrypt env.vault key) s (down key.id))
        (λ pair codeless.
          bind-Leaves (All IsCodeless) (All IsCodeless) (run_all env keys)
            (λ pairs. pure (pair ∷ pairs)) s (run_all-Leaves keys s down)
            (λ pairs rest. ((codeless, rest), refl)))

  classify_all-Leaves :
      (pairs : List (ApiKey × ProbeResult)) (s : Pool)
      → All IsCodeless pairs
      → classify_all env pairs s ≡ (returned tt, s)
  unfolding classify_all classify
  classify_all-Leaves [] s h = refl
  classify_all-Leaves ((key, result) ∷ pairs) s h = rw h.0 (classify_all-Leaves pairs s h.1)

  probe_keys-Leaves :
      (keys : List ApiKey) (s : Pool)
      → ((key_id : ℕ) → IsDown (env.post key_id))
      → Leaves (λ out. Unit) s (probe_keys env keys s)
  probe_keys-Leaves [] s down = (tt, refl)
  probe_keys-Leaves (key ∷ keys) s down =
      bind-Leaves (All IsCodeless) (λ out. Unit) (run_all env (key ∷ keys))
        (λ pairs. do classify_all env pairs; pure (length pairs, pairs)) s
        (run_all-Leaves (key ∷ keys) s down)
        (λ pairs codeless. rw (classify_all-Leaves pairs s codeless) (tt, refl))

  -- An outage is recorded nowhere: when every request of a batch fails on the network, the whole batch,
  -- its classification included, leaves the pool as it was, with no failure counted.
  pub probe_all_active-outage :
      (s : Pool) → ((key_id : ℕ) → IsDown (env.post key_id)) → (probe_all_active env s).1 ≡ s
  unfolding probe_all_active
  probe_all_active-outage s down =
      Leaves-pool (λ out. Unit) (probe_all_active env s) s
        (probe_keys-Leaves (load_active s.api_keys) s down)
