-- ===== src/Rotation/Dispatch.antt =====
-- `_dispatch_one`: what one attempt may do to the pool.
use ollama_proxy.Prelude.{
  ℕ, All, subst, sym, ◌≡◌, refl, ap, ◌∙◌, ◌⊎◌, inl, inr, Bool, true, false, none, some, ◌==◌, leb,
  if◌then◌else◌,
}
use ollama_proxy.Exec.{
  Exec, Result, returned, raised, vault_decrypt_error, transport_error, continue, pure, lift, ◌>>=◌,
  ◌>>◌,
}
use ollama_proxy.Models.{ApiKey}
use ollama_proxy.OllamaClient.{UpstreamResponse}
use ollama_proxy.Vault.{safe_decrypt}
use ollama_proxy.KeyManager.{Pool, KeyManager}
use ollama_proxy.KeyManager.Records.{record_rate_limited}
use ollama_proxy.KeyManager.RetryAfter.{extract_retry_after, httpx_headers}
use ollama_proxy.KeyManager.Lifecycle.{
  Event, IsCoherent, record_event-IsCoherent, succeeded, used, rejected, limited, failed,
  record_event, manager-record_event,
}
use ollama_proxy.Rotation.Replies.{Usage}
use ollama_proxy.Rotation.Attempt.{
  Env, DispatchOutcome, rotate_on, pass_on, is_2xx, is_dead, with_floats, usage_of, classify,
  classify_answer, record_usage, dispatch_one, call_upstream,
}

-- The pool is as it was, or one outcome of the key has been recorded in it.
abbrev pub Touches : ℕ → Pool → Pool → Type 0
Touches key_id s t = (t ≡ s) ⊎ ((ev : Event) × (t ≡ (record_event ev key_id s).1))

-- No recorded outcome touches the set of reserved ids.
pub Touches-in_flight : (key_id : ℕ) (s t : Pool) → Touches key_id s t → t.in_flight ≡ s.in_flight
Touches-in_flight key_id s t (inl e) = ap (λ (p : Pool). p.in_flight) e
Touches-in_flight key_id s t (inr (ev, e)) =
    ap (λ (p : Pool). p.in_flight) e
    ∙ ap (λ (m : KeyManager). m.in_flight) (manager-record_event ev key_id s)

-- Every recorded outcome keeps the keys coherent.
pub Touches-IsCoherent :
    (key_id : ℕ) (s t : Pool)
    → Touches key_id s t
    → All IsCoherent s.api_keys
    → All IsCoherent t.api_keys
Touches-IsCoherent key_id s t (inl e) h = subst (λ (p : Pool). All IsCoherent p.api_keys) (sym e) h
Touches-IsCoherent key_id s t (inr (ev, e)) h =
    subst (λ (p : Pool). All IsCoherent p.api_keys) (sym e) (record_event-IsCoherent ev key_id s h)

module _ {A : Type 0} (key_id : ℕ) (s : Pool) where
  pub if-Touches :
      (b : Bool) (m n : Exec Pool A)
      → Touches key_id s (m s).1
      → Touches key_id s (n s).1
      → Touches key_id s ((if b then m else n) s).1
  if-Touches true m n h k = h
  if-Touches false m n h k = k

  pub event-Touches :
      (ev : Event) (a : A) → Touches key_id s ((do record_event ev key_id; pure a) s).1
  event-Touches ev a = inr (ev, go (record_event ev key_id s).0)
    where
      go :
          (r : Result ApiKey)
          → (continue {A = ApiKey} r (λ _. pure a) (record_event ev key_id s).1).1
            ≡ (record_event ev key_id s).1
      go (returned k) = refl
      go (raised e) = refl

module _ (env : Env) (now : ℕ) (key : ApiKey) (stream : Bool) (s : Pool) where
  usage-Touches :
      (code : ℕ) (usage : Usage) (a : DispatchOutcome)
      → Touches key.id s ((do record_usage env now key.id code usage; pure a) s).1
  usage-Touches code (none, none) a = event-Touches key.id s (succeeded now code) a
  usage-Touches code (some p, c) a = event-Touches key.id s (used now code (some p) c) a
  usage-Touches code (none, some c) a = event-Touches key.id s (used now code none (some c)) a

  limited-Touches :
      (code : ℕ) (r : Result ℕ) (a : DispatchOutcome)
      → Touches key.id s
          ((do seconds ← lift r; record_rate_limited now key.id code seconds; pure a) s).1
  limited-Touches code (returned seconds) a = event-Touches key.id s (limited now code seconds) a
  limited-Touches code (raised e) a = inl refl

  classify_answer-Touches :
      (response : UpstreamResponse)
      → Touches key.id s (classify_answer env now key stream response s).1
  unfolding classify_answer
  classify_answer-Touches response =
      let code = response.status_code in
      if-Touches key.id s (is_2xx code) _ _
        (usage-Touches code (usage_of stream response) (pass_on response))
        (if-Touches key.id s (is_dead code) _ _
          (event-Touches key.id s (rejected now code) (rotate_on false))
          (if-Touches key.id s (code == 404) _ _ (inl refl) (
            if-Touches key.id s (code == 429) _ _
              (limited-Touches code
                (extract_retry_after (httpx_headers (with_floats env.float_text response.headers)))
                (rotate_on false))
              (if-Touches key.id s (leb 500 code) _ _
                (event-Touches key.id s (failed now code) (rotate_on false)) (inl refl)))))

  classify-Touches :
      (r : Result UpstreamResponse) → Touches key.id s (classify env now key stream r s).1
  classify-Touches (returned response) = classify_answer-Touches response
  classify-Touches (raised (vault_decrypt_error key_id)) = inl refl
  classify-Touches (raised transport_error) =
      event-Touches key.id s (failed now 0) (rotate_on false)
  classify-Touches (raised e) = inl refl

-- An attempt records at most one outcome, and of its own key, in the pool that it finds when the
-- upstream's answer is there.
pub dispatch_one-Touches :
    (env : Env) (attempt : ℕ) (key : ApiKey) (stream : Bool) (s : Pool)
    → Touches key.id (env.meanwhile attempt s) (dispatch_one env attempt key stream s).1
unfolding dispatch_one
dispatch_one-Touches env attempt key stream s =
    classify-Touches env (env.record_at attempt) key stream (env.meanwhile attempt s)
      (call_upstream env attempt stream (safe_decrypt env.vault key))
