-- ===== src/Proxy/Fetch.antt =====
-- `_fetch_models_via_rotation`: what one fetch of the names does to the key that it uses.
use ollama_proxy.Prelude.{
  ℕ, ◌≡◌, refl, ap, ◌∙◌, inl, String, true, ◌||◌, Option, none, some, List, ◌∷◌, ◌==◌, leb,
}
use ollama_proxy.Exec.{
  Result, returned, raised, vault_decrypt_error, transport_error, pure, lift, ◌>>=◌, ◌>>◌,
}
use ollama_proxy.Models.{ApiKey}
use ollama_proxy.Vault.{safe_decrypt}
use ollama_proxy.OllamaClient.{UpstreamResponse, Checked, passed, unhappy, failed, list_models_v1}
use ollama_proxy.KeyManager.{Pool, KeyManager, pick_next_key, release, discard}
use ollama_proxy.KeyManager.Pick.{pick-active}
use ollama_proxy.KeyManager.InFlight.{none-in_flight, discard-cons}
use ollama_proxy.KeyManager.RetryAfter.{extract_retry_after, httpx_headers}
use ollama_proxy.KeyManager.Records.{record_rate_limited}
use ollama_proxy.KeyManager.Lifecycle.{
  Event, succeeded, rejected, limited, record_event, manager-record_event,
}
use ollama_proxy.KeyManager.Lifecycle
use ollama_proxy.Rotation.Attempt.{with_floats}
use ollama_proxy.Rotation.Dispatch.{Touches, Touches-in_flight, if-Touches, event-Touches}
use ollama_proxy.Proxy.{
  ListEnv, fell_back, record_unhappy, settle, ask_upstream, with_picked, fetch_models_via_rotation,
}

module _ (env : ListEnv) (key : ApiKey) (s : Pool) where
  limited-Touches :
      (code : ℕ) (r : Result ℕ)
      → Touches key.id s
          ((do
            seconds ← lift r
            record_rate_limited env.record_at key.id code seconds
            pure fell_back)
            s).1
  limited-Touches code (returned seconds) =
      event-Touches key.id s (limited env.record_at code seconds) fell_back
  limited-Touches code (raised e) = inl refl

  record_unhappy-Touches :
      (response : UpstreamResponse) → Touches key.id s (record_unhappy env key response s).1
  unfolding record_unhappy
  record_unhappy-Touches response =
      let code = response.status_code in
      if-Touches key.id s (code == 401 || code == 403) _ _
        (event-Touches key.id s (rejected env.record_at code) fell_back)
        (if-Touches key.id s (code == 429) _ _
          (limited-Touches code
            (extract_retry_after (httpx_headers (with_floats env.float_text response.headers))))
          (if-Touches key.id s (leb 500 code) _ _
            (event-Touches key.id s (Lifecycle.failed env.record_at code) fell_back) (inl refl)))

  settle-Touches : (r : Checked (List String)) → Touches key.id s (settle env key r s).1
  settle-Touches (passed ids) = event-Touches key.id s (succeeded env.record_at 200) (true, ids)
  settle-Touches (unhappy response) = record_unhappy-Touches response
  settle-Touches (failed transport_error) =
      event-Touches key.id s (Lifecycle.failed env.record_at 0) fell_back
  settle-Touches (failed e) = inl refl

module _ (env : ListEnv) (quiet : (s : Pool) → (env.meanwhile s).in_flight ≡ s.in_flight) where
  ask_upstream-in_flight :
      (key : ApiKey) (r : Result String) (s : Pool)
      → (ask_upstream env key r s).1.in_flight ≡ s.in_flight
  ask_upstream-in_flight key (returned raw) s =
      Touches-in_flight key.id (env.meanwhile s) _
        (settle-Touches env key (env.meanwhile s) (list_models_v1 env.http env.base_url raw))
      ∙ quiet s
  ask_upstream-in_flight key (raised (vault_decrypt_error key_id)) s = refl
  ask_upstream-in_flight key (raised e) s = refl

  with_picked-in_flight :
      (s : Pool) (o : Option ApiKey) (s₁ : Pool)
      → pick_next_key env.pick_at s ≡ (o, s₁)
      → (with_picked env (o, s₁)).1.in_flight ≡ s.in_flight
  unfolding release
  with_picked-in_flight s none s₁ e =
      ap (λ (m : KeyManager). m.in_flight) (none-in_flight env.pick_at s s₁ e)
  with_picked-in_flight s (some key) s₁ e =
      let (_, free, grown) = pick-active env.pick_at s key s₁ e in
      let during : (ask_upstream env key (safe_decrypt env.vault key) s₁).1.in_flight
          ≡ key.id ∷ s.in_flight =
        ask_upstream-in_flight key (safe_decrypt env.vault key) s₁ ∙ grown in
      ap (discard key.id) during ∙ discard-cons key.id s.in_flight free

  -- However a fetch of the model names ends, the set of reserved ids is the one it started with, when
  -- the other tasks leave that set as it was during the upstream call.
  pub in_flight-fetch : (s : Pool) → (fetch_models_via_rotation env s).1.in_flight ≡ s.in_flight
  unfolding fetch_models_via_rotation
  in_flight-fetch s =
      with_picked-in_flight s (pick_next_key env.pick_at s).0 (pick_next_key env.pick_at s).1 refl
