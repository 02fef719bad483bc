-- ===== src/Rotation/Final.antt =====
-- One attempt: what it passes on to the client ends the rotation.
use ollama_proxy.Prelude.{
  ℕ, ◌<◌, String, ◌≡◌, ◌≢◌, refl, ◌⊎◌, inl, inr, Bool, true, false, none, some, arith, ◌==◌, leb,
  if◌then◌else◌,
}
use ollama_proxy.Exec.{
  Exec, Result, returned, raised, vault_decrypt_error, transport_error, continue, pure, lift, ◌>>=◌,
  ◌>>◌,
}
use ollama_proxy.Models.{ApiKey}
use ollama_proxy.OllamaClient.{
  UpstreamResponse, HttpRequest, HttpResult, answered, chat_completion, wrap_low_level_oserror,
  chat_request,
}
use ollama_proxy.Vault.{safe_decrypt}
use ollama_proxy.KeyManager.{Pool}
use ollama_proxy.KeyManager.Records.{record_rate_limited, record_unauthorized, record_server_error}
use ollama_proxy.KeyManager.RetryAfter.{extract_retry_after, httpx_headers}
use ollama_proxy.Rotation.Replies.{Response, build_success_response}
use ollama_proxy.Rotation.Attempt.{
  Env, DispatchOutcome, rotate_on, pass_on, is_2xx, is_dead, with_floats, usage_of, classify,
  classify_answer, record_usage, dispatch_one, call_upstream,
}

-- A status code that ends the rotation.
abbrev pub IsFinal : ℕ → Type 0
IsFinal code = (code ≢ 401) × (code ≢ 403) × (code ≢ 404) × (code ≢ 429) × (code < 500)

module _ (env : Env) (stream : Bool) where
  -- The upstream's answer to a request of the attempt, passed on.
  abbrev pub Passed : ℕ → Response → Type 0
  Passed attempt r =
      (up : UpstreamResponse) × (req : HttpRequest) × (env.post attempt req ≡ answered up)
      × (r ≡ build_success_response up stream)
      × IsFinal up.status_code

  -- What an outcome of the attempt hands to the loop.
  abbrev pub Sound : ℕ → Result DispatchOutcome → Type 0
  Sound attempt (raised e) = Unit
  Sound attempt (returned o) =
      (o.rotate ≡ true)
      ⊎ ((r : Response) × (o.terminal ≡ some r) × Passed attempt r)
      ⊎ ((up : UpstreamResponse) × (o.terminal ≡ none)
          × (o.response ≡ some up)
          × Passed attempt (build_success_response up stream))

  module _ (attempt : ℕ) where
    if-Sound :
        (b : Bool) (m n : Exec Pool DispatchOutcome) (s : Pool)
        → (b ≡ true → Sound attempt (m s).0)
        → (b ≡ false → Sound attempt (n s).0)
        → Sound attempt ((if b then m else n) s).0
    if-Sound true m n s h k = h refl
    if-Sound false m n s h k = k refl

    then-Sound :
        {A : Type 0} (m : Exec Pool A) (o : DispatchOutcome) (s : Pool)
        → Sound attempt (returned o)
        → Sound attempt ((m >>= λ _. pure o) s).0
    then-Sound {A} m o s h = go (m s).0
      where
        go : (r : Result A) → Sound attempt (continue r (λ _. pure o) (m s).1).0
        go (returned a) = h
        go (raised e) = tt

    classify_answer-Sound :
        (now : ℕ) (key : ApiKey) (up : UpstreamResponse) (req : HttpRequest) (s : Pool)
        → env.post attempt req ≡ answered up
        → Sound attempt (classify_answer env now key stream up s).0
    unfolding classify_answer
    classify_answer-Sound now key up req s e =
        let code = up.status_code in
        if-Sound (is_2xx code) _ _ s
          (λ ok.
            then-Sound (record_usage env now key.id code (usage_of stream up)) (pass_on up) s
              (inr (inr (up, refl, refl, (up, req, e, refl, ground arith)))))
          (λ not_ok.
            if-Sound (is_dead code) _ _ s
              (λ dead.
                then-Sound (record_unauthorized now key.id code) (rotate_on false) s (inl refl))
              (λ alive.
                if-Sound (code == 404) _ _ s (λ missing. inl refl)
                  (λ found.
                    if-Sound (code == 429) _ _ s
                      (λ limited. limited-Sound (
                        extract_retry_after
                          (httpx_headers (with_floats env.float_text up.headers))))
                      (λ unlimited.
                        if-Sound (leb 500 code) _ _ s
                          (λ broken.
                            then-Sound (record_server_error now key.id code) (rotate_on false) s
                              (inl refl))
                          (λ working. inr (
                            inl (
                              build_success_response up stream,
                              refl,
                              (up, req, e, refl, ground arith),
                            )))))))
      where
        limited-Sound :
            (r : Result ℕ)
            → Sound attempt
                ((do
                  seconds ← lift r
                  record_rate_limited now key.id up.status_code seconds
                  pure (rotate_on false))
                  s).0
        limited-Sound (returned seconds) =
            then-Sound (record_rate_limited now key.id up.status_code seconds) (rotate_on false) s
              (inl refl)
        limited-Sound (raised x) = tt

    wrap-returned :
        (h : HttpResult) (up : UpstreamResponse)
        → wrap_low_level_oserror h ≡ returned up
        → h ≡ answered up
    unfolding wrap_low_level_oserror
    wrap-returned (answered r) up e = ground arith
    wrap-returned _ up e = cc

    -- An answer that the call returns is one that the upstream gave to some request.
    call-answered :
        (raw : Result String) (up : UpstreamResponse)
        → call_upstream env attempt stream raw ≡ returned up
        → (req : HttpRequest) × (env.post attempt req ≡ answered up)
    unfolding chat_completion
    call-answered (returned raw_key) up e =
        (chat_request env.base_url raw_key stream, wrap-returned _ up e)
    call-answered (raised x) up e = cc

    classify-Sound :
        (now : ℕ) (key : ApiKey) (s : Pool) (raw : Result String) (r : Result UpstreamResponse)
        → call_upstream env attempt stream raw ≡ r
        → Sound attempt (classify env now key stream r s).0
    classify-Sound now key s raw (returned up) e =
        let (req, e') = call-answered raw up e in classify_answer-Sound now key up req s e'
    classify-Sound now key s raw (raised (vault_decrypt_error key_id)) e = inl refl
    classify-Sound now key s raw (raised transport_error) e =
        then-Sound (record_server_error now key.id 0) (rotate_on false) s (inl refl)
    classify-Sound now key s raw (raised x) e = tt

    pub dispatch_one-Sound :
        (key : ApiKey) (s : Pool) → Sound attempt (dispatch_one env attempt key stream s).0
    unfolding dispatch_one
    dispatch_one-Sound key s =
        classify-Sound (env.record_at attempt) key (env.meanwhile attempt s)
          (safe_decrypt env.vault key)
          (call_upstream env attempt stream (safe_decrypt env.vault key)) refl
