-- ===== src/Rotation/Attempt.antt =====
-- One attempt of a request: `_dispatch_one` and `_wait_for_free_slot` of app/services/rotation.py.
use ollama_proxy.Prelude.{
  ℕ, zero, suc, ◌+◌, ◌*◌, String, Bool, true, false, ◌&&◌, ◌||◌, Option, none, some, List, [], ◌∷◌,
  ◌==◌, ltb, leb, if◌then◌else◌,
}
use ollama_proxy.Clock.{second}
use ollama_proxy.Exec.{
  Exec, Result, returned, raised, vault_decrypt_error, transport_error, pure, lift, raise, ◌>>=◌,
  ◌>>◌,
}
use ollama_proxy.Models.{ApiKey}
use ollama_proxy.Vault.{Vault, safe_decrypt}
use ollama_proxy.OllamaClient.{UpstreamResponse, HttpRequest, HttpResult, chat_completion}
use ollama_proxy.KeyManager.{Pool, in_flight_count}
use ollama_proxy.KeyManager.RetryAfter.{HeaderValue, httpx_headers, extract_retry_after}
use ollama_proxy.KeyManager.Records.{
  record_success, record_success_with_usage, record_unauthorized, record_rate_limited,
  record_server_error,
}
use ollama_proxy.Rotation.Replies.{
  Response, build_success_response, Usage, parse_usage_from_response,
}

-- The settings and the world of one request. Moments are numbered by the attempt; `others` is what
-- the other tasks do before the attempt's pick, `meanwhile` what they do during its upstream call,
-- and `polls` what they do in each sleep of a wait.
pub record Env : Type 0 where
  pub vault : Vault
  pub base_url : String
  pub safety_margin : ℕ
  pub post : ℕ → HttpRequest → HttpResult
  pub float_text : String → HeaderValue
  pub pick_at : ℕ → ℕ
  pub record_at : ℕ → ℕ
  pub others : ℕ → Pool → Pool
  pub meanwhile : ℕ → Pool → Pool
  pub polls : ℕ → ℕ → Pool → Pool
  pub wait_start : ℕ → ℕ
  pub monotonic : ℕ → ℕ → ℕ

-- What the rotation reads of the request's body.
pub record Body : Type 0 where
  pub stream : Bool
  pub model : Option String

pub record DispatchOutcome : Type 0 where
  pub response : Option UpstreamResponse
  pub terminal : Option Response
  pub rotate : Bool
  pub all_404_hint : Bool

abbrev pub rotate_on : Bool → DispatchOutcome
rotate_on hint = record { response = none; terminal = none; rotate = true; all_404_hint = hint }

abbrev pub pass_on : UpstreamResponse → DispatchOutcome
pass_on response = record {
  response = some response;
  terminal = none;
  rotate = false;
  all_404_hint = false;
}

abbrev pub end_with : Response → DispatchOutcome
end_with response = record {
  response = none;
  terminal = some response;
  rotate = false;
  all_404_hint = false;
}

-- `_DEAD_KEY_CODES`
abbrev pub is_dead : ℕ → Bool
is_dead code = code == 401 || code == 403

abbrev pub is_2xx : ℕ → Bool
is_2xx code = leb 200 code && ltb code 300

-- The wait's limit and its sleep, in microseconds.
abbrev pub saturation_wait_total : ℕ
saturation_wait_total = 10 * second

abbrev pub saturation_backoff : ℕ
saturation_backoff = 10000

-- The sleeps that fit into the wait, and one more test.
abbrev pub wait_rounds : ℕ
wait_rounds = 1001

-- The headers of an answer, each value with what `float` makes of its text.
abbrev pub with_floats :
    (String → HeaderValue) → List (String × String) → List (String × HeaderValue)
with_floats float_text [] = []
with_floats float_text ((name, v) ∷ rest) = (name, float_text v) ∷ with_floats float_text rest

abbrev pub usage_of : Bool → UpstreamResponse → Usage
usage_of true response = (none, none)
usage_of false response = parse_usage_from_response response

module _ (env : Env) where
  -- The 2xx branch: with token counts or without.
  abbrev pub record_usage : ℕ → ℕ → ℕ → Usage → Exec Pool ApiKey
  record_usage now key_id code (none, none) = record_success now key_id code
  record_usage now key_id code (prompt, completion) =
      record_success_with_usage now key_id code prompt completion

  -- The branches on the status code of an answer, in the code's order.
  unfoldable pub classify_answer : ℕ → ApiKey → Bool → UpstreamResponse → Exec Pool DispatchOutcome
  unfolding build_success_response
  classify_answer now key stream response =
      let code = response.status_code in
      if is_2xx code
      then (do record_usage now key.id code (usage_of stream response); pure (pass_on response))
      else if is_dead code
      then (do record_unauthorized now key.id code; pure (rotate_on false))
      else if code == 404
      then pure (rotate_on true)
      else if code == 429
      then (do
        seconds ←
            lift (extract_retry_after (httpx_headers (with_floats env.float_text response.headers)))
        record_rate_limited now key.id code seconds
        pure (rotate_on false))
      else if leb 500 code
      then (do record_server_error now key.id code; pure (rotate_on false))
      else pure (end_with (build_success_response response stream))

  -- The `try` around the decryption and the upstream call, and its two handlers.
  abbrev pub classify : ℕ → ApiKey → Bool → Result UpstreamResponse → Exec Pool DispatchOutcome
  classify now key stream (returned response) = classify_answer now key stream response
  classify now key stream (raised (vault_decrypt_error key_id)) = pure (rotate_on false)
  classify now key stream (raised transport_error) = do
    record_server_error now key.id 0
    pure (rotate_on false)
  classify now key stream (raised e) = raise e

  abbrev pub call_upstream : ℕ → Bool → Result String → Result UpstreamResponse
  call_upstream attempt stream (returned raw_key) =
      chat_completion (env.post attempt) env.base_url raw_key stream
  call_upstream attempt stream (raised e) = raised e

  unfoldable pub dispatch_one : ℕ → ApiKey → Bool → Exec Pool DispatchOutcome
  dispatch_one attempt key stream s =
      classify (env.record_at attempt) key stream
        (call_upstream attempt stream (safe_decrypt env.vault key)) (env.meanwhile attempt s)

  -- `_wait_for_free_slot`: sleep until the pool has emptied or the time is over.
  unfoldable pub wait_from : ℕ → ℕ → ℕ → Bool → Pool → Bool × Pool
  wait_from attempt zero poll slept s = (slept, s)
  wait_from attempt (suc fuel) poll slept s =
      let s' = env.polls attempt poll s in
      let rest = wait_from attempt fuel (poll + 1) true s' in
      if ltb (env.monotonic attempt poll) (env.wait_start attempt + saturation_wait_total)
      then (if in_flight_count s' == 0 then (true, s') else rest)
      else (slept, s)

  unfoldable pub wait_for_free_slot : ℕ → Pool → Bool × Pool
  wait_for_free_slot attempt s = wait_from attempt wait_rounds 0 false s
