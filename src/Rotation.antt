-- ===== src/Rotation.antt =====
-- app/services/rotation.py: one request tried with one key after another.
-- The request runs among others: what they do to the database and to the reservations while this
-- one waits comes with its environment, and so do the clocks and the upstream's answers.
pub mod Replies
pub mod Attempt
pub mod Dispatch
pub mod Loop
pub mod Bounds
pub mod Coherence
pub mod Final
pub mod Answers
pub mod Reservations
pub mod Waiting
pub mod Tests
use Prim.Native.String.{◌++◌}
use ollama_proxy.Prelude.{
  ℕ, zero, suc, ◌+◌, ◌*◌, String, Bool, true, false, ◌&&◌, ◌||◌, Option, none, some, List, [], ◌∷◌,
  ◌==◌, ltb, leb, str_eq, if◌then◌else◌, max, length, is_some,
}
use ollama_proxy.Prelude.Int.{ℤ}
use ollama_proxy.Clock.{second}
use ollama_proxy.Exec.{
  Exec, Exception, Result, returned, raised, vault_decrypt_error, transport_error, runtime_error,
  pure, lift, raise, ◌>>=◌, ◌>>◌,
}
use ollama_proxy.Models.{ApiKey, value, active}
use ollama_proxy.Vault.{Vault, safe_decrypt}
use ollama_proxy.OllamaClient.{UpstreamResponse, HttpRequest, HttpResult, chat_completion}
use ollama_proxy.KeyManager.{
  Pool, pick_next_key, release, in_flight_count, count_by_status, get_count,
}
use ollama_proxy.KeyManager.RetryAfter.{HeaderValue, httpx_headers, extract_retry_after}
use ollama_proxy.KeyManager.Records.{
  record_success, record_success_with_usage, record_unauthorized, record_rate_limited,
  record_server_error,
}
use Replies.{Response, json_error, build_success_response, Usage, parse_usage_from_response}
use Attempt.{Env, Body, DispatchOutcome, dispatch_one, wait_for_free_slot}

-- The flags of the loop. `all_disabled` is set before it and never again.
pub record Flags : Type 0 where
  pub all_404 : Bool
  pub any_attempt : Bool

abbrev pub first_flags : Flags
first_flags = record { all_404 = true; any_attempt = false }

-- A loop that was left by `return` has its answer; one that ran out or broke has its flags.
pub data LoopEnd : Type 0 where
  answer : Response → LoopEnd
  left_with : Flags → LoopEnd

-- The body of the loop behind `any_attempt = True` and the `finally`; `next` is `continue`.
abbrev pub conclude :
    (Flags → Exec Pool LoopEnd) → Flags → Bool → Result DispatchOutcome → Exec Pool LoopEnd
conclude next flags stream (raised e) = raise e
conclude next flags stream (returned outcome) =
    if outcome.rotate
    then next (record { all_404 = flags.all_404 && outcome.all_404_hint; any_attempt = true })
    else elim outcome.terminal [
      | some response ↦ pure (answer response)
      | none ↦ elim outcome.response [
        | some response ↦ pure (answer (build_success_response response stream))
        | none ↦ raise runtime_error
      ]
    ]

-- `requested_model` as a condition.
abbrev pub names_model : Option String → Bool
names_model none = false
names_model (some model) = if str_eq model "" then false else true

abbrev pub model_text : Option String → String
model_text none = "None"
model_text (some model) = model

-- The answer after the loop.
unfoldable pub give_up : ℕ → Body → Flags → Response
unfolding json_error
give_up initial_count body flags =
    if flags.any_attempt
    then if flags.all_404 && names_model body.model
      then json_error 404
          ("model '" ++ model_text body.model ++ "' is not available for any active key")
      else json_error 503 "all backends failed"
    else if initial_count == 0
    then json_error 503 "no active keys configured"
    else json_error 503 "all backends busy, retry shortly"

module _ (env : Env) (body : Body) (initial_count : ℕ) where
  -- One round from its pick on; `next` is the rest of the loop.
  unfoldable pub round :
      ℕ → (Flags → Exec Pool LoopEnd) → Flags → Option ApiKey × Pool → Result LoopEnd × Pool
  round attempt next flags (none, s) =
      if initial_count == 0
      then (returned (left_with flags), s)
      else (let (free, s') = wait_for_free_slot env attempt s in
          if free then next flags s' else (returned (left_with flags), s'))
  round attempt next flags (some key, s) =
      let (outcome, s') = dispatch_one env attempt key body.stream s in
      conclude next flags body.stream outcome (release key.id s')

  -- `for _attempt in range(max_iter)`, with the rounds that are left.
  unfoldable pub rotate_from : ℕ → ℕ → Flags → Exec Pool LoopEnd
  rotate_from zero attempt flags s = (returned (left_with flags), s)
  rotate_from (suc left) attempt flags s =
      round attempt (rotate_from left (attempt + 1)) flags
        (pick_next_key (env.pick_at attempt) (env.others attempt s))

abbrev pub answer_of : ℕ → Body → Result LoopEnd → Result Response
answer_of initial_count body (returned (answer response)) = returned response
answer_of initial_count body (returned (left_with flags)) =
    returned (give_up initial_count body flags)
answer_of initial_count body (raised e) = raised e

unfoldable pub count_active : Pool → ℕ
count_active s = get_count (value active) (count_by_status s.api_keys)

unfoldable pub max_iter : Env → Pool → ℕ
unfolding count_active
max_iter env s = max 1 (count_active s) + env.safety_margin

unfoldable pub execute_with_rotation : Env → Body → Exec Pool Response
execute_with_rotation env body s =
    let (result, s') = rotate_from env body (count_active s) (max_iter env s) 0 first_flags s in
    (answer_of (count_active s) body result, s')
