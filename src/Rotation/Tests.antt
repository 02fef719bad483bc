-- ===== src/Rotation/Tests.antt =====
-- The rotation at a concrete request: two keys, a 429 and then a 200.
use ollama_proxy.Prelude.{
  ℕ, zero, suc, ◌+◌, ◌*◌, ◌≤◌, ◌<◌, ◌≡◌, refl, ◌⊎◌, false, none, some, [], ◌∷◌, arith, ltb, max,
}
use ollama_proxy.Prelude.Int.{pos}
use ollama_proxy.Python.{finite}
use ollama_proxy.Exec.{returned}
use ollama_proxy.Vault.{Fernet, safe_decrypt}
use ollama_proxy.OllamaClient.{UpstreamResponse, HttpRequest, HttpResult, answered, chat_completion}
use ollama_proxy.Table.{order_by_id, update_where, find}
use ollama_proxy.KeyManager.{Pool, pick_next_key, release, count_by_status, get_count}
use ollama_proxy.KeyManager.RetryAfter.{number, extract_retry_after}
use ollama_proxy.KeyManager.Records.{
  record_success, record_success_with_usage, record_rate_limited, rate_limited,
}
use ollama_proxy.KeyManager.Calls.{calls_on_record}
use ollama_proxy.KeyManager.Tests.{sample_key, sample_pool}
use ollama_proxy.Rotation.Attempt.{
  Env, Body, wait_from, wait_for_free_slot, wait_rounds, saturation_wait_total, saturation_backoff,
  dispatch_one, classify_answer,
}
use ollama_proxy.Rotation.{execute_with_rotation, max_iter, count_active, rotate_from, round}
use ollama_proxy.Rotation.Replies.{
  Response, build_success_response, blocked, parse_usage_from_response,
}
use ollama_proxy.Rotation.Reservations.{in_flight-execute}
use ollama_proxy.Rotation.Bounds.{calls-execute}
use ollama_proxy.Rotation.Final.{Passed}
use ollama_proxy.Rotation.Answers.{Own, execute-Passed}
use ollama_proxy.Rotation.Waiting.{SleepsThrough, wait_for_free_slot_ends, wait_for_free_slot-eq}

abbrev pub plain_fernet : Fernet
plain_fernet = record { seal = λ raw. raw; open_seal = λ blob. some blob }

abbrev good_answer : UpstreamResponse
good_answer = record {
  status_code = 200;
  headers = ("Server", "nginx") ∷ ("X-Request-Id", "7") ∷ [];
  payload = none;
  content = "ok";
}

abbrev busy_answer : UpstreamResponse
busy_answer = record {
  status_code = 429;
  headers = ("Retry-After", "30") ∷ [];
  payload = none;
  content = "";
}

abbrev answers : ℕ → HttpRequest → HttpResult
answers zero req = answered busy_answer
answers (suc i) req = answered good_answer

abbrev pub env : Env
env = record {
  vault = record { fernet = some plain_fernet };
  base_url = "https://ollama.com";
  safety_margin = 1;
  post = answers;
  float_text = λ text. number (finite (pos 30) 0);
  pick_at = λ i. i;
  record_at = λ i. i;
  others = λ i s. s;
  meanwhile = λ i s. s;
  polls = λ i k s. s;
  wait_start = λ i. 0;
  monotonic = λ i k. k * saturation_backoff;
}

abbrev pub body : Body
body = record { stream = false; model = some "m" }

abbrev pub pool : Pool
pool = sample_pool (sample_key 1 "active" ∷ sample_key 2 "active" ∷ [])

abbrev final_response : Response
final_response = record {
  status_code = 200;
  media_type = "application/json";
  headers = ("X-Request-Id", "7") ∷ [];
  content = ollama_proxy.Rotation.Replies.Content.body "ok";
}

second_key_answers : (execute_with_rotation env body pool).0 ≡ returned final_response
unfolding execute_with_rotation count_active max_iter count_by_status get_count rotate_from round
    pick_next_key dispatch_one safe_decrypt chat_completion classify_answer extract_retry_after
    record_rate_limited record_success_with_usage record_success release build_success_response
    order_by_id update_where find parse_usage_from_response rate_limited
second_key_answers = refl

execute-Passed_example :
    ((i : ℕ) × (i < max_iter env pool) × Passed env false i final_response) ⊎ Own final_response
execute-Passed_example = execute-Passed env body pool final_response second_key_answers

in_flight-execute_example : (execute_with_rotation env body pool).1.in_flight ≡ []
in_flight-execute_example =
    in_flight-execute env body
      (record { others = λ i s. refl; meanwhile = λ i s. refl; polls = λ i k s. refl }) pool

calls-execute_example :
    calls_on_record (execute_with_rotation env body pool).1.api_keys
    ≤ calls_on_record pool.api_keys + (max 1 (count_active pool) + 1)
calls-execute_example =
    calls-execute env body
      (record { others = λ i s. refl; meanwhile = λ i s. refl; polls = λ i k s. refl }) pool
      (refl, (refl, tt))

sleeps : SleepsThrough env 0
sleeps = (omega arith, λ k. omega arith)

wait_for_free_slot_ends_example :
    wait_from env 0 (wait_rounds + 5) 0 false pool ≡ wait_for_free_slot env 0 pool
wait_for_free_slot_ends_example = wait_for_free_slot_ends env 0 5 pool sleeps

wait_for_free_slot-eq_example :
    (wait_for_free_slot env 0 pool).0 ≡ ltb 0 (0 + saturation_wait_total)
wait_for_free_slot-eq_example = wait_for_free_slot-eq env 0 pool
