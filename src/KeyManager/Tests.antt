-- ===== src/KeyManager/Tests.antt =====
-- The key manager at concrete inputs.
use ollama_proxy.Prelude.{
  ℕ, ◌+◌, String, ◌≡◌, refl, ◌⊎◌, false, none, some, List, [], ◌∷◌, arith, All, contains, count,
  inl,
}
use ollama_proxy.Clock.{aware, naive, hours}
use ollama_proxy.Exec.{Exception, returned, raised}
use ollama_proxy.Table.{find, order_by_id}
use ollama_proxy.Models.{ApiKey, active, value}
use ollama_proxy.Python.{finite}
use ollama_proxy.Prelude.Int.{pos}
use ollama_proxy.KeyManager.{Pool, new_manager, pick_next_key, cooled_down}
use ollama_proxy.KeyManager.Pick.{candidates, pick-active, pick-Picked, Picked, pool_at_pick}
use ollama_proxy.KeyManager.InFlight.{System, IsExclusive, here, next, picks, Reach-IsExclusive}
use ollama_proxy.KeyManager.RetryAfter.{
  Headers, httpx_headers, HeaderValue, number, extract_retry_after, lower_is, lower, same_codes,
}
use ollama_proxy.KeyManager.RetryAfter.Sole.{Names, extract_retry_after-Asked}
use ollama_proxy.KeyManager.Records.{find_key}
use ollama_proxy.KeyManager.Windows.{
  Call, IsAccounted, record_calls, record_calls-IsAccounted, recorded,
}
use ollama_proxy.KeyManager.Revival.{pick-IsCoherent}
use ollama_proxy.KeyManager.Lifecycle.{
  IsCoherent, record_event, limited, succeeded, record_event-IsCoherent, record_event-transition,
}

abbrev pub sample_key : ℕ → String → ApiKey
sample_key n status = record {
  id = n;
  key_hash = "h";
  key_prefix = "abcdefgh";
  key_encrypted = "blob";
  label = none;
  status = status;
  last_used_at = none;
  last_status_code = none;
  cooldown_until = none;
  total_requests = 0;
  total_failures = 0;
  created_at = aware 0;
  updated_at = aware 0;
  account_email = none;
  account_name = none;
  account_plan = none;
  account_id = none;
  last_usage_fetch_at = none;
  last_usage_session = none;
  last_usage_weekly = none;
  last_usage_models_json = none;
  last_usage_session_fraction = none;
  last_usage_weekly_fraction = none;
  session_prompt_tokens = 0;
  session_completion_tokens = 0;
  session_window_started_at = none;
  weekly_prompt_tokens = 0;
  weekly_completion_tokens = 0;
  weekly_window_started_at = none;
  last_token_at = none;
}

abbrev pub waiting_key : ℕ → ℕ → ApiKey
waiting_key n t = record (sample_key n "depleted") { cooldown_until = some (naive t) }

abbrev pub sample_pool : List ApiKey → Pool
sample_pool rows = record {
  db = record { api_keys = rows; user_tokens = [] };
  manager = new_manager;
}

abbrev two_keys : Pool
two_keys = sample_pool (sample_key 1 "active" ∷ sample_key 2 "active" ∷ [])

abbrev after_two : Pool
after_two = record two_keys { manager = record { next_idx = 1; in_flight = 1 ∷ [] } }

pick_first : pick_next_key 5 two_keys ≡ (some (sample_key 1 "active"), after_two)
unfolding pick_next_key order_by_id
pick_first = refl

pick-active_example :
    ("active" ≡ value active) × (contains 1 [] ≡ false) × (after_two.in_flight ≡ 1 ∷ [])
pick-active_example = pick-active 5 two_keys (sample_key 1 "active") after_two pick_first

pick-Picked_example :
    Picked (candidates 5 two_keys) (pool_at_pick 5 two_keys) (pick_next_key 5 two_keys)
pick-Picked_example = pick-Picked 5 two_keys

abbrev idle : System
idle = record { pool = two_keys; holders = [] }

abbrev one_out : System
one_out = record { pool = after_two; holders = 1 ∷ [] }

Reach-IsExclusive_example : IsExclusive one_out
Reach-IsExclusive_example =
    Reach-IsExclusive {u = idle} (record { same = refl; distinct = tt })
      (next here (picks 5 (sample_key 1 "active") after_two one_out pick_first refl))

abbrev cooling : Pool
cooling = sample_pool (waiting_key 1 100 ∷ waiting_key 2 900 ∷ sample_key 3 "disabled" ∷ [])

reactivate_one : count (cooled_down 100) cooling.api_keys ≡ 1
unfolding cooled_down
reactivate_one = refl

abbrev retry_entries : List (String × HeaderValue)
retry_entries =
    ("Content-Type", HeaderValue.not_a_number) ∷ ("Retry-After", number (finite (pos 30) 0)) ∷ []

abbrev retry_30 : Headers
retry_30 = httpx_headers retry_entries

retry_30_runs : extract_retry_after retry_30 ≡ returned 30
unfolding extract_retry_after
retry_30_runs = refl

retry_named : Names retry_entries (some (number (finite (pos 30) 0)))
unfolding lower_is lower same_codes
retry_named =
    (("Content-Type", HeaderValue.not_a_number) ∷ [], [], "Retry-After", refl, (refl, tt), refl, tt)

extract_retry_after-Asked_example : extract_retry_after retry_30 ≡ returned 30
extract_retry_after-Asked_example =
    extract_retry_after-Asked retry_30 retry_entries (some (number (finite (pos 30) 0))) (inl refl)
      retry_named

abbrev calls : List Call
calls =
    record { now = 10; code = 200; prompt = some (pos 4); completion = some (pos 3) }
    ∷ record { now = 20; code = 200; prompt = none; completion = some (pos 9) }
    ∷ record { now = hours 25; code = 201; prompt = some (pos 6); completion = none }
    ∷ []

record_calls-IsAccounted_example :
    (key' : ApiKey) × (find_key 1 (record_calls 1 calls two_keys).api_keys ≡ some key')
    × IsAccounted (hours 25) (recorded calls []) key'
unfolding find
record_calls-IsAccounted_example =
    record_calls-IsAccounted calls 1 0 [] two_keys (sample_key 1 "active") (omega arith) refl
      (record {
        session = refl;
        session_completion = refl;
        weekly = refl;
        weekly_completion = refl;
      })

record_event-IsCoherent_example :
    All IsCoherent (record_event (limited 5 429 30) 2 two_keys).1.api_keys
record_event-IsCoherent_example =
    record_event-IsCoherent (limited 5 429 30) 2 two_keys (refl, (refl, tt))

record_event-transition_example :
    ((e : Exception) × (record_event (succeeded 5 200) 1 two_keys ≡ (raised e, two_keys)))
    ⊎ ((key : ApiKey) × (key' : ApiKey) × (out : ApiKey) × ((record_event
            (succeeded 5 200)
            1
            two_keys).0
          ≡ returned out)
        × (find_key 1 two_keys.api_keys ≡ some key)
        × (find_key 1 (record_event (succeeded 5 200) 1 two_keys).1.api_keys ≡ some key')
        × (key'.status ≡ "active")
        × (key'.last_status_code ≡ some 200)
        × (key'.total_requests ≡ key.total_requests + 1)
        × (key'.total_failures ≡ key.total_failures))
record_event-transition_example = record_event-transition (succeeded 5 200) 1 two_keys

pick-IsCoherent_example : All IsCoherent (pick_next_key 100 cooling).1.api_keys
pick-IsCoherent_example = pick-IsCoherent 100 cooling (refl, (refl, (refl, tt)))
