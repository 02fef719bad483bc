-- ===== src/KeyManager/Records.antt =====
-- The `record_*` methods: how the outcome of an upstream call changes the row of its key.
use ollama_proxy.Prelude.{
  ℕ, zero, suc, ◌+◌, ◌*◌, ◌≡◌, Bool, true, false, Option, none, some, List, arith, leb,
  if◌then◌else◌, max,
}
use ollama_proxy.Prelude.Int.{ℤ, pos, negsuc}
use ollama_proxy.Clock.{Datetime, aware, wall, second, hours, days, max_datetime, ensure_aware}
use ollama_proxy.Exec.{Exec, Result, returned, raised, lookup_error, overflow_error}
use ollama_proxy.Table
use ollama_proxy.Models.{ApiKey, active, depleted, disabled, value}
use ollama_proxy.KeyManager.{Pool, with_keys}

abbrev pub find_key : ℕ → List ApiKey → Option ApiKey
find_key = Table.find (λ k. k.id)

abbrev pub set_key : ℕ → (ApiKey → ApiKey) → List ApiKey → List ApiKey
set_key = Table.update_row (λ k. k.id)

-- A write by id reaches the row that a read by id finds.
pub find-set_key :
    (key_id : ℕ) (f : ApiKey → ApiKey) (rows : List ApiKey) (key : ApiKey)
    → ((r : ApiKey) → (f r).id ≡ r.id)
    → find_key key_id rows ≡ some key
    → find_key key_id (set_key key_id f rows) ≡ some (f key)
find-set_key key_id f rows key keeps e =
    ground (arith, Table.find-update_row (λ k. k.id) key_id f rows keeps key_id)

-- `_update_key`: the row is loaded, its attributes are set, and it is written back and refreshed.
unfoldable pub update_key : ℕ → (ApiKey → ApiKey) → Exec Pool ApiKey
update_key key_id f s = elim (find_key key_id s.api_keys) [
  | none ↦ (raised (lookup_error key_id), s)
  | some key ↦ (returned (f key), with_keys s (set_key key_id f s.api_keys))
]

unfoldable pub success : ℕ → ℕ → ApiKey → ApiKey
success now code key = record key {
  status = value active;
  last_used_at = some (aware now);
  last_status_code = some code;
  cooldown_until = none;
  total_requests = key.total_requests + 1;
  updated_at = aware now;
}

unfoldable pub unauthorized : ℕ → ℕ → ApiKey → ApiKey
unauthorized now code key = record key {
  status = value disabled;
  last_status_code = some code;
  cooldown_until = none;
  total_failures = key.total_failures + 1;
  updated_at = aware now;
}

unfoldable pub rate_limited : ℕ → ℕ → ℕ → ApiKey → ApiKey
rate_limited now code until key = record key {
  status = value depleted;
  last_status_code = some code;
  cooldown_until = some (aware until);
  total_failures = key.total_failures + 1;
  updated_at = aware now;
}

unfoldable pub server_error : ℕ → ℕ → ApiKey → ApiKey
server_error now code key = record key {
  last_status_code = some code;
  total_failures = key.total_failures + 1;
  updated_at = aware now;
}

unfoldable pub record_success : ℕ → ℕ → ℕ → Exec Pool ApiKey
unfolding update_key
record_success now key_id code = update_key key_id (success now code)

unfoldable pub record_unauthorized : ℕ → ℕ → ℕ → Exec Pool ApiKey
unfolding update_key
record_unauthorized now key_id code = update_key key_id (unauthorized now code)

-- `now + timedelta(seconds=max(1, retry_after_seconds))`
unfoldable pub cooldown_end : ℕ → ℕ → Result ℕ
cooldown_end now seconds =
    let end = now + max 1 seconds * second in
    if leb end max_datetime then returned end else raised overflow_error

unfoldable pub record_rate_limited : ℕ → ℕ → ℕ → ℕ → Exec Pool ApiKey
unfolding update_key cooldown_end
record_rate_limited now key_id code seconds s = elim (cooldown_end now seconds) [
  | raised e ↦ (raised e, s)
  | returned until ↦ update_key key_id (rate_limited now code until) s
]

unfoldable pub record_server_error : ℕ → ℕ → ℕ → Exec Pool ApiKey
unfolding update_key
record_server_error now key_id code = update_key key_id (server_error now code)

-- `started is None or (now - started) >= window`
unfoldable pub window_over : ℕ → ℕ → Option Datetime → Bool
unfolding ensure_aware
window_over window now started = elim (ensure_aware started) [
  | none ↦ true
  | some t ↦ leb (wall t + window) now
]

unfoldable pub roll_session : ℕ → ApiKey → ApiKey
unfolding window_over
roll_session now key =
    if window_over (hours 24) now key.session_window_started_at
    then record key {
      session_window_started_at = some (aware now);
      session_prompt_tokens = 0;
      session_completion_tokens = 0;
    }
    else key

unfoldable pub roll_weekly : ℕ → ApiKey → ApiKey
unfolding window_over
roll_weekly now key =
    if window_over (days 7) now key.weekly_window_started_at
    then record key {
      weekly_window_started_at = some (aware now);
      weekly_prompt_tokens = 0;
      weekly_completion_tokens = 0;
    }
    else key

-- `completion_tokens is not None and completion_tokens > 0`
abbrev pub add_completion : Option ℤ → ApiKey → ApiKey
add_completion (some (pos (suc m))) key = record key {
  session_completion_tokens = key.session_completion_tokens + suc m;
  weekly_completion_tokens = key.weekly_completion_tokens + suc m;
}
add_completion _ key = key

abbrev pub add_prompt : ℕ → ApiKey → ApiKey
add_prompt n key = record key {
  session_prompt_tokens = key.session_prompt_tokens + n;
  weekly_prompt_tokens = key.weekly_prompt_tokens + n;
}

abbrev pub stamp_tokens : ℕ → ApiKey → ApiKey
stamp_tokens now key = record key { last_token_at = some (aware now) }

-- What happens to the loaded object before the UPDATE: only a positive prompt count matters.
unfoldable pub count_tokens : ℕ → Option ℤ → Option ℤ → ApiKey → ApiKey
unfolding roll_session roll_weekly
count_tokens now (some (pos (suc n))) completion key =
    stamp_tokens now
      (add_completion completion (add_prompt (suc n) (roll_weekly now (roll_session now key))))
count_tokens now _ completion key = key

-- `if prompt_tokens`
abbrev pub truthy : Option ℤ → Bool
truthy none = false
truthy (some (pos zero)) = false
truthy (some (pos (suc n))) = true
truthy (some (negsuc n)) = true

-- The one UPDATE: the counters of the loaded object, and the columns as they stand.
unfoldable pub success_with_usage : ℕ → ℕ → Option ℤ → ApiKey → ApiKey → ApiKey
success_with_usage now code prompt loaded row = record row {
  status = value active;
  last_used_at = some (aware now);
  last_status_code = some code;
  cooldown_until = none;
  total_requests = row.total_requests + 1;
  updated_at = aware now;
  session_window_started_at =
      if truthy prompt then loaded.session_window_started_at else row.session_window_started_at;
  session_prompt_tokens = loaded.session_prompt_tokens;
  session_completion_tokens = loaded.session_completion_tokens;
  weekly_window_started_at =
      if truthy prompt then loaded.weekly_window_started_at else row.weekly_window_started_at;
  weekly_prompt_tokens = loaded.weekly_prompt_tokens;
  weekly_completion_tokens = loaded.weekly_completion_tokens;
  last_token_at = if truthy prompt then loaded.last_token_at else row.last_token_at;
}

unfoldable pub record_success_with_usage : ℕ → ℕ → ℕ → Option ℤ → Option ℤ → Exec Pool ApiKey
unfolding count_tokens success_with_usage
record_success_with_usage now key_id code prompt completion s = elim (find_key key_id s.api_keys) [
  | none ↦ (raised (lookup_error key_id), s)
  | some key ↦
      let loaded = count_tokens now prompt completion key in
      (
        returned loaded,
        with_keys s (set_key key_id (success_with_usage now code prompt loaded) s.api_keys),
      )
]
