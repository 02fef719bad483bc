-- ===== src/KeyManager/Lifecycle.antt =====
-- The life of a key: active, depleted until its cooldown ends, disabled.
use ollama_proxy.Prelude.{
  ℕ, ◌+◌, String, ◌≡◌, ◌≢◌, refl, Option, some, inl, inr, arith, ◌==◌, ==_iff, is_some, All,
  Option-cases, ◌⊎◌,
}
use ollama_proxy.Prelude.Int.{ℤ}
use ollama_proxy.Exec.{Exec, Exception, Result, returned, raised, lookup_error, Result-cases}
use ollama_proxy.Table.{All-update_where, find-update_row}
use ollama_proxy.Models.{ApiKey, depleted, has_status}
use ollama_proxy.KeyManager.{Pool, with_keys}
use ollama_proxy.KeyManager.Records.{
  find_key, set_key, find-set_key, update_key, success, unauthorized, rate_limited, server_error,
  cooldown_end, count_tokens, success_with_usage, record_success, record_success_with_usage,
  record_unauthorized, record_rate_limited, record_server_error,
}

-- The outcomes of an upstream call that the manager is told of, each with its moment.
pub data Event : Type 0 where
  succeeded : ℕ → ℕ → Event
  used : ℕ → ℕ → Option ℤ → Option ℤ → Event
  rejected : ℕ → ℕ → Event
  limited : ℕ → ℕ → ℕ → Event
  failed : ℕ → ℕ → Event

abbrev pub record_event : Event → ℕ → Exec Pool ApiKey
record_event (succeeded now code) key_id = record_success now key_id code
record_event (used now code prompt completion) key_id =
    record_success_with_usage now key_id code prompt completion
record_event (rejected now code) key_id = record_unauthorized now key_id code
record_event (limited now code seconds) key_id = record_rate_limited now key_id code seconds
record_event (failed now code) key_id = record_server_error now key_id code

-- A key is depleted exactly while it has a cooldown to wait for.
abbrev pub IsCoherent : ApiKey → Type 0
IsCoherent key = has_status depleted key ≡ is_some key.cooldown_until

-- The status that an outcome leaves behind.
abbrev pub status_after : Event → String → String
status_after (succeeded now code) status = "active"
status_after (used now code prompt completion) status = "active"
status_after (rejected now code) status = "disabled"
status_after (limited now code seconds) status = "depleted"
status_after (failed now code) status = status

-- The requests and the failures that a row counts after an outcome.
abbrev pub requests_after : Event → ℕ → ℕ
requests_after (succeeded now code) n = n + 1
requests_after (used now code prompt completion) n = n + 1
requests_after ev n = n

abbrev pub failures_after : Event → ℕ → ℕ
failures_after (rejected now code) n = n + 1
failures_after (limited now code seconds) n = n + 1
failures_after (failed now code) n = n + 1
failures_after ev n = n

-- The code of an outcome.
abbrev pub code_of : Event → ℕ
code_of (succeeded now code) = code
code_of (used now code prompt completion) = code
code_of (rejected now code) = code
code_of (limited now code seconds) = code
code_of (failed now code) = code

-- What the write of an outcome does to any row that it reaches.
pub record Effect (ev : Event) (f : ApiKey → ApiKey) : Type 0 where
  pub keeps_id : (r : ApiKey) → (f r).id ≡ r.id
  pub next_status : (r : ApiKey) → (f r).status ≡ status_after ev r.status
  pub requests : (r : ApiKey) → (f r).total_requests ≡ requests_after ev r.total_requests
  pub failures : (r : ApiKey) → (f r).total_failures ≡ failures_after ev r.total_failures
  pub last_code : (r : ApiKey) → (f r).last_status_code ≡ some (code_of ev)
  pub coherent : (r : ApiKey) → IsCoherent r → IsCoherent (f r)

-- An outcome is one more call, of the one kind or of the other.
counts_after : (ev : Event) (n m : ℕ) → requests_after ev n + failures_after ev m ≡ n + m + 1
counts_after (succeeded now code) n m = omega arith
counts_after (used now code prompt completion) n m = omega arith
counts_after (rejected now code) n m = omega arith
counts_after (limited now code seconds) n m = omega arith
counts_after (failed now code) n m = omega arith

pub Effect-counts :
    (ev : Event) (f : ApiKey → ApiKey)
    → Effect ev f
    → (r : ApiKey)
    → (f r).total_requests + (f r).total_failures ≡ r.total_requests + r.total_failures + 1
Effect-counts ev f x r =
    omega (arith, x.requests r, x.failures r, counts_after ev r.total_requests r.total_failures)

success-Effect : (now code : ℕ) → Effect (succeeded now code) (success now code)
unfolding success
success-Effect now code = record {
  keeps_id = λ r. refl;
  next_status = λ r. refl;
  requests = λ r. refl;
  failures = λ r. refl;
  last_code = λ r. refl;
  coherent = λ r h. refl;
}

usage-Effect :
    (now code : ℕ) (prompt completion : Option ℤ) (loaded : ApiKey)
    → Effect (used now code prompt completion) (success_with_usage now code prompt loaded)
unfolding success_with_usage
usage-Effect now code prompt completion loaded = record {
  keeps_id = λ r. refl;
  next_status = λ r. refl;
  requests = λ r. refl;
  failures = λ r. refl;
  last_code = λ r. refl;
  coherent = λ r h. refl;
}

unauthorized-Effect : (now code : ℕ) → Effect (rejected now code) (unauthorized now code)
unfolding unauthorized
unauthorized-Effect now code = record {
  keeps_id = λ r. refl;
  next_status = λ r. refl;
  requests = λ r. refl;
  failures = λ r. refl;
  last_code = λ r. refl;
  coherent = λ r h. refl;
}

rate_limited-Effect :
    (now code seconds until : ℕ) → Effect (limited now code seconds) (rate_limited now code until)
unfolding rate_limited
rate_limited-Effect now code seconds until = record {
  keeps_id = λ r. refl;
  next_status = λ r. refl;
  requests = λ r. refl;
  failures = λ r. refl;
  last_code = λ r. refl;
  coherent = λ r h. refl;
}

server_error-Effect : (now code : ℕ) → Effect (failed now code) (server_error now code)
unfolding server_error
server_error-Effect now code = record {
  keeps_id = λ r. refl;
  next_status = λ r. refl;
  requests = λ r. refl;
  failures = λ r. refl;
  last_code = λ r. refl;
  coherent = λ r h. h;
}

-- A call of a `record_*` method raised and left everything, or wrote one row.
abbrev pub Recorded : Event → ℕ → Pool → Result ApiKey × Pool → Type 0
Recorded ev key_id s r =
    ((e : Exception) × (r ≡ (raised e, s)))
    ⊎ ((key : ApiKey) × (out : ApiKey) × (f : ApiKey → ApiKey) × (find_key key_id s.api_keys
          ≡ some key)
        × (r ≡ (returned out, with_keys s (set_key key_id f s.api_keys)))
        × Effect ev f)

update_key-Recorded :
    (ev : Event) (key_id : ℕ) (f : ApiKey → ApiKey) (s : Pool)
    → Effect ev f
    → Recorded ev key_id s (update_key key_id f s)
unfolding update_key
update_key-Recorded ev key_id f s x = elim (Option-cases (find_key key_id s.api_keys)) [
  | inl e ↦ inl (lookup_error key_id, rw (e, update_key))
  | inr (k, e) ↦ inr (k, f k, f, e, rw (e, update_key), x)
]

limited-Recorded :
    (now code seconds key_id : ℕ) (s : Pool)
    → Recorded (limited now code seconds) key_id s (record_rate_limited now key_id code seconds s)
unfolding record_rate_limited
limited-Recorded now code seconds key_id s = elim (Result-cases (cooldown_end now seconds)) [
  | inl (until, e) ↦
      rw (e, record_rate_limited)
        (update_key-Recorded (limited now code seconds) key_id (rate_limited now code until) s
          (rate_limited-Effect now code seconds until))
  | inr (x, e) ↦ inl (x, rw (e, record_rate_limited))
]

used-Recorded :
    (now code key_id : ℕ) (prompt completion : Option ℤ) (s : Pool)
    → Recorded
        (used now code prompt completion)
        key_id
        s
        (record_success_with_usage now key_id code prompt completion s)
unfolding record_success_with_usage
used-Recorded now code key_id prompt completion s =
    elim (Option-cases (find_key key_id s.api_keys)) [
      | inl e ↦ inl (lookup_error key_id, rw (e, record_success_with_usage))
      | inr (k, e) ↦
          let loaded = count_tokens now prompt completion k in
          inr (
            k,
            loaded,
            success_with_usage now code prompt loaded,
            e,
            rw (e, record_success_with_usage),
            usage-Effect now code prompt completion loaded,
          )
    ]

pub record_event-Recorded :
    (ev : Event) (key_id : ℕ) (s : Pool) → Recorded ev key_id s (record_event ev key_id s)
unfolding record_success record_unauthorized record_server_error
record_event-Recorded (succeeded now code) key_id s =
    update_key-Recorded (succeeded now code) key_id (success now code) s (success-Effect now code)
record_event-Recorded (used now code prompt completion) key_id s =
    used-Recorded now code key_id prompt completion s
record_event-Recorded (rejected now code) key_id s =
    update_key-Recorded (rejected now code) key_id (unauthorized now code) s
      (unauthorized-Effect now code)
record_event-Recorded (limited now code seconds) key_id s =
    limited-Recorded now code seconds key_id s
record_event-Recorded (failed now code) key_id s =
    update_key-Recorded (failed now code) key_id (server_error now code) s
      (server_error-Effect now code)

-- Each outcome that the manager records keeps every key of the table coherent.
pub record_event-IsCoherent :
    (ev : Event) (key_id : ℕ) (s : Pool)
    → All IsCoherent s.api_keys
    → All IsCoherent (record_event ev key_id s).1.api_keys
record_event-IsCoherent ev key_id s h = elim (record_event-Recorded ev key_id s) [
  | inl (e, same) ↦ rw same h
  | inr (k, out, f, found, same, x) ↦
      rw same
        (All-update_where IsCoherent (λ r. r.id == key_id) f s.api_keys (λ r _ c. x.coherent r c) h)
]

-- A method raises and has changed nothing, or it returns, and then the row of its key was there and
-- now has the status of the outcome, its code, and the right count: a success is one more request and
-- no failure, every other outcome is one more failure and no request.
pub record_event-transition :
    (ev : Event) (key_id : ℕ) (s : Pool)
    → ((e : Exception) × (record_event ev key_id s ≡ (raised e, s)))
      ⊎ ((key : ApiKey) × (key' : ApiKey) × (out : ApiKey) × ((record_event ev key_id s).0
            ≡ returned out)
          × (find_key key_id s.api_keys ≡ some key)
          × (find_key key_id (record_event ev key_id s).1.api_keys ≡ some key')
          × (key'.status ≡ status_after ev key.status)
          × (key'.last_status_code ≡ some (code_of ev))
          × (key'.total_requests ≡ requests_after ev key.total_requests)
          × (key'.total_failures ≡ failures_after ev key.total_failures))
record_event-transition ev key_id s = elim (record_event-Recorded ev key_id s) [
  | inl (e, same) ↦ inl (e, same)
  | inr (k, out, f, found, same, x) ↦ inr (
    k,
    f k,
    out,
    rw same refl,
    found,
    rw same (find-set_key key_id f s.api_keys k x.keeps_id found),
    x.next_status k,
    x.last_code k,
    x.requests k,
    x.failures k,
  )
]

-- No outcome touches the reservations.
pub manager-record_event :
    (ev : Event) (key_id : ℕ) (s : Pool) → (record_event ev key_id s).1.manager ≡ s.manager
manager-record_event ev key_id s = elim (record_event-Recorded ev key_id s) [
  | inl (e, same) ↦ rw same
  | inr (k, out, f, found, same, x) ↦ rw same
]

-- The outcome of one key's call leaves the rows of the other keys, the user tokens and the
-- reservations as they were.
pub record_event-frame :
    (ev : Event) (key_id j : ℕ) (s : Pool)
    → j ≢ key_id
    → (find_key j (record_event ev key_id s).1.api_keys ≡ find_key j s.api_keys)
      × ((record_event ev key_id s).1.user_tokens ≡ s.user_tokens)
      × ((record_event ev key_id s).1.manager ≡ s.manager)
record_event-frame ev key_id j s ne = elim (record_event-Recorded ev key_id s) [
  | inl (e, same) ↦ rw same (refl, refl, refl)
  | inr (k, out, f, found, same, x) ↦ rw same (
    ground (
      arith,
      find-update_row (λ (r : ApiKey). r.id) key_id f s.api_keys x.keeps_id j,
      ==_iff j key_id,
    ),
    refl,
    refl,
  )
]
