-- ===== src/KeyManager/Windows.antt =====
-- The two token windows that `record_success_with_usage` keeps, against the history of calls.
use ollama_proxy.Prelude.{
  ℕ, zero, suc, Bool, true, false, ◌+◌, ◌≤◌, ◌<◌, ◌≡◌, refl, Option, none, some, List, [], ◌∷◌, inl,
  inr, arith, leb, if◌then◌else◌, Bool-cases, All,
}
use ollama_proxy.Prelude.Int.{ℤ, pos, negsuc}
use ollama_proxy.Clock.{Datetime, naive, aware, wall, hours, days, ensure_aware}
use ollama_proxy.Models.{ApiKey}
use ollama_proxy.KeyManager.{Pool}
use ollama_proxy.KeyManager.Records.{
  find_key, find-set_key, window_over, roll_session, roll_weekly, count_tokens, success_with_usage,
  record_success_with_usage, truthy,
}

-- The tokens of one kind that came so far, the latest first, each with its moment.
abbrev pub Counts : Type 0
Counts = List (ℕ × ℕ)

abbrev pub sum_since : ℕ → Counts → ℕ
sum_since t [] = 0
sum_since t ((u, n) ∷ h) = (if leb t u then n else 0) + sum_since t h

-- The counter holds the tokens of exactly the calls since the window's start, and no call so far
-- came a whole window after that start.
abbrev pub Tracks : ℕ → ℕ → Counts → Option Datetime → ℕ → Type 0
Tracks window now h none tokens = h ≡ []
Tracks window now h (some d) tokens =
    (wall d ≤ now) × All (λ e. e.0 < wall d + window) h × (tokens ≡ sum_since (wall d) h)

-- Calls that all came before t count for nothing from t on.
sum_since_late : (t u : ℕ) (h : Counts) → u ≤ t → All (λ e. e.0 < u) h → sum_since t h ≡ 0
sum_since_late t u [] le a = refl
sum_since_late t u ((v, n) ∷ h) le a = ground (arith, sum_since_late t u h le a.1, a.0)

abbrev rolled_start : ℕ → ℕ → Option Datetime → Option Datetime
rolled_start window now started =
    if window_over window now started then some (aware now) else started

abbrev rolled_tokens : ℕ → ℕ → Option Datetime → ℕ → ℕ
rolled_tokens window now started tokens = if window_over window now started then 0 else tokens

window_over-some :
    (window now : ℕ) (d : Datetime) → window_over window now (some d) ≡ leb (wall d + window) now
unfolding window_over ensure_aware
window_over-some window now (naive t) = refl
window_over-some window now (aware t) = refl

All-later : (t u : ℕ) (h : Counts) → t ≤ u → All (λ e. e.0 < t) h → All (λ e. e.0 < u) h
All-later t u [] le a = tt
All-later t u (e ∷ h) le a = (omega arith, All-later t u h le a.1)

-- A call at `now` keeps the books of its window, whether the window goes on or starts anew.
Tracks-roll :
    (window before now n : ℕ) (h : Counts) (started : Option Datetime) (tokens : ℕ)
    → 0 < window
    → before ≤ now
    → Tracks window before h started tokens
    → Tracks window now
        ((now, n) ∷ h)
        (rolled_start window now started)
        (rolled_tokens window now started tokens + n)
unfolding window_over ensure_aware
Tracks-roll window before now n h none tokens w le t =
    rw t (omega arith, (omega arith, tt), ground arith)
Tracks-roll window before now n h (some d) tokens w le (s, a, e) =
    elim (Bool-cases (window_over window now (some d))) [
      | inl over ↦
          let past : wall d + window ≤ now = ground (arith, window_over-some window now d) in
          rw over (
            omega arith,
            (omega arith, All-later (wall d + window) (now + window) h (omega arith) a),
            ground (arith, sum_since_late now (wall d + window) h),
          )
      | inr within ↦
          let inside : now < wall d + window = ground (arith, window_over-some window now d) in
          rw within (omega arith, (inside, a), ground arith)
    ]

-- Time goes on without a call that counts.
Tracks-wait :
    (window before now : ℕ) (h : Counts) (started : Option Datetime) (tokens : ℕ)
    → before ≤ now
    → Tracks window before h started tokens
    → Tracks window now h started tokens
Tracks-wait window before now h none tokens le t = t
Tracks-wait window before now h (some d) tokens le (s, a, e) = (omega arith, a, e)

-- The calls so far that counted, the latest first: the moment, the prompt tokens, the completion tokens.
abbrev pub History : Type 0
History = List (ℕ × ℕ × ℕ)

abbrev pub prompts : History → Counts
prompts [] = []
prompts ((t, p, c) ∷ h) = (t, p) ∷ prompts h

abbrev pub completions : History → Counts
completions [] = []
completions ((t, p, c) ∷ h) = (t, c) ∷ completions h

-- A call that the manager is told of: its moment, its code, and the numbers of tokens, if known.
pub record Call : Type 0 where
  pub now : ℕ
  pub code : ℕ
  pub prompt : Option ℤ
  pub completion : Option ℤ

-- A number of tokens, where it is known and not negative.
abbrev pub known : Option ℤ → ℕ
known (some (pos n)) = n
known _ = 0

-- A call counts if its number of prompt tokens is positive.
abbrev pub enter_counts : ℕ → ℕ → ℕ → History → History
enter_counts now zero c h = h
enter_counts now (suc p) c h = (now, suc p, c) ∷ h

abbrev pub enter : Call → History → History
enter call = enter_counts call.now (known call.prompt) (known call.completion)

-- The row after a call, from the row before.
abbrev after : Call → ApiKey → ApiKey
after call key =
    success_with_usage call.now call.code call.prompt
      (count_tokens call.now call.prompt call.completion key) key

-- The four counters and the two windows of a row, by the moment of its last call.
pub record IsAccounted (now : ℕ) (h : History) (key : ApiKey) : Type 0 where
  pub session :
      Tracks (hours 24) now (prompts h) key.session_window_started_at key.session_prompt_tokens
  pub session_completion :
      Tracks
        (hours 24)
        now
        (completions h)
        key.session_window_started_at
        key.session_completion_tokens
  pub weekly : Tracks (days 7) now (prompts h) key.weekly_window_started_at key.weekly_prompt_tokens
  pub weekly_completion :
      Tracks (days 7) now (completions h) key.weekly_window_started_at key.weekly_completion_tokens

-- What a call that counts makes of the windows and the counters.
abbrev Rolled : ℕ → ℕ → ℕ → ApiKey → ApiKey → Type 0
Rolled now p c key key' =
    (key'.session_window_started_at ≡ rolled_start (hours 24) now key.session_window_started_at)
    × (key'.session_prompt_tokens
        ≡ rolled_tokens (hours 24) now key.session_window_started_at key.session_prompt_tokens + p)
    × (key'.session_completion_tokens
        ≡ rolled_tokens (hours 24) now key.session_window_started_at key.session_completion_tokens
          + c)
    × (key'.weekly_window_started_at ≡ rolled_start (days 7) now key.weekly_window_started_at)
    × (key'.weekly_prompt_tokens
        ≡ rolled_tokens (days 7) now key.weekly_window_started_at key.weekly_prompt_tokens + p)
    × (key'.weekly_completion_tokens
        ≡ rolled_tokens (days 7) now key.weekly_window_started_at key.weekly_completion_tokens + c)

after-Rolled :
    (now code n : ℕ) (completion : Option ℤ) (key : ApiKey)
    → Rolled now (suc n) (known completion) key (
        success_with_usage now code
          (some (pos (suc n)))
          (count_tokens now (some (pos (suc n))) completion key)
          key)
unfolding success_with_usage count_tokens roll_session roll_weekly
after-Rolled now code n none key = ground arith
after-Rolled now code n (some (pos zero)) key = ground arith
after-Rolled now code n (some (pos (suc m))) key = ground arith
after-Rolled now code n (some (negsuc m)) key = ground arith

Rolled-IsAccounted :
    (before now p c : ℕ) (h : History) (key key' : ApiKey)
    → before ≤ now
    → IsAccounted before h key
    → Rolled now p c key key'
    → IsAccounted now ((now, p, c) ∷ h) key'
Rolled-IsAccounted before now p c h key key' le x (start, tokens, comps, start', tokens', comps') =
    record {
      session =
          rw (start, tokens)
            (Tracks-roll (hours 24) before now p (prompts h) key.session_window_started_at
              key.session_prompt_tokens (omega arith) le x.session);
      session_completion =
          rw (start, comps)
            (Tracks-roll (hours 24) before now c (completions h) key.session_window_started_at
              key.session_completion_tokens (omega arith) le x.session_completion);
      weekly =
          rw (start', tokens')
            (Tracks-roll (days 7) before now p (prompts h) key.weekly_window_started_at
              key.weekly_prompt_tokens (omega arith) le x.weekly);
      weekly_completion =
          rw (start', comps')
            (Tracks-roll (days 7) before now c (completions h) key.weekly_window_started_at
              key.weekly_completion_tokens (omega arith) le x.weekly_completion);
    }

-- A call without prompt tokens leaves the books as they were.
idle-IsAccounted :
    (before now code : ℕ) (prompt : Option ℤ) (h : History) (key : ApiKey)
    → before ≤ now
    → IsAccounted before h key
    → IsAccounted now h (success_with_usage now code prompt key key)
unfolding success_with_usage
idle-IsAccounted before now code prompt h key le x = record {
  session = rw (unless_same (truthy prompt) key.session_window_started_at) (
      Tracks-wait (hours 24) before now (prompts h) key.session_window_started_at
        key.session_prompt_tokens le x.session);
  session_completion = rw (unless_same (truthy prompt) key.session_window_started_at) (
      Tracks-wait (hours 24) before now (completions h) key.session_window_started_at
        key.session_completion_tokens le x.session_completion);
  weekly = rw (unless_same (truthy prompt) key.weekly_window_started_at) (
      Tracks-wait (days 7) before now (prompts h) key.weekly_window_started_at
        key.weekly_prompt_tokens le x.weekly);
  weekly_completion = rw (unless_same (truthy prompt) key.weekly_window_started_at) (
      Tracks-wait (days 7) before now (completions h) key.weekly_window_started_at
        key.weekly_completion_tokens le x.weekly_completion);
}
  where
    unless_same : {A : Type 0} (b : Bool) (a : A) → (if b then a else a) ≡ a
    unless_same true a = refl
    unless_same false a = refl

after-IsAccounted :
    (before now code : ℕ) (prompt completion : Option ℤ) (h : History) (key : ApiKey)
    → before ≤ now
    → IsAccounted before h key
    → let call : Call = record {
      now = now;
      code = code;
      prompt = prompt;
      completion = completion;
    } in
      IsAccounted now (enter call h) (after call key)
unfolding count_tokens
after-IsAccounted before now code none completion h key le x =
    idle-IsAccounted before now code none h key le x
after-IsAccounted before now code (some (pos zero)) completion h key le x =
    idle-IsAccounted before now code (some (pos zero)) h key le x
after-IsAccounted before now code (some (negsuc n)) completion h key le x =
    idle-IsAccounted before now code (some (negsuc n)) h key le x
after-IsAccounted before now code (some (pos (suc n))) completion h key le x =
    Rolled-IsAccounted before now (suc n) (known completion) h key
      (after
        (record { now = now; code = code; prompt = some (pos (suc n)); completion = completion })
        key)
      le x (after-Rolled now code n completion key)

-- Calls of one key, in order.
pub record_calls : ℕ → List Call → Pool → Pool
record_calls key_id [] s = s
record_calls key_id (call ∷ calls) s =
    record_calls key_id calls
      (record_success_with_usage call.now key_id call.code call.prompt call.completion s).1

-- The moments of the calls never go back.
abbrev pub Ordered : ℕ → List Call → Type 0
Ordered t [] = Unit
Ordered t (call ∷ calls) = (t ≤ call.now) × Ordered call.now calls

abbrev pub last_call : ℕ → List Call → ℕ
last_call t [] = t
last_call t (call ∷ calls) = last_call call.now calls

abbrev pub recorded : List Call → History → History
recorded [] h = h
recorded (call ∷ calls) h = recorded calls (enter call h)

find-record_success :
    (call : Call) (key_id : ℕ) (s : Pool) (key : ApiKey)
    → find_key key_id s.api_keys ≡ some key
    → find_key key_id
        (record_success_with_usage call.now key_id call.code call.prompt call.completion
          s).1.api_keys
      ≡ some (after call key)
unfolding record_success_with_usage
find-record_success call key_id s key e =
    rw (e, record_success_with_usage)
      (find-set_key key_id
        (success_with_usage call.now call.code call.prompt
          (count_tokens call.now call.prompt call.completion key))
        s.api_keys key (λ r. refl) e)

-- After any calls of a key with their usage, in the order of time and with any codes, the 24-hour and
-- the 7-day counters of prompt tokens hold those of exactly the calls since their window's start, the
-- counters of completion tokens hold those of the same calls, and every call of the history came less
-- than a window after that start. The history has the calls whose number of prompt tokens is positive:
-- the others count for nothing, and a completion count that is unknown or negative counts as 0.
pub record_calls-IsAccounted :
    (calls : List Call) (key_id before : ℕ) (h : History) (s : Pool) (key : ApiKey)
    → Ordered before calls
    → find_key key_id s.api_keys ≡ some key
    → IsAccounted before h key
    → (key' : ApiKey) × (find_key key_id (record_calls key_id calls s).api_keys ≡ some key')
      × IsAccounted (last_call before calls) (recorded calls h) key'
unfolding record_calls
record_calls-IsAccounted [] key_id before h s key o e x = (key, e, x)
record_calls-IsAccounted (call ∷ calls) key_id before h s key o e x =
    record_calls-IsAccounted calls key_id call.now (enter call h)
      (record_success_with_usage call.now key_id call.code call.prompt call.completion s).1
      (after call key) o.1 (find-record_success call key_id s key e)
      (after-IsAccounted before call.now call.code call.prompt call.completion h key o.0 x)
