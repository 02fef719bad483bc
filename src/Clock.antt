-- ===== src/Clock.antt =====
-- Python's `datetime` and `timedelta`, as the services use them: a moment in microseconds since
-- the epoch, with or without a time zone. `_ensure_aware` of app/services/key_manager.py and
-- `_as_utc` of app/services/user_token_service.py.
use ollama_proxy.Prelude.{ℕ, ◌*◌, Option, none, some}

-- `naive t` has `tzinfo is None`: SQLite gives such values back. Every zone that the program puts
-- in is UTC, so an aware value is its moment.
pub data Datetime : Type 0 where
  naive : ℕ → Datetime
  aware : ℕ → Datetime

-- What SQL compares: the stored clock time.
abbrev pub wall : Datetime → ℕ
wall (naive t) = t
wall (aware t) = t

abbrev pub second : ℕ
second = 1000000

abbrev pub hours : ℕ → ℕ
hours n = n * 3600 * second

abbrev pub days : ℕ → ℕ
days n = n * 24 * 3600 * second

-- `datetime.max`: 9999-12-31T23:59:59.999999. A sum past it raises OverflowError.
abbrev pub max_datetime : ℕ
max_datetime = 253402300799999999

unfoldable pub ensure_aware : Option Datetime → Option Datetime
ensure_aware none = none
ensure_aware (some (naive t)) = some (aware t)
ensure_aware (some (aware t)) = some (aware t)

unfoldable pub as_utc : Option Datetime → Option Datetime
as_utc none = none
as_utc (some (naive t)) = some (aware t)
as_utc (some (aware t)) = some (aware t)
