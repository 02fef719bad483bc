-- ===== src/Dashboard/Filters.antt =====
-- app/core/dashboard_filters.py: the filter `fmt_ts` of the templates, on nothing, a datetime or a text.
use ollama_proxy.Prelude.{ℕ, String, Option, none, some, str_eq, if◌then◌else◌}
use ollama_proxy.Clock.{Datetime, wall}
use ollama_proxy.Dashboard.Tokens.{Expiry, moment, iso_text}

module _ (from_iso : String → Option Datetime) (strftime : String → ℕ → String) where
  -- An aware datetime is brought to UTC, and a naive one is taken as it is.
  abbrev shown_moment : Datetime → String
  shown_moment t = strftime "%d.%m.%Y %H:%M:%S" (wall t)

  abbrev shown_if_parsed : String → Option Datetime → String
  shown_if_parsed text none = text
  shown_if_parsed text (some t) = shown_moment t

  unfoldable pub fmt_ts : Option Expiry → String
  fmt_ts none = ""
  fmt_ts (some (moment t)) = shown_moment t
  fmt_ts (some (iso_text text)) =
      if str_eq text "" then "" else shown_if_parsed text (from_iso text)
