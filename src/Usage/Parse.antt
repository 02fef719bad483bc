-- ===== src/Usage/Parse.antt =====
-- `_parse_iso`, `_parse_account` and `_parse_official` of app/services/usage_service.py, with the
-- schemas they fill (app/schemas/api_key.py). `datetime.fromisoformat` is a parameter.
use Prim.Native.Char.{code}
use Prim.Native.String.{◌++◌ as append}
use ollama_proxy.Prelude.{
  String, ◌==◌, Option, none, some, List, [], ◌∷◌, str_eq, if◌then◌else◌, or_else,
}
use ollama_proxy.Prelude.Int.{ℤ}
use ollama_proxy.Clock.{Datetime}
use ollama_proxy.Exec.{Result, returned, raised, value_error, type_error, attribute_error, and_then}
use ollama_proxy.Python.{
  Float, Json, Items, Fields, null, bool_false, bool_true, int, float, str, array, dict, nil, cons,
  int_of_float, float_of_int, get, is_truthy,
}

pub record AccountInfo : Type 0 where
  pub account_id : Option String
  pub email : Option String
  pub name : Option String
  pub plan : Option String
  pub fetched_at : Datetime

pub record ModelUsageRow : Type 0 where
  pub name : String
  pub session_request_count : ℤ
  pub weekly_request_count : ℤ

pub record OfficialUsage : Type 0 where
  pub session_usage : ℤ
  pub weekly_usage : ℤ
  pub session_usage_fraction : Option Float
  pub weekly_usage_fraction : Option Float
  pub models : List ModelUsageRow
  pub period_type : Option String
  pub period_start : Option Datetime
  pub period_end : Option Datetime
  pub fetched_at : Datetime

-- `payload.get(upper) or payload.get(lower)`, where a missing key reads as None.
abbrev pub first_truthy : Option Json → Option Json → Json
first_truthy a b = if is_truthy (or_else a null) then or_else a null else or_else b null

-- What the validation of a `str | None` field makes of it: nothing but a text passes.
abbrev pub as_optional_text : Json → Result (Option String)
as_optional_text null = returned none
as_optional_text (str text) = returned (some text)
as_optional_text _ = raised value_error

abbrev pub account_field : Fields → String → String → Result (Option String)
account_field payload upper lower =
    as_optional_text (first_truthy (get payload upper) (get payload lower))

unfoldable pub parse_account : Fields → Datetime → Result AccountInfo
unfolding is_truthy get
parse_account payload fetched_at = and_then (account_field payload "ID" "id") (λ account_id.
    and_then (account_field payload "Email" "email") (λ email.
      and_then (account_field payload "Name" "name") (λ name.
        and_then (account_field payload "Plan" "plan") (λ plan. returned (record {
          account_id = account_id;
          email = email;
          name = name;
          plan = plan;
          fetched_at = fetched_at;
        })))))

-- `value.replace("Z", "+00:00")`
abbrev pub replace_z : String → String
replace_z String.[] = ""
replace_z (String.◌∷◌ c s) =
    let rest = replace_z s in if code c == 90 then append "+00:00" rest else String.◌∷◌ c rest

abbrev pub parse_text : (String → Option Datetime) → Json → Result (Option Datetime)
parse_text from_iso (str text) = returned (from_iso (replace_z text))
parse_text from_iso _ = raised attribute_error

-- `fromisoformat` gives nothing where it raises ValueError. Only a text has a `replace`.
unfoldable pub parse_iso : (String → Option Datetime) → Json → Result (Option Datetime)
unfolding is_truthy
parse_iso from_iso value = if is_truthy value then parse_text from_iso value else returned none

abbrev pub get_dict : Option Json → Option Fields
get_dict (some (dict fields)) = some fields
get_dict _ = none

abbrev pub get_text : Option Json → Option String
get_text (some (str text)) = some text
get_text _ = none

pub record Period : Type 0 where
  pub period_type : Option String
  pub period_start : Option Datetime
  pub period_end : Option Datetime

abbrev pub period_of : (String → Option Datetime) → Option Fields → Result Period
unfolding parse_iso get
period_of from_iso none =
    returned (record { period_type = none; period_start = none; period_end = none })
period_of from_iso (some period) =
    and_then (parse_iso from_iso (or_else (get period "starting_at") null)) (λ start.
      and_then (parse_iso from_iso (or_else (get period "ending_at") null)) (λ end.
        returned (record {
          period_type = get_text (get period "type");
          period_start = start;
          period_end = end;
        })))

abbrev pub period_in : Option Fields → Option Fields
unfolding get
period_in none = none
period_in (some activity) = get_dict (get activity "period")

-- `float(x)` and `int(x)` of what `isinstance(x, int | float)` lets through.
abbrev pub as_float : Json → Option (Result Float)
unfolding float_of_int
as_float (int n) = some (float_of_int n)
as_float bool_true = some (float_of_int (ℤ.pos 1))
as_float bool_false = some (float_of_int (ℤ.pos 0))
as_float (float x) = some (returned x)
as_float _ = none

abbrev pub as_count : Json → Result ℤ
unfolding int_of_float
as_count (int n) = returned n
as_count bool_true = returned (ℤ.pos 1)
as_count bool_false = returned (ℤ.pos 0)
as_count (float x) = int_of_float x
as_count _ = returned (ℤ.pos 0)

-- What one window of the limits reports: nothing where there is no number.
pub data Window : Type 0 where
  session weekly : Window

abbrev pub usage_of_number : Option (Result Float) → Result (Option (ℤ × Float))
unfolding int_of_float
usage_of_number none = returned none
usage_of_number (some x) =
    and_then x (λ fraction. and_then (int_of_float fraction) (λ n. returned (some (n, fraction))))

abbrev pub usage_of : Option Json → Result (Option (ℤ × Float))
usage_of none = returned none
usage_of (some usage) = usage_of_number (as_float usage)

-- `window.get("models", []) or []`, and the loop over it. The keys of an object and the characters
-- of a text are no objects, so the loop skips them all; a number has no iterator.
abbrev pub iterated : Json → Result Items
iterated (array items) = returned items
iterated (dict fields) = returned nil
iterated (str text) = returned nil
iterated _ = raised type_error

abbrev pub entries_of : Json → Result Items
unfolding is_truthy
entries_of models = if is_truthy models then iterated models else returned nil

unfoldable pub counted : Window → ℤ → ModelUsageRow → ModelUsageRow
counted session n row = record row { session_request_count = n }
counted weekly n row = record row { weekly_request_count = n }

abbrev pub new_row : String → ModelUsageRow
new_row name = record {
  name = name;
  session_request_count = ℤ.pos 0;
  weekly_request_count = ℤ.pos 0;
}

-- `models_by_name`, a dictionary in the order of insertion: the row of a name, changed or new.
unfoldable pub put_row : Window → String → ℤ → List ModelUsageRow → List ModelUsageRow
unfolding counted
put_row window name n [] = counted window n (new_row name) ∷ []
put_row window name n (row ∷ rows) =
    let rest = put_row window name n rows in
    if str_eq row.name name then counted window n row ∷ rows else row ∷ rest

abbrev pub put_entry :
    Window → Option String → Json → List ModelUsageRow → Result (List ModelUsageRow)
unfolding put_row
put_entry window none count rows = returned rows
put_entry window (some name) count rows =
    if str_eq name ""
    then returned rows
    else and_then (as_count count) (λ n. returned (put_row window name n rows))

unfoldable pub put_entries : Window → Items → List ModelUsageRow → Result (List ModelUsageRow)
unfolding put_row get
put_entries window nil rows = returned rows
put_entries window (cons (dict entry) rest) rows =
    and_then
      (put_entry window (get_text (get entry "name"))
        (or_else (get entry "request_count") (int (ℤ.pos 0))) rows)
      (put_entries window rest)
put_entries window (cons _ rest) rows = put_entries window rest rows

-- One round of the loop over the windows.
abbrev pub read_window :
    Window → Option Fields → List ModelUsageRow → Result (Option (ℤ × Float) × List ModelUsageRow)
unfolding get put_entries
read_window which none rows = returned (none, rows)
read_window which (some window) rows = and_then (usage_of (get window "usage")) (λ usage.
    and_then (entries_of (or_else (get window "models") (array nil)))
      (λ entries. and_then (put_entries which entries rows) (λ rows'. returned (usage, rows'))))

pub record Limits : Type 0 where
  pub session : Option (ℤ × Float)
  pub weekly : Option (ℤ × Float)
  pub models : List ModelUsageRow

unfoldable pub parse_limits : Option Fields → Result Limits
unfolding get put_entries
parse_limits none = returned (record { session = none; weekly = none; models = [] })
parse_limits (some limits) =
    and_then (read_window session (get_dict (get limits "session")) []) (λ first.
      and_then (read_window weekly (get_dict (get limits "weekly")) first.1)
        (λ second. returned (record { session = first.0; weekly = second.0; models = second.1 })))

abbrev pub count_in : Option (ℤ × Float) → ℤ
count_in none = ℤ.pos 0
count_in (some usage) = usage.0

abbrev pub fraction_in : Option (ℤ × Float) → Option Float
fraction_in none = none
fraction_in (some usage) = some usage.1

abbrev pub official_of : Period → Limits → Datetime → OfficialUsage
official_of period limits fetched_at = record {
  session_usage = count_in limits.session;
  weekly_usage = count_in limits.weekly;
  session_usage_fraction = fraction_in limits.session;
  weekly_usage_fraction = fraction_in limits.weekly;
  models = limits.models;
  period_type = period.period_type;
  period_start = period.period_start;
  period_end = period.period_end;
  fetched_at = fetched_at;
}

-- The payload is an object: `get_usage` hands nothing else on.
unfoldable pub parse_official :
    (String → Option Datetime) → Fields → Datetime → Result OfficialUsage
unfolding parse_iso parse_limits get
parse_official from_iso payload fetched_at =
    and_then (period_of from_iso (period_in (get_dict (get payload "activity")))) (λ period.
      and_then (parse_limits (get_dict (get payload "limits")))
        (λ limits. returned (official_of period limits fetched_at)))
