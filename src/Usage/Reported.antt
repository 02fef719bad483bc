-- ===== src/Usage/Reported.antt =====
-- What `_parse_official` reports of a payload, against a reading of the payload itself.
use ollama_proxy.Prelude.{
  ◌≡◌, refl, sym, ◌∙◌, subst, ap, String, Bool, true, false, Option, none, some, List, [], str_eq,
  or_else, if◌then◌else◌, Bool-cases, inl, inr,
}
use ollama_proxy.Prelude.Int.{ℤ}
use ollama_proxy.Clock.{Datetime}
use ollama_proxy.Exec.{Result, returned, raised, Result-cases}
use ollama_proxy.Python.{
  Float, Json, Items, Fields, nil, cons, dict, null, bool_false, bool_true, int, float, str, array,
  get, int_of_float,
}
use ollama_proxy.Usage.Tidy.{
  has_name, str_eq_comm, Holds, Holds-and_then, always, IsTidy, parse_official-IsTidy,
}
use ollama_proxy.Usage.Parse.{
  ModelUsageRow, OfficialUsage, Window, session, weekly, put_row, put_entry, put_entries, get_dict,
  get_text, as_count, usage_of_number, usage_of, as_float, read_window, Limits, parse_limits,
  period_of, period_in, parse_official, fraction_in, entries_of,
}
use ollama_proxy.Usage.Rows.{
  other, count_of, same_test, count-put_row, count-put_row-other, listed-put_row,
}

-- The payload's own words: whether an entry of a list names a model, and how many requests it reports.
abbrev is_named : String → Option String → Bool
is_named name none = false
is_named name (some written) = str_eq written name

abbrev or_before : ℤ → Result ℤ → ℤ
or_before before (returned n) = n
or_before before (raised e) = before

abbrev names : String → Json → Bool
names name (dict entry) = is_named name (get_text (get entry "name"))
names name _ = false

abbrev reported_in : Json → ℤ → ℤ
reported_in (dict entry) before =
    or_before before (as_count (or_else (get entry "request_count") (int (ℤ.pos 0))))
reported_in _ before = before

-- The last count that a list reports of a model.
abbrev pub last_count : String → ℤ → Items → ℤ
last_count name before nil = before
last_count name before (cons item rest) =
    last_count name (if names name item then reported_in item before else before) rest

abbrev pub is_listed : String → Bool → Items → Bool
is_listed name before nil = before
is_listed name before (cons item rest) =
    is_listed name (if names name item then true else before) rest

-- What a list makes of the rows, name by name.
abbrev Entered : Window → Items → List ModelUsageRow → List ModelUsageRow → Type 0
Entered window items rows rows' =
    (name : String)
    → str_eq name "" ≡ false
    → (count_of window name rows' ≡ last_count name (count_of window name rows) items)
      × (count_of (other window) name rows' ≡ count_of (other window) name rows)
      × (has_name name rows' ≡ is_listed name (has_name name rows) items)

Entered-append :
    (window : Window) (item : Json) (rest : Items) (a b c : List ModelUsageRow)
    → Entered window (cons item nil) a b
    → Entered window rest b c
    → Entered window (cons item rest) a c
Entered-append window item rest a b c h k name named =
    let x = h name named in
    let y = k name named in
    (
      y.0 ∙ ap (λ n. last_count name n rest) x.0,
      y.1 ∙ x.1,
      y.2 ∙ ap (λ l. is_listed name l rest) x.2,
    )

Holds-map :
    {A : Type 0} (P Q : A → Type 0) (r : Result A) → ((a : A) → P a → Q a) → Holds P r → Holds Q r
Holds-map P Q (returned a) f h = f a h
Holds-map P Q (raised e) f h = tt

-- One entry, by its name and its count.
abbrev EnteredOne : Window → Option String → Json → List ModelUsageRow → List ModelUsageRow → Type 0
EnteredOne window written count rows rows' =
    (name : String)
    → str_eq name "" ≡ false
    → (count_of window name rows' ≡ (
        if is_named name written
        then or_before (count_of window name rows) (as_count count)
        else count_of window name rows))
      × (count_of (other window) name rows' ≡ count_of (other window) name rows)
      × (has_name name rows' ≡ (if is_named name written then true else has_name name rows))

put_entry-EnteredOne :
    (window : Window) (written : Option String) (count : Json) (rows : List ModelUsageRow)
    → Holds (EnteredOne window written count rows) (put_entry window written count rows)
unfolding put_row
put_entry-EnteredOne window none count rows = λ name named. (refl, refl, refl)
put_entry-EnteredOne window (some written) count rows = elim (Bool-cases (str_eq written "")) [
  | inl e ↦ rw e (λ name named.
      let away : str_eq written name ≡ false =
        same_test written "" name e ∙ str_eq_comm name "" named in
      (rw away refl, refl, rw away refl))
  | inr e ↦ rw e (elim (Result-cases (as_count count)) [
    | inl (n, q) ↦ rw q (λ name named. (
      rw q (count-put_row window name written n rows),
      count-put_row-other window name written n rows,
      listed-put_row window name written n rows,
    ))
    | inr (x, q) ↦ rw q tt
  ])
]

put_entries-Entered :
    (window : Window) (items : Items) (rows : List ModelUsageRow)
    → Holds (Entered window items rows) (put_entries window items rows)
unfolding put_entries
put_entries-Entered window nil rows = λ name named. (refl, refl, refl)
put_entries-Entered window (cons (dict entry) rest) rows =
    let written = get_text (get entry "name") in
    let count = or_else (get entry "request_count") (int (ℤ.pos 0)) in
    Holds-and_then (EnteredOne window written count rows)
      (Entered window (cons (dict entry) rest) rows) (put_entry window written count rows)
      (put_entries window rest) (put_entry-EnteredOne window written count rows)
      (λ b h.
        Holds-map (Entered window rest b) (Entered window (cons (dict entry) rest) rows)
          (put_entries window rest b) (λ c k. Entered-append window (dict entry) rest rows b c h k)
          (put_entries-Entered window rest b))
put_entries-Entered window (cons null rest) rows = put_entries-Entered window rest rows
put_entries-Entered window (cons bool_true rest) rows = put_entries-Entered window rest rows
put_entries-Entered window (cons bool_false rest) rows = put_entries-Entered window rest rows
put_entries-Entered window (cons (int n) rest) rows = put_entries-Entered window rest rows
put_entries-Entered window (cons (float n) rest) rows = put_entries-Entered window rest rows
put_entries-Entered window (cons (str n) rest) rows = put_entries-Entered window rest rows
put_entries-Entered window (cons (array n) rest) rows = put_entries-Entered window rest rows

-- The list of models of a window, and none where the loop finds none.
abbrev items_or_none : Result Items → Items
items_or_none (returned items) = items
items_or_none (raised e) = nil

abbrev models_of : Option Fields → Items
models_of none = nil
models_of (some window) = items_or_none (entries_of (or_else (get window "models") (array nil)))

-- The number that a window reports as its usage.
abbrev number_or_none : Option (Result Float) → Option Float
number_or_none (some (returned x)) = some x
number_or_none _ = none

abbrev fraction_of : Option Json → Option Float
fraction_of none = none
fraction_of (some usage) = number_or_none (as_float usage)

abbrev usage_in : Option Fields → Option Float
usage_in none = none
usage_in (some window) = fraction_of (get window "usage")

-- What one window adds.
abbrev ReadAs :
    Window → Option Fields → List ModelUsageRow → Option (ℤ × Float) × List ModelUsageRow → Type 0
ReadAs which window rows out =
    (fraction_in out.0 ≡ usage_in window) × Entered which (models_of window) rows out.1

number-fraction :
    (x : Option (Result Float)) → Holds (λ u. fraction_in u ≡ number_or_none x) (usage_of_number x)
unfolding int_of_float
number-fraction none = refl
number-fraction (some (raised e)) = tt
number-fraction (some (returned x)) = elim (Result-cases (int_of_float x)) [
  | inl (n, e) ↦ rw e refl
  | inr (er, e) ↦ rw e tt
]

usage-fraction :
    (usage : Option Json) → Holds (λ u. fraction_in u ≡ fraction_of usage) (usage_of usage)
usage-fraction none = refl
usage-fraction (some usage) = number-fraction (as_float usage)

entries-Holds : (r : Result Items) → Holds (λ items. items_or_none r ≡ items) r
entries-Holds (returned items) = refl
entries-Holds (raised e) = tt

read_window-ReadAs :
    (which : Window) (window : Option Fields) (rows : List ModelUsageRow)
    → Holds (ReadAs which window rows) (read_window which window rows)
unfolding put_entries
read_window-ReadAs which none rows = (refl, λ name named. (refl, refl, refl))
read_window-ReadAs which (some window) rows =
    let usage = usage_of (get window "usage") in
    let entries = entries_of (or_else (get window "models") (array nil)) in
    Holds-and_then (λ u. fraction_in u ≡ usage_in (some window)) (ReadAs which (some window) rows)
      usage _ (usage-fraction (get window "usage"))
      (λ u hu.
        Holds-and_then (λ items. models_of (some window) ≡ items) (ReadAs which (some window) rows)
          entries _ (entries-Holds entries)
          (λ items same.
            Holds-and_then (Entered which items rows) (ReadAs which (some window) rows)
              (put_entries which items rows) _ (put_entries-Entered which items rows)
              (λ rows' entered. (hu, subst (λ i. Entered which i rows rows') (sym same) entered))))

-- The limits of a payload, and a window of them.
abbrev limit : String → Option Fields → Option Fields
limit name none = none
limit name (some limits) = get_dict (get limits name)

abbrev window_of : String → Fields → Option Fields
window_of name payload = limit name (get_dict (get payload "limits"))

-- A report of two windows.
abbrev Reports :
    Option Fields → Option Fields → Option Float → Option Float → List ModelUsageRow → Type 0
Reports first second first_fraction second_fraction rows =
    (first_fraction ≡ usage_in first)
    × (second_fraction ≡ usage_in second)
    × ((name : String)
        → str_eq name "" ≡ false
        → (count_of session name rows ≡ last_count name (ℤ.pos 0) (models_of first))
          × (count_of weekly name rows ≡ last_count name (ℤ.pos 0) (models_of second))
          × (has_name name rows
              ≡ is_listed name (is_listed name false (models_of first)) (models_of second)))

ReadAs-Reports :
    (first second : Option Fields) (a b : Option (ℤ × Float) × List ModelUsageRow)
    → ReadAs session first [] a
    → ReadAs weekly second a.1 b
    → Reports first second (fraction_in a.0) (fraction_in b.0) b.1
ReadAs-Reports first second a b h k = (
  h.0,
  k.0,
  λ name named.
      let x = h.1 name named in
      let y = k.1 name named in
      (
        y.1 ∙ x.0,
        y.0 ∙ ap (λ n. last_count name n (models_of second)) x.1,
        y.2 ∙ ap (λ l. is_listed name l (models_of second)) x.2,
      ),
)

abbrev LimitsReport : Option Fields → Limits → Type 0
LimitsReport limits out =
    Reports (limit "session" limits) (limit "weekly" limits) (fraction_in out.session)
      (fraction_in out.weekly) out.models

parse_limits-LimitsReport :
    (limits : Option Fields) → Holds (LimitsReport limits) (parse_limits limits)
unfolding parse_limits
parse_limits-LimitsReport none = (refl, refl, λ name named. (refl, refl, refl))
parse_limits-LimitsReport (some limits) =
    let first = get_dict (get limits "session") in
    let second = get_dict (get limits "weekly") in
    Holds-and_then (ReadAs session first []) (LimitsReport (some limits))
      (read_window session first []) _ (read_window-ReadAs session first [])
      (λ a ha.
        Holds-and_then (ReadAs weekly second a.1) (LimitsReport (some limits))
          (read_window weekly second a.1) _ (read_window-ReadAs weekly second a.1)
          (λ b hb. ReadAs-Reports first second a b ha hb))

abbrev pub IsReport : Fields → OfficialUsage → Type 0
IsReport payload official =
    IsTidy official
    × Reports (window_of "session" payload) (window_of "weekly" payload)
        official.session_usage_fraction official.weekly_usage_fraction official.models

report-Holds :
    (from_iso : String → Option Datetime) (payload : Fields) (fetched_at : Datetime)
    → Holds
        (λ (official : OfficialUsage).
          Reports
            (window_of "session" payload)
            (window_of "weekly" payload)
            official.session_usage_fraction
            official.weekly_usage_fraction
            official.models)
        (parse_official from_iso payload fetched_at)
unfolding parse_official
report-Holds from_iso payload fetched_at =
    let limits = get_dict (get payload "limits") in
    let period = period_of from_iso (period_in (get_dict (get payload "activity"))) in
    let P = λ (official : OfficialUsage).
      Reports (window_of "session" payload) (window_of "weekly" payload)
        official.session_usage_fraction official.weekly_usage_fraction official.models in
    Holds-and_then (λ x. Unit) P period _ (always period)
      (λ p x.
        Holds-and_then (LimitsReport limits) P (parse_limits limits) _
          (parse_limits-LimitsReport limits) (λ l h. h))

-- What the parser returns says what the payload says, window by window: the fraction is the number
-- that the window reports as its usage (none without one), and the count beside it is its truncation
-- (0 without one); a model is listed, once, exactly if an entry of either window names it; and its
-- requests in a window are those of the last entry there that names it, and 0 without one.
pub parse_official-IsReport :
    (from_iso : String → Option Datetime) (payload : Fields) (fetched_at : Datetime)
    (official : OfficialUsage)
    → parse_official from_iso payload fetched_at ≡ returned official
    → IsReport payload official
parse_official-IsReport from_iso payload fetched_at official e = (
  parse_official-IsTidy from_iso payload fetched_at official e,
  subst
      (Holds (λ (o : OfficialUsage).
        Reports (window_of "session" payload) (window_of "weekly" payload) o.session_usage_fraction
          o.weekly_usage_fraction o.models))
      e (report-Holds from_iso payload fetched_at),
)
