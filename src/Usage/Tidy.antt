-- ===== src/Usage/Tidy.antt =====
-- What `_parse_official` makes of any payload.
use ollama_proxy.Prelude.{
  ◌≡◌, refl, sym, ◌∙◌, subst, String, Bool, true, false, Option, none, some, List, [], ◌∷◌, str_eq,
  eq_iff, or_else, if◌then◌else◌, Bool-cases, inl, inr,
}
use ollama_proxy.Prelude.Int.{ℤ}
use ollama_proxy.Clock.{Datetime}
use ollama_proxy.Exec.{Result, returned, raised, and_then, Result-cases}
use ollama_proxy.Python.{
  Float, Json, Items, Fields, nil, cons, dict, null, bool_false, bool_true, int, float, str, array,
  int_of_float, get,
}
use ollama_proxy.UserTokens.Lifecycle.{true-≢-false}
use ollama_proxy.Usage.Parse.{
  ModelUsageRow, OfficialUsage, Window, session, weekly, counted, new_row, put_row, put_entry,
  put_entries, get_dict, get_text, as_count, usage_of_number, usage_of, as_float, read_window,
  Limits, parse_limits, period_of, period_in, parse_official, count_in, fraction_in, entries_of,
}

-- No name stands in two rows, and none is empty.
abbrev pub has_name : String → List ModelUsageRow → Bool
has_name name [] = false
has_name name (row ∷ rows) = if str_eq row.name name then true else has_name name rows

abbrev pub AreNamed : List ModelUsageRow → Type 0
AreNamed [] = Unit
AreNamed (row ∷ rows) =
    (str_eq row.name "" ≡ false) × (has_name row.name rows ≡ false) × AreNamed rows

pub name-counted :
    (window : Window) (n : ℤ) (row : ModelUsageRow) → (counted window n row).name ≡ row.name
unfolding counted
name-counted session n row = refl
name-counted weekly n row = refl

has_name-put_row :
    (other name : String) (window : Window) (n : ℤ) (rows : List ModelUsageRow)
    → str_eq name other ≡ false
    → has_name other (put_row window name n rows) ≡ has_name other rows
unfolding put_row
has_name-put_row other name window n [] h = rw (name-counted window n (new_row name)) rw h refl
has_name-put_row other name window n (row ∷ rows) h = elim (Bool-cases (str_eq row.name name)) [
  | inl e ↦ rw e rw (name-counted window n row) refl
  | inr e ↦ rw e rw (has_name-put_row other name window n rows h) refl
]

pub str_eq_comm : (a b : String) → str_eq a b ≡ false → str_eq b a ≡ false
str_eq_comm a b e = elim (Bool-cases (str_eq b a)) [
  | inl q ↦ elim (true-≢-false (sym ((eq_iff a b).1 (sym ((eq_iff b a).0 q))) ∙ e)) [ ]
  | inr q ↦ q
]

put_row-AreNamed :
    (window : Window) (name : String) (n : ℤ) (rows : List ModelUsageRow)
    → str_eq name "" ≡ false
    → AreNamed rows
    → AreNamed (put_row window name n rows)
unfolding put_row
put_row-AreNamed window name n [] e h = rw (name-counted window n (new_row name)) (e, refl, tt)
put_row-AreNamed window name n (row ∷ rows) e h = elim (Bool-cases (str_eq row.name name)) [
  | inl q ↦ rw q rw (name-counted window n row) h
  | inr q ↦ rw q (
    h.0,
    has_name-put_row row.name name window n rows (str_eq_comm row.name name q) ∙ h.1,
    put_row-AreNamed window name n rows e h.2,
  )
]

-- A result that is there has a property.
abbrev pub Holds : {A : Type 0} → (A → Type 0) → Result A → Type 0
Holds P (returned a) = P a
Holds P (raised e) = Unit

pub Holds-and_then :
    {A B : Type 0} (P : A → Type 0) (Q : B → Type 0) (r : Result A) (f : A → Result B)
    → Holds P r
    → ((a : A) → P a → Holds Q (f a))
    → Holds Q (and_then r f)
Holds-and_then P Q (returned a) f h step = step a h
Holds-and_then P Q (raised e) f h step = tt

pub always : {A : Type 0} (r : Result A) → Holds (λ a. Unit) r
always (returned a) = tt
always (raised e) = tt

put_entry-AreNamed :
    (window : Window) (name : Option String) (n : Json) (rows : List ModelUsageRow)
    → AreNamed rows
    → Holds AreNamed (put_entry window name n rows)
unfolding put_row
put_entry-AreNamed window none n rows h = h
put_entry-AreNamed window (some name) n rows h = elim (Bool-cases (str_eq name "")) [
  | inl e ↦ rw e h
  | inr e ↦ rw e (
      Holds-and_then (λ c. Unit) AreNamed (as_count n) (λ c. returned (put_row window name c rows))
        (always (as_count n)) (λ c x. put_row-AreNamed window name c rows e h))
]

put_entries-AreNamed :
    (window : Window) (items : Items) (rows : List ModelUsageRow)
    → AreNamed rows
    → Holds AreNamed (put_entries window items rows)
unfolding put_entries
put_entries-AreNamed window nil rows h = h
put_entries-AreNamed window (cons (dict entry) rest) rows h =
    let name = get_text (get entry "name") in
    let n = or_else (get entry "request_count") (int (ℤ.pos 0)) in
    Holds-and_then AreNamed AreNamed (put_entry window name n rows) (put_entries window rest)
      (put_entry-AreNamed window name n rows h) (put_entries-AreNamed window rest)
put_entries-AreNamed window (cons null rest) rows h = put_entries-AreNamed window rest rows h
put_entries-AreNamed window (cons bool_true rest) rows h = put_entries-AreNamed window rest rows h
put_entries-AreNamed window (cons bool_false rest) rows h = put_entries-AreNamed window rest rows h
put_entries-AreNamed window (cons (int n) rest) rows h = put_entries-AreNamed window rest rows h
put_entries-AreNamed window (cons (float n) rest) rows h = put_entries-AreNamed window rest rows h
put_entries-AreNamed window (cons (str n) rest) rows h = put_entries-AreNamed window rest rows h
put_entries-AreNamed window (cons (array n) rest) rows h = put_entries-AreNamed window rest rows h

-- The count beside a fraction is its truncation, and 0 where there is none.
abbrev pub IsTruncated : Option (ℤ × Float) → Type 0
IsTruncated none = Unit
IsTruncated (some usage) = int_of_float usage.1 ≡ returned usage.0

number-IsTruncated : (x : Option (Result Float)) → Holds IsTruncated (usage_of_number x)
unfolding int_of_float
number-IsTruncated none = tt
number-IsTruncated (some (raised e)) = tt
number-IsTruncated (some (returned x)) = elim (Result-cases (int_of_float x)) [
  | inl (n, e) ↦ rw e e
  | inr (er, e) ↦ rw e tt
]

usage_of-IsTruncated : (usage : Option Json) → Holds IsTruncated (usage_of usage)
usage_of-IsTruncated none = tt
usage_of-IsTruncated (some usage) = number-IsTruncated (as_float usage)

window-Tidy :
    (which : Window) (window : Option Fields) (rows : List ModelUsageRow)
    → AreNamed rows
    → Holds (λ out. IsTruncated out.0 × AreNamed out.1) (read_window which window rows)
unfolding put_entries
window-Tidy which none rows h = (tt, h)
window-Tidy which (some window) rows h =
    let P = λ (out : Option (ℤ × Float) × List ModelUsageRow). IsTruncated out.0 × AreNamed out.1 in
    let usage = usage_of (get window "usage") in
    let entries = entries_of (or_else (get window "models") (array nil)) in
    Holds-and_then IsTruncated P usage _ (usage_of-IsTruncated (get window "usage")) (λ u hu.
      Holds-and_then (λ x. Unit) P entries _ (always entries)
        (λ items x.
          Holds-and_then AreNamed P (put_entries which items rows) _
            (put_entries-AreNamed which items rows h) (λ rows' hr. (hu, hr))))

abbrev pub AreTidy : Limits → Type 0
AreTidy limits = IsTruncated limits.session × IsTruncated limits.weekly × AreNamed limits.models

limits-Tidy : (limits : Option Fields) → Holds AreTidy (parse_limits limits)
unfolding parse_limits
limits-Tidy none = (tt, tt, tt)
limits-Tidy (some limits) =
    let P = λ (out : Option (ℤ × Float) × List ModelUsageRow). IsTruncated out.0 × AreNamed out.1 in
    let first = get_dict (get limits "session") in
    let second = get_dict (get limits "weekly") in
    Holds-and_then P AreTidy (read_window session first []) _ (window-Tidy session first [] tt)
      (λ a ha.
        Holds-and_then P AreTidy (read_window weekly second a.1) _
          (window-Tidy weekly second a.1 ha.1) (λ b hb. (ha.0, hb.0, hb.1)))

-- A fraction and the count beside it.
abbrev pub IsFraction : Option Float → ℤ → Type 0
IsFraction none n = n ≡ ℤ.pos 0
IsFraction (some x) n = int_of_float x ≡ returned n

truncated-IsFraction :
    (usage : Option (ℤ × Float))
    → IsTruncated usage
    → IsFraction (fraction_in usage) (count_in usage)
truncated-IsFraction none h = refl
truncated-IsFraction (some usage) h = h

abbrev pub IsTidy : OfficialUsage → Type 0
IsTidy official =
    IsFraction official.session_usage_fraction official.session_usage
    × IsFraction official.weekly_usage_fraction official.weekly_usage
    × AreNamed official.models

-- Whatever the upstream sends as the usage, each count of what the parser returns is its fraction
-- truncated (0 without a fraction), no name stands in two rows, and none is empty.
pub parse_official-IsTidy :
    (from_iso : String → Option Datetime) (payload : Fields) (fetched_at : Datetime)
    (official : OfficialUsage)
    → parse_official from_iso payload fetched_at ≡ returned official
    → IsTidy official
unfolding parse_official
parse_official-IsTidy from_iso payload fetched_at official e =
    let period = period_of from_iso (period_in (get_dict (get payload "activity"))) in
    let limits = get_dict (get payload "limits") in
    subst (Holds IsTidy) e (
      Holds-and_then (λ x. Unit) IsTidy period _ (always period)
        (λ p x.
          Holds-and_then AreTidy IsTidy (parse_limits limits) _ (limits-Tidy limits)
            (λ l h. (truncated-IsFraction l.session h.0, truncated-IsFraction l.weekly h.1, h.2))))
