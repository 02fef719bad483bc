-- ===== src/Logging/Paths.antt =====
-- Paths into the data of a log record, and what a preview of app/core/logging.py shows.
use ollama_proxy.Prelude.{
  ℕ, zero, suc, ◌≤◌, ◌≡◌, ◌≢◌, ◌⊎◌, eq_iff, sym, refl, ap, String, Option, none, some, List, [],
  ◌∷◌, arith, leb, str_eq, Bool-cases, inl, inr,
}
use ollama_proxy.Python.{Json, Items, null, str, array, dict, nil, cons, get}
use ollama_proxy.Logging.{preview_len, len, first, with_ellipsis, preview_text}

-- A step into a value: to the entry of a name, or to the element at a place.
pub data Step : Type 0 where
  at_name : String → Step
  at_place : ℕ → Step

abbrev pub item_at : Items → ℕ → Option Json
item_at nil i = none
item_at (cons value rest) zero = some value
item_at (cons value rest) (suc i) = item_at rest i

abbrev pub into : Json → Step → Option Json
into (dict d) (at_name name) = get d name
into (array items) (at_place i) = item_at items i
into _ _ = none

abbrev pub follow : (Json → Option Json) → Option Json → Option Json
follow look_on none = none
follow look_on (some value) = look_on value

-- The value at the end of a path.
abbrev pub look : List Step → Json → Option Json
look [] value = some value
look (step ∷ path) value = follow (look path) (into value step)

-- How many names are on a path.
abbrev pub names_on : List Step → ℕ
names_on [] = 0
names_on (at_name name ∷ path) = suc (names_on path)
names_on (at_place i ∷ path) = names_on path

pub same_value : {v w : Json} → some v ≡ some w → v ≡ w
same_value e = ground (arith, e)

pub none-≢-some : {A : Type 0} {w : A} → none ≢ some w
none-≢-some e = ground (arith, e)

-- What may be written for a value: an empty text for nothing, and else the first eight characters of
-- its text and an ellipsis.
abbrev pub IsPreview : (Json → String) → Json → Json → Type 0
IsPreview show value written =
    ((written ≡ str "") × ((value ≡ null) ⊎ (show value ≡ "")))
    ⊎ (written ≡ str (with_ellipsis (first 8 (show value))))

first-all : (n : ℕ) (s : String) → len s ≤ n → first n s ≡ s
first-all zero String.[] h = refl
first-all zero (String.◌∷◌ c s) h = absurd (omega (arith, h))
first-all (suc n) String.[] h = refl
first-all (suc n) (String.◌∷◌ c s) h = ap (λ t. String.◌∷◌ c t) (first-all n s (omega (arith, h)))

pub preview_text-IsPreview :
    (show : Json → String) (value : Json) → IsPreview show value (str (preview_text (show value)))
preview_text-IsPreview show value =
    let s = show value in
    elim (Bool-cases (str_eq s "")) [
      | inl e ↦ inl (rw e refl, inr ((eq_iff s "").0 e))
      | inr e ↦ elim (Bool-cases (leb (len s) preview_len)) [
        | inl e' ↦ inr (
            rw e
              (rw e' (ap (λ t. str (with_ellipsis t)) (sym (first-all 8 s (ground (arith, e')))))))
        | inr e' ↦ inr (rw e (rw e' refl))
      ]
    ]
