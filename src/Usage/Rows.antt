-- ===== src/Usage/Rows.antt =====
-- What one count does to the rows of the models in `_parse_official`.
use ollama_proxy.Prelude.{
  ◌≡◌, refl, sym, ◌∙◌, ap, String, true, false, List, [], ◌∷◌, str_eq, eq_iff, if◌then◌else◌,
  Bool-cases, inl, inr, arith,
}
use ollama_proxy.Prelude.Int.{ℤ}
use ollama_proxy.Usage.Tidy.{has_name, name-counted}
use ollama_proxy.Usage.Parse.{ModelUsageRow, Window, session, weekly, counted, new_row, put_row}

abbrev pub other : Window → Window
other session = weekly
other weekly = session

abbrev pub requests : Window → ModelUsageRow → ℤ
requests session row = row.session_request_count
requests weekly row = row.weekly_request_count

-- The requests of a model in a window, and 0 where it is not listed.
abbrev pub count_of : Window → String → List ModelUsageRow → ℤ
count_of window name [] = ℤ.pos 0
count_of window name (row ∷ rows) =
    if str_eq row.name name then requests window row else count_of window name rows

requests-counted :
    (window : Window) (n : ℤ) (row : ModelUsageRow) → requests window (counted window n row) ≡ n
unfolding counted
requests-counted session n row = refl
requests-counted weekly n row = refl

requests-other :
    (window : Window) (n : ℤ) (row : ModelUsageRow)
    → requests (other window) (counted window n row) ≡ requests (other window) row
unfolding counted
requests-other session n row = refl
requests-other weekly n row = refl

requests-new_row : (window : Window) (name : String) → requests window (new_row name) ≡ ℤ.pos 0
requests-new_row session name = refl
requests-new_row weekly name = refl

pub same_test : (a b c : String) → str_eq a b ≡ true → str_eq a c ≡ str_eq b c
same_test a b c e = ap (λ x. str_eq x c) ((eq_iff a b).0 e)

-- Names that differ are not both the third one.
apart_test : (a b c : String) → str_eq a b ≡ false → str_eq b c ≡ true → str_eq a c ≡ false
apart_test a b c e h = ap (str_eq a) (sym ((eq_iff b c).0 h)) ∙ e

pub count-put_row :
    (window : Window) (name written : String) (n : ℤ) (rows : List ModelUsageRow)
    → count_of window name (put_row window written n rows)
      ≡ (if str_eq written name then n else count_of window name rows)
unfolding put_row
count-put_row window name written n [] =
    rw (name-counted window n (new_row written))
      (rw (requests-counted window n (new_row written)) refl)
count-put_row window name written n (row ∷ rows) = elim (Bool-cases (str_eq row.name written)) [
  | inl e ↦ rw e (
      rw (name-counted window n row) (
        rw (requests-counted window n row) (rw (same_test row.name written name e) (ground arith))))
  | inr e ↦ elim (Bool-cases (str_eq written name)) [
    | inl h ↦ rw e (
        rw h (
          rw (apart_test row.name written name e h)
            (count-put_row window name written n rows ∙ rw h refl)))
    | inr h ↦ rw e (rw h (rw (count-put_row window name written n rows) (rw h refl)))
  ]
]

pub count-put_row-other :
    (window : Window) (name written : String) (n : ℤ) (rows : List ModelUsageRow)
    → count_of (other window) name (put_row window written n rows)
      ≡ count_of (other window) name rows
unfolding put_row
count-put_row-other window name written n [] = rw (name-counted window n (new_row written)) (
    rw (requests-other window n (new_row written))
      (rw (requests-new_row (other window) written) (ground arith)))
count-put_row-other window name written n (row ∷ rows) =
    elim (Bool-cases (str_eq row.name written)) [
      | inl e ↦ rw e (rw (name-counted window n row) (rw (requests-other window n row) refl))
      | inr e ↦ rw e (rw (count-put_row-other window name written n rows) refl)
    ]

pub listed-put_row :
    (window : Window) (name written : String) (n : ℤ) (rows : List ModelUsageRow)
    → has_name name (put_row window written n rows)
      ≡ (if str_eq written name then true else has_name name rows)
unfolding put_row
listed-put_row window name written n [] = rw (name-counted window n (new_row written)) refl
listed-put_row window name written n (row ∷ rows) = elim (Bool-cases (str_eq row.name written)) [
  | inl e ↦
      rw e (rw (name-counted window n row) (rw (same_test row.name written name e) (ground arith)))
  | inr e ↦ elim (Bool-cases (str_eq written name)) [
    | inl h ↦ rw e (
        rw h (
          rw (apart_test row.name written name e h)
            (listed-put_row window name written n rows ∙ rw h refl)))
    | inr h ↦ rw e (rw h (rw (listed-put_row window name written n rows) (rw h refl)))
  ]
]
