-- ===== src/KeyManager/RetryAfter/Sole.antt =====
-- `extract_retry_after` on headers in which Retry-After stands once, or not at all.
use ollama_proxy.Prelude.{
  ◌≡◌, refl, sym, ◌∙◌, ap, subst, String, true, false, Option, none, some, List, [], ◌∷◌, ◌++◌,
  arith, str_eq, eq_iff, Bool-cases, inl, inr, All, ◌⊎◌,
}
use ollama_proxy.UserTokens.Lifecycle.{true-≢-false}
use ollama_proxy.KeyManager.RetryAfter.{
  HeaderValue, absent, Headers, httpx_headers, plain_dict, pairs, lower, same_codes, lower_is,
  values_of, joined, dict_get, present, first_present, get_by, first_match, find_retry_after,
  parse_or_default, extract_retry_after, Asked, default-Asked,
}

-- No entry has the name, in any mixture of cases.
abbrev pub Lacks : List (String × HeaderValue) → Type 0
Lacks = All (λ e. lower_is e.0 "retry-after" ≡ false)

first_match-sole :
    (before after : List (String × HeaderValue)) (name : String) (v : HeaderValue)
    → Lacks before
    → lower_is name "retry-after" ≡ true
    → first_match (before ++ (name, v) ∷ after) ≡ some v
unfolding first_match
first_match-sole [] after name v lacks h = rw h refl
first_match-sole ((n, w) ∷ before) after name v lacks h =
    rw lacks.0 (first_match-sole before after name v lacks.1 h)

first_match-Lacks : (h : List (String × HeaderValue)) → Lacks h → first_match h ≡ none
unfolding first_match
first_match-Lacks [] lacks = refl
first_match-Lacks ((n, w) ∷ h) lacks = rw lacks.0 (first_match-Lacks h lacks.1)

values_of-Lacks : (h : List (String × HeaderValue)) → Lacks h → values_of "retry-after" h ≡ []
unfolding values_of
values_of-Lacks [] lacks = refl
values_of-Lacks ((n, w) ∷ h) lacks = rw lacks.0 (values_of-Lacks h lacks.1)

values_of-sole :
    (before after : List (String × HeaderValue)) (name : String) (v : HeaderValue)
    → Lacks before
    → lower_is name "retry-after" ≡ true
    → Lacks after
    → values_of "retry-after" (before ++ (name, v) ∷ after) ≡ v ∷ []
unfolding values_of
values_of-sole [] after name v lacks h none_after =
    rw h (ap (λ vs. v ∷ vs) (values_of-Lacks after none_after))
values_of-sole ((n, w) ∷ before) after name v lacks h none_after =
    rw lacks.0 (values_of-sole before after name v lacks.1 h none_after)

-- A spelling of the name.
abbrev Spells : String → Type 0
Spells wanted = (lower_is wanted "retry-after" ≡ true) × (lower wanted ≡ lower "retry-after")

other_name :
    (wanted n : String) → Spells wanted → lower_is n "retry-after" ≡ false → str_eq n wanted ≡ false
other_name wanted n spells lacks = elim (Bool-cases (str_eq n wanted)) [
  | inl e ↦ absurd (
      true-≢-false
        (sym spells.0 ∙ ap (λ m. lower_is m "retry-after") (sym ((eq_iff n wanted).0 e)) ∙ lacks))
  | inr e ↦ e
]

dict_get-Lacks :
    (wanted : String) (h : List (String × HeaderValue))
    → Spells wanted
    → Lacks h
    → dict_get wanted h ≡ none
unfolding dict_get
dict_get-Lacks wanted [] spells lacks = refl
dict_get-Lacks wanted ((n, w) ∷ h) spells lacks =
    rw (other_name wanted n spells lacks.0) (dict_get-Lacks wanted h spells lacks.1)

dict_get-sole :
    (wanted : String) (before after : List (String × HeaderValue)) (name : String) (v : HeaderValue)
    → Spells wanted
    → Lacks before
    → Lacks after
    → let o = dict_get wanted (before ++ (name, v) ∷ after) in (o ≡ none) ⊎ (o ≡ some v)
unfolding dict_get
dict_get-sole wanted [] after name v spells lacks none_after =
    elim (Bool-cases (str_eq name wanted)) [
      | inl e ↦ inr (rw e refl)
      | inr e ↦ inl (rw e (dict_get-Lacks wanted after spells none_after))
    ]
dict_get-sole wanted ((n, w) ∷ before) after name v spells lacks none_after =
    rw (other_name wanted n spells lacks.0)
      (dict_get-sole wanted before after name v spells lacks.1 none_after)

-- Nothing else than one value can be found.
abbrev AtMost : HeaderValue → Option HeaderValue → Type 0
AtMost v o = (o ≡ none) ⊎ (o ≡ some v)

present-AtMost : (v : HeaderValue) (o : Option HeaderValue) → AtMost v o → AtMost v (present o)
present-AtMost v none h = inl refl
present-AtMost v (some absent) h = inl refl
present-AtMost v (some HeaderValue.not_a_number) h = h
present-AtMost v (some (HeaderValue.number x)) h = h

first_present-AtMost :
    (v : HeaderValue) (o p : Option HeaderValue)
    → AtMost v o
    → AtMost v p
    → AtMost v (first_present o p)
first_present-AtMost v none p h k = k
first_present-AtMost v (some w) p h k = h

first_present-match :
    (v : HeaderValue) (o : Option HeaderValue) → AtMost v o → first_present o (some v) ≡ some v
first_present-match v none h = refl
first_present-match v (some w) (inl e) = ground (arith, e)
first_present-match v (some w) (inr e) = e

small : Spells "retry-after"
unfolding lower_is lower same_codes
small = (refl, refl)

title : Spells "Retry-After"
unfolding lower_is lower same_codes
title = (refl, refl)

capital : Spells "RETRY-AFTER"
unfolding lower_is lower same_codes
capital = (refl, refl)

get_by-AtMost :
    (v : HeaderValue) (get : String → Option HeaderValue)
    → ((wanted : String) → Spells wanted → AtMost v (get wanted))
    → AtMost v (get_by get)
get_by-AtMost v get h =
    first_present-AtMost v (present (get "retry-after"))
      (first_present (present (get "Retry-After")) (present (get "RETRY-AFTER")))
      (present-AtMost v (get "retry-after") (h "retry-after" small))
      (first_present-AtMost v (present (get "Retry-After")) (present (get "RETRY-AFTER"))
        (present-AtMost v (get "Retry-After") (h "Retry-After" title))
        (present-AtMost v (get "RETRY-AFTER") (h "RETRY-AFTER" capital)))

get_by-none :
    (get : String → Option HeaderValue)
    → ((wanted : String) → Spells wanted → get wanted ≡ none)
    → get_by get ≡ none
get_by-none get h =
    rw (h "retry-after" small) (rw (h "Retry-After" title) (rw (h "RETRY-AFTER" capital) refl))

values_of_spelling :
    (wanted : String) (h : List (String × HeaderValue))
    → Spells wanted
    → values_of wanted h ≡ values_of "retry-after" h
unfolding values_of lower_is
values_of_spelling wanted [] spells = refl
values_of_spelling wanted ((n, w) ∷ h) spells =
    rw (ap (same_codes (lower n)) spells.1) (rw (values_of_spelling wanted h spells) refl)

-- What the headers hold under the name: nothing, or one value in one entry.
abbrev pub Names : List (String × HeaderValue) → Option HeaderValue → Type 0
Names h none = Lacks h
Names h (some v) =
    (before : List (String × HeaderValue)) × (after : List (String × HeaderValue)) × (name : String)
    × (h ≡ before ++ (name, v) ∷ after)
    × Lacks before
    × (lower_is name "retry-after" ≡ true)
    × Lacks after

-- The three kinds of headers that hold the entries.
abbrev pub Carries : Headers → List (String × HeaderValue) → Type 0
Carries headers h = (headers ≡ httpx_headers h) ⊎ (headers ≡ plain_dict h) ⊎ (headers ≡ pairs h)

-- All three ways of the search find it.
abbrev FindsAll : List (String × HeaderValue) → Option HeaderValue → Type 0
FindsAll h o =
    (find_retry_after (httpx_headers h) ≡ o)
    × (find_retry_after (plain_dict h) ≡ o)
    × (find_retry_after (pairs h) ≡ o)

by_get :
    (v : HeaderValue) (get : String → Option HeaderValue) (m : Option HeaderValue)
    → ((wanted : String) → Spells wanted → AtMost v (get wanted))
    → m ≡ some v
    → first_present (get_by get) m ≡ some v
by_get v get m h e =
    ap (first_present (get_by get)) e ∙ first_present-match v (get_by get) (get_by-AtMost v get h)

sole-FindsAll :
    (before after : List (String × HeaderValue)) (name : String) (v : HeaderValue)
    → Lacks before
    → lower_is name "retry-after" ≡ true
    → Lacks after
    → FindsAll (before ++ (name, v) ∷ after) (some v)
unfolding find_retry_after joined
sole-FindsAll before after name v lacks is_name none_after =
    let h = before ++ (name, v) ∷ after in
    let matched = first_match-sole before after name v lacks is_name in
    (
      by_get v (λ wanted. joined (values_of wanted h)) (first_match h)
          (λ wanted spells. inr (
            ap joined (
              values_of_spelling wanted h spells
              ∙ values_of-sole before after name v lacks is_name none_after)))
          matched,
      by_get v (λ wanted. dict_get wanted h) (first_match h)
          (λ wanted spells. dict_get-sole wanted before after name v spells lacks none_after)
          matched,
      matched,
    )

lacking-FindsAll : (h : List (String × HeaderValue)) → Lacks h → FindsAll h none
unfolding find_retry_after joined
lacking-FindsAll h lacks =
    let matched = first_match-Lacks h lacks in
    (
      ap (λ o. first_present o (first_match h))
            (get_by-none (λ wanted. joined (values_of wanted h))
              (λ wanted spells.
                ap joined (values_of_spelling wanted h spells ∙ values_of-Lacks h lacks)))
          ∙ matched,
      ap (λ o. first_present o (first_match h))
            (get_by-none (λ wanted. dict_get wanted h)
              (λ wanted spells. dict_get-Lacks wanted h spells lacks))
          ∙ matched,
      matched,
    )

Names-FindsAll :
    (h : List (String × HeaderValue)) (o : Option HeaderValue) → Names h o → FindsAll h o
Names-FindsAll h none lacks = lacking-FindsAll h lacks
Names-FindsAll h (some v) (before, after, name, e, lacks, is_name, none_after) =
    subst (λ g. FindsAll g (some v)) (sym e)
      (sole-FindsAll before after name v lacks is_name none_after)

found-Asked :
    (given : Headers) (o : Option HeaderValue)
    → find_retry_after given ≡ o
    → Asked o (extract_retry_after given)
unfolding extract_retry_after
found-Asked given o e = subst (λ f. Asked o (parse_or_default f)) (sym e) (default-Asked o)

-- In headers of any of the three kinds that have the entry once, at any place and in any mixture of
-- cases, the cooldown is what its value asks for: a finite number is cut to whole seconds, and to one
-- second at the least, an infinite one escapes as OverflowError, and all else is 60 seconds, as it is
-- without such an entry.
pub extract_retry_after-Asked :
    (headers : Headers) (h : List (String × HeaderValue)) (o : Option HeaderValue)
    → Carries headers h
    → Names h o
    → Asked o (extract_retry_after headers)
extract_retry_after-Asked headers h o kind names =
    let all = Names-FindsAll h o names in
    elim kind [
      | inl e ↦ found-Asked headers o (ap find_retry_after e ∙ all.0)
      | inr (inl e) ↦ found-Asked headers o (ap find_retry_after e ∙ all.1)
      | inr (inr e) ↦ found-Asked headers o (ap find_retry_after e ∙ all.2)
    ]
