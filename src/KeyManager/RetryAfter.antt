-- ===== src/KeyManager/RetryAfter.antt =====
-- `extract_retry_after` and `_parse_retry_after_value`: the cooldown that a 429 asks for. Names
-- are ASCII, as the names of HTTP headers are.
pub mod Sole
use Prim.Native.Char.{code}
use ollama_proxy.Prelude.{
  ℕ, ◌+◌, ◌≤◌, String, ◌≡◌, refl, Bool, true, false, ◌&&◌, Option, none, some, List, [], ◌∷◌, arith,
  ◌==◌, leb, str_eq, if◌then◌else◌, max,
}
use ollama_proxy.Prelude.Int.{ℤ, pos, negsuc, pos_part}
use ollama_proxy.Exec.{Result, returned, raised, value_error, overflow_error}
use ollama_proxy.Python.{Float, finite, infinite, nan, int_of_float}

-- A header's value, with what `float(str(value))` makes of its text.
pub data HeaderValue : Type 0 where
  absent : HeaderValue
  not_a_number : HeaderValue
  number : Float → HeaderValue

-- `float(str(raw))`
abbrev float_of : HeaderValue → Result Float
float_of absent = raised value_error
float_of not_a_number = raised value_error
float_of (number x) = returned x

-- `max(1, n)`
abbrev pub at_least_one : ℤ → ℕ
at_least_one n = max 1 (pos_part n)

-- `except (TypeError, ValueError): return 60`. `int(inf)` raises OverflowError, which is neither.
abbrev sixty_unless_overflow : Result ℤ → Result ℕ
sixty_unless_overflow (returned n) = returned (at_least_one n)
sixty_unless_overflow (raised value_error) = returned 60
sixty_unless_overflow (raised e) = raised e

abbrev int_of : Result Float → Result ℤ
int_of (returned x) = int_of_float x
int_of (raised e) = raised e

unfoldable pub parse_retry_after_value : HeaderValue → Result ℕ
unfolding int_of_float
parse_retry_after_value absent = returned 60
parse_retry_after_value raw = sixty_unless_overflow (int_of (float_of raw))

-- `name.lower()`, letter by letter.
unfoldable pub lower : String → List ℕ
lower String.[] = []
lower (String.◌∷◌ c s) =
    (if leb b'A' (code c) && leb (code c) b'Z' then code c + 32 else code c) ∷ lower s

unfoldable pub same_codes : List ℕ → List ℕ → Bool
same_codes [] [] = true
same_codes (c ∷ cs) (d ∷ ds) = c == d && same_codes cs ds
same_codes _ _ = false

-- `a.lower() == b`, for a lower-case b
unfoldable pub lower_is : String → String → Bool
unfolding lower same_codes
lower_is name wanted = same_codes (lower name) (lower wanted)

-- What the callers hand over: nothing, the `httpx.Headers` of a response, a plain dict (the
-- headers kept in a probe's result), or a list of pairs.
pub data Headers : Type 0 where
  no_headers : Headers
  httpx_headers : List (String × HeaderValue) → Headers
  plain_dict : List (String × HeaderValue) → Headers
  pairs : List (String × HeaderValue) → Headers

-- Every value under the name, whatever its case.
unfoldable pub values_of : String → List (String × HeaderValue) → List HeaderValue
unfolding lower_is
values_of wanted [] = []
values_of wanted ((name, v) ∷ rest) =
    let later = values_of wanted rest in if lower_is name wanted then v ∷ later else later

-- `httpx.Headers.get` joins the values of a repeated header by commas, which is no number.
unfoldable pub joined : List HeaderValue → Option HeaderValue
joined [] = none
joined (v ∷ []) = some v
joined (v ∷ w ∷ vs) = some not_a_number

unfoldable pub dict_get : String → List (String × HeaderValue) → Option HeaderValue
dict_get wanted [] = none
dict_get wanted ((name, v) ∷ rest) = if str_eq name wanted then some v else dict_get wanted rest

-- `None` counts as missing.
abbrev pub present : Option HeaderValue → Option HeaderValue
present (some absent) = none
present o = o

abbrev pub first_present : Option HeaderValue → Option HeaderValue → Option HeaderValue
first_present none o = o
first_present (some v) o = some v

-- Path 1: `.get` under three spellings.
abbrev pub get_by : (String → Option HeaderValue) → Option HeaderValue
get_by get =
    first_present (present (get "retry-after"))
      (first_present (present (get "Retry-After")) (present (get "RETRY-AFTER")))

-- Paths 2 and 3: the first entry with that name in any case, a `None` included.
unfoldable pub first_match : List (String × HeaderValue) → Option HeaderValue
unfolding lower_is
first_match [] = none
first_match ((name, v) ∷ rest) = if lower_is name "retry-after" then some v else first_match rest

unfoldable pub find_retry_after : Headers → Option HeaderValue
unfolding values_of joined dict_get first_match
find_retry_after no_headers = none
find_retry_after (httpx_headers h) =
    first_present (get_by (λ name. joined (values_of name h))) (first_match h)
find_retry_after (plain_dict h) = first_present (get_by (λ name. dict_get name h)) (first_match h)
find_retry_after (pairs h) = first_match h

abbrev pub parse_or_default : Option HeaderValue → Result ℕ
parse_or_default none = returned 60
parse_or_default (some raw) = parse_retry_after_value raw

unfoldable pub extract_retry_after : Headers → Result ℕ
unfolding find_retry_after parse_retry_after_value
extract_retry_after headers = parse_or_default (find_retry_after headers)

-- What the header asks for, read off the value alone: a finite number is cut to whole seconds and
-- is at least one second, an infinite one escapes as OverflowError, all else is a minute.
abbrev pub Asked : Option HeaderValue → Result ℕ → Type 0
Asked (some (number (finite (pos n) _))) r = r ≡ returned (max 1 n)
Asked (some (number (finite (negsuc n) _))) r = r ≡ returned 1
Asked (some (number infinite)) r = r ≡ raised overflow_error
Asked _ r = r ≡ returned 60

pub default-Asked : (o : Option HeaderValue) → Asked o (parse_or_default o)
unfolding parse_retry_after_value
default-Asked (some (number (finite (pos n) _))) = refl
default-Asked (some (number (finite (negsuc n) _))) = refl
default-Asked (some (number infinite)) = refl
default-Asked (some (number nan)) = refl
default-Asked (some absent) = refl
default-Asked (some not_a_number) = refl
default-Asked none = refl

positive : (o : Option HeaderValue) (n : ℕ) → parse_or_default o ≡ returned n → 1 ≤ n
unfolding parse_retry_after_value
positive (some (number (finite (pos m) _))) n e = ground arith
positive (some (number (finite (negsuc m) _))) n e = ground arith
positive (some (number infinite)) n e = cc
positive (some (number nan)) n e = ground arith
positive (some absent) n e = ground arith
positive (some not_a_number) n e = ground arith
positive none n e = ground arith

-- A cooldown lasts a second at least.
pub one-le-extract_retry_after :
    (headers : Headers) (n : ℕ) → extract_retry_after headers ≡ returned n → 1 ≤ n
unfolding extract_retry_after
one-le-extract_retry_after headers n e = positive (find_retry_after headers) n e
