-- ===== src/Python.antt =====
-- Values of Python that reach the services from outside: floats and decoded JSON.
use Prim.Native.Char.{Char, code}
use Prim.Native.Nat.{◌^◌}
use Prim.Native.String.{◌++◌ as append}
use ollama_proxy.Prelude.{
  Bool, true, false, not, ◌&&◌, ◌||◌, leb, ltb, ◌==◌, ℕ, zero, suc, ◌+◌, ◌*◌, ◌/◌, ◌%◌, String,
  Option, none, some, List, [], ◌∷◌, get_elem?, or_else, str_eq, if◌then◌else◌,
}
use ollama_proxy.Prelude.Int.{ℤ}
use ollama_proxy.Exec.{Result, returned, raised, value_error, overflow_error}

-- A finite float is its truncation towards zero, with a code for the fraction behind it: the
-- program looks at no more than `int(x)`, and hands the float on.
pub data Float : Type 0 where
  finite : ℤ → ℕ → Float
  infinite nan : Float

-- `int(x)`
unfoldable pub int_of_float : Float → Result ℤ
int_of_float (finite n _) = returned n
int_of_float infinite = raised overflow_error
int_of_float nan = raised value_error

-- `float(n)`: 53 bits of the number, rounded to the even neighbour, where it does not fit. The
-- number is halved at most 971 times, since past that it is too large for a float.
abbrev round_to : ℕ → ℕ → ℕ
round_to u n =
    let q = n / u in
    let twice = 2 * (n % u) in
    if ltb u twice || (twice == u && q % 2 == 1) then (q + 1) * u else q * u

abbrev unit_of : ℕ → ℕ → ℕ → ℕ
unit_of zero u n = u
unit_of (suc fuel) u n = elim (ltb (n / u) (2 ^ 53)) [ true ↦ u | false ↦ unit_of fuel (2 * u) n ]

abbrev float_of_nat : ℕ → Option ℕ
float_of_nat n =
    let rounded = round_to (unit_of 971 1 n) n in
    if ltb rounded (2 ^ 1024) then some rounded else none

abbrev negative : ℕ → ℤ
negative zero = ℤ.pos 0
negative (suc n) = ℤ.negsuc n

unfoldable pub float_of_int : ℤ → Result Float
float_of_int (ℤ.pos n) = elim (float_of_nat n) [
  | none ↦ raised overflow_error
  | some m ↦ returned (finite (ℤ.pos m) 0)
]
float_of_int (ℤ.negsuc n) = elim (float_of_nat (suc n)) [
  | none ↦ raised overflow_error
  | some m ↦ returned (finite (negative m) 0)
]

-- What `json.loads` gives. Booleans are integers to `isinstance(x, int)`.
mutual
  pub data Json : Type 0 where
    null : Json
    bool_false bool_true : Json
    int : ℤ → Json
    float : Float → Json
    str : String → Json
    array : Items → Json
    dict : Fields → Json

  pub data Items : Type 0 where
    nil : Items
    cons : Json → Items → Items

  pub data Fields : Type 0 where
    end : Fields
    field : String → Json → Fields → Fields

-- `d.get(key)` on a decoded object: `json.loads` keeps the last of equal keys, so keys occur once.
unfoldable pub get : Fields → String → Option Json
get end key = none
get (field name value rest) key = if str_eq name key then some value else get rest key

-- `bool(x)`
unfoldable pub is_truthy : Json → Bool
is_truthy null = false
is_truthy bool_false = false
is_truthy bool_true = true
is_truthy (int (ℤ.pos zero)) = false
is_truthy (int _) = true
is_truthy (float (finite (ℤ.pos zero) zero)) = false
is_truthy (float _) = true
is_truthy (str text) = not (str_eq text "")
is_truthy (array nil) = false
is_truthy (array (cons _ _)) = true
is_truthy (dict end) = false
is_truthy (dict (field _ _ _)) = true

-- `x if isinstance(x, int) else None`, with `int(True) == 1`.
unfoldable pub as_int : Option Json → Option ℤ
as_int (some (int n)) = some n
as_int (some bool_true) = some (ℤ.pos 1)
as_int (some bool_false) = some (ℤ.pos 0)
as_int _ = none

-- `str.isspace`, for one character.
abbrev pub is_space : Char → Bool
is_space c =
    let n = code c in
    (leb 9 n && leb n 13)
    || (leb 28 n && leb n 32)
    || n == 133
    || n == 160
    || n == 5760
    || (leb 8192 n && leb n 8202)
    || n == 8232
    || n == 8233
    || n == 8239
    || n == 8287
    || n == 12288

abbrev pub lstrip : String → String
lstrip String.[] = ""
lstrip (String.◌∷◌ c s) = let rest = lstrip s in if is_space c then rest else String.◌∷◌ c s

abbrev pub rstrip : String → String
rstrip String.[] = ""
rstrip (String.◌∷◌ c s) =
    let rest = rstrip s in if is_space c && str_eq rest "" then "" else String.◌∷◌ c rest

-- `text.strip()`
abbrev pub strip : String → String
strip text = rstrip (lstrip text)

-- `str(n)`
abbrev digits : List String
digits = "0" ∷ "1" ∷ "2" ∷ "3" ∷ "4" ∷ "5" ∷ "6" ∷ "7" ∷ "8" ∷ "9" ∷ []

abbrev digit : ℕ → String
digit n = or_else (get_elem? digits n) ""

abbrev decimal_onto : ℕ → ℕ → String → String
decimal_onto zero n rest = rest
decimal_onto (suc fuel) n rest = elim (n / 10) [
  | zero ↦ append (digit (n % 10)) rest
  | suc m ↦ decimal_onto fuel (suc m) (append (digit (n % 10)) rest)
]

unfoldable pub decimal : ℕ → String
decimal n = decimal_onto (suc n) n ""
