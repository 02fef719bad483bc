-- ===== src/Logging.antt =====
-- app/core/logging.py: the masking of the secrets in a log record. What is bound to a record is taken
-- as JSON data. `str(value)`, `str.lower` and the substitution in the text of the message are parameters.
pub mod Paths
pub mod Masking
pub mod Tests
use ollama_proxy.Prelude.{
  ℕ, zero, suc, String, Bool, true, false, ◌||◌, Option, none, some, leb, str_eq, if◌then◌else◌,
}
use ollama_proxy.Python.{Json, Items, Fields, null, str, array, dict, nil, cons, end, field}

abbrev pub is_forbidden : String → Bool
is_forbidden name =
    str_eq name "key_hash"
    || str_eq name "raw_key"
    || str_eq name "api_key"
    || str_eq name "authorization"
    || str_eq name "secret"
    || str_eq name "password"
    || str_eq name "bearer"

abbrev pub preview_len : ℕ
preview_len = 8

abbrev pub max_recursion_depth : ℕ
max_recursion_depth = 3

abbrev pub len : String → ℕ
len String.[] = 0
len (String.◌∷◌ c s) = suc (len s)

-- `s[:n]`
abbrev pub first : ℕ → String → String
first zero s = ""
first (suc n) String.[] = ""
first (suc n) (String.◌∷◌ c s) = String.◌∷◌ c (first n s)

-- `s + "…"`
abbrev pub with_ellipsis : String → String
with_ellipsis String.[] = "…"
with_ellipsis (String.◌∷◌ c s) = String.◌∷◌ c (with_ellipsis s)

abbrev pub preview_text : String → String
preview_text s =
    if str_eq s ""
    then ""
    else if leb (len s) preview_len
    then with_ellipsis s
    else with_ellipsis (first preview_len s)

-- What the patcher gets of a record.
pub record LogRecord : Type 0 where
  pub extra : Option Json
  pub message : Option String

-- `if depth >= _MAX_RECURSION_DEPTH: return`
abbrev pub unless_deep : {A : Type 0} → ℕ → A → A → A
unless_deep depth before masked = if leb max_recursion_depth depth then before else masked

module _ (show : Json → String) (lower : String → String) where
  -- `_preview`
  unfoldable pub preview : Json → String
  preview null = ""
  preview value = preview_text (show value)

  -- The loops of `_mask_dict` and `_mask_list`. An entry that is an object or a list is masked in its
  -- place, and under a forbidden name only its preview is left.
  unfoldable mutual
    unfolding preview

    pub mask_fields : ℕ → Fields → Fields
    mask_fields depth end = end
    mask_fields depth (field name value rest) =
        let nested = mask_nested depth value in
        field name (if is_forbidden (lower name) then str (preview value) else nested)
          (mask_fields depth rest)

    pub mask_items : ℕ → Items → Items
    mask_items depth nil = nil
    mask_items depth (cons value rest) = cons (mask_nested depth value) (mask_items depth rest)

    pub mask_nested : ℕ → Json → Json
    mask_nested depth (dict d) = dict (unless_deep (suc depth) d (mask_fields (suc depth) d))
    mask_nested depth (array items) = array (unless_deep depth items (mask_items depth items))
    mask_nested depth value = value

  unfoldable pub mask_dict : ℕ → Fields → Fields
  unfolding mask_fields
  mask_dict depth d = unless_deep depth d (mask_fields depth d)

  unfoldable pub mask_list : ℕ → Items → Items
  unfolding mask_items
  mask_list depth items = unless_deep depth items (mask_items depth items)

  abbrev pub mask_extra : Option Json → Option Json
  unfolding mask_dict
  mask_extra (some (dict d)) = some (dict (mask_dict 0 d))
  mask_extra extra = extra

  -- `_mask_record`
  unfoldable pub mask_record : (String → String) → LogRecord → LogRecord
  unfolding mask_dict
  mask_record redact_message record' = record {
    extra = mask_extra record'.extra;
    message = elim record'.message [ none ↦ none | some text ↦ some (redact_message text) ];
  }
