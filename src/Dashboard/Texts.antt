-- ===== src/Dashboard/Texts.antt =====
-- app/api/dashboard_routes.py: the filters of the tables, the clean-up of the form fields, and the
-- texts of the flash messages.
use Prim.Native.String.{◌++◌ as append}
use ollama_proxy.Prelude.{
  ℕ, ◌-◌, String, Bool, true, false, ◌||◌, Option, none, some, List, str_eq, if◌then◌else◌, or_else,
  keep, count,
}
use ollama_proxy.Python.{decimal, strip}
use ollama_proxy.Exec.{Exception}
use ollama_proxy.Models.{ApiKey, value}
use ollama_proxy.OllamaClient.Probe.{ProbeResult}
use ollama_proxy.KeysOps.{ApiKeyHealth, Overall, ok, degraded, down}
use ollama_proxy.AdminKeys.{ApiKeyOut}
use ollama_proxy.DashboardAuth.{Flash}
use ollama_proxy.DashboardAuth.Guard.{Request, FormValue, text, file, lookup}

abbrev pub is_valid_status : String → Bool
is_valid_status status =
    str_eq status "active" || str_eq status "depleted" || str_eq status "disabled"

-- The filter of the table: `all`, a status, or the default.
unfoldable pub current_status : String → String
current_status status = if str_eq status "all" || is_valid_status status then status else "active"

unfoldable pub shown_keys : String → List ApiKeyOut → List ApiKeyOut
shown_keys current keys =
    if str_eq current "all" then keys else keep (λ k. str_eq (value k.status) current) keys

-- `given or None`
abbrev pub or_none : String → Option String
or_none given = if str_eq given "" then none else some given

abbrev pub stripped_or_none : String → Option String
stripped_or_none given = or_none (strip given)

abbrev pub overall_text : Overall → String
overall_text ok = "ok"
overall_text degraded = "degraded"
overall_text down = "down"

-- `a_level if condition else "error"`
abbrev pub level_if : Bool → String
level_if good = if good then "ok" else "error"

abbrev pub key_text : ℕ → String → String
key_text key_id tail = append "key " (append (decimal key_id) tail)

unfoldable pub health_text : ApiKeyHealth → String
unfolding decimal
health_text health = append "health: " (
    append (overall_text health.status) (
      append " (active=" (
        append (decimal health.active_keys) (
          append ", depleted=" (
            append (decimal health.depleted_keys)
              (append ", disabled=" (append (decimal health.disabled_keys) ")")))))))

unfoldable pub reset_text : ApiKeyHealth → String
unfolding decimal
reset_text health = append "reset: status=" (
    append (overall_text health.status) (
      append " active=" (
        append (decimal health.active_keys) (
          append " depleted=" (
            append (decimal health.depleted_keys)
              (append " disabled=" (decimal health.disabled_keys)))))))

-- How many of the results are ok.
abbrev pub count_ok : List (ApiKey × ProbeResult) → ℕ
count_ok = count (λ pair. pair.1.ok)

unfoldable pub test_all_text : ℕ → ℕ → String
unfolding decimal
test_all_text total good = append "test-all: total=" (
    append (decimal total)
      (append " ok=" (append (decimal good) (append " fail=" (decimal (total - good))))))

abbrev bool_text : Bool → String
bool_text true = "True"
bool_text false = "False"

abbrev code_text : Option ℕ → String
unfolding decimal
code_text none = "None"
code_text (some code) = decimal code

abbrev error_tail : (Exception → String) → Option Exception → String
error_tail error_text none = ""
error_tail error_text (some e) =
    if str_eq (error_text e) "" then "" else append " error=" (error_text e)

unfoldable pub test_text : (Exception → String) → ℕ → ProbeResult → String
unfolding decimal
test_text error_text key_id result =
    append
      (key_text key_id (
        append ": ok="
          (append (bool_text result.ok) (append " status_code=" (code_text result.status_code)))))
      (error_tail error_text result.error)

-- `form.get("_method", "patch")`
abbrev pub method_of : Request → FormValue
method_of request = or_else (lookup "_method" request.form) (text "patch")

abbrev pub is_patch : FormValue → Bool
is_patch (text method) = str_eq method "patch"
is_patch (file shown) = false

abbrev pub method_text : FormValue → String
method_text (text method) = method
method_text (file shown) = shown

-- A status that is given and that is none of the three.
abbrev pub bad_status : Option String → Option String
bad_status none = none
bad_status (some status) = if is_valid_status status then none else some status

unfoldable pub bad_status_text : (String → String) → String → String
bad_status_text repr status =
    append "invalid status "
      (append (repr status) "; expected one of ['active', 'depleted', 'disabled']")

-- What follows "NEW_KEY::" in a flash, if it starts so.
abbrev pub without_prefix : String → String → Option String
without_prefix String.[] rest = some rest
without_prefix (String.◌∷◌ c s) String.[] = none
without_prefix (String.◌∷◌ c s) (String.◌∷◌ d rest) =
    let found = without_prefix s rest in
    if str_eq (String.◌∷◌ c "") (String.◌∷◌ d "") then found else none

abbrev pub new_key_mark : String
new_key_mark = "NEW_KEY::"

abbrev pub marked_in : String → Option Flash → Option String
marked_in mark none = none
marked_in mark (some flash) = without_prefix mark flash.msg
