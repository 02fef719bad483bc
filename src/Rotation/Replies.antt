-- ===== src/Rotation/Replies.antt =====
-- The answers that the rotation builds, and what it takes from an upstream's answer:
-- `_safe_headers`, `_json_error`, `_build_success_response`, `_parse_usage_from_response`.
use ollama_proxy.Prelude.{
  ℕ, String, Bool, true, false, ◌||◌, Option, none, some, List, [], ◌∷◌, if◌then◌else◌, keep, not,
}
use ollama_proxy.Prelude.Int.{ℤ}
use ollama_proxy.Python.{Json, dict, Fields, get, as_int}
use ollama_proxy.KeyManager.RetryAfter.{lower_is}
use ollama_proxy.OllamaClient.{UpstreamResponse}

pub data Content : Type 0 where
  detail : String → Content
  body : String → Content
  streamed : String → Content

pub record Response : Type 0 where
  pub status_code : ℕ
  pub media_type : String
  pub headers : List (String × String)
  pub content : Content

-- `_BLOCKED_UPSTREAM_HEADERS`, then `_TRANSPORT_HEADERS`.
abbrev pub blocked_headers : List String
blocked_headers =
    "server" ∷ "x-powered-by" ∷ "x-aspnet-version" ∷ "x-aspnetmvc-version" ∷ "content-length"
    ∷ "content-encoding" ∷ "transfer-encoding" ∷ []

abbrev any_is : List String → String → Bool
any_is [] name = false
any_is (b ∷ bs) name = lower_is name b || any_is bs name

unfoldable pub blocked : String → Bool
unfolding lower_is
blocked name = any_is blocked_headers name

-- The names that `.items()` gives are distinct, so a dict keeps each entry where it stands.
unfoldable pub safe_headers : List (String × String) → List (String × String)
unfolding blocked
safe_headers = keep (λ h. not (blocked h.0))

-- `headers.get(name, default)`, in any case
unfoldable pub header_or : String → String → List (String × String) → String
unfolding lower_is
header_or name fallback [] = fallback
header_or name fallback ((n, v) ∷ rest) =
    if lower_is n name then v else header_or name fallback rest

unfoldable pub json_error : ℕ → String → Response
json_error status_code text = record {
  status_code = status_code;
  media_type = "application/json";
  headers = [];
  content = detail text;
}

unfoldable pub build_success_response : UpstreamResponse → Bool → Response
unfolding safe_headers header_or
build_success_response response true = record {
  status_code = response.status_code;
  media_type = header_or "content-type" "text/event-stream" response.headers;
  headers = safe_headers response.headers;
  content = streamed response.content;
}
build_success_response response false = record {
  status_code = response.status_code;
  media_type = header_or "content-type" "application/json" response.headers;
  headers = safe_headers response.headers;
  content = body response.content;
}

abbrev pub Usage : Type 0
Usage = Option ℤ × Option ℤ

-- The Ollama-native shape, tried last.
abbrev native_usage : Fields → Usage
native_usage payload = (as_int (get payload "prompt_eval_count"), as_int (get payload "eval_count"))

abbrev either_known : Usage → Usage → Usage
either_known (none, none) other = other
either_known (some p, c) other = (some p, c)
either_known (none, some c) other = (none, some c)

-- `isinstance(usage, dict)`
abbrev usage_in : Option Json → Usage
usage_in (some (dict usage)) =
    (as_int (get usage "prompt_tokens"), as_int (get usage "completion_tokens"))
usage_in _ = (none, none)

abbrev usage_of_payload : Option Json → Usage
usage_of_payload (some (dict payload)) =
    either_known (usage_in (get payload "usage")) (native_usage payload)
usage_of_payload _ = (none, none)

unfoldable pub parse_usage_from_response : UpstreamResponse → Usage
unfolding get as_int
parse_usage_from_response response = usage_of_payload response.payload
