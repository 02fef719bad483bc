-- ===== src/OllamaClient/Probe.antt =====
-- `probe` of app/services/ollama_client.py: a key tried with a minimal request. How long it took is
-- left out.
use Prim.Native.String.{◌++◌}
use ollama_proxy.Prelude.{
  ℕ, String, Bool, false, Option, none, some, List, [], ◌∷◌, str_eq, if◌then◌else◌,
}
use ollama_proxy.Exec.{Exception, Result, returned, raised, transport_error, value_error}
use ollama_proxy.KeyManager.RetryAfter.{lower_is}
use ollama_proxy.OllamaClient.{
  UpstreamResponse, HttpRequest, HttpResult, answered, request_error, os_error, other_error,
  chat_request, is_success,
}

-- An `ApiKeyTestResult`.
pub record ProbeResult : Type 0 where
  pub ok : Bool
  pub status_code : Option ℕ
  pub ratelimit_headers : List (String × String)
  pub error : Option Exception

abbrev pub ratelimit_header_names : List String
ratelimit_header_names =
    "x-ratelimit-limit" ∷ "x-ratelimit-remaining" ∷ "x-ratelimit-reset" ∷ "x-ratelimit-policy"
    ∷ "x-ratelimit-account" ∷ "ratelimit-limit" ∷ "ratelimit-remaining" ∷ "ratelimit-reset"
    ∷ "retry-after" ∷ []

-- `httpx.Headers.get`: the values of a repeated header, joined by commas.
abbrev pub header_values : String → List (String × String) → List String
header_values name [] = []
header_values name ((n, v) ∷ rest) =
    let later = header_values name rest in if lower_is n name then v ∷ later else later

abbrev pub join_values : List String → Option String
join_values [] = none
join_values (v ∷ []) = some v
join_values (v ∷ w ∷ vs) = elim (join_values (w ∷ vs)) [
  | none ↦ some v
  | some rest ↦ some (v ++ ", " ++ rest)
]

abbrev pub with_header : String → Option String → List (String × String) → List (String × String)
with_header name none out = out
with_header name (some value) out = (name, value) ∷ out

abbrev pub extract_from : List String → List (String × String) → List (String × String)
extract_from [] headers = []
extract_from (name ∷ names) headers =
    with_header name (join_values (header_values name headers)) (extract_from names headers)

unfoldable pub extract_ratelimit_headers : List (String × String) → List (String × String)
unfolding lower_is
extract_ratelimit_headers headers = extract_from ratelimit_header_names headers

abbrev pub failed_probe : Exception → ProbeResult
failed_probe e = record { ok = false; status_code = none; ratelimit_headers = []; error = some e }

abbrev pub answered_probe : UpstreamResponse → ProbeResult
answered_probe response = record {
  ok = is_success response.status_code;
  status_code = some response.status_code;
  ratelimit_headers = extract_ratelimit_headers response.headers;
  error = none;
}

-- Both handlers: what httpx raises, and what it lets through from below.
abbrev pub probe_result : HttpResult → Result ProbeResult
probe_result (answered response) = returned (answered_probe response)
probe_result request_error = returned (failed_probe transport_error)
probe_result os_error = returned (failed_probe transport_error)
probe_result (other_error e) = raised e

unfoldable pub probe : (HttpRequest → HttpResult) → String → String → String → Result ProbeResult
unfolding chat_request extract_ratelimit_headers
probe post base_url key model =
    if str_eq model ""
    then raised value_error
    else probe_result (post (chat_request base_url key false))
