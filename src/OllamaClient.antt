-- ===== src/OllamaClient.antt =====
-- app/services/ollama_client.py: requests to the upstream and the exceptions they end in. The HTTP
-- client is a parameter, given by what a call of it ends in.
pub mod Probe
use Prim.Native.String.{◌++◌}
use ollama_proxy.Prelude.{
  ℕ, zero, String, Bool, ◌&&◌, Option, none, some, List, [], ◌∷◌, leb, ltb, str_eq, if◌then◌else◌,
}
use ollama_proxy.Prelude.Int.{ℤ}
use ollama_proxy.Exec.{
  Exception, Result, returned, raised, transport_error, value_error, type_error,
}
use ollama_proxy.Python.{
  Json, Items, Fields, null, bool_false, bool_true, int, float, str, array, dict, nil, cons, end,
  field, finite, get,
}

-- An `httpx.Response`: `payload` is nothing where `.json()` raises ValueError.
pub record UpstreamResponse : Type 0 where
  pub status_code : ℕ
  pub headers : List (String × String)
  pub payload : Option Json
  pub content : String

-- What `self._http.post` or `.get` ends in. `httpx.TimeoutException` is an `httpx.RequestError`.
pub data HttpResult : Type 0 where
  answered : UpstreamResponse → HttpResult
  request_error : HttpResult
  os_error : HttpResult
  other_error : Exception → HttpResult

pub record HttpRequest : Type 0 where
  pub url : String
  pub authorization : String
  pub accept : String

-- `_wrap_low_level_oserror` turns a raw OSError into an `httpx.RequestError`.
unfoldable pub wrap_low_level_oserror : HttpResult → Result UpstreamResponse
wrap_low_level_oserror (answered response) = returned response
wrap_low_level_oserror request_error = raised transport_error
wrap_low_level_oserror os_error = raised transport_error
wrap_low_level_oserror (other_error e) = raised e

unfoldable pub chat_request : String → String → Bool → HttpRequest
chat_request base_url key stream = record {
  url = base_url ++ "/v1/chat/completions";
  authorization = "Bearer " ++ key;
  accept = if stream then "text/event-stream" else "application/json";
}

unfoldable pub chat_completion :
    (HttpRequest → HttpResult) → String → String → Bool → Result UpstreamResponse
unfolding chat_request wrap_low_level_oserror
chat_completion post base_url key stream =
    wrap_low_level_oserror (post (chat_request base_url key stream))

abbrev pub get_request : String → String → String → HttpRequest
get_request base_url path key = record {
  url = base_url ++ path;
  authorization = "Bearer " ++ key;
  accept = "application/json";
}

-- How a call ends whose code is looked at by `raise_for_status`: with a value, with an
-- HTTPStatusError that carries the response, or with another exception.
pub data Checked (A : Type 0) : Type 0 where
  passed : A → Checked A
  unhappy : UpstreamResponse → Checked A
  failed : Exception → Checked A

abbrev pub is_success : ℕ → Bool
is_success code = leb 200 code && ltb code 300

-- `response.raise_for_status()`, then `response.json()`
unfoldable pub checked_json : Result UpstreamResponse → Checked Json
checked_json (raised e) = failed e
checked_json (returned response) =
    if is_success response.status_code
    then (elim response.payload [ none ↦ failed value_error | some payload ↦ passed payload ])
    else unhappy response

abbrev named : Option Json → List String → List String
named (some (str name)) rest = if str_eq name "" then rest else name ∷ rest
named _ rest = rest

-- The loop over `data`, a list: the id of an entry that is an object, an entry that is a text.
abbrev pub ids_of_items : Items → List String
ids_of_items nil = []
ids_of_items (cons (dict fields) rest) = named (get fields "id") (ids_of_items rest)
ids_of_items (cons (str name) rest) = named (some (str name)) (ids_of_items rest)
ids_of_items (cons _ rest) = ids_of_items rest

-- The loop over an object goes through its keys, and over a text through its characters.
abbrev pub ids_of_keys : Fields → List String
ids_of_keys end = []
ids_of_keys (field name value rest) = named (some (str name)) (ids_of_keys rest)

abbrev pub ids_of_text : String → List String
ids_of_text String.[] = []
ids_of_text (String.◌∷◌ c s) = String.◌∷◌ c "" ∷ ids_of_text s

-- `payload.get("data") or []`, and the loop over it: a number that is not zero has no iterator.
abbrev pub ids_of_data : Option Json → Checked (List String)
ids_of_data none = passed []
ids_of_data (some null) = passed []
ids_of_data (some bool_false) = passed []
ids_of_data (some bool_true) = failed type_error
ids_of_data (some (int (ℤ.pos zero))) = passed []
ids_of_data (some (int n)) = failed type_error
ids_of_data (some (float (finite (ℤ.pos zero) zero))) = passed []
ids_of_data (some (float x)) = failed type_error
ids_of_data (some (str s)) = passed (ids_of_text s)
ids_of_data (some (array items)) = passed (ids_of_items items)
ids_of_data (some (dict fields)) = passed (ids_of_keys fields)

abbrev pub ids_of_payload : Checked Json → Checked (List String)
ids_of_payload (passed (dict fields)) = ids_of_data (get fields "data")
ids_of_payload (passed _) = passed []
ids_of_payload (unhappy response) = unhappy response
ids_of_payload (failed e) = failed e

unfoldable pub list_models_v1 : (HttpRequest → HttpResult) → String → String → Checked (List String)
unfolding wrap_low_level_oserror checked_json get
list_models_v1 http base_url key =
    ids_of_payload
      (checked_json (wrap_low_level_oserror (http (get_request base_url "/v1/models" key))))

-- GET /api/tags, which no route asks for.
unfoldable pub list_tags : (HttpRequest → HttpResult) → String → String → Result UpstreamResponse
unfolding wrap_low_level_oserror
list_tags http base_url key = wrap_low_level_oserror (http (get_request base_url "/api/tags" key))

abbrev pub object_of : Checked Json → Checked Fields
object_of (passed (dict fields)) = passed fields
object_of (passed _) = passed end
object_of (unhappy response) = unhappy response
object_of (failed e) = failed e

unfoldable pub get_account : (HttpRequest → HttpResult) → String → String → Checked Fields
unfolding wrap_low_level_oserror checked_json
get_account post base_url key =
    object_of (checked_json (wrap_low_level_oserror (post (get_request base_url "/api/me" key))))

unfoldable pub get_usage : (HttpRequest → HttpResult) → String → String → Checked Fields
unfolding wrap_low_level_oserror checked_json
get_usage http base_url key =
    object_of (checked_json (wrap_low_level_oserror (http (get_request base_url "/api/usage" key))))
