-- ===== src/DashboardClient.antt =====
-- app/services/dashboard_client.py: the administration over HTTP. `httpx` is a parameter: what a request
-- of the client ends in. No method sends query parameters.
pub mod Tests
use Prim.Native.Char.{Char, code}
use Prim.Native.String.{◌++◌ as append}
use ollama_proxy.Prelude.{
  ℕ, String, Bool, true, false, not, ◌&&◌, ◌==◌, Option, none, some, str_eq, if◌then◌else◌,
}
use ollama_proxy.Exec.{Exception, Result, returned, raised, value_error}
use ollama_proxy.Python.{
  Json, Items, Fields, null, str, array, dict, nil, cons, end, field, decimal,
}
use ollama_proxy.OllamaClient.{UpstreamResponse, is_success}

-- `entered` says whether there is an `httpx.AsyncClient`.
pub record DashboardClient : Type 0 where
  pub base_url : String
  pub admin_token : String
  pub entered : Bool

pub record Request : Type 0 where
  pub method : String
  pub path : String
  pub body : Option Json

-- The exception of the same name, with its three fields.
pub record DashboardClientError : Type 0 where
  pub status_code : ℕ
  pub body : Json
  pub endpoint : String

-- How a method ends.
pub data Reply (A : Type 0) : Type 0 where
  got : A → Reply A
  client_error : DashboardClientError → Reply A
  not_entered : Reply A
  other_error : Exception → Reply A

abbrev longer : Char → String → String
longer c rest = if str_eq rest "" && code c == 47 then "" else String.◌∷◌ c rest

-- `base_url.rstrip("/")`
abbrev pub rstrip_slash : String → String
rstrip_slash String.[] = ""
rstrip_slash (String.◌∷◌ c s) = longer c (rstrip_slash s)

-- `given` says whether the caller hands over a client.
unfoldable pub init : String → String → Bool → Result DashboardClient
init base_url admin_token given =
    if str_eq admin_token ""
    then raised value_error
    else returned
        (record { base_url = rstrip_slash base_url; admin_token = admin_token; entered = given })

unfoldable pub enter : DashboardClient → DashboardClient
enter client = record client { entered = true }

unfoldable pub exit : DashboardClient → DashboardClient
exit client = record client { entered = false }

abbrev pub error : {A : Type 0} → ℕ → Json → Request → Reply A
error code body request = client_error (record {
  status_code = code;
  body = body;
  endpoint = append request.method (append " " request.path);
})

-- `resp.json()`, or `resp.text` where it raises ValueError.
abbrev pub body_of : UpstreamResponse → Json
body_of response = elim response.payload [ none ↦ str response.content | some body ↦ body ]

abbrev pub if_structured : ℕ → Request → Json → Reply (Option Json)
if_structured code request (dict fields) = got (some (dict fields))
if_structured code request (array items) = got (some (array items))
if_structured code request body = error code body request

abbrev pub replied : Request → Result UpstreamResponse → Reply (Option Json)
replied request (raised e) = other_error e
replied request (returned response) =
    if response.status_code == 204
    then got none
    else if is_success response.status_code
    then if_structured response.status_code request (body_of response)
    else error response.status_code (body_of response) request

abbrev pub path_of : ℕ → String → String
unfolding decimal
path_of key_id tail = append "/admin/keys/" (append (decimal key_id) tail)

abbrev objects : Items → Items
objects nil = nil
objects (cons (dict fields) rest) = cons (dict fields) (objects rest)
objects (cons value rest) = objects rest

-- The answer of the list, which has to be an array.
abbrev pub listed : Reply (Option Json) → Reply Items
listed (got (some (array items))) = got (objects items)
listed (got (some body)) =
    error 200 body (record { method = "GET"; path = "/admin/keys"; body = none })
listed (got none) = error 200 null (record { method = "GET"; path = "/admin/keys"; body = none })
listed (client_error e) = client_error e
listed not_entered = not_entered
listed (other_error e) = other_error e

abbrev pub text_or_null : Option String → Json
text_or_null none = null
text_or_null (some text) = str text

abbrev pub with_given : String → Option String → Fields → Fields
with_given name none rest = rest
with_given name (some text) rest = field name (str text) rest

module _ (client : DashboardClient) (send : Request → Result UpstreamResponse) where
  -- `_request_json`, with `_require`
  unfoldable pub request_json : String → String → Option Json → Reply (Option Json)
  request_json method path body =
      let request : Request = record { method = method; path = path; body = body } in
      if client.entered then replied request (send request) else not_entered

  unfoldable pub list_keys : Reply Items
  unfolding request_json
  list_keys = listed (request_json "GET" "/admin/keys" none)

  unfoldable pub get_key : ℕ → Reply (Option Json)
  get_key key_id = request_json "GET" (path_of key_id "") none

  unfoldable pub create_key : Option String → String → Reply (Option Json)
  create_key label raw_key =
      request_json "POST" "/admin/keys"
        (some (dict (field "label" (text_or_null label) (field "key" (str raw_key) end))))

  unfoldable pub update_key : ℕ → Option String → Option String → Reply (Option Json)
  update_key key_id label status =
      request_json "PATCH" (path_of key_id "")
        (some (dict (with_given "label" label (with_given "status" status end))))

  unfoldable pub delete_key : ℕ → Reply (Option Json)
  delete_key key_id = request_json "DELETE" (path_of key_id "") none

  unfoldable pub test_key : ℕ → Reply (Option Json)
  test_key key_id = request_json "POST" (path_of key_id "/test") none

  unfoldable pub test_all_keys : Reply (Option Json)
  test_all_keys = request_json "POST" "/admin/keys/test-all" none

  unfoldable pub reset_states : Reply (Option Json)
  reset_states = request_json "POST" "/admin/keys/reset-states" none

  unfoldable pub health : Reply (Option Json)
  health = request_json "GET" "/admin/health" none

  unfoldable pub get_key_usage : ℕ → Reply (Option Json)
  get_key_usage key_id = request_json "GET" (path_of key_id "/usage") none

  unfoldable pub refresh_key_usage : ℕ → Reply (Option Json)
  refresh_key_usage key_id = request_json "POST" (path_of key_id "/usage/refresh") none

  unfoldable pub refresh_all_usage : Reply (Option Json)
  refresh_all_usage = request_json "POST" "/admin/keys/usage/refresh-all" none
