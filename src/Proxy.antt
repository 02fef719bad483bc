-- ===== src/Proxy.antt =====
-- app/api/v1/proxy.py: the routes of the proxy, over the model cache, the key manager and the rotation.
pub mod Fetch
pub mod Lists
pub mod Chat
pub mod Tests
use ollama_proxy.Prelude.{
  ℕ, String, Bool, true, false, ◌||◌, Option, none, some, List, [], ◌∷◌, ◌==◌, leb, str_eq,
  if◌then◌else◌, or_else, map,
}
use ollama_proxy.Exec.{
  Exec, Exception, Result, returned, raised, vault_decrypt_error, transport_error, pure, lift,
  raise, finally, ◌>>=◌, ◌>>◌,
}
use ollama_proxy.Python.{Json, Fields, dict, end}
use ollama_proxy.Models.{ApiKey}
use ollama_proxy.Vault.{Vault, safe_decrypt}
use ollama_proxy.OllamaClient.{
  UpstreamResponse, HttpRequest, HttpResult, Checked, passed, unhappy, failed, list_models_v1,
}
use ollama_proxy.KeyManager.{Pool, pick_next_key, release}
use ollama_proxy.KeyManager.RetryAfter.{HeaderValue, httpx_headers, extract_retry_after}
use ollama_proxy.KeyManager.Records.{
  record_success, record_unauthorized, record_rate_limited, record_server_error,
}
use ollama_proxy.ModelCache.{ModelCache, get as cached_models, get_stale, refresh}
use ollama_proxy.Rotation.Attempt.{Env, Body, with_floats}
use ollama_proxy.Rotation.{execute_with_rotation}
use ollama_proxy.Rotation.Replies.{Response, json_error}

-- The world of one listing: `meanwhile` is what other tasks do to the pool during the upstream call.
pub record ListEnv : Type 0 where
  pub vault : Vault
  pub base_url : String
  pub http : HttpRequest → HttpResult
  pub float_text : String → HeaderValue
  pub pick_at : ℕ
  pub record_at : ℕ
  pub meanwhile : Pool → Pool

abbrev pub fell_back : Bool × List String
fell_back = (false, [])

module _ (env : ListEnv) where
  -- The handler of HTTPStatusError.
  unfoldable pub record_unhappy : ApiKey → UpstreamResponse → Exec Pool (Bool × List String)
  record_unhappy key response =
      let code = response.status_code in
      if code == 401 || code == 403
      then (do record_unauthorized env.record_at key.id code; pure fell_back)
      else if code == 429
      then (do
        seconds ←
            lift (extract_retry_after (httpx_headers (with_floats env.float_text response.headers)))
        record_rate_limited env.record_at key.id code seconds
        pure fell_back)
      else if leb 500 code
      then (do record_server_error env.record_at key.id code; pure fell_back)
      else pure fell_back

  abbrev pub settle : ApiKey → Checked (List String) → Exec Pool (Bool × List String)
  settle key (passed model_ids) = do record_success env.record_at key.id 200; pure (true, model_ids)
  settle key (unhappy response) = record_unhappy key response
  settle key (failed transport_error) = do
    record_server_error env.record_at key.id 0
    pure fell_back
  settle key (failed e) = raise e

  abbrev pub ask_upstream : ApiKey → Result String → Exec Pool (Bool × List String)
  ask_upstream key (raised (vault_decrypt_error key_id)) s = (returned fell_back, s)
  ask_upstream key (raised e) s = (raised e, s)
  ask_upstream key (returned raw_key) s =
      settle key (list_models_v1 env.http env.base_url raw_key) (env.meanwhile s)

  abbrev pub with_picked : Option ApiKey × Pool → Result (Bool × List String) × Pool
  with_picked (none, s) = (returned fell_back, s)
  with_picked (some key, s) =
      finally (ask_upstream key (safe_decrypt env.vault key)) (release key.id) s

  unfoldable pub fetch_models_via_rotation : Exec Pool (Bool × List String)
  unfolding record_unhappy
  fetch_models_via_rotation s = with_picked (pick_next_key env.pick_at s)

  -- `_fetch` of the two listings; the cache's lock is held, so the cache is as it was.
  abbrev pub ids_or_stale : ModelCache → Result (Bool × List String) → Result (List String)
  ids_or_stale cache (returned (true, ids)) = returned ids
  ids_or_stale cache (returned (false, ids)) = returned (or_else (get_stale cache) [])
  ids_or_stale cache (raised e) = raised e

  unfoldable pub fetch : ModelCache → Exec Pool (List String)
  unfolding fetch_models_via_rotation
  fetch cache s = let (result, s') = fetch_models_via_rotation s in (ids_or_stale cache result, s')

pub record ModelInfo : Type 0 where
  pub id : String
  pub created : ℕ
  pub owned_by : String

pub record ModelTag : Type 0 where
  pub name : String
  pub model : String
  pub modified_at : String
  pub size : ℕ
  pub digest : String
  pub details : List (String × String)

abbrev pub model_info : String → ModelInfo
model_info m = record { id = m; created = 0; owned_by = "ollama" }

abbrev pub models_to_response : List String → List ModelInfo
models_to_response ids = map model_info ids

abbrev pub model_tag : String → ModelTag
model_tag m = record { name = m; model = m; modified_at = ""; size = 0; digest = ""; details = [] }

abbrev pub models_to_tags : List String → List ModelTag
models_to_tags ids = map model_tag ids

-- `_STATIC_MODELS` and `_STATIC_TAGS`, from the configured probe model or "".
abbrev pub static_models : String → List ModelInfo
static_models id = record { id = id; created = 1700000000; owned_by = "ollama" } ∷ []

abbrev pub static_tags : String → List ModelTag
static_tags id =
    record {
      name = id;
      model = id;
      modified_at = "2024-01-01T00:00:00Z";
      size = 0;
      digest = "";
      details = ("family", "minimax") ∷ ("parameter_size", "") ∷ ("quantization_level", "") ∷ [];
    }
    ∷ []

module _ {A : Type 0} (static : List A) (show : List String → List A) where
  abbrev pub shown : List String → List A
  shown [] = static
  shown (m ∷ ms) = show (m ∷ ms)

  -- `asked`, `checked` and `stored` are the moments of the looks at the clock.
  abbrev pub serve :
      ListEnv → ℕ → ℕ → Option (List String) → ModelCache × Pool → List A × ModelCache × Pool
  serve env checked stored (some cached) (c, s) = (show cached, c, s)
  serve env checked stored none (c, s) =
      let (models, c', s') = refresh checked stored (fetch env c) (c, s) in (shown models, c', s')

  unfoldable pub listing : ListEnv → ℕ → ℕ → ℕ → ModelCache × Pool → List A × ModelCache × Pool
  unfolding cached_models refresh fetch
  listing env asked checked stored (c, s) = serve env checked stored (cached_models c asked) (c, s)

abbrev pub list_models :
    String → ListEnv → ℕ → ℕ → ℕ → ModelCache × Pool → List ModelInfo × ModelCache × Pool
list_models probe_model = listing (static_models probe_model) models_to_response

abbrev pub list_tags :
    String → ListEnv → ℕ → ℕ → ℕ → ModelCache × Pool → List ModelTag × ModelCache × Pool
list_tags probe_model = listing (static_tags probe_model) models_to_tags

-- The safety net around the rotation.
abbrev pub or_503 : Result Response × Pool → Response × Pool
or_503 (returned response, s) = (response, s)
or_503 (raised e, s) = (json_error 503 "all backends failed", s)

-- The schema's validation gives the error's text, or what the rotation reads.
pub data Validated : Type 0 where
  invalid : String → Validated
  valid : Body → Validated

abbrev pub run_validated : Env → Validated → Pool → Response × Pool
run_validated env (invalid text) s = (json_error 422 text, s)
run_validated env (valid body) s = or_503 (execute_with_rotation env body s)

-- What `json.loads` makes of the request's body: a JSONDecodeError, with its text; another exception,
-- which escapes the route (UnicodeDecodeError, the ValueError of an integer with too many digits, or
-- RecursionError); or JSON.
pub data Decoded : Type 0 where
  malformed : String → Decoded
  undecodable : Exception → Decoded
  decoded : Json → Decoded

abbrev pub run_decoded : Env → (Json → Validated) → Decoded → Exec Pool Response
run_decoded env validate (malformed text) s = (returned (json_error 400 text), s)
run_decoded env validate (undecodable e) s = (raised e, s)
run_decoded env validate (decoded parsed) s =
    let (response, s') = run_validated env (validate parsed) s in (returned response, s')

-- `json.loads(raw_body) if raw_body else {}`
abbrev pub decode : (String → Decoded) → String → Decoded
decode loads raw_body = if str_eq raw_body "" then decoded (dict end) else loads raw_body

unfoldable pub chat_completions :
    (String → Decoded) → (Json → Validated) → Env → String → Exec Pool Response
unfolding execute_with_rotation
chat_completions loads validate env raw_body = run_decoded env validate (decode loads raw_body)
