-- ===== src/Proxy/Tests.antt =====
-- The routes at a concrete upstream: one that lists two models, and one that is down.
use ollama_proxy.Prelude.{◌≡◌, ◌≢◌, refl, String, true, none, some, List, [], ◌∷◌, arith}
use ollama_proxy.Python.{Json, str, array, dict, nil, cons, end, field, get as get_field}
use ollama_proxy.Exec.{returned}
use ollama_proxy.Vault.{safe_decrypt}
use ollama_proxy.OllamaClient.{HttpResult, answered, request_error, list_models_v1}
use ollama_proxy.Table.{order_by_id, update_where, find}
use ollama_proxy.KeyManager.{pick_next_key}
use ollama_proxy.KeyManager.Records.{record_success, record_server_error}
use ollama_proxy.KeyManager.RetryAfter.{not_a_number}
use ollama_proxy.ModelCache.{ModelCache, clean, refresh}
use ollama_proxy.ModelCache.Refresh.{IsSound}
use ollama_proxy.Rotation.Tests.{plain_fernet, env, body, pool}
use ollama_proxy.Proxy.{
  ListEnv, valid, decoded, malformed, static_models, models_to_response, fetch_models_via_rotation,
  listing, list_models, chat_completions, fell_back,
}
use ollama_proxy.Proxy.Fetch.{in_flight-fetch}
use ollama_proxy.Proxy.Lists.{Listed, listing-Listed}
use ollama_proxy.Proxy.Chat.{IsSafe, chat_completions-IsSafe}

abbrev entry : String → Json
entry m = dict (field "id" (str m) end)

abbrev two_models : HttpResult
two_models = answered (record {
  status_code = 200;
  headers = [];
  payload = some (dict (field "data" (array (cons (entry "a") (cons (str "b") nil))) end));
  content = "";
})

abbrev list_env : HttpResult → ListEnv
list_env result = record {
  vault = record { fernet = some plain_fernet };
  base_url = "https://ollama.com";
  http = λ req. result;
  float_text = λ text. not_a_number;
  pick_at = 1;
  record_at = 2;
  meanwhile = λ s. s;
}

abbrev cold : ModelCache
cold = record { ttl = 300; models = none; last_refresh = 0 }

abbrev warm : ModelCache
warm = record { ttl = 300; models = some ("old" ∷ []); last_refresh = 0 }

two_listed :
    (list_models "p" (list_env two_models) 5 6 7 (cold, pool)).0
    ≡ models_to_response ("a" ∷ "b" ∷ [])
unfolding listing refresh fetch_models_via_rotation pick_next_key order_by_id update_where find
    safe_decrypt list_models_v1 record_success get_field clean
two_listed = refl

fell : (fetch_models_via_rotation (list_env request_error) pool).0 ≡ returned fell_back
unfolding fetch_models_via_rotation pick_next_key order_by_id update_where find safe_decrypt
    list_models_v1 record_server_error
fell = refl

down :
    (ids : List String)
    → (fetch_models_via_rotation (list_env request_error) pool).0 ≢ returned (true, ids)
down ids e = ground (arith, e, fell)

in_flight-fetch_example : (fetch_models_via_rotation (list_env two_models) pool).1.in_flight ≡ []
in_flight-fetch_example = in_flight-fetch (list_env two_models) (λ s. refl) pool

warm-IsSound : IsSound warm.models
warm-IsSound = (λ e. ground (arith, e), (refl, refl, tt))

listing-Listed_example :
    let r = list_models "p" (list_env two_models) 5 6 7 (cold, pool) in
    Listed (static_models "p") models_to_response (list_env two_models) 5 6 7 cold r.0 r.1
listing-Listed_example =
    listing-Listed (static_models "p") models_to_response (list_env two_models) 5 6 7 cold pool tt

chat_completions-IsSafe_example :
    IsSafe
      (decoded (dict end))
      pool
      (chat_completions (λ text. malformed text) (λ parsed. valid body) env "" pool)
chat_completions-IsSafe_example =
    chat_completions-IsSafe env
      (record { others = λ i s. refl; meanwhile = λ i s. refl; polls = λ i k s. refl })
      (λ text. malformed text) (λ parsed. valid body) "" pool
