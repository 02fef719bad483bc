-- ===== src/DashboardClient/Tests.antt =====
-- The client at concrete replies.
use ollama_proxy.Prelude.{◌≡◌, refl, true, none, some, []}
use ollama_proxy.Exec.{Result, returned}
use ollama_proxy.Python.{Json, null, str, array, dict, nil, cons, end, field}
use ollama_proxy.OllamaClient.{UpstreamResponse}
use ollama_proxy.DashboardClient.{
  DashboardClient, Request, Reply, init, exit, request_json, list_keys, get_key, update_key,
}

abbrev client : DashboardClient
client = record { base_url = "http://proxy"; admin_token = "t"; entered = true }

slashes : init "http://proxy//" "t" true ≡ returned client
unfolding init
slashes = refl

abbrev replying : Json → Request → Result UpstreamResponse
replying body request =
    returned (record { status_code = 200; headers = []; payload = some body; content = "" })

-- The list keeps the objects, and an answer that is no array is an error.
only_objects :
    list_keys client (replying (array (cons (dict end) (cons (str "x") nil))))
    ≡ Reply.got (cons (dict end) nil)
unfolding list_keys request_json
only_objects = refl

no_array :
    list_keys client (replying (dict end))
    ≡ Reply.client_error
        (record { status_code = 200; body = dict end; endpoint = "GET /admin/keys" })
unfolding list_keys request_json
no_array = refl

outside : get_key (exit client) (replying null) 7 ≡ Reply.not_entered
unfolding get_key request_json exit
outside = refl

abbrev echo : Request → Result UpstreamResponse
echo request =
    returned
      (record { status_code = 200; headers = []; payload = request.body; content = request.path })

-- What is not given is not sent.
only_given :
    update_key client echo 7 none (some "active")
    ≡ Reply.got (some (dict (field "status" (str "active") end)))
unfolding update_key request_json
only_given = refl
