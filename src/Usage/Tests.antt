-- ===== src/Usage/Tests.antt =====
-- The usage service at concrete keys and answers.
use ollama_proxy.Prelude.{
  ℕ, ◌+◌, ◌*◌, ◌<◌, ◌≡◌, refl, true, String, Option, none, some, [], ◌∷◌, arith,
}
use ollama_proxy.Prelude.Int.{ℤ}
use ollama_proxy.Clock.{Datetime, aware, second}
use ollama_proxy.Exec.{returned}
use ollama_proxy.Python.{
  Json, Fields, finite, int, float, str, array, dict, cons, nil, end, field, float_of_int,
  int_of_float, get, is_truthy,
}
use ollama_proxy.Table
use ollama_proxy.Models.{ApiKey}
use ollama_proxy.OllamaClient.{HttpRequest, HttpResult, answered, request_error}
use ollama_proxy.OllamaClient
use ollama_proxy.Vault
use ollama_proxy.KeyManager.Tests.{sample_key, sample_pool}
use ollama_proxy.KeysOps
use ollama_proxy.AdminKeys.Tests.{plain_vault}
use ollama_proxy.Usage.Parse.{
  OfficialUsage, parse_official, parse_account, parse_limits, put_entries, put_row, counted,
}
use ollama_proxy.Usage.Reported.{IsReport, parse_official-IsReport}
use ollama_proxy.Usage.Cache.{Repeats, fetch_snapshot-Repeats}
use ollama_proxy.Usage.Refresh.{Refreshed, refresh_key_usage-Refreshed}
use ollama_proxy.Usage.{
  KeyUsageSnapshot, UpstreamStatus, UsageService, UsageEnv, init, fetch_snapshot, fetch_under_lock,
  fetch_locked, or_rejected, fresh_entry, get_lock, put_entry, to_response, bare_response,
}
use ollama_proxy.Usage.Store.{Desk, refresh_key_usage}

-- A float keeps 53 bits, and the nearest even number where two are as near.
rounded : float_of_int (ℤ.pos 9007199254740993) ≡ returned (finite (ℤ.pos 9007199254740992) 0)
unfolding float_of_int
rounded = refl

kept_whole : float_of_int (ℤ.negsuc 6) ≡ returned (finite (ℤ.negsuc 6) 0)
unfolding float_of_int
kept_whole = refl

abbrev no_dates : String → Option Datetime
no_dates text = none

abbrev model_entry : String → ℕ → Json
model_entry name n = dict (field "name" (str name) (field "request_count" (int (ℤ.pos n)) end))

abbrev sample_usage : Fields
sample_usage =
    field "limits"
      (dict (
        field "session"
          (dict (
            field "usage" (float (finite (ℤ.pos 3) 5)) (
              field "models" (array (cons (model_entry "a" 2) (cons (model_entry "a" 4) nil)))
                end)))
          end))
      end

abbrev sample_official : OfficialUsage
sample_official = record {
  session_usage = ℤ.pos 3;
  weekly_usage = ℤ.pos 0;
  session_usage_fraction = some (finite (ℤ.pos 3) 5);
  weekly_usage_fraction = none;
  models =
      record { name = "a"; session_request_count = ℤ.pos 4; weekly_request_count = ℤ.pos 0 } ∷ [];
  period_type = none;
  period_start = none;
  period_end = none;
  fetched_at = aware 50;
}

parsed : parse_official no_dates sample_usage (aware 50) ≡ returned sample_official
unfolding parse_official parse_limits put_entries put_row counted get is_truthy int_of_float
    float_of_int
parsed = refl

parse_official-IsReport_example : IsReport sample_usage sample_official
parse_official-IsReport_example =
    parse_official-IsReport no_dates sample_usage (aware 50) sample_official parsed

abbrev reply : Fields → HttpResult
reply fields =
    answered
      (record { status_code = 200; headers = []; payload = some (dict fields); content = "" })

abbrev pub env : UsageEnv
env = record {
  vault = plain_vault;
  base_url = "https://ollama.com";
  post = λ key_id request. reply (field "Email" (str "a@b.c") end);
  http = λ key_id request. reply sample_usage;
  from_iso = no_dates;
  dumps = λ json. "";
  looked = 10;
  locked = 20;
  stored = 30;
  fetched_at = 50;
}

abbrev later : UsageEnv
later = record env { http = λ key_id request. request_error; looked = 40 }

abbrev same : UsageService → UsageService
same u = u

abbrev pub key : ApiKey
key = sample_key 1 "active"

answered_ok :
    (fetch_snapshot env same key true (init (ℤ.pos 300))).0.upstream_status ≡ UpstreamStatus.ok
unfolding fetch_snapshot fetch_under_lock fetch_locked or_rejected fresh_entry get_lock put_entry
    to_response bare_response init parse_account parse_official parse_limits put_entries put_row
    counted get is_truthy int_of_float float_of_int Vault.safe_decrypt Vault.decrypt
    OllamaClient.get_account OllamaClient.get_usage OllamaClient.checked_json
    OllamaClient.wrap_low_level_oserror Table.find
answered_ok = refl

in_time : 40 < 30 + (fetch_snapshot env same key true (init (ℤ.pos 300))).1.ttl_seconds * second
unfolding fetch_snapshot fetch_under_lock fetch_locked or_rejected fresh_entry get_lock put_entry
    to_response bare_response init parse_account parse_official parse_limits put_entries put_row
    counted get is_truthy int_of_float float_of_int Vault.safe_decrypt Vault.decrypt
    OllamaClient.get_account OllamaClient.get_usage OllamaClient.checked_json
    OllamaClient.wrap_low_level_oserror Table.find
in_time = ground arith

fetch_snapshot-Repeats_example :
    Repeats later same key (fetch_snapshot env same key true (init (ℤ.pos 300)))
fetch_snapshot-Repeats_example =
    fetch_snapshot-Repeats env later same same key key (init (ℤ.pos 300)) answered_ok refl in_time

abbrev pub desk : Desk
desk = record { pool = sample_pool (key ∷ []); usage = init (ℤ.pos 300) }

abbrev answer : KeyUsageSnapshot
unfolding fetch_snapshot
answer = (fetch_snapshot env same key true (init (ℤ.pos 300))).0

refreshed : (refresh_key_usage env 60 1 desk).0 ≡ returned answer
unfolding refresh_key_usage KeysOps.load_or_404 Table.find answer fetch_snapshot
refreshed = refl

refresh_key_usage-Refreshed_example :
    Refreshed env.dumps 1 desk.pool answer (refresh_key_usage env 60 1 desk).1.pool
refresh_key_usage-Refreshed_example = refresh_key_usage-Refreshed env 60 1 desk answer refreshed
