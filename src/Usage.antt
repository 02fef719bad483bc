-- ===== src/Usage.antt =====
-- app/services/usage_service.py: what the upstream reports of a key's account and usage, kept for a
-- while. The HTTP client and `datetime.fromisoformat` are parameters.
pub mod Parse
pub mod Tidy
pub mod Rows
pub mod Reported
pub mod Store
pub mod Cache
pub mod Refresh
pub mod Tests
use ollama_proxy.Prelude.{
  ℕ, ◌+◌, ◌*◌, String, Bool, true, false, not, ◌&&◌, ◌||◌, Option, none, some, List, [], ◌∷◌, ◌==◌,
  ltb, if◌then◌else◌, max, map, contains, or_else,
}
use ollama_proxy.Prelude.Int.{ℤ, pos_part}
use ollama_proxy.Clock.{Datetime, aware, second}
use ollama_proxy.Exec.{
  Exec, Exception, Result, returned, raised, vault_decrypt_error, auth_rejected, http_status_error,
  and_then, continue, pure, lift, ◌>>=◌,
}
use ollama_proxy.Python.{Float, Json, Items, Fields, int, str, array, dict, nil, cons, end, field}
use ollama_proxy.Table
use ollama_proxy.Models.{ApiKey, key_preview}
use ollama_proxy.Vault.{Vault, safe_decrypt}
use ollama_proxy.OllamaClient.{
  HttpRequest, HttpResult, Checked, passed, unhappy, failed, get_account, get_usage,
}
use ollama_proxy.KeyManager.{Pool, with_keys, load_active}
use ollama_proxy.KeyManager.Records.{find_key, set_key}
use ollama_proxy.KeysOps.{load_or_404}
use ollama_proxy.AdminKeys.{load_for_route}
use ollama_proxy.Usage.Parse.{
  AccountInfo, OfficialUsage, ModelUsageRow, parse_account, parse_official,
}

pub record UsageSnapshot : Type 0 where
  pub account : AccountInfo
  pub official : OfficialUsage

pub record LocalCumsum : Type 0 where
  pub session_prompt_tokens : ℕ
  pub session_completion_tokens : ℕ
  pub session_window_started_at : Option Datetime
  pub weekly_prompt_tokens : ℕ
  pub weekly_completion_tokens : ℕ
  pub weekly_window_started_at : Option Datetime
  pub last_token_at : Option Datetime
  pub window_kind : String

pub data UpstreamStatus : Type 0 where
  ok unreachable unauthorised pending : UpstreamStatus

-- `upstream_error`: a text of the program's own, or the text of an exception, which `vault_reason`
-- puts behind "vault: ".
pub data Reason : Type 0 where
  text : String → Reason
  message vault_reason : Exception → Reason

pub record KeyUsageSnapshot : Type 0 where
  pub id : ℕ
  pub label : Option String
  pub preview : String
  pub account : Option AccountInfo
  pub official : Option OfficialUsage
  pub local_cumsum : LocalCumsum
  pub upstream_status : UpstreamStatus
  pub upstream_error : Option Reason

unfoldable pub cumsum_from_row : ApiKey → LocalCumsum
cumsum_from_row key = record {
  session_prompt_tokens = key.session_prompt_tokens;
  session_completion_tokens = key.session_completion_tokens;
  session_window_started_at = key.session_window_started_at;
  weekly_prompt_tokens = key.weekly_prompt_tokens;
  weekly_completion_tokens = key.weekly_completion_tokens;
  weekly_window_started_at = key.weekly_window_started_at;
  last_token_at = key.last_token_at;
  window_kind = "rolling_24h_7d";
}

unfoldable pub to_response :
    UsageSnapshot → ApiKey → UpstreamStatus → Option Reason → KeyUsageSnapshot
unfolding cumsum_from_row
to_response snap key status error = record {
  id = key.id;
  label = key.label;
  preview = key_preview key;
  account = some snap.account;
  official = some snap.official;
  local_cumsum = cumsum_from_row key;
  upstream_status = status;
  upstream_error = error;
}

-- The answers with neither an account nor a usage.
unfoldable pub bare_response : ApiKey → UpstreamStatus → Reason → KeyUsageSnapshot
unfolding cumsum_from_row
bare_response key status error = record {
  id = key.id;
  label = key.label;
  preview = key_preview key;
  account = none;
  official = none;
  local_cumsum = cumsum_from_row key;
  upstream_status = status;
  upstream_error = some error;
}

-- An entry of `_cache`: the moment on the monotonic clock, in microseconds, and the snapshot.
pub record CacheEntry : Type 0 where
  pub key_id : ℕ
  pub stamp : ℕ
  pub snap : UsageSnapshot

-- `locks` lists the ids that have a lock object.
pub record UsageService : Type 0 where
  pub ttl_seconds : ℕ
  pub cache : List CacheEntry
  pub locks : List ℕ

-- `max(1, int(ttl_seconds))`
unfoldable pub init : ℤ → UsageService
init ttl_seconds = record { ttl_seconds = max 1 (pos_part ttl_seconds); cache = []; locks = [] }

unfoldable pub get_lock : ℕ → UsageService → UsageService
get_lock key_id u = if contains key_id u.locks then u else record u { locks = key_id ∷ u.locks }

abbrev pub entry_of : ℕ → UsageService → Option CacheEntry
entry_of key_id u = Table.find (λ (e : CacheEntry). e.key_id) key_id u.cache

-- `_cache_fresh`, with the entry that it finds fresh.
unfoldable pub fresh_entry : ℕ → ℕ → UsageService → Option CacheEntry
fresh_entry now key_id u = elim (entry_of key_id u) [
  | none ↦ none
  | some entry ↦ if ltb now (entry.stamp + u.ttl_seconds * second) then some entry else none
]

-- `self._cache[key_id] = …`
unfoldable pub put_entry : CacheEntry → List CacheEntry → List CacheEntry
put_entry entry [] = entry ∷ []
put_entry entry (e ∷ entries) =
    let rest = put_entry entry entries in
    if e.key_id == entry.key_id then entry ∷ entries else e ∷ rest

abbrev pub cache_put : ℕ → ℕ → UsageSnapshot → UsageService → UsageService
cache_put now key_id snap u = record u {
  cache = put_entry (record { key_id = key_id; stamp = now; snap = snap }) u.cache;
}

unfoldable pub cache_drop : ℕ → UsageService → UsageService
cache_drop key_id u = record u {
  cache = Table.delete_row (λ (e : CacheEntry). e.key_id) key_id u.cache;
}

-- The world of a fetch: the upstream's GET and POST by the key that is asked about, the two looks at
-- the clock before the fetch, the moment of its end on both clocks.
pub record UsageEnv : Type 0 where
  pub vault : Vault
  pub base_url : String
  pub post : ℕ → HttpRequest → HttpResult
  pub http : ℕ → HttpRequest → HttpResult
  pub from_iso : String → Option Datetime
  pub dumps : Json → String
  pub looked : ℕ
  pub locked : ℕ
  pub stored : ℕ
  pub fetched_at : ℕ

-- A status of 401 or 403 that `raise_for_status` saw is `_AuthRejected`; the rest is raised again.
unfoldable pub or_rejected : {A : Type 0} → Checked A → Result A
or_rejected (passed a) = returned a
or_rejected (unhappy response) =
    if response.status_code == 401 || response.status_code == 403
    then raised (auth_rejected response.status_code)
    else raised (http_status_error response.status_code)
or_rejected (failed e) = raised e

-- `except _AuthRejected`
abbrev pub is_auth_rejected : Exception → Bool
is_auth_rejected (auth_rejected code) = true
is_auth_rejected e = false

module _ (env : UsageEnv) where
  unfoldable pub fetch_locked : ApiKey → String → Result UsageSnapshot
  unfolding or_rejected get_account get_usage
  fetch_locked key raw_key =
      and_then (or_rejected (get_account (env.post key.id) env.base_url raw_key))
        (λ account_payload.
          and_then (or_rejected (get_usage (env.http key.id) env.base_url raw_key))
            (λ usage_payload.
              and_then (parse_account account_payload (aware env.fetched_at)) (λ account.
                and_then (parse_official env.from_iso usage_payload (aware env.fetched_at))
                  (λ official. returned (record { account = account; official = official })))))

  -- `except Exception`: what is in the cache, however old, stands in.
  abbrev pub stale_response : ApiKey → Exception → Option CacheEntry → KeyUsageSnapshot
  unfolding to_response bare_response
  stale_response key e none = bare_response key unreachable (message e)
  stale_response key e (some entry) = to_response entry.snap key unreachable (some (message e))

  abbrev pub failure_response : ApiKey → Exception → Option CacheEntry → KeyUsageSnapshot
  unfolding to_response bare_response
  failure_response key e entry =
      if is_auth_rejected e
      then bare_response key unauthorised (text "upstream returned 401/403")
      else stale_response key e entry

  abbrev pub conclude :
      ApiKey → Result UsageSnapshot → UsageService → KeyUsageSnapshot × UsageService
  unfolding to_response bare_response put_entry
  conclude key (returned snap) u =
      (to_response snap key ok none, cache_put env.stored key.id snap u)
  conclude key (raised e) u = (failure_response key e (entry_of key.id u), u)

  -- `safe_decrypt` raises nothing but a VaultDecryptError.
  abbrev pub fetch_with : ApiKey → Result String → UsageService → KeyUsageSnapshot × UsageService
  unfolding bare_response
  fetch_with key (raised e) u = (bare_response key unreachable (vault_reason e), u)
  fetch_with key (returned raw_key) u = conclude key (fetch_locked key raw_key) u

  abbrev pub unless_fresh :
      ApiKey
      → Option CacheEntry
      → KeyUsageSnapshot × UsageService
      → UsageService
      → KeyUsageSnapshot × UsageService
  unfolding to_response
  unless_fresh key none otherwise u = otherwise
  unless_fresh key (some entry) otherwise u = (to_response entry.snap key ok none, u)

  -- `not force and self._cache_fresh(…)`
  abbrev pub if_allowed : Bool → Option CacheEntry → Option CacheEntry
  if_allowed true entry = none
  if_allowed false entry = entry

  -- The body of `async with lock`.
  unfoldable pub fetch_under_lock : ApiKey → Bool → UsageService → KeyUsageSnapshot × UsageService
  unfolding fresh_entry fetch_locked
  fetch_under_lock key force u =
      unless_fresh key (if_allowed force (fresh_entry env.locked key.id u))
        (fetch_with key (safe_decrypt env.vault key) u) u

  -- `meanwhile` is what other tasks do to the service while this one waits for the lock.
  unfoldable pub fetch_snapshot :
      (UsageService → UsageService) → ApiKey → Bool → UsageService → KeyUsageSnapshot × UsageService
  unfolding fresh_entry get_lock fetch_under_lock
  fetch_snapshot meanwhile key force u =
      unless_fresh key (if_allowed force (fresh_entry env.looked key.id u))
        (fetch_under_lock key force (meanwhile (get_lock key.id u))) u
