-- ===== src/Usage/Store.antt =====
-- app/services/usage_service.py: how a snapshot is stored beside its key, the refresh of all keys, and
-- the routes of app/api/v1/admin.py. `json.dumps` is a parameter.
use ollama_proxy.Prelude.{
  ℕ, String, Bool, true, false, Option, none, some, List, [], ◌∷◌, if◌then◌else◌,
}
use ollama_proxy.Clock.{aware}
use ollama_proxy.Exec.{Result, returned, raised}
use ollama_proxy.Python.{Json, Items, int, str, array, dict, nil, cons, end, field}
use ollama_proxy.Models.{ApiKey}
use ollama_proxy.KeyManager.{Pool, with_keys, load_active}
use ollama_proxy.KeyManager.Records.{set_key}
use ollama_proxy.KeysOps.{load_or_404}
use ollama_proxy.AdminKeys.{load_for_route}
use ollama_proxy.Usage.Parse.{AccountInfo, OfficialUsage, ModelUsageRow}
use ollama_proxy.Usage.{
  KeyUsageSnapshot, UpstreamStatus, UsageEnv, UsageService, fetch_snapshot, ok,
}

-- `m.model_dump()` of each row, as JSON.
abbrev pub dumped_row : ModelUsageRow → Json
dumped_row row = dict (
    field "name" (str row.name) (
      field "session_request_count" (int row.session_request_count)
        (field "weekly_request_count" (int row.weekly_request_count) end)))

abbrev pub dumped_rows : List ModelUsageRow → Items
dumped_rows [] = nil
dumped_rows (row ∷ rows) = cons (dumped_row row) (dumped_rows rows)

abbrev pub or_kept : {A : Type 0} → Option A → Option A → Option A
or_kept none old = old
or_kept (some a) old = some a

abbrev pub with_account : Option AccountInfo → ApiKey → ApiKey
with_account none key = key
with_account (some account) key = record key {
  account_email = account.email;
  account_name = account.name;
  account_plan = account.plan;
  account_id = account.account_id;
}

abbrev pub with_official : (Json → String) → Option OfficialUsage → ApiKey → ApiKey
with_official dumps none key = key
with_official dumps (some official) key = record key {
  last_usage_fetch_at = some official.fetched_at;
  last_usage_session = some official.session_usage;
  last_usage_weekly = some official.weekly_usage;
  last_usage_session_fraction =
      or_kept official.session_usage_fraction key.last_usage_session_fraction;
  last_usage_weekly_fraction =
      or_kept official.weekly_usage_fraction key.last_usage_weekly_fraction;
  last_usage_models_json = some (dumps (array (dumped_rows official.models)));
}

-- `_persist`, with the column that the UPDATE of the commit sets besides.
unfoldable pub persisted : (Json → String) → ℕ → KeyUsageSnapshot → ApiKey → ApiKey
persisted dumps now snapshot key =
    record (with_official dumps snapshot.official (with_account snapshot.account key)) {
      updated_at = aware now;
    }

abbrev pub is_ok : UpstreamStatus → Bool
is_ok ok = true
is_ok _ = false

-- `persist_snapshot`, with its commit. What fails is not written.
unfoldable pub persist_snapshot :
    (Json → String) → ℕ → ApiKey → KeyUsageSnapshot → List ApiKey → List ApiKey
unfolding persisted
persist_snapshot dumps now key snapshot rows =
    if is_ok snapshot.upstream_status
    then set_key key.id (persisted dumps now snapshot) rows
    else rows

-- What a route of the usage reads and writes: the pool and the process-wide service.
pub record Desk : Type 0 where
  pub pool : Pool
  pub usage : UsageService

module _ (env : UsageEnv) where
  abbrev pub nothing_else : UsageService → UsageService
  nothing_else u = u

  -- `asyncio.gather` over the forced fetches. Each holds the lock of its own key, so that one after
  -- another they do what they do at once.
  unfoldable pub fetch_all :
      List ApiKey → UsageService → List (ApiKey × KeyUsageSnapshot) × UsageService
  unfolding fetch_snapshot
  fetch_all [] u = ([], u)
  fetch_all (key ∷ keys) u =
      let (snapshot, u') = fetch_snapshot env nothing_else key true u in
      let (rest, u'') = fetch_all keys u' in ((key, snapshot) ∷ rest, u'')

  -- The second loop.
  unfoldable pub persist_all : ℕ → List (ApiKey × KeyUsageSnapshot) → List ApiKey → List ApiKey
  unfolding persist_snapshot
  persist_all now [] rows = rows
  persist_all now ((key, snapshot) ∷ pairs) rows =
      persist_all now pairs (persist_snapshot env.dumps now key snapshot rows)

  abbrev pub snapshots_of : List (ApiKey × KeyUsageSnapshot) → List KeyUsageSnapshot
  snapshots_of [] = []
  snapshots_of ((key, snapshot) ∷ pairs) = snapshot ∷ snapshots_of pairs

  unfoldable pub refresh_all_active : ℕ → Desk → List KeyUsageSnapshot × Desk
  unfolding load_active fetch_all persist_all
  refresh_all_active now d =
      let (pairs, u) = fetch_all (load_active d.pool.api_keys) d.usage in
      (
        snapshots_of pairs,
        record { pool = with_keys d.pool (persist_all now pairs d.pool.api_keys); usage = u },
      )

  abbrev pub usage_found : Result ApiKey → Desk → Result KeyUsageSnapshot × Desk
  unfolding fetch_snapshot
  usage_found (raised e) d = (raised e, d)
  usage_found (returned key) d =
      let (snapshot, u) = fetch_snapshot env nothing_else key false d.usage in
      (returned snapshot, record d { usage = u })

  unfoldable pub get_key_usage : ℕ → Desk → Result KeyUsageSnapshot × Desk
  unfolding load_or_404
  get_key_usage key_id d = usage_found (load_for_route key_id d.pool).0 d

  abbrev pub refresh_found : ℕ → Result ApiKey → Desk → Result KeyUsageSnapshot × Desk
  unfolding fetch_snapshot
  refresh_found now (raised e) d = (raised e, d)
  refresh_found now (returned key) d =
      let (snapshot, u) = fetch_snapshot env nothing_else key true d.usage in
      (
        returned snapshot,
        record {
          pool = with_keys d.pool (persist_snapshot env.dumps now key snapshot d.pool.api_keys);
          usage = u;
        },
      )

  unfoldable pub refresh_key_usage : ℕ → ℕ → Desk → Result KeyUsageSnapshot × Desk
  unfolding load_or_404
  refresh_key_usage now key_id d = refresh_found now (load_for_route key_id d.pool).0 d
