-- ===== src/Usage/Refresh.antt =====
-- What a refresh of the usage writes to the table of keys, and what it leaves.
use ollama_proxy.Prelude.{
  ℕ, suc, String, ◌≡◌, ◌≢◌, ◌⊎◌, refl, sym, ◌∙◌, subst, ap, Bool, true, false, Option, none, some,
  List, [], ◌∷◌, arith, ◌==◌, Bool-cases, Option-cases, inl, inr, map, length,
}
use ollama_proxy.Clock.{aware}
use ollama_proxy.Exec.{Result, returned, returned-injective}
use ollama_proxy.Python.{Json, array}
use ollama_proxy.Table
use ollama_proxy.Models.{ApiKey, value, active}
use ollama_proxy.KeyManager.{Pool, with_keys, load_active, get_count, count_by_status}
use ollama_proxy.KeyManager.Counts.{length-load_active}
use ollama_proxy.Usage.Cache.{Stored, fetch_with-Stored}
use ollama_proxy.KeyManager.Records.{find_key, set_key, find-set_key}
use ollama_proxy.Vault.{safe_decrypt}
use ollama_proxy.KeysOps.{load_or_404}
use ollama_proxy.Usage.Parse.{AccountInfo, OfficialUsage}
use ollama_proxy.Usage.{
  KeyUsageSnapshot, UpstreamStatus, ok, UsageService, UsageEnv, fetch_snapshot, fetch_with,
  fetch_under_lock, get_lock, to_response, UsageSnapshot,
}
use ollama_proxy.Usage.Store.{
  Desk, with_account, with_official, persisted, persist_snapshot, persist_all, refresh_all_active,
  refresh_key_usage, fetch_all, is_ok, or_kept, dumped_rows, snapshots_of,
}

-- A row without what is known of its account and usage, and without the time of its last change.
unfoldable pub without_usage : ApiKey → ApiKey
without_usage key = record key {
  account_email = none;
  account_name = none;
  account_plan = none;
  account_id = none;
  last_usage_fetch_at = none;
  last_usage_session = none;
  last_usage_weekly = none;
  last_usage_models_json = none;
  last_usage_session_fraction = none;
  last_usage_weekly_fraction = none;
  updated_at = aware 0;
}

columns_apart :
    (dumps : Json → String) (now : ℕ) (account : Option AccountInfo)
    (official : Option OfficialUsage) (key : ApiKey)
    → without_usage (record (with_official dumps official (with_account account key)) {
      updated_at = aware now;
    })
      ≡ without_usage key
unfolding without_usage
columns_apart dumps now none none key = refl
columns_apart dumps now none (some official) key = refl
columns_apart dumps now (some account) none key = refl
columns_apart dumps now (some account) (some official) key = refl

without_usage-persisted :
    (dumps : Json → String) (now : ℕ) (snapshot : KeyUsageSnapshot) (key : ApiKey)
    → without_usage (persisted dumps now snapshot key) ≡ without_usage key
unfolding without_usage persisted
without_usage-persisted dumps now snapshot key =
    columns_apart dumps now snapshot.account snapshot.official key

map-update_where :
    (g f : ApiKey → ApiKey) (p : ApiKey → Bool) (rows : List ApiKey)
    → ((r : ApiKey) → g (f r) ≡ g r)
    → map g (Table.update_where p f rows) ≡ map g rows
unfolding Table.update_where
map-update_where g f p [] h = refl
map-update_where g f p (r ∷ rows) h = ground (arith, h r, map-update_where g f p rows h)

persist_snapshot-frame :
    (dumps : Json → String) (now : ℕ) (key : ApiKey) (snapshot : KeyUsageSnapshot)
    (rows : List ApiKey)
    → map without_usage (persist_snapshot dumps now key snapshot rows) ≡ map without_usage rows
unfolding persist_snapshot
persist_snapshot-frame dumps now key snapshot rows =
    elim (Bool-cases (is_ok snapshot.upstream_status)) [
      | inl e ↦ rw e (
          map-update_where without_usage (persisted dumps now snapshot) (λ r. r.id == key.id) rows
            (without_usage-persisted dumps now snapshot))
      | inr e ↦ rw e refl
    ]

persist_all-frame :
    (env : UsageEnv) (now : ℕ) (pairs : List (ApiKey × KeyUsageSnapshot)) (rows : List ApiKey)
    → map without_usage (persist_all env now pairs rows) ≡ map without_usage rows
unfolding persist_all
persist_all-frame env now [] rows = refl
persist_all-frame env now ((key, snapshot) ∷ pairs) rows =
    persist_all-frame env now pairs (persist_snapshot env.dumps now key snapshot rows)
    ∙ persist_snapshot-frame env.dumps now key snapshot rows

length-fetch_all :
    (env : UsageEnv) (keys : List ApiKey) (u : UsageService)
    → length (snapshots_of env (fetch_all env keys u).0) ≡ length keys
unfolding fetch_all
length-fetch_all env [] u = refl
length-fetch_all env (key ∷ keys) u =
    ap (λ n. suc n) (length-fetch_all env keys (fetch_snapshot env (λ x. x) key true u).1)

-- A refresh of all usage answers for each active key, whatever the upstream does, and changes
-- nothing in the database but what is known of the accounts and their usage and the times of the last
-- changes: the same rows stand in the same order with their states, cooldowns, counters, windows and
-- secrets, and the user tokens and the reservations are as they were.
pub refresh_all_active-frame :
    (env : UsageEnv) (now : ℕ) (d : Desk)
    → let (answers, d') = refresh_all_active env now d in
      (length answers ≡ get_count (value active) (count_by_status d.pool.api_keys))
      × (map without_usage d'.pool.api_keys ≡ map without_usage d.pool.api_keys)
      × (d'.pool.user_tokens ≡ d.pool.user_tokens)
      × (d'.pool.manager ≡ d.pool.manager)
unfolding refresh_all_active load_active
refresh_all_active-frame env now d =
    let pairs = (fetch_all env (load_active d.pool.api_keys) d.usage).0 in
    (
      length-fetch_all env (load_active d.pool.api_keys) d.usage
          ∙ length-load_active d.pool.api_keys,
      persist_all-frame env now pairs d.pool.api_keys,
      refl,
      refl,
    )

-- A fraction that is reported is the row's, and one that is not leaves the row's as it was.
abbrev pub Kept : {A : Type 0} → Option A → Option A → Option A → Type 0
Kept (some x) old new = new ≡ some x
Kept none old new = new ≡ old

-- What a row shows of a snapshot after its refresh, against the row before.
abbrev pub Shows : (Json → String) → KeyUsageSnapshot → ApiKey → ApiKey → Type 0
Shows dumps snapshot old row =
    (account : AccountInfo) × (official : OfficialUsage) × (snapshot.account ≡ some account)
    × (snapshot.official ≡ some official)
    × (row.account_email ≡ account.email)
    × (row.account_name ≡ account.name)
    × (row.account_plan ≡ account.plan)
    × (row.account_id ≡ account.account_id)
    × (row.last_usage_fetch_at ≡ some official.fetched_at)
    × (row.last_usage_session ≡ some official.session_usage)
    × (row.last_usage_weekly ≡ some official.weekly_usage)
    × (row.last_usage_models_json ≡ some (dumps (array (dumped_rows official.models))))
    × Kept official.session_usage_fraction old.last_usage_session_fraction
        row.last_usage_session_fraction
    × Kept official.weekly_usage_fraction old.last_usage_weekly_fraction
        row.last_usage_weekly_fraction
    × (without_usage row ≡ without_usage old)

Kept-or_kept : {A : Type 0} (new old : Option A) → Kept new old (or_kept new old)
Kept-or_kept none old = refl
Kept-or_kept (some x) old = refl

-- The two outcomes of a refreshing request that finds its key.
abbrev pub Refreshed : (Json → String) → ℕ → Pool → KeyUsageSnapshot → Pool → Type 0
Refreshed dumps key_id s snapshot s' =
    ((snapshot.upstream_status ≡ ok)
      × ((old : ApiKey) × (row : ApiKey) × (find_key key_id s.api_keys ≡ some old)
          × (find_key key_id s'.api_keys ≡ some row)
          × Shows dumps snapshot old row))
    ⊎ ((snapshot.upstream_status ≢ ok) × (s' ≡ s))

is_ok-false : (status : UpstreamStatus) → status ≢ ok → is_ok status ≡ false
is_ok-false UpstreamStatus.ok h = elim (h refl) [ ]
is_ok-false UpstreamStatus.unreachable h = refl
is_ok-false UpstreamStatus.unauthorised h = refl
is_ok-false UpstreamStatus.pending h = refl

module _ (env : UsageEnv) (now key_id : ℕ) (s : Pool) (key : ApiKey)
    (found : find_key key_id s.api_keys ≡ some key) where
  abbrev Persisted : KeyUsageSnapshot → Type 0
  unfolding persist_snapshot
  Persisted snapshot =
      Refreshed env.dumps key_id s snapshot
        (with_keys s (persist_snapshot env.dumps now key snapshot s.api_keys))

  unstored-Persisted :
      (snapshot : KeyUsageSnapshot) → snapshot.upstream_status ≢ ok → Persisted snapshot
  unfolding persist_snapshot Persisted
  unstored-Persisted snapshot bad = inr (bad, rw (is_ok-false snapshot.upstream_status bad) refl)

  stored-Persisted : (snap : UsageSnapshot) → Persisted (to_response snap key ok none)
  unfolding persist_snapshot persisted to_response Persisted
  stored-Persisted snap =
      let answer = to_response snap key ok none in
      let same = Table.id-find (λ (k : ApiKey). k.id) key_id s.api_keys key found in
      let here = subst (λ j. find_key j s.api_keys ≡ some key) (sym same) found in
      let f = persisted env.dumps now answer in
      inl (
        refl,
        (
          key,
          f key,
          found,
          subst (λ j. find_key j (set_key key.id f s.api_keys) ≡ some (f key)) same
              (find-set_key key.id f s.api_keys key (λ r. refl) here),
          (
            snap.account,
            snap.official,
            refl,
            refl,
            refl,
            refl,
            refl,
            refl,
            refl,
            refl,
            refl,
            refl,
            Kept-or_kept snap.official.session_usage_fraction key.last_usage_session_fraction,
            Kept-or_kept snap.official.weekly_usage_fraction key.last_usage_weekly_fraction,
            without_usage-persisted env.dumps now answer key,
          ),
        ),
      )

  fetched-Persisted : (r : Result String) (u : UsageService) → Persisted (fetch_with env key r u).0
  unfolding Stored to_response Persisted
  fetched-Persisted r u = elim (fetch_with-Stored env key r u) [
    | inl (snap, e) ↦ subst (λ out. Persisted out.0) (sym e) (stored-Persisted snap)
    | inr (bad, e) ↦ unstored-Persisted (fetch_with env key r u).0 bad
  ]

-- What a refresh of a key that is there does, once the service has asked the upstream.
refreshed_lem :
    (env : UsageEnv) (now key_id : ℕ) (d : Desk) (key : ApiKey)
    → find_key key_id d.pool.api_keys ≡ some key
    → let (answer, u) = fetch_with env key (safe_decrypt env.vault key) (get_lock key.id d.usage) in
      refresh_key_usage env now key_id d ≡ (
        returned answer,
        record {
          pool = with_keys d.pool (persist_snapshot env.dumps now key answer d.pool.api_keys);
          usage = u;
        },
      )
unfolding refresh_key_usage load_or_404 fetch_snapshot fetch_under_lock to_response persist_snapshot
refreshed_lem env now key_id d key e = rw e refl

-- A refresh that returns either has an answer that is ok, and then the row of the key shows its
-- account and its usage, with the fractions that it reports (one that it does not report stays as it
-- was) and nothing else changed but the time of the change, or has failed, and then the answer says so and the database has not changed.
pub refresh_key_usage-Refreshed :
    (env : UsageEnv) (now key_id : ℕ) (d : Desk) (snapshot : KeyUsageSnapshot)
    → let (answer, d') = refresh_key_usage env now key_id d in
      answer ≡ returned snapshot → Refreshed env.dumps key_id d.pool snapshot d'.pool
unfolding refresh_key_usage load_or_404 fetch_snapshot fetch_under_lock persist_snapshot to_response
refresh_key_usage-Refreshed env now key_id d snapshot =
    elim (Option-cases (find_key key_id d.pool.api_keys)) [
      | inl e ↦ rw e (λ h. ground (arith, h))
      | inr (key, e) ↦
          let r = safe_decrypt env.vault key in
          let u = get_lock key.id d.usage in
          subst
            (λ out.
              out.0 ≡ returned snapshot → Refreshed env.dumps key_id d.pool snapshot out.1.pool)
            (sym (refreshed_lem env now key_id d key e))
            (λ h.
              subst
                (λ a. Refreshed env.dumps key_id d.pool a (
                  with_keys d.pool (
                    persist_snapshot env.dumps now key (fetch_with env key r u).0 d.pool.api_keys)))
                (returned-injective h) (fetched-Persisted env now key_id d.pool key e r u))
    ]
