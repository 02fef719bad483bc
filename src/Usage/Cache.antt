-- ===== src/Usage/Cache.antt =====
-- How the cache of the usage serves later requests.
use ollama_proxy.Prelude.{
  ℕ, ◌+◌, ◌*◌, ◌<◌, String, ◌⊎◌, ◌≡◌, ◌≢◌, refl, sym, ◌∙◌, subst, ap, contains, Bool, true, false,
  Option, none, some, List, [], ◌∷◌, arith, ◌==◌, if◌then◌else◌, Bool-cases, inl, inr,
}
use ollama_proxy.Clock.{second}
use ollama_proxy.Exec.{Result, Exception, returned, raised, Result-cases}
use ollama_proxy.Table
use ollama_proxy.Models.{ApiKey}
use ollama_proxy.Vault.{safe_decrypt}
use ollama_proxy.Usage.{
  UsageSnapshot, KeyUsageSnapshot, ok, unreachable, unauthorised, CacheEntry, UsageService,
  UsageEnv, entry_of, fresh_entry, put_entry, cache_put, to_response, bare_response,
  cumsum_from_row, fetch_locked, fetch_with, failure_response, stale_response, is_auth_rejected,
  fetch_under_lock, fetch_snapshot, get_lock, unless_fresh, if_allowed,
}

find-put_entry :
    (entry : CacheEntry) (j : ℕ) (entries : List CacheEntry)
    → Table.find (λ (e : CacheEntry). e.key_id) j (put_entry entry entries) ≡ (
        if entry.key_id == j
        then some entry
        else Table.find (λ (e : CacheEntry). e.key_id) j entries)
unfolding Table.find put_entry
find-put_entry entry j [] = refl
find-put_entry entry j (e ∷ entries) = ground (arith, find-put_entry entry j entries)

-- A fetch has stored its answer, or has left the service alone.
unfoldable pub Stored : UsageEnv → ApiKey → UsageService → KeyUsageSnapshot × UsageService → Type 0
unfolding put_entry to_response
Stored env key u out =
    (snap : UsageSnapshot) × (out
      ≡ (to_response snap key ok none, cache_put env.stored key.id snap u))

abbrev pub Unstored : UsageService → KeyUsageSnapshot × UsageService → Type 0
Unstored u out = (out.0.upstream_status ≢ ok) × (out.1 ≡ u)

unreachable-≢-ok : unreachable ≢ ok
unreachable-≢-ok e = ground (arith, e)

unauthorised-≢-ok : unauthorised ≢ ok
unauthorised-≢-ok e = ground (arith, e)

stale-≢-ok :
    (env : UsageEnv) (key : ApiKey) (e : Exception) (entry : Option CacheEntry)
    → (stale_response env key e entry).upstream_status ≢ ok
unfolding to_response bare_response
stale-≢-ok env key e none = unreachable-≢-ok
stale-≢-ok env key e (some entry) = unreachable-≢-ok

failure-≢-ok :
    (env : UsageEnv) (key : ApiKey) (e : Exception) (entry : Option CacheEntry)
    → (failure_response env key e entry).upstream_status ≢ ok
unfolding to_response bare_response
failure-≢-ok env key e entry = elim (Bool-cases (is_auth_rejected e)) [
  | inl q ↦ rw q unauthorised-≢-ok
  | inr q ↦ rw q (stale-≢-ok env key e entry)
]

pub fetch_with-Stored :
    (env : UsageEnv) (key : ApiKey) (r : Result String) (u : UsageService)
    → Stored env key u (fetch_with env key r u) ⊎ Unstored u (fetch_with env key r u)
unfolding put_entry to_response bare_response fetch_locked Stored
fetch_with-Stored env key (raised e) u = inr (unreachable-≢-ok, refl)
fetch_with-Stored env key (returned raw_key) u =
    elim (Result-cases (fetch_locked env key raw_key)) [
      | inl (snap, e) ↦ rw e (inl (snap, refl))
      | inr (e, q) ↦ rw q (inr (failure-≢-ok env key e (entry_of key.id u), refl))
    ]

-- What a later answer for the key repeats of an earlier one.
abbrev pub Repeats :
    UsageEnv → (UsageService → UsageService) → ApiKey → KeyUsageSnapshot × UsageService → Type 0
unfolding fetch_snapshot cumsum_from_row
Repeats later others row (answer, u) =
    let (again, u') = fetch_snapshot later others row false u in
    (again.account ≡ answer.account)
    × (again.official ≡ answer.official)
    × (again.local_cumsum ≡ cumsum_from_row row)
    × (again.upstream_status ≡ ok)
    × (u' ≡ u)

fresh_entry-cache_put :
    (now stamp key_id j : ℕ) (snap : UsageSnapshot) (u : UsageService)
    → key_id ≡ j
    → now < stamp + u.ttl_seconds * second
    → fresh_entry now j (cache_put stamp key_id snap u)
      ≡ some (record { key_id = key_id; stamp = stamp; snap = snap })
unfolding fresh_entry put_entry
fresh_entry-cache_put now stamp key_id j snap u e soon =
    let entry : CacheEntry = record { key_id = key_id; stamp = stamp; snap = snap } in
    rw (fresh_entry, find-put_entry entry j u.cache) ground (arith, e, soon)

cache_put-Repeats :
    (later : UsageEnv) (others : UsageService → UsageService) (key row : ApiKey) (stamp : ℕ)
    (snap : UsageSnapshot) (u : UsageService)
    → row.id ≡ key.id
    → later.looked < stamp + u.ttl_seconds * second
    → Repeats later others row (to_response snap key ok none, cache_put stamp key.id snap u)
unfolding fetch_snapshot to_response
cache_put-Repeats later others key row stamp snap u same soon =
    rw (fresh_entry-cache_put later.looked stamp key.id row.id snap u (sym same) soon)
      (refl, refl, refl, refl, refl)

-- Once an answer has come back ok from the upstream, every request for the key within the time to
-- live, whatever the upstream would say by then, repeats its account and its usage, with the
-- counters of the row as it stands, and leaves the service as it is.
pub fetch_snapshot-Repeats :
    (env later : UsageEnv) (meanwhile others : UsageService → UsageService) (key row : ApiKey)
    (u : UsageService)
    → let out = fetch_snapshot env meanwhile key true u in
      out.0.upstream_status ≡ ok
      → row.id ≡ key.id
      → later.looked < env.stored + out.1.ttl_seconds * second
      → Repeats later others row out
unfolding fetch_snapshot fetch_under_lock Stored
fetch_snapshot-Repeats env later meanwhile others key row u fetched same soon =
    let u1 = meanwhile (get_lock key.id u) in
    elim (fetch_with-Stored env key (safe_decrypt env.vault key) u1) [
      | inl (snap, e) ↦ subst (Repeats later others row) (sym e) (
          cache_put-Repeats later others key row env.stored snap u1 same
            (subst (λ out. later.looked < env.stored + out.1.ttl_seconds * second) e soon))
      | inr (bad, e) ↦ elim (bad fetched) [ ]
    ]

-- The cache's entry of a key is touched by no other key's fetch, and by none that is not ok.
abbrev pub Touches : ℕ → ApiKey → UsageService → KeyUsageSnapshot × UsageService → Type 0
Touches j key u out = (j ≢ key.id) ⊎ (out.0.upstream_status ≢ ok) → entry_of j out.1 ≡ entry_of j u

stored-Touches :
    (env : UsageEnv) (j : ℕ) (key : ApiKey) (snap : UsageSnapshot) (u : UsageService)
    → Touches j key u (to_response snap key ok none, cache_put env.stored key.id snap u)
unfolding to_response put_entry
stored-Touches env j key snap u (inl other) =
    find-put_entry (record { key_id = key.id; stamp = env.stored; snap = snap }) j u.cache
    ∙ ground (arith, other)
stored-Touches env j key snap u (inr bad) = elim (bad refl) [ ]

unstored-Touches :
    (j : ℕ) (key : ApiKey) (u : UsageService) (out : KeyUsageSnapshot × UsageService)
    → out.1 ≡ u
    → Touches j key u out
unstored-Touches j key u out e h = ap (entry_of j) e

fetch_with-Touches :
    (env : UsageEnv) (j : ℕ) (key : ApiKey) (r : Result String) (u : UsageService)
    → Touches j key u (fetch_with env key r u)
unfolding to_response Stored
fetch_with-Touches env j key r u = elim (fetch_with-Stored env key r u) [
  | inl (snap, e) ↦ subst (Touches j key u) (sym e) (stored-Touches env j key snap u)
  | inr (bad, e) ↦ unstored-Touches j key u (fetch_with env key r u) e
]

unless_fresh-Touches :
    (env : UsageEnv) (j : ℕ) (key : ApiKey) (o : Option CacheEntry) (u : UsageService)
    (otherwise : KeyUsageSnapshot × UsageService) (h : Touches j key u otherwise)
    → Touches j key u (unless_fresh env key o otherwise u)
unfolding to_response
unless_fresh-Touches env j key none u otherwise h = h
unless_fresh-Touches env j key (some entry) u otherwise h = λ q. refl

entry_of-get_lock :
    (key_id j : ℕ) (u : UsageService) → entry_of j (get_lock key_id u) ≡ entry_of j u
unfolding get_lock
entry_of-get_lock key_id j u = elim (Bool-cases (contains key_id u.locks)) [
  | inl e ↦ rw e refl
  | inr e ↦ rw e refl
]

-- A fetch touches the cache in no key but its own, and there only to store an answer that is ok: what
-- is kept for the other keys stays, and so does what is kept for this one when the upstream fails.
pub fetch_snapshot-frame :
    (env : UsageEnv) (key : ApiKey) (force : Bool) (u : UsageService) (j : ℕ)
    → let (answer, u') = fetch_snapshot env (λ x. x) key force u in
      (j ≢ key.id) ⊎ (answer.upstream_status ≢ ok) → entry_of j u' ≡ entry_of j u
unfolding fetch_snapshot fetch_under_lock
fetch_snapshot-frame env key force u j =
    let locked = get_lock key.id u in
    let raw = safe_decrypt env.vault key in
    let entry = if_allowed env force (fresh_entry env.locked key.id locked) in
    let body = unless_fresh env key entry (fetch_with env key raw locked) locked in
    let inside =
      unless_fresh-Touches env j key entry locked (fetch_with env key raw locked)
        (fetch_with-Touches env j key raw locked) in
    unless_fresh-Touches env j key (if_allowed env force (fresh_entry env.looked key.id u)) u body
      (λ h. inside h ∙ entry_of-get_lock key.id j u)
