-- ===== src/ModelCache/Refresh.antt =====
-- What a refresh leaves in the cache, on each of its paths.
use ollama_proxy.Prelude.{
  ℕ, ◌+◌, ◌*◌, String, ◌≡◌, ◌≢◌, refl, true, Option, none, some, List, [], ◌∷◌, arith, ltb, is_some,
  or_else, if◌then◌else◌,
}
use ollama_proxy.Clock.{second}
use ollama_proxy.Exec.{Exec, Result, returned, raised}
use ollama_proxy.ModelCache.{ModelCache, get, clean, store, store_cleaned, fetch_and_store, refresh}
use ollama_proxy.ModelCache.Clean.{IsClean, mem-clean}

-- A cache holds nothing, or a list of names with neither gaps nor doubles.
abbrev pub IsSound : Option (List String) → Type 0
IsSound none = Unit
IsSound (some ms) = (ms ≢ []) × IsClean ms

-- Against the cache c before: what is returned, the cache after, and whether it lost its names.
abbrev pub Refreshed : ModelCache → List String → ModelCache → Type 0
Refreshed c names c' =
    IsSound c'.models
    × (names ≡ or_else c'.models [])
    × (is_some c.models ≡ true → is_some c'.models ≡ true)
    × (c'.ttl ≡ c.ttl)

store_cleaned-Refreshed :
    (ms : List String) (now : ℕ) (c : ModelCache)
    → IsSound c.models
    → IsClean ms
    → Refreshed c (store_cleaned ms now c).0 (store_cleaned ms now c).1
store_cleaned-Refreshed [] now c h clean_ms = (h, refl, λ e. e, refl)
store_cleaned-Refreshed (m ∷ ms) now c h clean_ms = ((λ e. cc, clean_ms), refl, λ e. refl, refl)

store-Refreshed :
    (r : Result (List String)) (now : ℕ) (c : ModelCache)
    → IsSound c.models
    → Refreshed c (store r now c).0 (store r now c).1
store-Refreshed (raised e) now c h = (h, refl, λ x. x, refl)
store-Refreshed (returned names) now c h =
    store_cleaned-Refreshed (clean [] names) now c h (mem-clean names).0

pub fresh-models :
    (c : ModelCache) (now : ℕ) (ms : List String) → get c now ≡ some ms → c.models ≡ some ms
unfolding get
fresh-models c now ms e = ground arith

module _ {S : Type 0} (checked stored : ℕ) (fetcher : Exec S (List String)) where
  fetch_and_store-Refreshed :
      (c : ModelCache) (s : S) (o : Option (List String))
      → get c checked ≡ o
      → IsSound c.models
      → let r = fetch_and_store o fetcher stored (c, s) in Refreshed c r.0 r.1
  fetch_and_store-Refreshed c s (some ms) e h =
      (h, ground (arith, fresh-models c checked ms e), λ x. x, refl)
  fetch_and_store-Refreshed c s none e h = store-Refreshed (fetcher s).0 stored c h

  -- Whatever the fetcher does, a refresh returns what the cache then holds, or nothing where it holds
  -- nothing; that has neither an empty name nor a double; and a cache that had names has names still.
  pub refresh-Refreshed :
      (c : ModelCache) (s : S)
      → IsSound c.models
      → let r = refresh checked stored fetcher (c, s) in Refreshed c r.0 r.1
  unfolding refresh
  refresh-Refreshed c s h = fetch_and_store-Refreshed c s (get c checked) refl h

  -- After a refresh that returned names the cache serves exactly these, to whoever asks within the
  -- time to live of the moment that it keeps, and serves nothing after that.
  pub get-refresh :
      (c : ModelCache) (s : S) (m : String) (ms : List String) (later : ℕ)
      → IsSound c.models
      → (refresh checked stored fetcher (c, s)).0 ≡ m ∷ ms
      → let c' = (refresh checked stored fetcher (c, s)).1 in
        get c' later
        ≡ (if ltb (c'.last_refresh + c.ttl * second) later then none else some (m ∷ ms))
  unfolding get
  get-refresh c s m ms later h e = let r = refresh-Refreshed c s h in ground (arith, r.1, r.3)
