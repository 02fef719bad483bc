-- ===== src/ModelCache.antt =====
-- app/services/model_cache.py: the model names of the upstream, kept for a while.
pub mod Clean
pub mod Refresh
pub mod Tests
use ollama_proxy.Prelude.{
  ℕ, ◌+◌, ◌*◌, String, Bool, true, false, ◌&&◌, ◌||◌, not, Option, none, some, List, [], ◌∷◌, ltb,
  leb, str_eq, if◌then◌else◌, max, or_else,
}
use ollama_proxy.Clock.{second}
use ollama_proxy.Exec.{Exec, Result, returned, raised}

-- Moments of the monotonic clock are in microseconds.
pub record ModelCache : Type 0 where
  pub ttl : ℕ
  pub models : Option (List String)
  pub last_refresh : ℕ

unfoldable pub init : ℕ → ModelCache
init ttl_seconds = record { ttl = max 1 ttl_seconds; models = none; last_refresh = 0 }

-- `(time.monotonic() - self._last_refresh) > self._ttl`
abbrev pub is_stale : ModelCache → ℕ → Bool
is_stale c now = ltb (c.last_refresh + c.ttl * second) now

-- `self._models is None or not self._models`
abbrev pub usable : Option (List String) → Option (List String)
usable none = none
usable (some []) = none
usable (some (m ∷ ms)) = some (m ∷ ms)

abbrev pub fresh_models : Bool → Option (List String) → Option (List String)
fresh_models true o = none
fresh_models false o = usable o

unfoldable pub get : ModelCache → ℕ → Option (List String)
get c now = fresh_models (is_stale c now) c.models

abbrev pub get_stale : ModelCache → Option (List String)
get_stale c = c.models

abbrev pub mem : String → List String → Bool
mem a [] = false
mem a (x ∷ xs) = str_eq x a || mem a xs

-- The loop over the fetched names: `name and name not in seen`.
unfoldable pub clean : List String → List String → List String
clean seen [] = []
clean seen (name ∷ names) =
    let skipped = clean seen names in
    let kept = name ∷ clean (name ∷ seen) names in
    if str_eq name "" || mem name seen then skipped else kept

-- `if not cleaned:` what was there stays, and is returned, stale or not.
abbrev pub store_cleaned : List String → ℕ → ModelCache → List String × ModelCache
store_cleaned [] now c = (or_else c.models [], c)
store_cleaned (m ∷ ms) now c = (m ∷ ms, record c { models = some (m ∷ ms); last_refresh = now })

abbrev pub store : Result (List String) → ℕ → ModelCache → List String × ModelCache
store (raised e) now c = (or_else c.models [], c)
store (returned names) now c = store_cleaned (clean [] names) now c

abbrev pub fetch_and_store :
    {S : Type 0}
    → Option (List String)
    → Exec S (List String)
    → ℕ
    → ModelCache × S
    → List String × ModelCache × S
fetch_and_store (some models) fetcher now (c, s) = (models, c, s)
fetch_and_store none fetcher now (c, s) =
    let (result, s') = fetcher s in let (names, c') = store result now c in (names, c', s')

-- Under the lock: another task may have refreshed meanwhile. `checked` and `stored` are the moments
-- of the two looks at the clock; the fetcher changes a state of its own.
unfoldable pub refresh :
    {S : Type 0} → ℕ → ℕ → Exec S (List String) → ModelCache × S → List String × ModelCache × S
unfolding get clean
refresh checked stored fetcher (c, s) = fetch_and_store (get c checked) fetcher stored (c, s)

unfoldable pub reset : ModelCache → ModelCache
reset c = record c { models = none; last_refresh = 0 }
