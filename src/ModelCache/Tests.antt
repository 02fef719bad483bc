-- ===== src/ModelCache/Tests.antt =====
-- The cache at a concrete fetch.
use ollama_proxy.Prelude.{ℕ, ◌+◌, String, ◌≡◌, refl, none, List, [], ◌∷◌}
use ollama_proxy.Exec.{Exec, returned}
use ollama_proxy.ModelCache.{ModelCache, clean, refresh}
use ollama_proxy.ModelCache.Refresh.{Refreshed, refresh-Refreshed}

abbrev empty_cache : ModelCache
empty_cache = record { ttl = 300; models = none; last_refresh = 0 }

abbrev fetch_three : Exec ℕ (List String)
fetch_three n = (returned ("a" ∷ "" ∷ "b" ∷ "a" ∷ []), n + 1)

cleaned : clean [] ("a" ∷ "" ∷ "b" ∷ "a" ∷ []) ≡ "a" ∷ "b" ∷ []
unfolding clean
cleaned = refl

refreshed : (refresh 5 9 fetch_three (empty_cache, 0)).0 ≡ "a" ∷ "b" ∷ []
unfolding refresh
refreshed = refl

refresh-Refreshed_example :
    let r = refresh 5 9 fetch_three (empty_cache, 0) in Refreshed empty_cache r.0 r.1
refresh-Refreshed_example = refresh-Refreshed 5 9 fetch_three empty_cache 0 tt
