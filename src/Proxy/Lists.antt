-- ===== src/Proxy/Lists.antt =====
-- The two listings of model names: what they answer and what they leave in the cache.
use ollama_proxy.Prelude.{
  ℕ, ◌≡◌, ◌≢◌, refl, sym, ap, subst, inl, inr, String, Bool, true, false, Option, none, some, List,
  [], ◌∷◌, arith, eq_iff, is_some, or_else, Option-cases,
}
use ollama_proxy.Exec.{Result, returned, raised}
use ollama_proxy.KeyManager.{Pool}
use ollama_proxy.ModelCache.{ModelCache, get, clean, mem, refresh, store}
use ollama_proxy.ModelCache.Clean.{IsClean}
use ollama_proxy.ModelCache.Refresh.{IsSound, refresh-Refreshed, fresh-models}
use ollama_proxy.Proxy.{
  ListEnv, fetch, fetch_models_via_rotation, ids_or_stale, shown, serve, listing,
}
use ollama_proxy.Proxy.Fetch.{in_flight-fetch}

-- A clean list stays as it is, when none of its names has been seen.
clean-IsClean :
    (seen ms : List String)
    → IsClean ms
    → ((a : String) → mem a ms ≡ true → mem a seen ≡ false)
    → clean seen ms ≡ ms
unfolding clean
clean-IsClean seen [] h apart = refl
clean-IsClean seen (m ∷ ms) h apart =
    let unseen : mem m seen ≡ false = apart m (ground (arith, eq_iff m m)) in
    let rest =
      clean-IsClean (m ∷ seen) ms h.2 (λ a e. ground (arith, eq_iff m a, apart a, e, h.1)) in
    ground (arith, h.0, unseen, rest)

module _ {A : Type 0} (static : List A) (show : List String → List A) (env : ListEnv)
    (asked checked stored : ℕ) where
  -- What is listed: clean names, those that the cache then holds, or the static ones where it holds none.
  abbrev pub Listed : ModelCache → List A → ModelCache → Type 0
  Listed c answer c' =
      IsSound c'.models
      × (answer ≡ shown static show (or_else c'.models []))
      × (is_some c.models ≡ true → is_some c'.models ≡ true)

  show_sound :
      (c : ModelCache) (ms : List String)
      → IsSound c.models
      → c.models ≡ some ms
      → show ms ≡ shown static show (or_else c.models [])
  show_sound c [] h q = elim ((subst IsSound q h).0 refl) [ ]
  show_sound c (m ∷ ms) h q = rw q refl

  serve-Listed :
      (c : ModelCache) (s : Pool) (o : Option (List String))
      → get c asked ≡ o
      → IsSound c.models
      → let r = serve static show env checked stored o (c, s) in Listed c r.0 r.1
  serve-Listed c s none e h =
      let r = refresh-Refreshed checked stored (fetch env c) c s h in
      (r.0, ap (shown static show) r.1, r.2)
  serve-Listed c s (some ms) e h = (h, show_sound c ms h (fresh-models c asked ms e), λ x. x)

  -- Whatever the upstream does, a listing answers with the names that the cache holds after it, which
  -- have neither gaps nor doubles, or with the static list where the cache holds none; and a cache that
  -- had names has names still.
  pub listing-Listed :
      (c : ModelCache) (s : Pool)
      → IsSound c.models
      → let r = listing static show env asked checked stored (c, s) in Listed c r.0 r.1
  unfolding listing
  listing-Listed c s h = serve-Listed c s (get c asked) refl h

  -- During an outage.
  module _ (c : ModelCache) (s : Pool) (sound : IsSound c.models) where
    stale-kept :
        (o : Option (List String))
        → c.models ≡ o
        → (store (returned (or_else o [])) stored c).0 ≡ or_else o []
    unfolding clean
    stale-kept none e = rw e refl
    stale-kept (some []) e = elim ((subst IsSound e sound).0 refl) [ ]
    stale-kept (some (m ∷ ms)) e =
        rw (clean-IsClean [] (m ∷ ms) (subst IsSound e sound).1 (λ a q. refl)) refl

    outage-store :
        (r : Result (Bool × List String))
        → ((ids : List String) → r ≢ returned (true, ids))
        → (store (ids_or_stale env c r) stored c).0 ≡ or_else c.models []
    outage-store (returned (true, ids)) down = elim (down ids refl) [ ]
    outage-store (returned (false, ids)) down = stale-kept c.models refl
    outage-store (raised e) down = refl

    -- While the upstream gives no names, a listing answers with the names that the cache held before,
    -- however old they are, or with the static list where it held none.
    pub listing-outage :
        ((ids : List String) → (fetch_models_via_rotation env s).0 ≢ returned (true, ids))
        → (listing static show env asked checked stored (c, s)).0
          ≡ shown static show (or_else c.models [])
    unfolding listing refresh fetch
    listing-outage down = elim (Option-cases (get c asked)) [
      | inr (ms, q) ↦ rw q (show_sound c ms sound (fresh-models c asked ms q))
      | inl q ↦ elim (Option-cases (get c checked)) [
        | inr (ms, p) ↦ rw q rw p (
            ap (shown static show)
              (ap (λ (o : Option (List String)). or_else o []) (sym (fresh-models c checked ms p))))
        | inl p ↦
            rw q rw p
              (ap (shown static show) (outage-store (fetch_models_via_rotation env s).0 down))
      ]
    ]

  -- A listing gives back the reservation that it took.
  pub in_flight-listing :
      (c : ModelCache) (s : Pool)
      → ((t : Pool) → (env.meanwhile t).in_flight ≡ t.in_flight)
      → (listing static show env asked checked stored (c, s)).2.in_flight ≡ s.in_flight
  unfolding listing refresh fetch
  in_flight-listing c s quiet = elim (Option-cases (get c asked)) [
    | inr (ms, q) ↦ rw q refl
    | inl q ↦ elim (Option-cases (get c checked)) [
      | inr (ms, p) ↦ rw q rw p refl
      | inl p ↦ rw q rw p (in_flight-fetch env quiet s)
    ]
  ]
