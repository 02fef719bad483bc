-- ===== src/KeyManager/InFlight.antt =====
-- Reservations under every interleaving of requests: the event loop may run picks, releases,
-- reactivations and other sessions' writes in any order.
use ollama_proxy.Prelude.{
  ℕ, ◌≡◌, refl, ap, ◌∙◌, true, false, not, none, some, List, [], ◌∷◌, arith, ◌==◌, if◌then◌else◌,
  ==_iff, keep, contains, Distinct,
}
use ollama_proxy.Models.{ApiKey, Db}
use ollama_proxy.KeyManager.{
  Pool, discard, pick_next_key, release, reactivate_locked, reactivate_expired_depleted,
}
use ollama_proxy.KeyManager.Pick.{
  pick-active, pick-Picked, manager-pool_at_pick, pool_at_pick, Picked,
}

-- The requests that are between their pick and their release, by the id that each has in hand.
-- Each request gives back one id, so an id that two requests had would be listed twice.
pub record System : Type 0 where
  pub pool : Pool
  pub holders : List ℕ

abbrev pub give_back : ℕ → List ℕ → List ℕ
give_back a [] = []
give_back a (x ∷ xs) = let rest = give_back a xs in if x == a then xs else x ∷ rest

pub data Step (u : System) : System → Type 0 where
  picks :
      (now : ℕ) (k : ApiKey) (s' : Pool) (v : System)
      → pick_next_key now u.pool ≡ (some k, s')
      → v ≡ record { pool = s'; holders = k.id ∷ u.holders }
      → Step u v
  finds_none :
      (now : ℕ) (s' : Pool) (v : System)
      → pick_next_key now u.pool ≡ (none, s')
      → v ≡ record { pool = s'; holders = u.holders }
      → Step u v
  releases :
      (key_id : ℕ) (v : System)
      → contains key_id u.holders ≡ true
      → v ≡ record { pool = release key_id u.pool; holders = give_back key_id u.holders }
      → Step u v
  reactivates :
      (now : ℕ) (v : System)
      → v ≡ record { pool = (reactivate_expired_depleted now u.pool).1; holders = u.holders }
      → Step u v
  writes :
      (db : Db) (v : System)
      → v ≡ record { pool = record (u.pool) { db = db }; holders = u.holders }
      → Step u v

pub data Reach (u : System) : System → Type 0 where
  here : Reach u u
  next : {v w : System} → Reach u v → Step v w → Reach u w

-- The manager's set is exactly what the requests have in hand, and nothing is there twice.
pub record IsExclusive (u : System) : Type 0 where
  pub same : u.pool.in_flight ≡ u.holders
  pub distinct : Distinct u.holders

keep_absent : (a : ℕ) (xs : List ℕ) → contains a xs ≡ false → keep (λ x. not (x == a)) xs ≡ xs
keep_absent a [] h = refl
keep_absent a (x ∷ xs) h = ground (arith, keep_absent a xs)

-- Giving back the id that was taken last leaves the others.
pub discard-cons : (a : ℕ) (xs : List ℕ) → contains a xs ≡ false → discard a (a ∷ xs) ≡ xs
unfolding discard
discard-cons a xs h = ground (arith, keep_absent a xs h)

discard-give_back : (a : ℕ) (xs : List ℕ) → Distinct xs → discard a xs ≡ give_back a xs
unfolding discard
discard-give_back a [] d = refl
discard-give_back a (x ∷ xs) d =
    ground (arith, discard-give_back a xs d.1, keep_absent a xs, ==_iff x a)

contains-give_back :
    (a b : ℕ) (xs : List ℕ) → contains b xs ≡ false → contains b (give_back a xs) ≡ false
contains-give_back a b [] h = refl
contains-give_back a b (x ∷ xs) h = ground (arith, contains-give_back a b xs)

give_back-Distinct : (a : ℕ) (xs : List ℕ) → Distinct xs → Distinct (give_back a xs)
give_back-Distinct a [] d = tt
give_back-Distinct a (x ∷ xs) d =
    ground (arith, give_back-Distinct a xs d.1, contains-give_back a x xs)

Picked-none-manager :
    (keys : List ApiKey) (t s' : Pool) → Picked keys t (none, s') → s'.manager ≡ t.manager
Picked-none-manager keys t s' p = ap (λ (q : Pool). q.manager) p.1

-- A pick that finds nothing reserves nothing.
pub none-in_flight :
    (now : ℕ) (s s' : Pool) → pick_next_key now s ≡ (none, s') → s'.manager ≡ s.manager
none-in_flight now s s' e =
    Picked-none-manager _ (pool_at_pick now s) s' (rw e at (pick-Picked now s))
    ∙ manager-pool_at_pick now s

pub Step-IsExclusive : {u v : System} → Step u v → IsExclusive u → IsExclusive v
unfolding release reactivate_locked
Step-IsExclusive {u} (picks now k s' v e ve) x =
    let (_, free, grown) = pick-active now u.pool k s' e in
    rw ve (record {
      same = grown ∙ ap (λ t. k.id ∷ t) x.same;
      distinct = (rw (← x.same) free, x.distinct);
    })
Step-IsExclusive {u} (finds_none now s' v e ve) x = rw ve (record {
  same = ground (arith, none-in_flight now u.pool s' e, x.same);
  distinct = x.distinct;
})
Step-IsExclusive {u} (releases key_id v h ve) x = rw ve (record {
  same = ap (discard key_id) x.same ∙ discard-give_back key_id u.holders x.distinct;
  distinct = give_back-Distinct key_id u.holders x.distinct;
})
Step-IsExclusive {u} (reactivates now v ve) x =
    rw ve (record { same = x.same; distinct = x.distinct })
Step-IsExclusive {u} (writes db v ve) x = rw ve (record { same = x.same; distinct = x.distinct })

-- However requests, reactivations and other writers interleave, no key id is in the hands of two
-- requests at once, and the manager's set lists exactly the ids in hand.
pub Reach-IsExclusive : {u v : System} → IsExclusive u → Reach u v → IsExclusive v
Reach-IsExclusive x here = x
Reach-IsExclusive x (next r st) = Step-IsExclusive st (Reach-IsExclusive x r)
