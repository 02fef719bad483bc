-- ===== src/KeyManager/Revival.antt =====
-- Picks and reactivations: what they leave of a key's state.
use ollama_proxy.Prelude.{ℕ, ◌≡◌, refl, sym, Option, none, some, List, [], ◌∷◌, All, subst}
use ollama_proxy.Table.{All-update_where}
use ollama_proxy.Models.{ApiKey, Db}
use ollama_proxy.KeyManager.Pick.{choices, candidates, pool_at_pick, Picked, pick-Picked}
use ollama_proxy.KeyManager.{
  Pool, cooled_down, revive, reactivate_locked, pick_next_key, load_active,
}
use ollama_proxy.KeyManager.Lifecycle.{IsCoherent}

reactivate-IsCoherent :
    (now : ℕ) (s : Pool)
    → All IsCoherent s.api_keys
    → All IsCoherent (reactivate_locked now s).1.api_keys
unfolding reactivate_locked revive
reactivate-IsCoherent now s h =
    All-update_where IsCoherent (cooled_down now) (revive now) s.api_keys (λ r _ c. refl) h

choices-IsCoherent :
    (keys : List ApiKey) (now : ℕ) (s : Pool)
    → All IsCoherent s.api_keys
    → All IsCoherent (choices keys now s).1.api_keys
choices-IsCoherent [] now s h = reactivate-IsCoherent now s h
choices-IsCoherent (k ∷ keys) now s h = h

pub Picked-db :
    (keys : List ApiKey) (t : Pool) (r : Option ApiKey × Pool) → Picked keys t r → r.1.db ≡ t.db
Picked-db keys t (none, s') p = rw p.1 refl
Picked-db keys t (some k, s') p = rw p.5 refl

-- Picking, with the reactivation that it may make, keeps every key coherent.
pub pick-IsCoherent :
    (now : ℕ) (s : Pool)
    → All IsCoherent s.api_keys
    → All IsCoherent (pick_next_key now s).1.api_keys
pick-IsCoherent now s h =
    subst (λ (d : Db). All IsCoherent d.api_keys)
      (sym (
        Picked-db (candidates now s) (pool_at_pick now s) (pick_next_key now s)
          (pick-Picked now s)))
      (choices-IsCoherent (load_active s.api_keys) now s h)
