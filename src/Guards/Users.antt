-- ===== src/Guards/Users.antt =====
-- Who passes the guard of the proxy.
use ollama_proxy.Prelude.{
  ℕ, ◌≡◌, ◌≢◌, refl, inl, inr, String, true, false, Option, none, some, List, [], ◌∷◌, arith,
  eq_iff, Bool-cases, get_elem?, All, count, ◌==◌,
}
use ollama_proxy.Exec.{Result, returned, raised}
use ollama_proxy.Table
use ollama_proxy.Models.{Db, UserToken, UserTokenStatus}
use ollama_proxy.UserTokens.{
  authenticate, has_any_active_token, has_token_status, with_use, with_tokens, set_token, count_use,
  revoke_token, changed, revoking,
}
use ollama_proxy.UserTokens.Authenticate.{
  DistinctHashes, IsLive, authenticate-IsExact, authenticate_sound,
}
use ollama_proxy.UserTokens.Lifecycle.{changed_status}
use ollama_proxy.Guards.{GuardState, extract_bearer, guard_user, or_401, require_user_token}

-- What the guard's answer rests on: nobody has an active token and the request brings none, or it
-- brings one whose row is live, which the answer is, used once more.
abbrev pub IsEntitled : (String → String) → ℕ → ℕ → Option String → Db → Option UserToken → Type 0
IsEntitled sha256 checked now presented db none =
    (presented ≡ none) × (has_any_active_token db ≡ false)
IsEntitled sha256 checked now presented db (some u) =
    (raw : String) × (presented ≡ some raw)
    × ((t : UserToken) × ((i : ℕ) × (get_elem? db.user_tokens i ≡ some t))
        × IsLive (sha256 raw) checked t
        × (with_use now t ≡ u))

extract_bearer-NonEmpty :
    (sp : String → String × String) (header : Option String) (raw : String)
    → extract_bearer sp header ≡ some raw
    → raw ≢ ""
unfolding extract_bearer
extract_bearer-NonEmpty sp none raw e q = ground arith
extract_bearer-NonEmpty sp (some auth) raw e q = ground (arith, eq_iff (sp auth).1 "")

or_401-returned :
    (r : Result (Option UserToken) × Db) (s : GuardState) (o : Option UserToken)
    → (or_401 r s).0 ≡ returned o
    → (u : UserToken) × (o ≡ some u) × (r.0 ≡ returned (some u))
or_401-returned (returned (some t), db) s o e = (t, ground arith, refl)
or_401-returned (returned none, db) s o e = ground arith
or_401-returned (raised x, db) s o e = ground arith

module _ (sp : String → String × String) (sha256 : String → String) (checked now : ℕ) where
  guard_user-IsEntitled :
      (presented : Option String) (s : GuardState) (o : Option UserToken)
      → ((raw : String) → presented ≡ some raw → raw ≢ "")
      → (guard_user sp sha256 checked now presented s).0 ≡ returned o
      → IsEntitled sha256 checked now presented s.db o
  unfolding guard_user
  guard_user-IsEntitled none s none h e = elim (Bool-cases (has_any_active_token s.db)) [
    | inl q ↦ ground (arith, q, e)
    | inr q ↦ (refl, q)
  ]
  guard_user-IsEntitled none s (some u) h e = ground (arith, e)
  guard_user-IsEntitled (some raw) s none h e =
      ground (arith, (or_401-returned (authenticate sha256 checked now raw s.db) s none e).1)
  guard_user-IsEntitled (some raw) s (some u) h e =
      let r = or_401-returned (authenticate sha256 checked now raw s.db) s (some u) e in
      (
        raw,
        refl,
        authenticate_sound sha256 checked now raw s.db u (h raw refl) (ground (arith, r.1, r.2)),
      )

  -- Whom the guard lets in is entitled: no bearer and no active token in the table, or a bearer
  -- token whose row is active and has not expired.
  pub require_user_token-IsEntitled :
      (header : Option String) (s : GuardState) (o : Option UserToken)
      → (require_user_token sp sha256 checked now header s).0 ≡ returned o
      → IsEntitled sha256 checked now (extract_bearer sp header) s.db o
  unfolding require_user_token
  require_user_token-IsEntitled header s o e =
      guard_user-IsEntitled (extract_bearer sp header) s o (extract_bearer-NonEmpty sp header) e

  -- The owner of a live token is let in, and the use is counted.
  pub require_user_token_complete :
      (header : Option String) (raw : String) (s : GuardState) (i : ℕ) (t : UserToken)
      → extract_bearer sp header ≡ some raw
      → DistinctHashes s.db.user_tokens
      → get_elem? s.db.user_tokens i ≡ some t
      → IsLive (sha256 raw) checked t
      → require_user_token sp sha256 checked now header s ≡ (
        returned (some (with_use now t)),
        record s { db = with_tokens s.db (set_token t.id (count_use now) s.db.user_tokens) },
      )
  unfolding require_user_token guard_user
  require_user_token_complete header raw s i t e d at_i live =
      rw e rw
        ((authenticate-IsExact sha256 checked now raw s.db (extract_bearer-NonEmpty sp header raw e)
            d).0
          i t at_i live)
        refl

count-revoked :
    (at key : ℕ) (rows : List UserToken)
    → All (λ r. (has_token_status UserTokenStatus.active r ≡ true) → r.id ≡ key) rows
    → count (has_token_status UserTokenStatus.active) (set_token key (changed at revoking) rows) ≡ 0
unfolding Table.update_where
count-revoked at key [] h = refl
count-revoked at key (r ∷ rows) h =
    let rest = count-revoked at key rows h.1 in
    elim (Bool-cases (r.id == key)) [
      | inl q ↦ rw q rw (changed_status at r) (omega (arith, rest))
      | inr q ↦ rw q (ground (arith, q, h.0, rest))
    ]

-- Once the last active token is revoked, a request without a bearer token is let in.
pub require_user_token-revoke_token :
    (sp : String → String × String) (sha256 : String → String) (at checked now : ℕ)
    (header : Option String) (t : UserToken) (s : GuardState)
    → extract_bearer sp header ≡ none
    → All (λ r. (has_token_status UserTokenStatus.active r ≡ true) → r.id ≡ t.id) s.db.user_tokens
    → (require_user_token sp sha256 checked now header
        (record s { db = (revoke_token at t s.db).1 })).0
      ≡ returned none
unfolding require_user_token guard_user revoke_token has_any_active_token
require_user_token-revoke_token sp sha256 at checked now header t s e h =
    rw e rw (count-revoked at t.id s.db.user_tokens h) refl
