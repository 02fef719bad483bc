-- ===== src/DashboardAuth/Sessions.antt =====
-- What signatures are worth to the sessions, the CSRF tokens and the flash messages.
use ollama_proxy.Prelude.{
  ℕ, ◌+◌, ◌≤◌, ◌≡◌, ◌↔◌, refl, sym, ◌∙◌, subst, String, true, false, Option, none, some, arith, leb,
  str_eq, eq_iff, if◌then◌else◌, Bool-cases, Option-cases, inl, inr,
}
use ollama_proxy.Exec.{returned}
use ollama_proxy.Python.{Json, get, strip}
use ollama_proxy.UserTokens.Lifecycle.{true-≢-false}
use ollama_proxy.DashboardAuth.{
  Serializer, JsonText, DashboardAuth, csrf_cookie, csrf_cookie_max_age, flash_max_age,
  issue_session, verify_session, issue_csrf, verify_csrf, csrf_payload, names_session, flash_put,
  flash_read, flash_payload, is_level,
}
use ollama_proxy.DashboardAuth.Guard.{
  Request, cookie, presented, get_dashboard_session, check_session, check_token,
  require_dashboard_csrf,
}

-- What the library documents of a serializer, for the payloads that the program signs: a signed
-- value opens to its payload until its age exceeds the limit, and nothing else opens.
pub record IsSerializer {P : Type 0} (Signs : P → Type 0) (s : Serializer P) : Type 0 where
  pub not_empty : (p : P) (t : ℕ) → str_eq (s.dumps p t) "" ≡ false
  pub opens :
      (p : P) (t age now : ℕ)
      → Signs p
      → t ≤ now
      → s.loads (s.dumps p t) age now ≡ (if leb now (t + age) then some p else none)
  pub genuine :
      (value : String) (age now : ℕ) (p : P)
      → s.loads value age now ≡ some p
      → (t : ℕ) × (value ≡ s.dumps p t) × (t ≤ now) × (now ≤ t + age)

abbrev pub AnyText : String → Type 0
AnyText text = Unit

abbrev pub IsCsrfPayload : Json → Type 0
IsCsrfPayload p = (session_id : String) × (token : String) × (p ≡ csrf_payload session_id token)

pub record IsSigned (auth : DashboardAuth) : Type 0 where
  pub session : IsSerializer AnyText auth.signers.session
  pub csrf : IsSerializer IsCsrfPayload auth.signers.csrf
  pub flash : IsSerializer AnyText auth.signers.flash

module _ (auth : DashboardAuth) (signed : IsSigned auth) where
  -- A session cookie is worth its session until its time to live is over, and nothing after that.
  pub verify_session-issue_session :
      (raw : String) (issued now : ℕ)
      → issued ≤ now
      → verify_session auth (issue_session auth raw issued) now
        ≡ (if leb now (issued + auth.session_ttl_seconds) then some raw else none)
  unfolding verify_session issue_session
  verify_session-issue_session raw issued now h =
      rw (signed.session.not_empty raw issued)
        (signed.session.opens raw issued auth.session_ttl_seconds now tt h)

  -- What verifies is a signature of the session, not older than the time to live.
  pub verify_session_genuine :
      (value : String) (now : ℕ) (session_id : String)
      → verify_session auth value now ≡ some session_id
      → (issued : ℕ) × (value ≡ issue_session auth session_id issued)
        × (issued ≤ now)
        × (now ≤ issued + auth.session_ttl_seconds)
  unfolding verify_session issue_session
  verify_session_genuine value now session_id e = elim (Bool-cases (str_eq value "")) [
    | inl q ↦ ground (arith, q, e)
    | inr q ↦ signed.session.genuine value auth.session_ttl_seconds now session_id (
        subst
          (λ b.
            (if b then none else auth.signers.session.loads value auth.session_ttl_seconds now)
            ≡ some session_id)
          q e)
  ]

  issued_passes :
      (session_id other token : String) (issued now : ℕ)
      → str_eq session_id "" ≡ false
      → issued ≤ now
      → now ≤ issued + csrf_cookie_max_age
      → verify_csrf auth other
          (some (auth.signers.csrf.dumps (csrf_payload session_id token) issued))
          now
        ≡ str_eq session_id other
  unfolding verify_csrf get
  issued_passes session_id other token issued now q h k =
      let p = csrf_payload session_id token in
      let opened = signed.csrf.opens p issued csrf_cookie_max_age now (session_id, token, refl) h in
      elim (Bool-cases (str_eq other "")) [
        | inl r ↦
            rw r (subst (λ x. false ≡ str_eq session_id x) (sym ((eq_iff other "").0 r)) (sym q))
        | inr r ↦ rw r rw (signed.csrf.not_empty p issued) rw opened ground (arith, k)
      ]

  -- A CSRF token that was issued for one session passes, within its 24 hours, for that session and for
  -- no other.
  pub verify_csrf-issue_csrf :
      (session_id other token value : String) (issued now : ℕ)
      → issue_csrf auth session_id token issued ≡ returned value
      → issued ≤ now
      → now ≤ issued + csrf_cookie_max_age
      → verify_csrf auth other (some value) now ≡ str_eq session_id other
  unfolding issue_csrf
  verify_csrf-issue_csrf session_id other token value issued now e h k =
      elim (Bool-cases (str_eq session_id "")) [
        | inl q ↦ ground (arith, q, e)
        | inr q ↦
            subst (λ v. verify_csrf auth other (some v) now ≡ str_eq session_id other)
              (ground (arith, q, e)) (issued_passes session_id other token issued now q h k)
      ]

  -- What passes as the CSRF token of a session is a signature of an object that names the session,
  -- not older than 24 hours.
  pub verify_csrf_genuine :
      (session_id value : String) (now : ℕ)
      → verify_csrf auth session_id (some value) now ≡ true
      → (payload : Json) × (issued : ℕ) × (value ≡ auth.signers.csrf.dumps payload issued)
        × (names_session (some payload) session_id ≡ true)
        × (issued ≤ now)
        × (now ≤ issued + csrf_cookie_max_age)
  unfolding verify_csrf get
  verify_csrf_genuine session_id value now e =
      let loaded = auth.signers.csrf.loads value csrf_cookie_max_age now in
      let named : names_session loaded session_id ≡ true = ground (arith, e) in
      elim (Option-cases loaded) [
        | inl q ↦
            elim (true-≢-false (sym (subst (λ o. names_session o session_id ≡ true) q named))) [ ]
        | inr (payload, q) ↦
            let (issued, same, from, till) =
              signed.csrf.genuine value csrf_cookie_max_age now payload q in
            (
              payload,
              issued,
              same,
              subst (λ o. names_session o session_id ≡ true) q named,
              from,
              till,
            )
      ]

  -- A flash message that was put in a cookie is read back as it was, for a minute.
  pub flash_read-flash_put :
      (json : JsonText) (level msg value : String) (put now : ℕ)
      → json.loads (json.dumps (flash_payload level msg)) ≡ some (flash_payload level msg)
      → str_eq (strip msg) "" ≡ false
      → flash_put auth json level msg put ≡ returned value
      → put ≤ now
      → flash_read auth json value now ≡ (
          if leb now (put + flash_max_age)
          then some (record { level = level; msg = msg })
          else none)
  unfolding flash_read flash_put get
  flash_read-flash_put json level msg value put now law shown e h =
      let raw = json.dumps (flash_payload level msg) in
      let opened = signed.flash.opens raw put flash_max_age now tt h in
      elim (Bool-cases (is_level level)) [
        | inl q ↦
            let same : auth.signers.flash.dumps raw put ≡ value = ground (arith, q, e) in
            subst
              (λ v. flash_read auth json v now ≡ (
                if leb now (put + flash_max_age)
                then some (record { level = level; msg = msg })
                else none))
              same
              (rw (signed.flash.not_empty raw put) rw opened
                (elim (Bool-cases (leb now (put + flash_max_age))) [
                  | inl k ↦ rw k rw law rw q rw shown refl
                  | inr k ↦ rw k refl
                ]))
        | inr q ↦ ground (arith, q, e)
      ]

-- What a form post needs: a session, and its CSRF token twice, in the form (or the header) and in the
-- cookie.
abbrev pub Passes : DashboardAuth → ℕ → Request → Type 0
Passes auth now request =
    (session_id : String) × (token : String) × (get_dashboard_session auth now request
      ≡ some session_id)
    × (presented request ≡ some token)
    × (cookie request csrf_cookie ≡ token)
    × (verify_csrf auth session_id (some token) now ≡ true)

module _ (auth : DashboardAuth) (now : ℕ) (request : Request) where
  verify_csrf-not_empty :
      (session_id token : String)
      → verify_csrf auth session_id (some token) now ≡ true
      → (str_eq session_id "" ≡ false) × (str_eq token "" ≡ false)
  unfolding verify_csrf
  verify_csrf-not_empty session_id token e = ground (arith, e)

  check_token-Passes :
      (session_id : String) (o : Option String)
      → check_token auth now session_id (cookie request csrf_cookie) o ≡ returned tt
      → (token : String) × (o ≡ some token)
        × (cookie request csrf_cookie ≡ token)
        × (verify_csrf auth session_id (some token) now ≡ true)
  unfolding verify_csrf
  check_token-Passes session_id none e = ground (arith, e)
  check_token-Passes session_id (some token) e =
      let c = cookie request csrf_cookie in
      let same : str_eq token c ≡ true = ground (arith, e) in
      (token, refl, sym ((eq_iff token c).0 same), ground (arith, e))

  check_session-Passes :
      (session_id : String)
      → check_session auth now request (some session_id) ≡ returned tt
      → check_token auth now session_id (cookie request csrf_cookie) (presented request)
        ≡ returned tt
  unfolding verify_csrf
  check_session-Passes session_id e = ground (arith, e)

  passes_check :
      (session_id token : String)
      → verify_csrf auth session_id (some token) now ≡ true
      → check_session auth now request (some session_id)
        ≡ check_token auth now session_id (cookie request csrf_cookie) (presented request)
  unfolding verify_csrf
  passes_check session_id token e = rw (verify_csrf-not_empty session_id token e).0 refl

  check_token_of_same :
      (session_id token : String)
      → verify_csrf auth session_id (some token) now ≡ true
      → check_token auth now session_id token (some token) ≡ returned tt
  unfolding verify_csrf
  check_token_of_same session_id token e =
      ground (arith, e, verify_csrf-not_empty session_id token e, eq_iff token token)

  -- The guard of the form posts lets a request pass exactly when it needs to.
  pub require_dashboard_csrf_iff :
      (require_dashboard_csrf auth now request ≡ returned tt) ↔ Passes auth now request
  unfolding require_dashboard_csrf
  require_dashboard_csrf_iff = (
    λ e. elim (Option-cases (get_dashboard_session auth now request)) [
      | inl q ↦ ground (arith, subst (λ o. check_session auth now request o ≡ returned tt) q e)
      | inr (session_id, q) ↦
          let checked = subst (λ o. check_session auth now request o ≡ returned tt) q e in
          let (token, shown, same, passed) =
            check_token-Passes session_id (presented request)
              (check_session-Passes session_id checked) in
          (session_id, token, q, shown, same, passed)
    ],
    λ p.
        let (session_id, token, found, shown, same, passed) = p in
        rw found (
          passes_check session_id token passed
          ∙ rw shown rw same (check_token_of_same session_id token passed)),
  )
