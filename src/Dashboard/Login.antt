-- ===== src/Dashboard/Login.antt =====
-- From the login to the first form post.
use ollama_proxy.Prelude.{
  ℕ, ◌+◌, ◌≤◌, ◌≡◌, refl, sym, ◌∙◌, subst, ap, inl, inr, String, true, false, Option, none, some,
  List, [], ◌∷◌, arith, str_eq, eq_iff, if◌then◌else◌, Bool-cases, is_some,
}
use ollama_proxy.Exec.{returned, returned-injective}
use ollama_proxy.DashboardAuth.{
  session_cookie, csrf_cookie, csrf_cookie_max_age, issue_session, verify_session, issue_csrf,
  flash_put, csrf_payload, flash_payload, flash_cookie,
}
use ollama_proxy.DashboardAuth.Guard.{
  Request, cookie, presented, get_dashboard_session, require_dashboard_csrf,
}
use ollama_proxy.DashboardAuth.Sessions.{
  IsSigned, Passes, require_dashboard_csrf_iff, verify_session-issue_session,
  verify_csrf-issue_csrf,
}
use ollama_proxy.Dashboard.{
  Web, Response, SetCookie, set_cookie, delete_cookie, login_submit, logged_in, logged_in_as,
  see_other, set_flash,
}

pub some-injective : {a b : String} → some a ≡ some b → a ≡ b
some-injective e = ground (arith, e)

-- The value that a response leaves under a name in the browser: the last header wins.
abbrev pub value_after : String → List SetCookie → Option String → Option String
value_after name [] old = old
value_after name (set_cookie n value age http_only secure ∷ rest) old =
    value_after name rest (if str_eq n name then some value else old)
value_after name (delete_cookie n http_only secure ∷ rest) old =
    value_after name rest (if str_eq n name then none else old)

abbrev pub sent : String → Response → Option String
sent name response = value_after name response.cookies none

-- A request that gives back what a response sent, with the CSRF token in its form (or header).
abbrev pub Returns : Response → Request → Type 0
Returns response request =
    (session : String) × (token : String) × (sent session_cookie response ≡ some session)
    × (sent csrf_cookie response ≡ some token)
    × (cookie request session_cookie ≡ session)
    × (cookie request csrf_cookie ≡ token)
    × (presented request ≡ some token)

module _ (web : Web) (signed : IsSigned web.auth) where
  abbrev session_value : String
  unfolding issue_session
  session_value = issue_session web.auth web.session_random web.seconds

  abbrev token : String
  token = web.auth.signers.csrf.dumps (csrf_payload web.session_random web.csrf_random) web.seconds

  abbrev flash_value : String
  flash_value =
      web.auth.signers.flash.dumps (web.json.dumps (flash_payload "ok" "Logged in.")) web.seconds

  -- The redirection with the three cookies.
  abbrev welcome : Response
  unfolding session_value
  welcome = record {
    body = see_other "/dashboard";
    cookies =
        set_cookie session_cookie session_value web.auth.session_ttl_seconds true
          web.auth.cookie_secure
        ∷ set_cookie csrf_cookie token 86400 true web.auth.cookie_secure
        ∷ set_cookie flash_cookie flash_value 60 true web.auth.cookie_secure
        ∷ [];
  }

  logged_in_lem : str_eq web.session_random "" ≡ false → logged_in web ≡ returned welcome
  unfolding issue_session verify_session issue_csrf set_flash flash_put session_value welcome
  logged_in_lem h =
      let now = web.seconds in
      let found : verify_session web.auth session_value now ≡ some web.session_random =
        verify_session-issue_session web.auth signed web.session_random now now (omega arith)
        ∙ ground arith in
      subst (λ o. logged_in_as web session_value o ≡ returned welcome) (sym found) (rw h refl)

  -- With a password in the settings and a session id that is not empty, a login with any password
  -- returns, and sends a session cookie exactly when the password is the one of the settings.
  pub login_submit-IsExact :
      (password expected : String)
      → web.password ≡ some expected
      → str_eq expected "" ≡ false
      → str_eq web.session_random "" ≡ false
      → (response : Response) × (login_submit web password ≡ returned response)
        × (is_some (sent session_cookie response) ≡ str_eq password expected)
  unfolding login_submit issue_session verify_session issue_csrf set_flash flash_put
  login_submit-IsExact password expected e h k = elim (Bool-cases (str_eq password expected)) [
    | inl q ↦ (welcome, rw e rw h rw q (logged_in_lem k), rw q refl)
    | inr q ↦ (
      record {
        body = see_other "/dashboard/login";
        cookies =
            set_cookie flash_cookie
              (web.auth.signers.flash.dumps
                (web.json.dumps (flash_payload "error" "Invalid password.")) web.seconds)
              60 true web.auth.cookie_secure
            ∷ [];
      },
      rw e rw h rw q refl,
      rw q refl,
    )
  ]

  welcome-Passes :
      (request : Request) (now : ℕ)
      → str_eq web.session_random "" ≡ false
      → Returns welcome request
      → web.seconds ≤ now
      → now ≤ web.seconds + web.auth.session_ttl_seconds
      → now ≤ web.seconds + csrf_cookie_max_age
      → Passes web.auth now request
  unfolding get_dashboard_session issue_csrf session_value welcome
  welcome-Passes request now k (session, t, s1, s2, c1, c2, shown) from s c =
      let session_cookie_is : session ≡ session_value = sym (some-injective s1) in
      let token_is : t ≡ token = sym (some-injective s2) in
      let opened : verify_session web.auth session_value now ≡ some web.session_random =
        verify_session-issue_session web.auth signed web.session_random web.seconds now from
        ∙ ground (arith, s) in
      let issued : issue_csrf web.auth web.session_random web.csrf_random web.seconds
          ≡ returned token =
        rw k refl in
      let valid =
        verify_csrf-issue_csrf web.auth signed web.session_random web.session_random web.csrf_random
          token web.seconds now issued from c
        ∙ (eq_iff web.session_random web.session_random).1 refl in
      (
        web.session_random,
        token,
        ap (λ v. verify_session web.auth v now) (c1 ∙ session_cookie_is) ∙ opened,
        shown ∙ ap some token_is,
        c2 ∙ token_is,
        valid,
      )

  -- Whoever logs in with the right password passes the guard of every form post from then on, until
  -- the session or the CSRF token runs out, by giving back the two cookies and the token in the form.
  pub login_submit-Passes :
      (expected : String) (response : Response) (request : Request) (now : ℕ)
      → web.password ≡ some expected
      → str_eq expected "" ≡ false
      → str_eq web.session_random "" ≡ false
      → login_submit web expected ≡ returned response
      → Returns response request
      → web.seconds ≤ now
      → now ≤ web.seconds + web.auth.session_ttl_seconds
      → now ≤ web.seconds + csrf_cookie_max_age
      → require_dashboard_csrf web.auth now request ≡ returned tt
  unfolding login_submit issue_session verify_session issue_csrf set_flash flash_put
  login_submit-Passes expected response request now e h k logged back from s c =
      let right : login_submit web expected ≡ returned welcome =
        rw e rw h rw ((eq_iff expected expected).1 refl) (logged_in_lem k) in
      let same : response ≡ welcome = returned-injective (sym logged ∙ right) in
      (require_dashboard_csrf_iff web.auth now request).1
        (welcome-Passes request now k (subst (λ r. Returns r request) same back) from s c)
