-- ===== src/Dashboard/Renewal.antt =====
-- Every page that the dashboard shows renews its session.
use ollama_proxy.Prelude.{
  ℕ, ◌+◌, ◌≤◌, ◌≡◌, ◌≢◌, refl, sym, ◌∙◌, subst, ap, String, false, Option, none, some, List, [],
  length, str_eq, leb, if◌then◌else◌, Bool-cases, inl, inr, arith,
}
use ollama_proxy.Exec.{Exec, Exception, Result, returned, raised, and_then, returned-injective}
use ollama_proxy.Usage.Store.{Desk}
use ollama_proxy.AdminUserTokens.{UserTokenOut}
use ollama_proxy.AdminKeys.{ApiKeyOut}
use ollama_proxy.DashboardAuth.{Flash, session_cookie, verify_session, issue_csrf, flash_put}
use ollama_proxy.DashboardAuth.Guard.{Request, get_dashboard_session}
use ollama_proxy.DashboardAuth.Sessions.{IsSigned}
use ollama_proxy.DashboardBackend.{short}
use ollama_proxy.DashboardBackend
use ollama_proxy.Dashboard.Login.{sent}
use ollama_proxy.Dashboard.Expiry.{paged_renews}
use ollama_proxy.Dashboard.Created.{with_session_lem}
use ollama_proxy.Dashboard.Access.{PageRoute, serve_page}
use ollama_proxy.Dashboard.Keys.{
  dashboard_home, new_key_form, key_created, edit_key_form, home_with,
}
use ollama_proxy.Dashboard.Texts.{current_status, shown_keys, marked_in, new_key_mark}
use ollama_proxy.Dashboard.Usage.{key_usage_view}
use ollama_proxy.Dashboard.Tokens.{
  user_tokens_home, new_user_token_form, user_token_created, edit_user_token_form, edit_page,
  tokens_with, current_token_status, shown_tokens, format_user_token_expiry, dumped,
}
use ollama_proxy.Dashboard.{
  Web, Response, Page, html, see_other, redirect, set_flash, paged, try_client, answered,
  with_session, client_error_of, on_pool, on_db, key_form_page, key_created_page, token_form_page,
  token_created_page, home_page, tokens_page, token_edit_page, key_edit_page, key_usage_page,
}

raised-≢-returned : {A : Type 0} {e : Exception} {a : A} → raised e ≢ returned a
raised-≢-returned h = ground (arith, h)

see_other-≢-html : {path : String} {page : Page} → see_other path ≢ html page
see_other-≢-html h = ground (arith, h)

-- The response brings a cookie that is worth the session until its time to live is over.
abbrev pub Renewed : Web → String → ℕ → Response → Type 0
Renewed web session_id later response =
    (value : String) × (sent session_cookie response ≡ some value)
    × (verify_session web.auth value later ≡ (
        if leb later (web.seconds + web.auth.session_ttl_seconds) then some session_id else none))

module _ (web : Web) (request : Request) (session_id : String) (later : ℕ)
    (signed : IsSigned web.auth)
    (found : get_dashboard_session web.auth web.seconds request ≡ some session_id)
    (named : str_eq session_id "" ≡ false) (from : web.seconds ≤ later) where
  -- What is a page renews the session.
  abbrev Renews : Result Response → Type 0
  Renews r =
      (response : Response) (page : Page)
      → r ≡ returned response
      → response.body ≡ html page
      → Renewed web session_id later response

  paged-Renews :
      (template : Option Flash → String → Page) → Renews (paged web request session_id template)
  paged-Renews template response page e shown =
      paged_renews web request session_id template response later signed found named e from

  raised-Renews : (e : Exception) → Renews (raised e)
  raised-Renews e response page h shown = absurd (raised-≢-returned h)

  and_then-Renews :
      {A : Type 0} (r : Result A) (f : A → Result Response)
      → ((a : A) → Renews (f a))
      → Renews (and_then r f)
  and_then-Renews (returned a) f h = h a
  and_then-Renews (raised e) f h = raised-Renews e

  redirected-Renews :
      (answer : Response) (path : String) → answer.body ≡ see_other path → Renews (returned answer)
  redirected-Renews answer path away response page e shown =
      absurd
        (see_other-≢-html (sym away ∙ ap (λ (r : Response). r.body) (returned-injective e) ∙ shown))

  flash-Renews : (level msg path : String) → Renews (set_flash web level msg (redirect path))
  unfolding set_flash
  flash-Renews level msg path =
      and_then-Renews (flash_put web.auth web.json level msg web.seconds) _
        (λ value. redirected-Renews _ path refl)

  answered-Renews :
      {A : Type 0} (failed : String → Result Response) (done : A → Result Response)
      (out : Result A × Desk)
      → ((text : String) → Renews (failed text))
      → ((a : A) → Renews (done a))
      → Renews (answered web failed done out).0
  unfolding answered short
  answered-Renews failed done (returned a, d) hf hd = hd a
  answered-Renews failed done (raised e, d) hf hd = of_error (client_error_of e)
    where
      of_error :
          (o : Option (ℕ × String))
          → Renews
              (elim o as (λ _. Result Response × Desk) [
                | none ↦ (raised e, d)
                | some (code, detail) ↦ (failed (short code detail), d)
              ]).0
      of_error none = raised-Renews e
      of_error (some (code, detail)) = hf (short code detail)

  client-Renews :
      {A : Type 0} (call : Exec Desk A) (failed : String → Result Response)
      (done : A → Result Response) (d : Desk)
      → ((text : String) → Renews (failed text))
      → ((a : A) → Renews (done a))
      → Renews (try_client web call failed done d).0
  unfolding try_client
  client-Renews call failed done d hf hd = elim (Bool-cases web.ready) [
    | inl e ↦ rw e (answered-Renews failed done (call d) hf hd)
    | inr e ↦ rw e (raised-Renews _)
  ]

  -- A page behind the login.
  in_session :
      (handler : String → Exec Desk Response) (d : Desk)
      → Renews (handler session_id d).0
      → Renews (with_session web request handler d).0
  in_session handler d h =
      subst (λ out. Renews out.0) (sym (with_session_lem web request session_id handler d found)) h

  home-Renews :
      (status : String) (error : Option String) (keys : List ApiKeyOut)
      → Renews (home_with web request session_id status error keys)
  unfolding home_with
  home-Renews status error keys =
      let current = current_status status in
      paged-Renews (home_page (shown_keys current keys) (length keys) current error)

  tokens-Renews :
      (status : String) (error : Option String) (tokens : List UserTokenOut)
      → Renews (tokens_with web request session_id status error tokens)
  unfolding tokens_with
  tokens-Renews status error tokens =
      let current = current_token_status status in
      paged-Renews (tokens_page (shown_tokens current tokens) (length tokens) current error)

  edit-Renews : (token : UserTokenOut) → Renews (edit_page web request session_id token)
  unfolding edit_page
  edit-Renews token =
      let shown : Result Response =
        and_then (format_user_token_expiry web.strftime (dumped web.isoformat token.expires_at))
          (λ value. paged web request session_id (token_edit_page token value)) in
      and_then-Renews (issue_csrf web.auth session_id web.csrf_random web.seconds) (λ csrf. shown)
        (λ csrf.
          and_then-Renews
            (format_user_token_expiry web.strftime (dumped web.isoformat token.expires_at))
            (λ value. paged web request session_id (token_edit_page token value))
            (λ value. paged-Renews (token_edit_page token value)))

  -- The result of each page, whatever it shows.
  serve_page-Renews : (route : PageRoute) (d : Desk) → Renews (serve_page web request route d).0
  unfolding serve_page dashboard_home user_tokens_home new_key_form key_created new_user_token_form
      user_token_created edit_key_form key_usage_view edit_user_token_form
  serve_page-Renews (PageRoute.home status) d = in_session _ d (
      client-Renews (on_pool DashboardBackend.list_keys) _ _ d
        (λ text. home-Renews status (some text) []) (home-Renews status none))
  serve_page-Renews (PageRoute.tokens_home status) d = in_session _ d (
      client-Renews (on_db DashboardBackend.list_user_tokens) _ _ d
        (λ text. tokens-Renews status (some text) []) (tokens-Renews status none))
  serve_page-Renews PageRoute.new_key d = in_session _ d (paged-Renews key_form_page)
  serve_page-Renews PageRoute.created_key d =
      in_session _ d (paged-Renews (λ flash. key_created_page (marked_in new_key_mark flash)))
  serve_page-Renews PageRoute.new_token d = in_session _ d (paged-Renews token_form_page)
  serve_page-Renews PageRoute.created_token d =
      in_session _ d (paged-Renews (λ flash. token_created_page (marked_in "NEW_TOKEN::" flash)))
  serve_page-Renews (PageRoute.edit_key key_id) d = in_session _ d (
      client-Renews (on_pool (DashboardBackend.get_key key_id)) _ _ d
        (λ text. flash-Renews "error" text "/dashboard") (λ key. paged-Renews (key_edit_page key)))
  serve_page-Renews (PageRoute.key_usage key_id) d = in_session _ d (
      client-Renews (DashboardBackend.get_key_usage web.usage_env key_id) _ _ d
        (λ text. flash-Renews "error" text "/dashboard")
        (λ snapshot. paged-Renews (key_usage_page key_id snapshot)))
  serve_page-Renews (PageRoute.edit_token token_id) d = in_session _ d (
      client-Renews (on_db (DashboardBackend.get_user_token token_id)) _ _ d
        (λ text. flash-Renews "error" text "/dashboard/user-tokens") edit-Renews)

-- Every answer of a page's route that is a page, whatever the status, the key or the token that it is
-- asked for and whatever the database and the upstream hold, renews the session of the request: it
-- brings a cookie that is worth the same session for a whole time to live from then on.
pub serve_page_renews :
    (web : Web) (request : Request) (session_id : String) (route : PageRoute) (d : Desk)
    (response : Response) (page : Page) (later : ℕ)
    → IsSigned web.auth
    → get_dashboard_session web.auth web.seconds request ≡ some session_id
    → str_eq session_id "" ≡ false
    → (serve_page web request route d).0 ≡ returned response
    → response.body ≡ html page
    → web.seconds ≤ later
    → Renewed web session_id later response
serve_page_renews web request session_id route d response page later signed found named e shown
      from =
    serve_page-Renews web request session_id later signed found named from route d response page e
      shown
