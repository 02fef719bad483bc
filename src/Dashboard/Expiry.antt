-- ===== src/Dashboard/Expiry.antt =====
-- How long things last: the sessions that the pages renew, and the expiry of a token in its form.
use ollama_proxy.Prelude.{
  ℕ, ◌+◌, ◌≤◌, ◌≡◌, refl, sym, ◌∙◌, ap, String, true, false, Option, none, some, str_eq, leb,
  if◌then◌else◌,
}
use ollama_proxy.Clock.{Datetime}
use ollama_proxy.Exec.{returned, raised, attribute_error, returned-injective}
use ollama_proxy.Models.{UserToken, UserTokenStatus, token_value}
use ollama_proxy.UserTokens.{get_token}
use ollama_proxy.Usage.Store.{Desk}
use ollama_proxy.DashboardAuth.{
  Flash, session_cookie, verify_session, issue_session, reissue_session, issue_csrf,
}
use ollama_proxy.DashboardAuth.Guard.{Request, get_dashboard_session}
use ollama_proxy.DashboardAuth.Sessions.{IsSigned, verify_session-issue_session}
use ollama_proxy.Dashboard.Login.{sent}
use ollama_proxy.Dashboard.Created.{page_for, paged_lem}
use ollama_proxy.Dashboard.Tokens.{edit_user_token_form, format_user_token_expiry}
use ollama_proxy.Dashboard.{Web, Response, Page, paged, reissued, try_client, with_session}

-- Every page renews its session: the cookie that comes with it is worth the same session for a whole
-- time to live from then on.
pub paged_renews :
    (web : Web) (request : Request) (session_id : String) (template : Option Flash → String → Page)
    (response : Response) (later : ℕ)
    → IsSigned web.auth
    → get_dashboard_session web.auth web.seconds request ≡ some session_id
    → str_eq session_id "" ≡ false
    → paged web request session_id template ≡ returned response
    → web.seconds ≤ later
    → (value : String) × (sent session_cookie response ≡ some value)
      × (verify_session web.auth value later ≡ (
          if leb later (web.seconds + web.auth.session_ttl_seconds) then some session_id else none))
unfolding reissued reissue_session get_dashboard_session issue_session page_for
paged_renews web request session_id template response later signed found named e from =
    let same = returned-injective (sym e ∙ paged_lem web request session_id template named) in
    let value = reissued web request in
    let value_is : value ≡ issue_session web.auth session_id web.seconds = rw found rw named refl in
    (
      value,
      ap (sent session_cookie) same,
      ap (λ v. verify_session web.auth v later) value_is
          ∙ verify_session-issue_session web.auth signed session_id web.seconds later from,
    )

-- The form of a token that has an expiry is never shown: its handler ends in an AttributeError, since
-- what it formats as a datetime is the text that the dump of the token made of it.
pub edit_user_token_form_fails :
    (web : Web) (token_id : ℕ) (request : Request) (session_id : String) (d : Desk)
    (token : UserToken) (status : UserTokenStatus) (t : Datetime)
    → get_dashboard_session web.auth web.seconds request ≡ some session_id
    → str_eq session_id "" ≡ false
    → web.ready ≡ true
    → get_token d.pool.db token_id ≡ some token
    → token.status ≡ token_value status
    → token.expires_at ≡ some t
    → edit_user_token_form web token_id request d ≡ (raised attribute_error, d)
unfolding edit_user_token_form try_client with_session issue_csrf format_user_token_expiry
edit_user_token_form_fails web token_id request session_id d token UserTokenStatus.active t found
      named ready there s e =
    rw found rw ready rw there rw s rw named rw e refl
edit_user_token_form_fails web token_id request session_id d token UserTokenStatus.revoked t found
      named ready there s e =
    rw found rw ready rw there rw s rw named rw e refl
