-- ===== src/Dashboard/Access.antt =====
-- Who reaches the dashboard's handlers: the routes of app/api/dashboard_routes.py as one function.
use ollama_proxy.Prelude.{ℕ, ◌≡◌, refl, ◌⊎◌, inl, inr, String, none}
use ollama_proxy.Exec.{Exec, Exception, returned, raised, Result-cases}
use ollama_proxy.Usage.Store.{Desk}
use ollama_proxy.DashboardAuth.Guard.{Request, get_dashboard_session, require_dashboard_csrf}
use ollama_proxy.DashboardAuth.Sessions.{Passes, require_dashboard_csrf_iff}
use ollama_proxy.Dashboard.{Web, Response, redirect, post, submit, with_session}
use ollama_proxy.Dashboard.Keys.{
  dashboard_home, refresh_health, new_key_form, create_key_submit, key_created, edit_key_form,
  test_all_submit, reset_states_submit, update_key_submit, delete_key_submit, test_key_submit,
}
use ollama_proxy.Dashboard.Usage.{
  key_usage_view, key_usage_refresh_submit, usage_refresh_all_submit,
}
use ollama_proxy.Dashboard.Tokens.{
  user_tokens_home, new_user_token_form, create_user_token_submit, user_token_created,
  edit_user_token_form, update_user_token_submit, delete_user_token_submit,
}

-- The pages behind the login, with their path and query parameters.
pub data PageRoute : Type 0 where
  home tokens_home : String → PageRoute
  new_key created_key new_token created_token : PageRoute
  edit_key key_usage edit_token : ℕ → PageRoute

-- The form posts behind the login, with their path parameters and form fields.
pub data FormRoute : Type 0 where
  health test_all reset_states refresh_all : FormRoute
  create_key : (label key : String) → FormRoute
  update_key : ℕ → (label status : String) → FormRoute
  delete_key test_key refresh_usage delete_token : ℕ → FormRoute
  create_token : (label expires_at : String) → FormRoute
  update_token : ℕ → (label expires_at clear status : String) → FormRoute

unfoldable pub serve_page : Web → Request → PageRoute → Exec Desk Response
serve_page web request (home status) = dashboard_home web request status
serve_page web request (tokens_home status) = user_tokens_home web request status
serve_page web request new_key = new_key_form web request
serve_page web request created_key = key_created web request
serve_page web request new_token = new_user_token_form web request
serve_page web request created_token = user_token_created web request
serve_page web request (edit_key key_id) = edit_key_form web key_id request
serve_page web request (key_usage key_id) = key_usage_view web key_id request
serve_page web request (edit_token token_id) = edit_user_token_form web token_id request

unfoldable pub serve_form : Web → Request → FormRoute → Exec Desk Response
serve_form web request health = refresh_health web request
serve_form web request test_all = test_all_submit web request
serve_form web request reset_states = reset_states_submit web request
serve_form web request refresh_all = usage_refresh_all_submit web request
serve_form web request (create_key label key) = create_key_submit web request label key
serve_form web request (update_key key_id label status) =
    update_key_submit web key_id request label status
serve_form web request (delete_key key_id) = delete_key_submit web key_id request
serve_form web request (test_key key_id) = test_key_submit web key_id request
serve_form web request (refresh_usage key_id) = key_usage_refresh_submit web key_id request
serve_form web request (delete_token token_id) = delete_user_token_submit web token_id request
serve_form web request (create_token label expires_at) =
    create_user_token_submit web request label expires_at
serve_form web request (update_token token_id label expires_at clear status) =
    update_user_token_submit web token_id request label expires_at clear status

module _ (web : Web) (request : Request) where
  with_session-closed :
      (handler : String → Exec Desk Response) (d : Desk)
      → get_dashboard_session web.auth web.seconds request ≡ none
      → with_session web request handler d ≡ (returned (redirect "/dashboard/login"), d)
  unfolding with_session
  with_session-closed handler d e = rw e refl

  post-closed :
      (handler : String → Exec Desk Response) (d : Desk) (e : Exception)
      → require_dashboard_csrf web.auth web.seconds request ≡ raised e
      → post web request handler d ≡ (raised e, d)
  unfolding post
  post-closed handler d e h = rw h refl

  -- Without a session every page is the redirection to the login, and nothing is read or changed.
  pub serve_page-closed :
      (route : PageRoute) (d : Desk)
      → get_dashboard_session web.auth web.seconds request ≡ none
      → serve_page web request route d ≡ (returned (redirect "/dashboard/login"), d)
  unfolding serve_page dashboard_home user_tokens_home new_key_form key_created new_user_token_form
      user_token_created edit_key_form key_usage_view edit_user_token_form
  serve_page-closed (home status) d e = with_session-closed _ d e
  serve_page-closed (tokens_home status) d e = with_session-closed _ d e
  serve_page-closed new_key d e = with_session-closed _ d e
  serve_page-closed created_key d e = with_session-closed _ d e
  serve_page-closed new_token d e = with_session-closed _ d e
  serve_page-closed created_token d e = with_session-closed _ d e
  serve_page-closed (edit_key key_id) d e = with_session-closed _ d e
  serve_page-closed (key_usage key_id) d e = with_session-closed _ d e
  serve_page-closed (edit_token token_id) d e = with_session-closed _ d e

  -- A form post that the guard refuses ends in the guard's exception, whatever the route and its
  -- fields, and has changed nothing.
  pub serve_form-closed :
      (route : FormRoute) (d : Desk) (e : Exception)
      → require_dashboard_csrf web.auth web.seconds request ≡ raised e
      → serve_form web request route d ≡ (raised e, d)
  unfolding serve_form submit refresh_health test_all_submit reset_states_submit
      usage_refresh_all_submit create_key_submit update_key_submit delete_key_submit test_key_submit
      key_usage_refresh_submit delete_user_token_submit create_user_token_submit
      update_user_token_submit
  serve_form-closed health d e h = post-closed _ d e h
  serve_form-closed test_all d e h = post-closed _ d e h
  serve_form-closed reset_states d e h = post-closed _ d e h
  serve_form-closed refresh_all d e h = post-closed _ d e h
  serve_form-closed (create_key label key) d e h = post-closed _ d e h
  serve_form-closed (update_key key_id label status) d e h = post-closed _ d e h
  serve_form-closed (delete_key key_id) d e h = post-closed _ d e h
  serve_form-closed (test_key key_id) d e h = post-closed _ d e h
  serve_form-closed (refresh_usage key_id) d e h = post-closed _ d e h
  serve_form-closed (delete_token token_id) d e h = post-closed _ d e h
  serve_form-closed (create_token label expires_at) d e h = post-closed _ d e h
  serve_form-closed (update_token token_id label expires_at clear status) d e h =
      post-closed _ d e h

  -- A form post is served only to a session that proves the form its own, with one signed token in the
  -- form (or the header) and in the cookie: any other ends in an exception and has changed nothing.
  pub serve_form-guarded :
      (route : FormRoute) (d : Desk)
      → Passes web.auth web.seconds request
        ⊎ ((e : Exception) × (serve_form web request route d ≡ (raised e, d)))
  serve_form-guarded route d =
      elim (Result-cases (require_dashboard_csrf web.auth web.seconds request)) [
        | inl (u, e) ↦ inl ((require_dashboard_csrf_iff web.auth web.seconds request).0 e)
        | inr (x, e) ↦ inr (x, serve_form-closed route d x e)
      ]
