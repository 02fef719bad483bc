-- ===== src/Dashboard/Created.antt =====
-- A new key, from the form to the page that shows it once.
use Prim.Native.Char.{Char}
use Prim.Native.String.{◌++◌ as append}
use Prim.Native.String.append.{cons, nil}
use ollama_proxy.Prelude.{
  ℕ, ◌+◌, ◌≤◌, ◌≡◌, refl, sym, ◌∙◌, subst, ap, String, Bool, true, false, Option, none, some, [],
  ◌++◌, ◌≢◌, ◌∷◌, arith, str_eq, eq_iff, Bool-cases, inl, inr,
}
use ollama_proxy.Python.{is_space, rstrip, strip}
use ollama_proxy.Exec.{
  Exec, Exception, Result, returned, raised, continue, pure, lift, returned-injective,
}
use ollama_proxy.Models.{ApiKey}
use ollama_proxy.UserTokens.Lifecycle.{true-≢-false}
use ollama_proxy.Vault.{Vault, encrypt}
use ollama_proxy.KeyManager.{Pool, with_keys}
use ollama_proxy.Table
use ollama_proxy.AdminKeys.{ApiKeyOut, find_key_hash, from_orm_key, new_key}
use ollama_proxy.UserTokens.{first_chars}
use ollama_proxy.Usage.Store.{Desk}
use ollama_proxy.DashboardAuth.{
  JsonText, Flash, session_cookie, flash_cookie, flash_max_age, flash_payload, csrf_payload,
  issue_csrf, flash_put, flash_read,
}
use ollama_proxy.DashboardAuth.Guard.{
  Request, cookie, get_dashboard_session, require_dashboard_csrf,
}
use ollama_proxy.DashboardAuth.Sessions.{IsSigned, flash_read-flash_put}
use ollama_proxy.DashboardBackend
use ollama_proxy.Dashboard.Texts.{new_key_mark, without_prefix, marked_in, stripped_or_none}
use ollama_proxy.Dashboard.Keys.{create_key_submit, created_answer, key_created}
use ollama_proxy.Dashboard.Login.{sent, some-injective}
use ollama_proxy.Dashboard.{
  Web, Response, Page, on_pool, set_cookie, see_other, html, key_created_page, flashed, set_flash,
  rotate_csrf, reissued, csrf_header, clear_flash_cookie, flash_in, paged, submit, post,
  with_session, try_client,
}

without_prefix-append : (p raw : String) → without_prefix p (append p raw) ≡ some raw
without_prefix-append String.[] raw = rw (nil raw) refl
without_prefix-append (String.◌∷◌ c p) raw =
    let one = String.◌∷◌ c "" in
    rw (cons c p raw) rw ((eq_iff one one).1 refl) (without_prefix-append p raw)

abbrev is_empty : String → Bool
is_empty String.[] = true
is_empty (String.◌∷◌ c s) = false

cons-not_empty : (c : Char) (s : String) → str_eq (String.◌∷◌ c s) "" ≡ false
cons-not_empty c s = elim (Bool-cases (str_eq (String.◌∷◌ c s) "")) [
  | inl e ↦ elim (true-≢-false (sym (ap is_empty ((eq_iff (String.◌∷◌ c s) "").0 e)))) [ ]
  | inr e ↦ e
]

-- A text that begins with a visible character is not blank.
strip_of_visible :
    (c : Char) (s : String) → is_space c ≡ false → str_eq (strip (String.◌∷◌ c s)) "" ≡ false
strip_of_visible c s h = rw h (rw h (cons-not_empty c (rstrip s)))

-- The JSON of a flash is read back.
abbrev pub ReadsFlashes : JsonText → Type 0
ReadsFlashes json =
    (level msg : String)
    → json.loads (json.dumps (flash_payload level msg)) ≡ some (flash_payload level msg)

module _ (web : Web) where
  -- How a form post ends, for a session that has an id.
  abbrev flashed_response : Request → String → String → String → Response
  unfolding reissued
  flashed_response request session_id path msg = record {
    body = see_other path;
    cookies =
        set_cookie flash_cookie
          (web.auth.signers.flash.dumps (web.json.dumps (flash_payload "ok" msg)) web.seconds) 60
          true web.auth.cookie_secure
        ∷ csrf_header web
            (web.auth.signers.csrf.dumps (csrf_payload session_id web.csrf_random) web.seconds)
        ∷ set_cookie session_cookie (reissued web request) web.auth.session_ttl_seconds true
            web.auth.cookie_secure
        ∷ [];
  }

  flashed_lem :
      (request : Request) (session_id path msg : String)
      → str_eq session_id "" ≡ false
      → flashed web request session_id path "ok" msg
        ≡ returned (flashed_response request session_id path msg)
  unfolding flashed set_flash rotate_csrf flash_put issue_csrf flashed_response
  flashed_lem request session_id path msg q = rw q refl

  -- What `marked_in` finds in the flash of a new key.
  marked-new_key :
      (raw : String)
      → marked_in new_key_mark (some (record { level = "ok"; msg = append new_key_mark raw }))
        ≡ some raw
  marked-new_key raw = without_prefix-append new_key_mark raw

  new_key-visible : (raw : String) → str_eq (strip (append new_key_mark raw)) "" ≡ false
  new_key-visible raw =
      subst (λ text. str_eq (strip text) "" ≡ false) (sym (cons "N" "EW_KEY::" raw))
        (strip_of_visible "N" (append "EW_KEY::" raw) refl)

  submit_lem :
      {A : Type 0} (request : Request) (session_id failed_path : String) (call : Exec Desk A)
      (done : String → A → Result Response) (a : A) (d : Desk)
      → require_dashboard_csrf web.auth web.seconds request ≡ returned tt
      → get_dashboard_session web.auth web.seconds request ≡ some session_id
      → web.ready ≡ true
      → (call d).0 ≡ returned a
      → (submit web request call failed_path done d).0 ≡ done session_id a
  unfolding submit post try_client with_session
  submit_lem request session_id failed_path call done a d passed found ready called =
      rw passed rw found rw ready rw called refl

  abbrev pub csrf_token : String → String
  csrf_token session_id =
      web.auth.signers.csrf.dumps (csrf_payload session_id web.csrf_random) web.seconds

  -- A page as it is shown to a session that has an id.
  unfoldable pub page_for : Request → String → (Option Flash → String → Page) → Response
  unfolding reissued flash_read
  page_for request session_id template = record {
    body = html (template (flash_in web request) (csrf_token session_id));
    cookies =
        csrf_header web (csrf_token session_id)
        ∷ csrf_header web (csrf_token session_id)
        ∷ clear_flash_cookie web
        ∷ set_cookie session_cookie (reissued web request) web.auth.session_ttl_seconds true
            web.auth.cookie_secure
        ∷ [];
  }

  pub paged_lem :
      (request : Request) (session_id : String) (template : Option Flash → String → Page)
      → str_eq session_id "" ≡ false
      → paged web request session_id template ≡ returned (page_for request session_id template)
  unfolding paged issue_csrf page_for reissued flash_read
  paged_lem request session_id template h = rw h refl

  pub with_session_lem :
      (request : Request) (session_id : String) (handler : String → Exec Desk Response) (d : Desk)
      → get_dashboard_session web.auth web.seconds request ≡ some session_id
      → with_session web request handler d ≡ handler session_id d
  unfolding with_session
  with_session_lem request session_id handler d e = rw e refl

  abbrev created_template : Option Flash → String → Page
  created_template flash = key_created_page (marked_in new_key_mark flash)

  key_created_lem :
      (back : Request) (later_id : String) (d : Desk)
      → get_dashboard_session web.auth web.seconds back ≡ some later_id
      → str_eq later_id "" ≡ false
      → key_created web back d ≡ (returned (page_for back later_id created_template), d)
  unfolding key_created
  key_created_lem back later_id d there named =
      let handler : String → Exec Desk Response =
        λ session_id. lift (paged web back session_id created_template) in
      with_session_lem back later_id handler d there
      ∙ ap (λ r. (r, d)) (paged_lem back later_id created_template named)

raised-≢-returned : {A : Type 0} {e : Exception} {a : A} → raised e ≢ returned a
raised-≢-returned h = ground (arith, h)

module _ (sha256 : String → String) (vault : Vault) (now : ℕ) (label : Option String) (key : String)
    (out : ApiKeyOut) (raw : String) where
  payload_raw :
      (r : Result ApiKeyOut) (t : Pool)
      → (continue {B = ApiKeyOut × String} r (λ payload. pure (payload, key)) t).0
        ≡ returned (out, raw)
      → raw ≡ key
  payload_raw (returned payload) t e = sym (ap (λ p. p.1) (returned-injective e))
  payload_raw (raised x) t e = absurd (raised-≢-returned e)

  inserted_raw :
      (sealed : String) (existing : Option ApiKey) (s : Pool)
      → (DashboardBackend.insert_key sha256 vault now label key sealed existing s).0
        ≡ returned (out, raw)
      → raw ≡ key
  inserted_raw sealed (some other) s e = absurd (raised-≢-returned e)
  inserted_raw sealed none s e =
      let id = Table.next_id (λ (k : ApiKey). k.id) s.api_keys in
      let row = new_key id (sha256 key) (first_chars 8 key) sealed label now in
      payload_raw (from_orm_key row) (with_keys s (s.api_keys ++ row ∷ [])) e

  encrypted_raw :
      (r : Result String) (s : Pool)
      → (DashboardBackend.create_encrypted sha256 vault now label key r s).0 ≡ returned (out, raw)
      → raw ≡ key
  encrypted_raw (raised x) s e = absurd (raised-≢-returned e)
  encrypted_raw (returned sealed) s e =
      inserted_raw sealed (find_key_hash (sha256 key) s.api_keys) s e

  -- The dashboard's creation gives the key back that it was given.
  created_raw :
      (s : Pool)
      → (DashboardBackend.create_key sha256 vault now label key s).0 ≡ returned (out, raw)
      → raw ≡ key
  unfolding DashboardBackend.create_key
  created_raw s e = encrypted_raw (encrypt vault key) s e

-- What the page after the form shows, by what the backend has answered.
raw_shown :
    (web : Web) (request back : Request) (now : ℕ)
    (session_id later_id label key raw value : String) (d later : Desk) (out : ApiKeyOut)
    (response : Response)
    → IsSigned web.auth
    → ReadsFlashes web.json
    → require_dashboard_csrf web.auth web.seconds request ≡ returned tt
    → get_dashboard_session web.auth web.seconds request ≡ some session_id
    → str_eq session_id "" ≡ false
    → web.ready ≡ true
    → (DashboardBackend.create_key web.sha256 web.vault web.moment
        (stripped_or_none label)
        key
        d.pool).0
      ≡ returned (out, raw)
    → str_eq raw "" ≡ false
    → (create_key_submit web request label key d).0 ≡ returned response
    → sent flash_cookie response ≡ some value
    → cookie back flash_cookie ≡ value
    → get_dashboard_session web.auth now back ≡ some later_id
    → str_eq later_id "" ≡ false
    → web.seconds ≤ now
    → now ≤ web.seconds + flash_max_age
    → (page : Response) × (token : String) × (key_created (record web { seconds = now }) back later
        ≡ (returned page, later))
      × (page.body ≡ html (key_created_page (some raw) token))
unfolding create_key_submit flash_put page_for
raw_shown web request back now session_id later_id label key raw value d later out response signed
      reads passed found named ready created shown e sent_value kept there later_named from till =
    let msg = append new_key_mark raw in
    let answer = flashed_response web request session_id "/dashboard/keys/created" msg in
    let creation =
      DashboardBackend.create_key web.sha256 web.vault web.moment (stripped_or_none label) key in
    let submitted : (create_key_submit web request label key d).0 ≡ returned answer =
      submit_lem web request session_id "/dashboard/keys/new" (on_pool creation)
        (created_answer web request) (out, raw) d passed found ready created
      ∙ rw shown (flashed_lem web request session_id "/dashboard/keys/created" msg named) in
    let written =
      web.auth.signers.flash.dumps (web.json.dumps (flash_payload "ok" msg)) web.seconds in
    let same : response ≡ answer = returned-injective (sym e ∙ submitted) in
    let value_is : value ≡ written =
      some-injective (sym sent_value ∙ ap (sent flash_cookie) same) in
    let flash : Flash = record { level = "ok"; msg = msg } in
    let read : flash_read web.auth web.json (cookie back flash_cookie) now ≡ some flash =
      ap (λ v. flash_read web.auth web.json v now) (kept ∙ value_is)
      ∙ flash_read-flash_put web.auth signed web.json "ok" msg written web.seconds now
          (reads "ok" msg) (new_key-visible web raw) refl from
      ∙ ground (arith, till) in
    let later_web = record web { seconds = now } in
    let token = csrf_token later_web later_id in
    (
      page_for later_web back later_id (created_template later_web),
      token,
      key_created_lem later_web back later_id later there later_named,
      ap (λ o. html (key_created_page o token))
          (ap (marked_in new_key_mark) read ∙ marked-new_key web raw),
    )

-- A key that is created from the form is shown by the page that the form's answer leads to, and what is
-- shown is the text of the form's own field, when the creation succeeds, that text is not empty, and the
-- browser brings the flash cookie back within a minute, in a session.
pub key_created_shows :
    (web : Web) (request back : Request) (now : ℕ)
    (session_id later_id label key raw value : String) (d later : Desk) (out : ApiKeyOut)
    (response : Response)
    → IsSigned web.auth
    → ReadsFlashes web.json
    → require_dashboard_csrf web.auth web.seconds request ≡ returned tt
    → get_dashboard_session web.auth web.seconds request ≡ some session_id
    → str_eq session_id "" ≡ false
    → web.ready ≡ true
    → (DashboardBackend.create_key web.sha256 web.vault web.moment
        (stripped_or_none label)
        key
        d.pool).0
      ≡ returned (out, raw)
    → str_eq key "" ≡ false
    → (create_key_submit web request label key d).0 ≡ returned response
    → sent flash_cookie response ≡ some value
    → cookie back flash_cookie ≡ value
    → get_dashboard_session web.auth now back ≡ some later_id
    → str_eq later_id "" ≡ false
    → web.seconds ≤ now
    → now ≤ web.seconds + flash_max_age
    → (page : Response) × (token : String) × (key_created (record web { seconds = now }) back later
        ≡ (returned page, later))
      × (page.body ≡ html (key_created_page (some key) token))
key_created_shows web request back now session_id later_id label key raw value d later out response
      signed reads passed found named ready created given e sent_value kept there later_named from
      till =
    let same =
      created_raw web.sha256 web.vault web.moment (stripped_or_none label) key out raw d.pool
        created in
    let (page, token, answered, body) =
      raw_shown web request back now session_id later_id label key raw value d later out response
        signed reads passed found named ready created
        (subst (λ text. str_eq text "" ≡ false) (sym same) given) e sent_value kept there
        later_named from till in
    (page, token, answered, body ∙ ap (λ text. html (key_created_page (some text) token)) same)
