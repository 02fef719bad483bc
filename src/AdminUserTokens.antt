-- ===== src/AdminUserTokens.antt =====
-- app/api/v1/admin_user_tokens.py and app/schemas/user_token.py: the administration of the tokens.
-- What pydantic itself checks, types and lengths, has been checked before.
pub mod Patch
pub mod Tests
use ollama_proxy.Prelude.{
  ℕ, String, Bool, true, false, ◌&&◌, not, Option, none, some, List, [], ◌∷◌, str_eq, if◌then◌else◌,
  is_some,
}
use ollama_proxy.Clock.{Datetime, as_utc}
use ollama_proxy.Python.{strip}
use ollama_proxy.Exec.{
  Exec, Exception, Result, returned, raised, value_error, http_exception, continue, pure, lift,
  ◌>>=◌,
}
use ollama_proxy.Models.{
  Db, UserToken, UserTokenStatus, active, revoked, token_value, token_preview,
}
use ollama_proxy.UserTokens.{
  Changes, create_token, list_tokens, get_token, update_token, hard_delete_user_token,
}

pub record UserTokenOut : Type 0 where
  pub id : ℕ
  pub label : String
  pub preview : String
  pub status : UserTokenStatus
  pub expires_at : Option Datetime
  pub last_used_at : Option Datetime
  pub total_requests : ℕ
  pub created_at : Datetime
  pub updated_at : Datetime

-- `UserTokenStatus(text)`
abbrev pub token_status_of : String → Result UserTokenStatus
token_status_of text =
    if str_eq text (token_value active)
    then returned active
    else if str_eq text (token_value revoked)
    then returned revoked
    else raised value_error

abbrev pub token_out_with : UserToken → Result UserTokenStatus → Result UserTokenOut
token_out_with token (raised e) = raised e
token_out_with token (returned status) = returned (record {
  id = token.id;
  label = token.label;
  preview = token_preview token;
  status = status;
  expires_at = token.expires_at;
  last_used_at = token.last_used_at;
  total_requests = token.total_requests;
  created_at = token.created_at;
  updated_at = token.updated_at;
})

abbrev pub from_orm_token : UserToken → Result UserTokenOut
from_orm_token token = token_out_with token (token_status_of token.status)

-- `_strip_label`; a blank label is an error of the validation.
abbrev pub strip_label : String → Result String
strip_label v = if str_eq (strip v) "" then raised value_error else returned (strip v)

-- `_normalise_expires_at`
abbrev pub normalise_expires_at : Option Datetime → Option Datetime
normalise_expires_at = as_utc

-- The detail is the error's own text.
abbrev pub unprocessable : Exception
unprocessable = http_exception 422 ""

abbrev pub token_not_found : Exception
token_not_found = http_exception 404 "user token not found"

-- `except ValueError`
abbrev pub or_422 {ℓ} : {A : Type ℓ} → Result A → Result A
or_422 (raised value_error) = raised unprocessable
or_422 r = r

abbrev pub with_raw : Result UserTokenOut → String → Result (UserTokenOut × String)
with_raw (raised e) raw_key = raised e
with_raw (returned out) raw_key = returned (out, raw_key)

abbrev pub created_out : Result (UserToken × String) → Result (UserTokenOut × String)
created_out (raised e) = raised e
created_out (returned (token, raw_key)) = with_raw (from_orm_token token) raw_key

-- The payload's fields have been through the validators.
unfoldable pub create_user_token :
    (String → String) → ℕ → String → String → Option Datetime → Exec Db (UserTokenOut × String)
unfolding create_token
create_user_token sha256 now random label expires_at db =
    let (result, db') = create_token sha256 now random label expires_at db in
    (created_out (or_422 result), db')

abbrev pub token_outs : List UserToken → Result (List UserTokenOut)
token_outs [] = returned []
token_outs (token ∷ tokens) = cons_out (from_orm_token token) (token_outs tokens)
  where
    cons_out : Result UserTokenOut → Result (List UserTokenOut) → Result (List UserTokenOut)
    cons_out (raised e) rest = raised e
    cons_out (returned out) (raised e) = raised e
    cons_out (returned out) (returned rest) = returned (out ∷ rest)

abbrev pub list_user_tokens : Exec Db (List UserTokenOut)
list_user_tokens db = (token_outs (list_tokens db), db)

abbrev pub token_or_404 : Option UserToken → Result UserToken
token_or_404 none = raised token_not_found
token_or_404 (some token) = returned token

abbrev pub get_user_token : ℕ → Exec Db UserTokenOut
get_user_token token_id db =
    continue (token_or_404 (get_token db token_id)) (λ token. lift (from_orm_token token)) db

-- A PATCH: `none` for a field that is not in `model_fields_set`, and the field's value elsewhere,
-- which may be null.
pub record UserTokenUpdate : Type 0 where
  pub label : Option (Option String)
  pub expires_at : Option (Option Datetime)
  pub status : Option (Option UserTokenStatus)

abbrev pub joined {ℓ} : {A : Type ℓ} → Option (Option A) → Option A
joined none = none
joined (some o) = o

-- "expires_at" is set, and null.
abbrev pub is_null {ℓ} : {A : Type ℓ} → Option (Option A) → Bool
is_null (some none) = true
is_null _ = false

abbrev pub changes_of : UserTokenUpdate → Changes
changes_of payload = record {
  label = joined payload.label;
  expires_at = joined payload.expires_at;
  clear_expires_at = is_null payload.expires_at;
  status = joined payload.status;
}

abbrev pub sets_nothing : UserTokenUpdate → Bool
sets_nothing payload =
    not (is_some payload.label) && not (is_some payload.expires_at) && not (is_some payload.status)

abbrev pub patch_found : ℕ → UserTokenUpdate → Option UserToken → Exec Db UserTokenOut
patch_found now payload none db = (raised token_not_found, db)
patch_found now payload (some token) db =
    if sets_nothing payload
    then (from_orm_token token, db)
    else (let (result, db') = update_token now token (changes_of payload) db in
        continue (or_422 result) (λ updated. lift (from_orm_token updated)) db')

unfoldable pub patch_user_token : ℕ → ℕ → UserTokenUpdate → Exec Db UserTokenOut
unfolding update_token
patch_user_token now token_id payload db = patch_found now payload (get_token db token_id) db

-- The route answers 204; the service's own LookupError cannot come any more.
unfoldable pub revoke_user_token : ℕ → Exec Db (Unit {0})
unfolding hard_delete_user_token
revoke_user_token token_id db =
    continue (token_or_404 (get_token db token_id)) (λ token. hard_delete_user_token token_id) db
