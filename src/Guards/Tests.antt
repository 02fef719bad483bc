-- ===== src/Guards/Tests.antt =====
-- The guards at concrete requests. `partition` splits the header at its first space, as FastAPI does.
use Prim.Native.Char.{code}
use Prim.Native.String.{String}
use ollama_proxy.Prelude.{
  ◌≡◌, refl, ◌⊎◌, ◌↔◌, false, Option, none, some, [], ◌∷◌, ◌==◌, or_else, if◌then◌else◌,
}
use ollama_proxy.Clock.{as_utc}
use ollama_proxy.Exec.{returned, raised}
use ollama_proxy.Models.{UserToken}
use ollama_proxy.UserTokens.{is_past, new_token, find_hash, with_use, revoke_token, authenticate}
use ollama_proxy.Guards.{
  GuardState, extract_bearer, require_admin_token, require_user_token, missing_admin,
}
use ollama_proxy.Guards.Admin.{require_admin_token-IsExact}
use ollama_proxy.Guards.Users.{
  IsEntitled, require_user_token-IsEntitled, require_user_token-revoke_token,
}

abbrev partition : String → String × String
partition String.[] = ("", "")
partition (String.◌∷◌ c s) =
    let rest = partition s in if code c == 32 then ("", s) else (String.◌∷◌ c rest.0, rest.1)

abbrev same : String → String
same s = s

abbrev bob : UserToken
bob = new_token same 1 "opk_b" "bob" none 10

abbrev one_user : GuardState
one_user = record { db = record { api_keys = []; user_tokens = bob ∷ [] }; dev_mode_warned = false }

lower_case_bearer : extract_bearer partition (some "bearer opk_b") ≡ some "opk_b"
unfolding extract_bearer
lower_case_bearer = refl

basic : extract_bearer partition (some "Basic opk_b") ≡ none
unfolding extract_bearer
basic = refl

nothing : extract_bearer partition none ≡ none
unfolding extract_bearer
nothing = refl

refused : require_admin_token partition (some "secret") none ≡ raised missing_admin
unfolding require_admin_token
refused = refl

abbrev some_s : Option String
some_s = some "s"

require_admin_token-IsExact_example :
    (require_admin_token partition (some "s") (some "Bearer s") ≡ returned tt)
    ↔ ((or_else some_s "" ≡ "") ⊎ (extract_bearer partition (some "Bearer s") ≡ some_s))
require_admin_token-IsExact_example =
    require_admin_token-IsExact partition (some "s") (some "Bearer s")

let_in :
    (require_user_token partition same 20 21 (some "bearer opk_b") one_user).0
    ≡ returned (some (with_use 21 bob))
unfolding require_user_token authenticate find_hash
let_in = refl

require_user_token-IsEntitled_example :
    IsEntitled same 20 21
      (extract_bearer partition (some "bearer opk_b"))
      one_user.db
      (some (with_use 21 bob))
require_user_token-IsEntitled_example =
    require_user_token-IsEntitled partition same 20 21 (some "bearer opk_b") one_user
      (some (with_use 21 bob)) let_in

bob-IsNotPast : is_past (as_utc bob.expires_at) 20 ≡ false
unfolding as_utc
bob-IsNotPast = refl

require_user_token-revoke_token_example :
    (require_user_token partition same 20 21 none
      (record one_user { db = (revoke_token 15 bob one_user.db).1 })).0
    ≡ returned none
require_user_token-revoke_token_example =
    require_user_token-revoke_token partition same 15 20 21 none bob one_user nothing
      (λ e. refl, tt)
