-- ===== src/UserTokens/Tests.antt =====
-- The tokens of users at a concrete table: a hash that prefixes its text stands for SHA-256.
use Prim.Native.String.{◌++◌}
use ollama_proxy.Prelude.{ℕ, ◌≡◌, ◌≢◌, refl, sym, ap, ◌∙◌, String, none, some, [], ◌∷◌, get_elem?}
use ollama_proxy.Clock.{aware, as_utc}
use ollama_proxy.Exec.{returned}
use ollama_proxy.Table
use ollama_proxy.Models.{Db, UserToken}
use ollama_proxy.UserTokens.{
  find_hash, set_token, with_tokens, count_use, with_use, authenticate, create_token, new_token,
}
use ollama_proxy.UserTokens.Authenticate.{DistinctHashes, IsLive, authenticate-IsExact}
use ollama_proxy.UserTokens.Lifecycle.{is_empty_text, true-≢-false, authenticate-create_token}
use ollama_proxy.UserTokens.Hashes.{steps, stays, authenticates, Reach-DistinctHashes}

abbrev sha : String → String
sha s = "h:" ++ s

abbrev no_rows : Db
no_rows = record { api_keys = []; user_tokens = [] }

abbrev alice : UserToken
alice = new_token sha 1 "opk_a" "alice" (some (aware 50)) 10

abbrev one_row : Db
one_row = record { api_keys = []; user_tokens = alice ∷ [] }

created : (create_token sha 10 "a" "alice" (some (aware 50)) no_rows).0 ≡ returned (alice, "opk_a")
unfolding create_token Table.next_id
created = refl

text-≢ : (raw : String) → raw ≡ "opk_a" → raw ≢ ""
text-≢ raw e q = true-≢-false (ap is_empty_text (sym q ∙ e))

found : find_hash (sha "opk_a") one_row.user_tokens ≡ some alice
unfolding find_hash
found = refl

alice-IsLive : IsLive (sha "opk_a") 20 alice
unfolding as_utc
alice-IsLive = (refl, refl, refl)

authenticate-IsExact_example :
    let r = authenticate sha 20 21 "opk_a" one_row in
    ((i : ℕ) (t : UserToken)
      → get_elem? one_row.user_tokens i ≡ some t
      → IsLive (sha "opk_a") 20 t
      → r ≡ (
        returned (some (with_use 21 t)),
        with_tokens one_row (set_token t.id (count_use 21) one_row.user_tokens),
      ))
    × (((i : ℕ) (t : UserToken)
          → get_elem? one_row.user_tokens i ≡ some t
          → ¬ IsLive (sha "opk_a") 20 t)
        → r ≡ (returned none, one_row))
authenticate-IsExact_example =
    authenticate-IsExact sha 20 21 "opk_a" one_row (text-≢ "opk_a" refl) (tt, tt)

let_in : authenticate sha 20 21 "opk_a" one_row ≡ (
  returned (some (with_use 21 alice)),
  with_tokens one_row (set_token 1 (count_use 21) one_row.user_tokens),
)
let_in =
    (authenticate-IsExact sha 20 21 "opk_a" one_row (text-≢ "opk_a" refl) (tt, tt)).0 0 alice refl
      alice-IsLive

authenticate-create_token_example :
    let db' = (create_token sha 10 "a" "alice" (some (aware 50)) no_rows).1 in
    authenticate sha 20 21 "opk_a" db' ≡ (
      returned (some (with_use 21 alice)),
      with_tokens db' (set_token alice.id (count_use 21) db'.user_tokens),
    )
authenticate-create_token_example =
    authenticate-create_token sha 10 20 21 "a" "alice" (some (aware 50)) no_rows alice "opk_a"
      created alice-IsLive.2

abbrev after_use : Db
after_use = (authenticate sha 20 21 "opk_a" one_row).1

Reach-DistinctHashes_example : DistinctHashes after_use.user_tokens
Reach-DistinctHashes_example =
    Reach-DistinctHashes sha one_row after_use
      (steps one_row after_use after_use (authenticates 20 21 "opk_a" one_row) (stays after_use))
      (tt, tt)
