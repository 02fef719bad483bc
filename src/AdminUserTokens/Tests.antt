-- ===== src/AdminUserTokens/Tests.antt =====
-- The administration of the tokens at concrete rows.
use ollama_proxy.Prelude.{◌≡◌, refl, String, none, some, [], ◌∷◌}
use ollama_proxy.Clock.{aware}
use ollama_proxy.Table
use ollama_proxy.Exec.{returned, raised}
use ollama_proxy.Models.{Db, UserToken}
use ollama_proxy.UserTokens.{new_token, changed, update_token, hard_delete_user_token, get_token}
use ollama_proxy.AdminUserTokens.{
  UserTokenUpdate, patch_user_token, revoke_user_token, strip_label, token_not_found,
}

abbrev same : String → String
same s = s

abbrev carol : UserToken
carol = new_token same 1 "opk_c" "carol" (some (aware 50)) 10

abbrev rows : Db
rows = record { api_keys = []; user_tokens = carol ∷ [] }

-- "Forget the expiry."
abbrev forget : UserTokenUpdate
forget = record { label = none; expires_at = some none; status = none }

stripped : strip_label "  a b " ≡ returned "a b"
stripped = refl

missing : (patch_user_token 20 2 forget rows).0 ≡ raised token_not_found
unfolding patch_user_token Table.find
missing = refl

forgotten :
    (patch_user_token 20 1 forget rows).1.user_tokens
    ≡ record carol { expires_at = none; updated_at = aware 20 } ∷ []
unfolding patch_user_token update_token changed Table.find Table.update_where
forgotten = refl

deleted : (revoke_user_token 1 rows).1.user_tokens ≡ []
unfolding revoke_user_token hard_delete_user_token Table.find Table.delete_row
deleted = refl

carol_found : get_token rows 1 ≡ some carol
unfolding Table.find
carol_found = refl
