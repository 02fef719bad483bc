-- ===== src/App/Tests.antt =====
-- The start, the migration and the settings at concrete values.
use ollama_proxy.Prelude.{◌≡◌, ◌+◌, ◌++◌, refl, String, true, false, some, List, [], ◌∷◌, map}
use ollama_proxy.Prelude.Int.{ℤ}
use ollama_proxy.Exec.{returned}
use ollama_proxy.DashboardAuth.Tests.{signers}
use ollama_proxy.AdminKeys.Tests.{plain_vault}
use ollama_proxy.Usage.Tests.{env, desk}
use ollama_proxy.Usage.Refresh.{without_usage}
use ollama_proxy.App.Config.{Settings, defaults, validate_dashboard_ttl}
use ollama_proxy.App.Database.{usage_columns, missing_columns, ensure_usage_columns}
use ollama_proxy.App.Migration.{names, HasAll, ensure_usage_columns-HasAll}
use ollama_proxy.App.Cycles.{refresh_cycles-frame}
use ollama_proxy.App.Start.{IsExact, start-IsExact}
use ollama_proxy.App.{cors_of, refresh_cycles, start}

abbrev old_table : List String
old_table = "id" ∷ "account_email" ∷ "key_hash" ∷ []

ensure_usage_columns-HasAll_example :
    let columns' = old_table ++ names (missing_columns old_table usage_columns) in
    (ensure_usage_columns (some old_table) ≡ (returned tt, some columns'))
    × HasAll columns' usage_columns
    × (ensure_usage_columns (some columns') ≡ (returned tt, some columns'))
ensure_usage_columns-HasAll_example = ensure_usage_columns-HasAll old_table

refresh_cycles-frame_example :
    let d' = refresh_cycles (λ n. env) (λ n. 60 + n) 3 desk in
    (map without_usage d'.pool.api_keys ≡ map without_usage desk.pool.api_keys)
    × (d'.pool.user_tokens ≡ desk.pool.user_tokens)
    × (d'.pool.manager ≡ desk.pool.manager)
refresh_cycles-frame_example = refresh_cycles-frame (λ n. env) (λ n. 60 + n) 3 desk

abbrev dashboard_settings : Settings
dashboard_settings = record defaults {
  enable_dashboard = true;
  dashboard_password = some "pw";
  dashboard_session_secret = some "secret";
}

an_hour : validate_dashboard_ttl (ℤ.pos 3600) ≡ returned (ℤ.pos 3600)
unfolding validate_dashboard_ttl
an_hour = refl

start-IsExact_example :
    IsExact dashboard_settings (start (λ secret. signers) plain_vault dashboard_settings)
start-IsExact_example =
    start-IsExact (λ secret. signers) plain_vault dashboard_settings (ℤ.pos 3600) an_hour

-- A wildcard beside an origin leaves the credentials on.
wildcard_beside :
    cors_of " *, https://a.example "
    ≡ some (record { origins = "*" ∷ "https://a.example" ∷ []; credentials = true })
unfolding cors_of
wildcard_beside = refl

wildcard_alone : cors_of "*" ≡ some (record { origins = "*" ∷ []; credentials = false })
unfolding cors_of
wildcard_alone = refl
