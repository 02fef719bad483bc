-- ===== src/Guards/Admin.antt =====
-- Who passes the guard of the administration.
use ollama_proxy.Prelude.{
  ◌≡◌, refl, ◌⊎◌, inl, ◌↔◌, String, Option, none, some, arith, eq_iff, or_else,
}
use ollama_proxy.Exec.{returned}
use ollama_proxy.Guards.{extract_bearer, check_admin, require_admin_token}

check_admin_iff :
    (configured : String) (presented : Option String)
    → (check_admin configured presented ≡ returned tt) ↔ (presented ≡ some configured)
check_admin_iff c none = ground arith
check_admin_iff c (some p) = ground (arith, eq_iff p c)

-- The guard lets a request through exactly where no admin token is configured, or an empty one, or
-- where the request's bearer token is the configured one.
pub require_admin_token-IsExact :
    (sp : String → String × String) (configured header : Option String)
    → (require_admin_token sp configured header ≡ returned tt)
      ↔ ((or_else configured "" ≡ "") ⊎ (extract_bearer sp header ≡ configured))
unfolding require_admin_token
require_admin_token-IsExact sp none header = (λ e. inl refl, λ h. refl)
require_admin_token-IsExact sp (some c) header =
    ground (arith, eq_iff c "", check_admin_iff c (extract_bearer sp header))
