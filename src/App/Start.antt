-- ===== src/App/Start.antt =====
-- When the application starts, and with what.
use ollama_proxy.Prelude.{
  ℕ, zero, suc, ◌≡◌, refl, ◌∙◌, ap, sym, ◌⊎◌, inl, inr, String, Bool, true, false, not, Option,
  none, some, arith, ltb, or_else, is_some, Bool-cases, str_eq,
}
use ollama_proxy.Prelude.Int.{ℤ, pos, negsuc, pos_part}
use ollama_proxy.Exec.{Result, returned, raised, value_error, runtime_error, returned-injective}
use ollama_proxy.UserTokens.Lifecycle.{true-≢-false}
use ollama_proxy.Vault.{Vault}
use ollama_proxy.ModelCache
use ollama_proxy.Usage
use ollama_proxy.DashboardAuth
use ollama_proxy.DashboardAuth.{DashboardAuth, Serializers}
use ollama_proxy.App.Config.{Settings, validate_dashboard_ttl}
use ollama_proxy.App.{App, is_given, missing_settings, dashboard_of, start}

impossible : {A : Type 0} {t : ℤ} → returned t ≡ raised value_error → A
impossible h = ground (arith, h)

validated_ttl :
    (raw ttl : ℤ) → validate_dashboard_ttl raw ≡ returned ttl → (n : ℕ) × (ttl ≡ pos (suc n))
unfolding validate_dashboard_ttl
validated_ttl (negsuc n) ttl h = ground (arith, h)
validated_ttl (pos zero) ttl h = ground (arith, h)
validated_ttl (pos (suc n)) ttl h = elim (Bool-cases (ltb (suc n) 60)) [
  | inl e ↦ impossible (sym h ∙ rw e refl)
  | inr e ↦ elim (Bool-cases (ltb 86400 (suc n))) [
    | inl e' ↦ impossible (sym h ∙ rw e (rw e' refl))
    | inr e' ↦ (n, sym (returned-injective (sym (rw e (rw e' refl)) ∙ h)))
  ]
]

auth_made :
    (signers : String → Serializers) (secret : String) (ttl : ℤ) (cookie_secure : Bool) (n : ℕ)
    → not (str_eq secret "") ≡ true
    → ttl ≡ pos (suc n)
    → (auth : DashboardAuth) × (DashboardAuth.init signers secret ttl cookie_secure ≡ returned auth)
unfolding DashboardAuth.init
auth_made signers secret ttl cookie_secure n given h = (
  record {
    secret = secret;
    session_ttl_seconds = suc n;
    cookie_secure = cookie_secure;
    signers = signers secret;
  },
  ap (λ t. DashboardAuth.init signers secret t cookie_secure) h
      ∙ elim (Bool-cases (str_eq secret "")) [
        | inl e ↦ absurd (true-≢-false (sym given ∙ rw e refl))
        | inr e ↦ rw e refl
      ],
)

-- The application that a start gives, with these sessions.
abbrev with_auth : Vault → Settings → Option DashboardAuth → App
unfolding ModelCache.init Usage.init
with_auth vault settings auth = record {
  vault = vault;
  model_cache = ModelCache.init (pos_part settings.model_cache_ttl_seconds);
  usage_service = Usage.init settings.usage_refresh_interval_seconds;
  dashboard_auth = auth;
  refreshing = ltb 0 (pos_part settings.usage_refresh_interval_seconds);
}

-- The two ways a start can end, by the settings.
abbrev pub IsExact : Settings → Result App → Type 0
IsExact settings result =
    ((app : App) × (result ≡ returned app)
      × (is_some app.dashboard_auth ≡ settings.enable_dashboard)
      × ((settings.enable_dashboard ≡ false)
          ⊎ ((is_given settings.dashboard_password ≡ true)
              × (is_given settings.dashboard_session_secret ≡ true))))
    ⊎ ((result ≡ raised runtime_error)
        × (settings.enable_dashboard ≡ true)
        × ((is_given settings.dashboard_password ≡ false)
            ⊎ (is_given settings.dashboard_session_secret ≡ false)))

-- With a lifetime of the sessions that the settings have validated, the application starts, with the
-- dashboard's sessions exactly if the dashboard is on, unless the dashboard is on and its password or
-- its secret is missing or empty: then it ends with a RuntimeError. A dashboard never starts open.
pub start-IsExact :
    (signers : String → Serializers) (vault : Vault) (settings : Settings) (raw : ℤ)
    → validate_dashboard_ttl raw ≡ returned settings.dashboard_session_ttl_seconds
    → IsExact settings (start signers vault settings)
unfolding start dashboard_of missing_settings DashboardAuth.init ModelCache.init Usage.init
start-IsExact signers vault settings raw h =
    let (n, ttl) = validated_ttl raw settings.dashboard_session_ttl_seconds h in
    elim (Bool-cases settings.enable_dashboard) [
      | inl on ↦ elim (Bool-cases (is_given settings.dashboard_password)) [
        | inl p ↦ elim (Bool-cases (is_given settings.dashboard_session_secret)) [
          | inl s ↦
              let (auth, made) =
                auth_made signers (or_else settings.dashboard_session_secret "")
                  settings.dashboard_session_ttl_seconds settings.dashboard_cookie_secure n s ttl in
              inl (
                with_auth vault settings (some auth),
                rw on (rw p (rw s (rw made refl))),
                sym on,
                inr (p, s),
              )
          | inr s ↦ inr (rw on (rw p (rw s refl)), on, inr s)
        ]
        | inr p ↦ inr (rw on (rw p refl), on, inl p)
      ]
      | inr off ↦ inl (with_auth vault settings none, rw off refl, sym off, inl off)
    ]
