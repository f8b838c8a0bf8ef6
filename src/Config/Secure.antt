-- ===== src/Config/Secure.antt =====
-- What production may rely on in settings that `Load` returned (internal/config/config.go).
use Prim.Native.String.{len}
use golang_clean_architectur.Common.{
  ◌≤◌, ◌≡◌, ◌≢◌, ◌⊎◌, inl, inr, true, false, String, some, arith, str_eq, str_eq_iff, str_eq-ne,
  Bool-cases, Option-cases, ap, ◌∙◌,
}
use golang_clean_architectur.Common.Int.{to_ℕ}
use golang_clean_architectur.Errors.{ok}
use golang_clean_architectur.User.{Texts, contains}
use golang_clean_architectur.Config.{Config, AppConfig, AuthConfig, Parsers, Sources, is_production}
use golang_clean_architectur.Config.Normal.{
  normalize_auth_config, check_secrets, check_bootstrap, is_placeholder_secret,
}
use golang_clean_architectur.Config.Check.{validate_config, load, is_blank}
use golang_clean_architectur.Config.Sound.{load-Settled, to_ℕ-positive_or}

-- A secret that production accepts.
abbrev pub IsStrong : Texts → String → Type 0
IsStrong texts secret =
    (32 ≤ len secret)
    × (contains (texts.to_lower secret) "change" ≡ false)
    × (contains (texts.to_lower secret) "placeholder" ≡ false)

module _ (texts : Texts) where
  production : (env : String) → env ≢ "development" → env ≢ "test" → is_production env ≡ true
  unfolding is_production
  production env d t = ground (arith, str_eq-ne env "development" d, str_eq-ne env "test" t)

  secrets_checked :
      (env access refresh : String)
      → is_production env ≡ true
      → check_secrets texts env access refresh ≡ ok tt
      → (access ≢ refresh) × IsStrong texts access × IsStrong texts refresh
  unfolding check_secrets is_placeholder_secret
  secrets_checked env access refresh e h = (
    λ same. ground (arith, str_eq_iff access refresh),
    (ground arith, ground arith, ground arith),
    (ground arith, ground arith, ground arith),
  )

  auth_parts :
      (app app' : AppConfig) (auth auth' : AuthConfig)
      → normalize_auth_config texts app auth ≡ ok (app', auth')
      → (check_secrets texts app'.environment auth'.jwt_access_secret auth'.jwt_refresh_secret
          ≡ ok tt)
        × (check_bootstrap texts auth'.bootstrap_admin_email ≡ ok tt)
        × (1 ≤ to_ℕ auth'.access_ttl_minutes)
        × (1 ≤ to_ℕ auth'.refresh_ttl_hours)
        × (1 ≤ to_ℕ auth'.verification_ttl_hours)
  unfolding normalize_auth_config
  auth_parts app app' auth auth' h = ground (
    arith,
    to_ℕ-positive_or auth.access_ttl_minutes 15,
    to_ℕ-positive_or auth.refresh_ttl_hours 168,
    to_ℕ-positive_or auth.verification_ttl_hours 24,
  )

  bootstrap_address :
      (email : String)
      → check_bootstrap texts email ≡ ok tt
      → (email ≡ "") ⊎ (texts.parse_address email ≡ some email)
  unfolding check_bootstrap
  bootstrap_address email h = elim (Bool-cases (str_eq email "")) [
    | inl e ↦ inl ((str_eq_iff email "").0 e)
    | inr e ↦ elim (Option-cases (texts.parse_address email)) [
      | inl p ↦ ground arith
      | inr (address, p) ↦
          let same : address ≡ email = (str_eq_iff address email).0 (ground arith) in
          inr (p ∙ ap some same)
    ]
  ]

  module _ (parsers : Parsers) where
    password_present :
        (c : Config)
        → validate_config texts parsers c ≡ ok tt
        → is_production c.app.environment ≡ true
        → is_blank texts c.database.password ≡ false
    unfolding validate_config
    password_present c h e = ground arith

    -- Settings that Load returns have positive lifetimes for access, refresh and verification tokens,
    -- and a bootstrap admin's email that is empty or an address as written. Where their environment
    -- is neither development nor test, the two signing secrets differ, each has at least 32 bytes and
    -- no placeholder, and the database has a password.
    pub load_secures :
        (sources : Sources) (c : Config)
        → load texts parsers sources ≡ ok c
        → (1 ≤ to_ℕ c.auth.access_ttl_minutes)
          × (1 ≤ to_ℕ c.auth.refresh_ttl_hours)
          × (1 ≤ to_ℕ c.auth.verification_ttl_hours)
          × ((c.auth.bootstrap_admin_email ≡ "")
              ⊎ (texts.parse_address c.auth.bootstrap_admin_email
                  ≡ some c.auth.bootstrap_admin_email))
          × (c.app.environment ≢ "development"
              → c.app.environment ≢ "test"
              → (c.auth.jwt_access_secret ≢ c.auth.jwt_refresh_secret)
                × IsStrong texts c.auth.jwt_access_secret
                × IsStrong texts c.auth.jwt_refresh_secret
                × (texts.trim_space c.database.password ≢ ""))
    load_secures sources c h =
        let (raw, settled) = load-Settled texts parsers sources c h in
        let (secrets, bootstrap, access, refresh, verification) =
          auth_parts raw.app c.app raw.auth c.auth settled.auth in
        (
          access,
          refresh,
          verification,
          bootstrap_address c.auth.bootstrap_admin_email bootstrap,
          λ d t.
              let env = production c.app.environment d t in
              let (differ, access_strong, refresh_strong) = secrets_checked _ _ _ env secrets in
              let present = password_present c settled.valid env in
              (
                differ,
                access_strong,
                refresh_strong,
                λ blank. ground (arith, str_eq_iff (texts.trim_space c.database.password) ""),
              ),
        )
