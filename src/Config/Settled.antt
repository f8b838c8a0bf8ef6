-- ===== src/Config/Settled.antt =====
-- Settings that were settled once stay as they are (internal/config/config.go), where the texts are
-- read as Go reads them.
use golang_clean_architectur.Common.{
  ℕ, zero, suc, ◌≡◌, refl, sym, ap, ◌∙◌, Bool, true, false, String, List, [], ◌∷◌, All, arith,
  str_eq, Bool-cases, inl, inr, if◌then◌else◌,
}
use golang_clean_architectur.Common.Int.{ℤ, pos, negsuc}
use golang_clean_architectur.Errors.{Result, ok}
use golang_clean_architectur.User.{Texts}
use golang_clean_architectur.Config.{
  Config, AppConfig, AuthConfig, QueueConfig, MailConfig, ElasticsearchConfig, LoggingConfig,
  Parsers, text_or, positive_or,
}
use golang_clean_architectur.Config.Normal.{
  normalize_queue_config, normalize_mail_config, normalize_auth_config,
  normalize_elasticsearch_config, normalize_logging_config, environment_of, auth_of, queue_of,
  mail_of, checked_queue, checked_mail, checked_auth,
}
use golang_clean_architectur.Config.Check.{settle}
use golang_clean_architectur.Config.Sound.{settle-Settled}

-- The defaults that are written in lower case, and the others.
abbrev pub lower_defaults : List String
lower_defaults = "database" ∷ "none" ∷ "development" ∷ "info" ∷ []

abbrev pub other_defaults : List String
other_defaults =
    "hello@example.com" ∷ "localhost" ∷ "golang-clean-architecture"
    ∷ "golang-clean-architecture-api" ∷ "logs/app.log" ∷ "Golang Clean Architecture" ∷ []

-- What Go documents of `TrimSpace` and `ToLower`.
pub record TextLaws (texts : Texts) : Type 0 where
  pub trim_twice : (s : String) → texts.trim_space (texts.trim_space s) ≡ texts.trim_space s
  pub lower_twice : (s : String) → texts.to_lower (texts.to_lower s) ≡ texts.to_lower s
  -- A blank is a blank in lower case too.
  pub trim-lower :
      (s : String) → texts.trim_space (texts.to_lower s) ≡ texts.to_lower (texts.trim_space s)
  pub kept : All (λ s. (texts.trim_space s ≡ s) × (texts.to_lower s ≡ s)) lower_defaults
  pub trimmed : All (λ s. texts.trim_space s ≡ s) other_defaults

positive_or-twice :
    (z : ℤ) (n : ℕ) → positive_or (positive_or z (suc n)) (suc n) ≡ positive_or z (suc n)
positive_or-twice (pos zero) n = refl
positive_or-twice (pos (suc k)) n = refl
positive_or-twice (negsuc k) n = refl

same_if : (b : Bool) (s : String) → (if b then s else s) ≡ s
same_if true s = refl
same_if false s = refl

-- A step that answers its settled argument answers it again.
again :
    {A : Type 0} (step : A → Result A) (of : A → A)
    → ((a : A) → step (of a) ≡ step a)
    → ((a b : A) → step a ≡ ok b → of a ≡ b)
    → (a b : A) → step a ≡ ok b
    → step b ≡ ok b
again step of same shape a b h = ap step (sym (shape a b h)) ∙ same a ∙ h

module _ (texts : Texts) (laws : TextLaws texts) where
  open texts use {trim_space, to_lower, parse_address}
  open laws use {trim_twice, lower_twice, trim-lower, kept, trimmed}

  lowered : (s : String) → to_lower (trim_space (to_lower (trim_space s))) ≡ to_lower (trim_space s)
  lowered s = rw (trim-lower (trim_space s), trim_twice s, lower_twice (trim_space s)) refl

  -- A text with a default is kept by the second reading.
  text_twice :
      (read : String → String) (s fallback : String)
      → ((t : String) → read (read t) ≡ read t)
      → read fallback ≡ fallback
      → text_or (read (text_or (read s) fallback)) fallback ≡ text_or (read s) fallback
  text_twice read s fallback again same = elim (Bool-cases (str_eq (read s) "")) [
    | inl e ↦ rw (e, same) (same_if (str_eq fallback "") fallback)
    | inr e ↦ rw (e, again s, e) refl
  ]

  kept_name :
      (s fallback : String)
      → let t = if str_eq (trim_space s) "" then fallback else s in
        (if str_eq (trim_space t) "" then fallback else t) ≡ t
  kept_name s fallback = elim (Bool-cases (str_eq (trim_space s) "")) [
    | inl e ↦ rw e (same_if (str_eq (trim_space fallback) "") fallback)
    | inr e ↦ rw (e, e) refl
  ]

  lowered_or :
      (s fallback : String)
      → (trim_space fallback ≡ fallback) × (to_lower fallback ≡ fallback)
      → let t = text_or (to_lower (trim_space s)) fallback in
        text_or (to_lower (trim_space t)) fallback ≡ t
  lowered_or s fallback (t, l) =
      text_twice (λ x. to_lower (trim_space x)) s fallback lowered (ap to_lower t ∙ l)

  trimmed_or :
      (s fallback : String)
      → trim_space fallback ≡ fallback
      → let t = text_or (trim_space s) fallback in text_or (trim_space t) fallback ≡ t
  trimmed_or s fallback t = text_twice trim_space s fallback trim_twice t

  queue_of_twice : (q : QueueConfig) → queue_of texts (queue_of texts q) ≡ queue_of texts q
  queue_of_twice q =
      rw
        (
          lowered_or q.driver "database" kept.0,
          positive_or-twice q.concurrency 0,
          positive_or-twice q.shutdown_seconds 29,
          positive_or-twice q.database.poll_interval_milliseconds 499,
          positive_or-twice q.database.reservation_seconds 59,
        )
        refl

  mail_of_twice : (m : MailConfig) → mail_of texts (mail_of texts m) ≡ mail_of texts m
  mail_of_twice m =
      rw
        (
          trimmed_or m.host "localhost" trimmed.1.0,
          positive_or-twice m.port 1024,
          lowered_or m.encryption "none" kept.1.0,
          trimmed_or m.from_address "hello@example.com" trimmed.0,
          kept_name m.from_name "Golang Clean Architecture",
        )
        refl

  auth_of_twice : (a : AuthConfig) → auth_of texts (auth_of texts a) ≡ auth_of texts a
  auth_of_twice a =
      rw
        (
          trimmed_or a.issuer "golang-clean-architecture" trimmed.1.1.0,
          trimmed_or a.audience "golang-clean-architecture-api" trimmed.1.1.1.0,
          positive_or-twice a.verification_ttl_hours 23,
          positive_or-twice a.access_ttl_minutes 14,
          positive_or-twice a.refresh_ttl_hours 167,
          lowered a.bootstrap_admin_email,
        )
        refl

  environment_of_twice :
      (a : AppConfig) → environment_of texts (environment_of texts a) ≡ environment_of texts a
  environment_of_twice a = rw (lowered_or a.environment "development" kept.1.1.0) refl

  queue_again :
      (q q' : QueueConfig)
      → normalize_queue_config texts q ≡ ok q'
      → normalize_queue_config texts q' ≡ ok q'
  unfolding normalize_queue_config
  queue_again =
      again (normalize_queue_config texts) (queue_of texts)
        (λ q. ap (checked_queue texts) (queue_of_twice q)) (λ q q' h. ground arith)

  mail_again :
      (m m' : MailConfig)
      → normalize_mail_config texts m ≡ ok m'
      → normalize_mail_config texts m' ≡ ok m'
  unfolding normalize_mail_config
  mail_again =
      again (normalize_mail_config texts) (mail_of texts)
        (λ m. ap (checked_mail texts) (mail_of_twice m)) (λ m m' h. ground arith)

  auth_again :
      (app app' : AppConfig) (auth auth' : AuthConfig)
      → normalize_auth_config texts app auth ≡ ok (app', auth')
      → normalize_auth_config texts app' auth' ≡ ok (app', auth')
  unfolding normalize_auth_config
  auth_again app app' auth auth' =
      again {A = AppConfig × AuthConfig} (λ both. normalize_auth_config texts both.0 both.1)
        (λ both. (environment_of texts both.0, auth_of texts both.1))
        (λ both.
          ap (λ a. checked_auth texts a (auth_of texts (auth_of texts both.1)))
            (environment_of_twice both.0)
          ∙ ap (checked_auth texts (environment_of texts both.0)) (auth_of_twice both.1))
        (λ x y h. ground arith) (app, auth) (app', auth')

  elasticsearch_again :
      (c : ElasticsearchConfig)
      → normalize_elasticsearch_config texts (normalize_elasticsearch_config texts c)
        ≡ normalize_elasticsearch_config texts c
  unfolding normalize_elasticsearch_config
  elasticsearch_again c = rw (trim_twice c.url, trim_twice c.username) refl

  logging_again :
      (c : LoggingConfig)
      → normalize_logging_config texts (normalize_logging_config texts c)
        ≡ normalize_logging_config texts c
  unfolding normalize_logging_config
  logging_again c =
      rw (lowered_or c.level "info" kept.1.1.1.0, kept_name c.file "logs/app.log") refl

  module _ (parsers : Parsers) where
    -- Where blanks and letters are read as Go documents, settings that were settled once, with their
    -- defaults filled in and every check passed, settle as they are when they are read again.
    pub settle_again :
        (raw c : Config) → settle texts parsers raw ≡ ok c → settle texts parsers c ≡ ok c
    unfolding settle
    settle_again raw c h =
        let s = settle-Settled texts parsers raw c h in
        let es : normalize_elasticsearch_config texts c.elasticsearch ≡ c.elasticsearch =
          rw s.elasticsearch (elasticsearch_again raw.elasticsearch) in
        let lg : normalize_logging_config texts c.logging ≡ c.logging =
          rw s.logging (logging_again raw.logging) in
        rw
          (
            queue_again raw.queue c.queue s.queue,
            mail_again raw.mail c.mail s.mail,
            auth_again raw.app c.app raw.auth c.auth s.auth,
            es,
            lg,
            s.valid,
          )
          refl
