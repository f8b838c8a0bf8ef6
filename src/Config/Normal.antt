-- ===== src/Config/Normal.antt =====
-- The functions of internal/config/config.go that fill in defaults.
use Prim.Native.String.{len}
use golang_clean_architectur.Common.{
  Bool, not, ◌||◌, none, some, String, ltb, str_eq, if◌then◌else◌,
}
use golang_clean_architectur.Errors.{Result, ok, err, message, ◌>>◌, refuse}
use golang_clean_architectur.User.{Texts, contains}
use golang_clean_architectur.Config.{
  AppConfig, AuthConfig, ElasticsearchConfig, LoggingConfig, MailConfig, QueueConfig,
  queue_driver_none, queue_driver_database, queue_driver_redis, mail_encryption_none,
  mail_encryption_starttls, mail_encryption_tls, is_production, text_or, positive_or,
}

module _ (texts : Texts) where
  open texts use {trim_space, to_lower, parse_address}

  -- The settings of the queue with their defaults.
  abbrev pub queue_of : QueueConfig → QueueConfig
  queue_of queue = record queue {
    driver = text_or (to_lower (trim_space queue.driver)) queue_driver_database;
    concurrency = positive_or queue.concurrency 1;
    shutdown_seconds = positive_or queue.shutdown_seconds 30;
    database = record {
      poll_interval_milliseconds = positive_or queue.database.poll_interval_milliseconds 500;
      reservation_seconds = positive_or queue.database.reservation_seconds 60;
    };
  }

  abbrev pub is_driver : String → Bool
  is_driver d =
      str_eq d queue_driver_none || (str_eq d queue_driver_database || str_eq d queue_driver_redis)

  abbrev pub checked_queue : QueueConfig → Result QueueConfig
  checked_queue queue =
      if not (is_driver queue.driver) then err (message "unsupported queue driver") else ok queue

  -- `normalizeQueueConfig`
  unfoldable pub normalize_queue_config : QueueConfig → Result QueueConfig
  normalize_queue_config queue = checked_queue (queue_of queue)

  abbrev pub is_encryption : String → Bool
  is_encryption e =
      str_eq e mail_encryption_none
      || (str_eq e mail_encryption_starttls || str_eq e mail_encryption_tls)

  -- The settings of the mail with their defaults.
  abbrev pub mail_of : MailConfig → MailConfig
  mail_of mail = record mail {
    host = text_or (trim_space mail.host) "localhost";
    port = positive_or mail.port 1025;
    encryption = text_or (to_lower (trim_space mail.encryption)) mail_encryption_none;
    from_address = text_or (trim_space mail.from_address) "hello@example.com";
    from_name =
        if str_eq (trim_space mail.from_name) ""
        then "Golang Clean Architecture"
        else mail.from_name;
  }

  abbrev pub checked_mail : MailConfig → Result MailConfig
  checked_mail mail =
      if not (is_encryption mail.encryption)
      then err (message "unsupported mail encryption")
      else elim (parse_address mail.from_address) [
        | none ↦ err (message "invalid mail from address")
        | some address ↦ ok mail
      ]

  -- `normalizeMailConfig`
  unfoldable pub normalize_mail_config : MailConfig → Result MailConfig
  normalize_mail_config mail = checked_mail (mail_of mail)

  -- `isPlaceholderSecret`
  unfoldable pub is_placeholder_secret : String → Bool
  is_placeholder_secret secret =
      let normalized = to_lower secret in
      contains normalized "change" || contains normalized "placeholder"

  -- The checks on the bootstrap admin's email, which may be empty.
  unfoldable pub check_bootstrap : String → Result (Unit {0})
  check_bootstrap email = if str_eq email "" then ok tt else elim (parse_address email) [
    | none ↦ err (message "invalid bootstrap admin email")
    | some address ↦ refuse (not (str_eq address email)) (message "invalid bootstrap admin email")
  ]

  abbrev pub is_weak : String → String → Bool
  is_weak access refresh =
      ltb (len access) 32
      || (ltb (len refresh) 32
          || (str_eq access refresh
              || (is_placeholder_secret access || is_placeholder_secret refresh)))

  -- The checks on the secrets in production.
  unfoldable pub check_secrets : String → String → String → Result (Unit {0})
  check_secrets environment access refresh =
      if is_production environment
      then (do
        refuse (str_eq (trim_space access) "")
            (message "AUTH_JWT_ACCESS_SECRET is required in production")
        refuse (str_eq (trim_space refresh) "")
            (message "AUTH_JWT_REFRESH_SECRET is required in production")
        refuse (is_weak access refresh) (message "production JWT secrets must be distinct"))
      else ok tt

  -- The environment and the settings with their defaults.
  abbrev pub environment_of : AppConfig → AppConfig
  environment_of app = record app {
    environment = text_or (to_lower (trim_space app.environment)) "development";
  }

  abbrev pub auth_of : AuthConfig → AuthConfig
  auth_of auth = record auth {
    issuer = text_or (trim_space auth.issuer) "golang-clean-architecture";
    audience = text_or (trim_space auth.audience) "golang-clean-architecture-api";
    verification_ttl_hours = positive_or auth.verification_ttl_hours 24;
    access_ttl_minutes = positive_or auth.access_ttl_minutes 15;
    refresh_ttl_hours = positive_or auth.refresh_ttl_hours 168;
    bootstrap_admin_email = to_lower (trim_space auth.bootstrap_admin_email);
  }

  abbrev pub checked_auth : AppConfig → AuthConfig → Result (AppConfig × AuthConfig)
  checked_auth app auth = do
    check_bootstrap auth.bootstrap_admin_email
    check_secrets app.environment auth.jwt_access_secret auth.jwt_refresh_secret
    ok (app, auth)

  -- `normalizeAuthConfig`
  unfoldable pub normalize_auth_config : AppConfig → AuthConfig → Result (AppConfig × AuthConfig)
  normalize_auth_config app auth = checked_auth (environment_of app) (auth_of auth)

  -- `normalizeElasticsearchConfig`
  unfoldable pub normalize_elasticsearch_config : ElasticsearchConfig → ElasticsearchConfig
  normalize_elasticsearch_config config = record config {
    url = trim_space config.url;
    username = trim_space config.username;
  }

  -- `normalizeLoggingConfig`
  unfoldable pub normalize_logging_config : LoggingConfig → LoggingConfig
  normalize_logging_config logging = record logging {
    level = text_or (to_lower (trim_space logging.level)) "info";
    file = if str_eq (trim_space logging.file) "" then "logs/app.log" else logging.file;
  }
