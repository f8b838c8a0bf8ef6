-- ===== src/Config/Check.antt =====
-- internal/config/config.go: `validateConfig` and `Load`.
use golang_clean_architectur.Common.{
  Bool, true, false, not, ◌&&◌, ◌||◌, Option, none, some, String, List, [], ◌∷◌, str_eq,
  if◌then◌else◌,
}
use golang_clean_architectur.Common.Int.{ℤ, pos, is_positive, at_most}
use golang_clean_architectur.Errors.{
  Result, ok, err, message, wrap, is, file_missing, config_missing, ◌>>=◌, ◌>>◌, refuse,
}
use golang_clean_architectur.User.{Texts}
use golang_clean_architectur.Config.{
  Config, DatabaseConfig, ElasticsearchConfig, Parsers, Sources, queue_driver_none,
  queue_driver_redis, is_production,
}
use golang_clean_architectur.Config.Normal.{
  normalize_queue_config, normalize_mail_config, normalize_auth_config,
  normalize_elasticsearch_config, normalize_logging_config,
}

-- `1 <= port && port <= 65535`
abbrev pub is_port : ℤ → Bool
is_port port = at_most (pos 1) port && at_most port (pos 65535)

abbrev pub is_port_text : Option ℤ → Bool
is_port_text none = false
is_port_text (some port) = is_port port

module _ (texts : Texts) where
  open texts use {trim_space}

  abbrev pub is_blank : String → Bool
  is_blank s = str_eq (trim_space s) ""

  abbrev pub is_database : DatabaseConfig → Bool
  is_database d =
      not (is_blank d.host) && (is_port d.port && (not (is_blank d.user) && not (is_blank d.name)))

  -- The loop over the map of queues.
  unfoldable pub check_queues : List (String × ℤ) → Result (Unit {0})
  check_queues [] = ok tt
  check_queues ((name, weight) ∷ queues) =
      let rest = check_queues queues in
      if is_blank name || not (is_positive weight)
      then err (message "queue names must be non-empty and weights must be positive")
      else rest

abbrev pub is_configured : ElasticsearchConfig → Bool
is_configured c =
    not (str_eq c.url "") || (not (str_eq c.username "") || not (str_eq c.password ""))

abbrev pub is_none : List (String × ℤ) → Bool
is_none [] = true
is_none (q ∷ qs) = false

module _ (parsers : Parsers) where
  abbrev pub is_web_url : String → Bool
  is_web_url url = elim (parsers.parse_url url) [
    | none ↦ false
    | some parsed ↦
        not (str_eq parsed.host "") && (str_eq parsed.scheme "http" || str_eq parsed.scheme "https")
  ]

  abbrev pub is_paired : ElasticsearchConfig → Bool
  is_paired c = if str_eq c.username "" then str_eq c.password "" else not (str_eq c.password "")

  -- `validateElasticsearchConfig`
  unfoldable pub validate_elasticsearch_config : ElasticsearchConfig → Result (Unit {0})
  validate_elasticsearch_config config =
      if is_configured config
      then (do
        refuse (not (is_web_url config.url))
            (message "elasticsearch URL must be a valid HTTP or HTTPS URL")
        refuse (not (is_paired config))
            (message "elasticsearch username and password must be configured together"))
      else ok tt

module _ (texts : Texts) (parsers : Parsers) where
  -- `validateConfig`
  unfoldable pub validate_config : Config → Result (Unit {0})
  validate_config config = do
    refuse (not (is_port_text (parsers.atoi config.app.port)))
        (message "app port must be between 1 and 65535")
    refuse (not (is_database texts config.database))
        (message "database host, port, user, and name must be valid")
    refuse (is_production config.app.environment && is_blank texts config.database.password)
        (message "DATABASE_PASSWORD is required in production")
    validate_elasticsearch_config parsers config.elasticsearch
    refuse
        (str_eq config.queue.driver queue_driver_redis
          && not (parsers.split_host_port config.redis.address))
        (message "redis address must be host:port")
    refuse (not (str_eq config.queue.driver queue_driver_none) && is_none config.queue.queues)
        (message "at least one queue must be configured")
    check_queues texts config.queue.queues

  -- `Load`, from the unmarshalled settings on.
  unfoldable pub settle : Config → Result Config
  settle config = do
    queue ← normalize_queue_config texts config.queue
    mail ← normalize_mail_config texts config.mail
    both ← normalize_auth_config texts config.app config.auth
    let settled : Config = record config {
      queue = queue;
      mail = mail;
      app = both.0;
      auth = both.1;
      elasticsearch = normalize_elasticsearch_config texts config.elasticsearch;
      logging = normalize_logging_config texts config.logging;
    }
    validate_config settled
    ok settled

-- `loadDotEnv`: a missing file is no error.
unfoldable pub load_dot_env : Result (Unit {0}) → Result (Unit {0})
load_dot_env (ok x) = ok x
load_dot_env (err e) = if is e file_missing then ok tt else err (wrap "load dotenv file" e)

-- `configKeys`
abbrev pub config_keys : List String
config_keys =
    "app.port" ∷ "app.environment" ∷ "database.host" ∷ "database.port" ∷ "database.user"
    ∷ "database.password" ∷ "database.name" ∷ "auth.jwt_access_secret" ∷ "auth.jwt_refresh_secret"
    ∷ "auth.access_ttl_minutes" ∷ "auth.refresh_ttl_hours" ∷ "auth.issuer" ∷ "auth.audience"
    ∷ "auth.verification_ttl_hours" ∷ "auth.bootstrap_admin_email" ∷ "redis.address"
    ∷ "redis.password" ∷ "redis.db" ∷ "elasticsearch.url" ∷ "elasticsearch.username"
    ∷ "elasticsearch.password" ∷ "queue.driver" ∷ "queue.concurrency" ∷ "queue.shutdown_seconds"
    ∷ "queue.queues" ∷ "queue.database.poll_interval_milliseconds"
    ∷ "queue.database.reservation_seconds" ∷ "scheduler.timezone" ∷ "mail.host" ∷ "mail.port"
    ∷ "mail.username" ∷ "mail.password" ∷ "mail.encryption" ∷ "mail.from_address" ∷ "mail.from_name"
    ∷ "logging.level" ∷ "logging.file" ∷ []

bind_all : (String → Result (Unit {0})) → List String → Result (Unit {0})
bind_all bind [] = ok tt
bind_all bind (key ∷ keys) = elim (bind key) [
  | err e ↦ err (wrap "bind environment key" e)
  | ok x ↦ bind_all bind keys
]

-- A missing configuration file is no error.
unfoldable pub read_config : Result (Unit {0}) → Result (Unit {0})
read_config (ok x) = ok x
read_config (err e) = if is e config_missing then ok tt else err e

module _ (texts : Texts) (parsers : Parsers) where
  -- `Load`
  unfoldable pub load : Sources → Result Config
  unfolding bind_all
  load sources = do
    load_dot_env sources.dotenv
    bind_all sources.bind_env config_keys
    read_config sources.read_in_config
    config ← sources.unmarshal
    settle texts parsers config
