-- ===== src/Config.antt =====
-- internal/config/config.go: the settings. The sources that viper and godotenv read are `Sources`;
-- `url.Parse`, `net.SplitHostPort` and `strconv.Atoi` are fields of `Parsers`.
pub mod Normal
pub mod Check
pub mod Sound
pub mod Secure
pub mod Settled
use golang_clean_architectur.Common.{
  ℕ, Bool, true, false, not, ◌&&◌, Option, none, some, String, List, str_eq, if◌then◌else◌,
}
use golang_clean_architectur.Common.Int.{ℤ, pos, is_positive}
use golang_clean_architectur.Errors.{Result}

pub record AppConfig : Type 0 where
  pub port : String
  pub environment : String

pub record DatabaseConfig : Type 0 where
  pub host : String
  pub port : ℤ
  pub user : String
  pub password : String
  pub name : String
  pub dsn : String

pub record AuthConfig : Type 0 where
  pub jwt_access_secret : String
  pub jwt_refresh_secret : String
  pub access_ttl_minutes : ℤ
  pub refresh_ttl_hours : ℤ
  pub issuer : String
  pub audience : String
  pub verification_ttl_hours : ℤ
  pub bootstrap_admin_email : String

pub record RedisConfig : Type 0 where
  pub address : String
  pub password : String
  pub db : ℤ

pub record ElasticsearchConfig : Type 0 where
  pub url : String
  pub username : String
  pub password : String

pub record DatabaseQueueConfig : Type 0 where
  pub poll_interval_milliseconds : ℤ
  pub reservation_seconds : ℤ

-- The map of queues as the list of its entries.
pub record QueueConfig : Type 0 where
  pub driver : String
  pub concurrency : ℤ
  pub shutdown_seconds : ℤ
  pub queues : List (String × ℤ)
  pub database : DatabaseQueueConfig

pub record SchedulerConfig : Type 0 where
  pub timezone : String

pub record MailConfig : Type 0 where
  pub host : String
  pub port : ℤ
  pub username : String
  pub password : String
  pub encryption : String
  pub from_address : String
  pub from_name : String

pub record LoggingConfig : Type 0 where
  pub level : String
  pub file : String

pub record Config : Type 0 where
  pub app : AppConfig
  pub database : DatabaseConfig
  pub auth : AuthConfig
  pub redis : RedisConfig
  pub elasticsearch : ElasticsearchConfig
  pub queue : QueueConfig
  pub scheduler : SchedulerConfig
  pub mail : MailConfig
  pub logging : LoggingConfig

-- What `url.Parse` answers, as far as it is read.
pub record Url : Type 0 where
  pub scheme : String
  pub host : String

pub record Parsers : Type 0 where
  pub atoi : String → Option ℤ
  pub parse_url : String → Option Url
  -- The text is host:port.
  pub split_host_port : String → Bool

-- What the libraries answer to the calls of `Load`, in the order of the calls.
pub record Sources : Type 0 where
  pub dotenv : Result (Unit {0})
  pub bind_env : String → Result (Unit {0})
  pub read_in_config : Result (Unit {0})
  pub unmarshal : Result Config

abbrev pub queue_driver_none : String
queue_driver_none = "none"

abbrev pub queue_driver_database : String
queue_driver_database = "database"

abbrev pub queue_driver_redis : String
queue_driver_redis = "redis"

abbrev pub mail_encryption_none : String
mail_encryption_none = "none"

abbrev pub mail_encryption_starttls : String
mail_encryption_starttls = "starttls"

abbrev pub mail_encryption_tls : String
mail_encryption_tls = "tls"

-- `isProduction`
unfoldable pub is_production : String → Bool
is_production environment =
    not (str_eq environment "development") && not (str_eq environment "test")

-- `if value == "" { value = fallback }`
abbrev pub text_or : String → String → String
text_or value fallback = if str_eq value "" then fallback else value

-- `if value <= 0 { value = fallback }`
abbrev pub positive_or : ℤ → ℕ → ℤ
positive_or value fallback = if is_positive value then value else pos fallback
