-- ===== src/Tests/Settings.antt =====
-- internal/config at concrete settings.
use golang_clean_architectur.Common.{◌≡◌, ◌≤◌, refl, true, some, [], ◌∷◌, str_eq}
use golang_clean_architectur.Common.Int.{pos}
use golang_clean_architectur.Errors.{ok, err, sentinel, file_missing, config_missing}
use golang_clean_architectur.User.{contains}
use golang_clean_architectur.Config.{Config, Parsers, Sources, is_production}
use golang_clean_architectur.Config.Normal.{
  normalize_queue_config, normalize_mail_config, normalize_auth_config,
  normalize_elasticsearch_config, normalize_logging_config, check_bootstrap, check_secrets,
  is_placeholder_secret,
}
use golang_clean_architectur.Config.Check.{
  load, load_dot_env, read_config, settle, validate_config, validate_elasticsearch_config,
  check_queues,
}
use golang_clean_architectur.Config.Sound.{IsRunnable, load-IsRunnable}
use golang_clean_architectur.Config.Secure.{load_secures}
use golang_clean_architectur.Config.Settled.{TextLaws, settle_again}
use golang_clean_architectur.Tests.Data.{texts}

abbrev pub parsers : Parsers
parsers = record {
  atoi = λ s. some (pos 8080);
  parse_url = λ s. some (record { scheme = "http"; host = s });
  split_host_port = λ s. true;
}

-- What the sources hold: a production without optional settings.
abbrev pub raw : Config
raw = record {
  app = record { port = "8080"; environment = "production" };
  database = record {
    host = "db";
    port = pos 3306;
    user = "app";
    password = "pw";
    name = "app";
    dsn = "";
  };
  auth = record {
    jwt_access_secret = "aaaaaaaaaaaaaaaaaaaaaaaaaaaaaaaa";
    jwt_refresh_secret = "bbbbbbbbbbbbbbbbbbbbbbbbbbbbbbbb";
    access_ttl_minutes = pos 0;
    refresh_ttl_hours = pos 0;
    issuer = "";
    audience = "";
    verification_ttl_hours = pos 0;
    bootstrap_admin_email = "ada@x";
  };
  redis = record { address = ""; password = ""; db = pos 0 };
  elasticsearch = record { url = ""; username = ""; password = "" };
  queue = record {
    driver = "";
    concurrency = pos 0;
    shutdown_seconds = pos 0;
    queues = ("default", pos 2) ∷ ("mail", pos 1) ∷ [];
    database = record { poll_interval_milliseconds = pos 0; reservation_seconds = pos 0 };
  };
  scheduler = record { timezone = "UTC" };
  mail = record {
    host = "";
    port = pos 0;
    username = "";
    password = "";
    encryption = "";
    from_address = "";
    from_name = "";
  };
  logging = record { level = ""; file = "" };
}

abbrev pub loaded : Config
loaded = record raw {
  auth = record raw.auth {
    access_ttl_minutes = pos 15;
    refresh_ttl_hours = pos 168;
    issuer = "golang-clean-architecture";
    audience = "golang-clean-architecture-api";
    verification_ttl_hours = pos 24;
  };
  queue = record raw.queue {
    driver = "database";
    concurrency = pos 1;
    shutdown_seconds = pos 30;
    database = record { poll_interval_milliseconds = pos 500; reservation_seconds = pos 60 };
  };
  mail = record raw.mail {
    host = "localhost";
    port = pos 1025;
    encryption = "none";
    from_address = "hello@example.com";
    from_name = "Golang Clean Architecture";
  };
  logging = record { level = "info"; file = "logs/app.log" };
}

abbrev pub sources : Sources
sources = record {
  dotenv = err (sentinel file_missing);
  bind_env = λ key. ok tt;
  read_in_config = err (sentinel config_missing);
  unmarshal = ok raw;
}

settles : settle texts parsers raw ≡ ok loaded
unfolding settle normalize_queue_config normalize_mail_config normalize_auth_config
    normalize_elasticsearch_config normalize_logging_config check_bootstrap check_secrets
    is_placeholder_secret is_production contains validate_config validate_elasticsearch_config
    check_queues str_eq
settles = refl

pub loads : load texts parsers sources ≡ ok loaded
unfolding load load_dot_env read_config
loads = settles

load-IsRunnable_example : IsRunnable texts parsers loaded
load-IsRunnable_example = load-IsRunnable texts parsers sources loaded loads

load_secures_example : 1 ≤ 15
load_secures_example = (load_secures texts parsers sources loaded loads).0

texts_laws : TextLaws texts
texts_laws = record {
  trim_twice = λ s. refl;
  lower_twice = λ s. refl;
  trim-lower = λ s. refl;
  kept = ((refl, refl), ((refl, refl), ((refl, refl), ((refl, refl), tt))));
  trimmed = (refl, (refl, (refl, (refl, (refl, (refl, tt))))));
}

settle_again_example : settle texts parsers loaded ≡ ok loaded
settle_again_example = settle_again texts texts_laws parsers raw loaded settles
