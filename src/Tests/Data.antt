-- ===== src/Tests/Data.antt =====
-- The accounts, tokens and services that the tests share.
use golang_clean_architectur.Common.{◌+◌, ℕ, some, none, String, [], ◌∷◌}
use golang_clean_architectur.Errors.{
  err, gorm_duplicated_key, mysql, ok, sentinel, deadline_exceeded,
}
use golang_clean_architectur.Sql.{Session}
use golang_clean_architectur.User.{Texts, role_user, role_admin, Role}
use golang_clean_architectur.User.Service.{PasswordService}
use golang_clean_architectur.Identity.{UserModel, RefreshTokenModel, Tables, Driver}
use golang_clean_architectur.Auth.{Ports, Draws, Draws}

-- Texts that need no rewriting, and every text an address of its own.
abbrev pub texts : Texts
texts = record { trim_space = λ s. s; to_lower = λ s. s; parse_address = λ s. some s }

abbrev pub driver : Driver
driver = record {
  duplicate_entry = λ value key. sentinel gorm_duplicated_key;
  foreign_key = λ key. mysql 1452 key;
  timestamp = λ at. at;
}

-- A password is its own hash, and is never wrong.
abbrev pub password : PasswordService
password = record { hash = λ s. ok s; compare = λ hashed given. ok tt }

abbrev pub account : ℕ → String → String → Role → UserModel
account id username email role = record {
  id = id;
  username = username;
  email = email;
  password = "hash";
  role = role;
  email_verified_at = some 1;
  pending_email = "";
  token_version = 1;
}

abbrev pub ada : UserModel
ada = account 1 "ada" "ada@x" role_admin

abbrev pub bob : UserModel
bob = account 2 "bob" "bob@x" role_user

abbrev pub cyd : UserModel
cyd = record (account 3 "cyd" "cyd@x" role_user) { email_verified_at = none }

abbrev pub stored : ℕ → String → RefreshTokenModel
stored user_id hash = record {
  id = 1;
  user_id = user_id;
  token_hash = hash;
  expires_at = 100;
  revoked_at = none;
}

abbrev pub tables : Tables
tables = record {
  users = ada ∷ bob ∷ cyd ∷ [];
  refresh_tokens = stored 2 "r1" ∷ [];
  verification_tokens =
      (record { id = 1; user_id = 3; token_hash = "v1"; expires_at = 50; created_at = 0 }) ∷ [];
  next_user = 4;
  next_refresh = 2;
  next_verification = 2;
}

abbrev pub session : Session Tables (Unit {0})
session = record { tables = tables; world = tt; faults = [] }

-- The second statement times out.
abbrev pub faulty : Session Tables (Unit {0})
faulty = record session { faults = none ∷ some (sentinel deadline_exceeded) ∷ [] }

abbrev pub ports : Ports (Unit {0})
ports = record {
  tokens = record {
    generate_access =
        λ draw id version. elim draw.random [ err e ↦ err e | ok text ↦ ok (text, draw.now + 15) ];
    generate_refresh =
        λ draw id version. elim draw.random [ err e ↦ err e | ok text ↦ ok (text, draw.now + 195) ];
    validate_refresh = λ checks token. ok (record { user_id = 2; token_version = 1 });
  };
  password = password;
  hash_token = λ s. s;
  notifier = none;
  welcome = none;
  verification_ttl = 24;
  bootstrap_email = "cyd@x";
}

-- The draws of one request, and of a later one.
abbrev pub draws : Draws
draws = record {
  checks = record { issued_check = 5; now = 5 };
  access = record { now = 5; random = ok "a2" };
  refresh = record { now = 5; random = ok "r2" };
}

abbrev pub later_draws : Draws
later_draws = record {
  checks = record { issued_check = 6; now = 6 };
  access = record { now = 6; random = ok "a3" };
  refresh = record { now = 6; random = ok "r3" };
}
