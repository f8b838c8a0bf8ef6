-- ===== src/Identity.antt =====
-- internal/adapter/mysql/identity: the rows of the tables users, refresh_tokens and
-- email_verification_tokens, the constraints that the migrations declare on them, and mappers.go.
-- Lists hold the rows in the order of their primary keys: an INSERT takes the next key, as
-- AUTO_INCREMENT does for the accounts that the program creates, whose ID is 0.
-- The columns created_at and updated_at are left out where no query reads them.
pub mod Users
pub mod Tokens
pub mod Verification
pub mod History
use golang_clean_architectur.Common.{
  ℕ, suc, ◌+◌, Bool, true, false, not, ◌&&◌, ◌||◌, Option, none, some, String, List, [], ◌∷◌, ◌++◌,
  ◌==◌, str_eq, if◌then◌else◌, any, update_where,
}
use golang_clean_architectur.Errors.{
  Error, Result, ok, err, sentinel, mysql, is, as_mysql, not_found, record_missing,
  gorm_record_not_found, duplicate_email, duplicate_username,
}
use golang_clean_architectur.User.{User, Role, contains}

pub record UserModel : Type 0 where
  pub id : ℕ
  pub username : String
  pub email : String
  pub password : String
  pub role : Role
  pub email_verified_at : Option ℕ
  pub pending_email : String
  pub token_version : ℕ

pub record RefreshTokenModel : Type 0 where
  pub id : ℕ
  pub user_id : ℕ
  pub token_hash : String
  pub expires_at : ℕ
  pub revoked_at : Option ℕ

pub record EmailVerificationTokenModel : Type 0 where
  pub id : ℕ
  pub user_id : ℕ
  pub token_hash : String
  pub expires_at : ℕ
  pub created_at : ℕ

pub record Tables : Type 0 where
  pub users : List UserModel
  pub refresh_tokens : List RefreshTokenModel
  pub verification_tokens : List EmailVerificationTokenModel
  pub next_user : ℕ
  pub next_refresh : ℕ
  pub next_verification : ℕ

unfoldable pub from_user : User → UserModel
from_user u = record {
  id = u.id;
  username = u.username;
  email = u.email;
  password = u.password;
  role = u.role;
  email_verified_at = u.email_verified_at;
  pending_email = u.pending_email;
  token_version = u.token_version;
}

unfoldable pub to_user : UserModel → User
to_user r = record {
  id = r.id;
  username = r.username;
  email = r.email;
  password = r.password;
  role = r.role;
  email_verified_at = r.email_verified_at;
  pending_email = r.pending_email;
  token_version = r.token_version;
}

unfoldable pub map_user_not_found : Error → Error
map_user_not_found e = if is e gorm_record_not_found then sentinel not_found else e

unfoldable pub map_record_not_found : Error → Error
map_record_not_found e = if is e gorm_record_not_found then sentinel record_missing else e

unfoldable pub map_write_error : Error → Error
map_write_error e = elim (as_mysql e) [
  | none ↦ e
  | some (number, message) ↦
      if number == 1062
      then (if contains message "username"
          then sentinel duplicate_username
          else sentinel duplicate_email)
      else e
]

-- `requireAffected`, for a statement that reported no error.
unfoldable pub require_affected : ℕ → Result (Unit {0})
require_affected rows = if rows == 0 then err (sentinel not_found) else ok tt

-- What gorm returns for a value that a key already holds, and for a key without its parent. MySQL's
-- errors are 1062 and 1452; a connection that is opened with TranslateError, as
-- internal/adapter/mysql/connection.go does, returns gorm's own errors for them.
pub record Driver : Type 0 where
  pub duplicate_entry : String → String → Error
  pub foreign_key : String → Error
  -- What a TIMESTAMP column, which has no fraction of a second, keeps of a time.
  pub timestamp : ℕ → ℕ

module _ (driver : Driver) where
  abbrev pub duplicate : String → String → Error
  duplicate value key = driver.duplicate_entry value key

  -- The unique keys of `users` (migrations 000001 and 000005: pending emails that are not empty),
  -- for a row to be written, against the rows with another primary key.
  unfoldable pub unique_user : UserModel → List UserModel → Result (Unit {0})
  unique_user m rows =
      if any (λ r. not (r.id == m.id) && str_eq r.username m.username) rows
      then err (duplicate m.username "users.username")
      else if any (λ r. not (r.id == m.id) && str_eq r.email m.email) rows
      then err (duplicate m.email "users.email")
      else if not (str_eq m.pending_email "")
          && any (λ r. not (r.id == m.id) && str_eq r.pending_email m.pending_email) rows
      then err (duplicate m.pending_email "users.ux_users_pending_email")
      else ok tt

  -- INSERT INTO users: the new primary key.
  unfoldable pub insert_user : UserModel → Tables → Result (ℕ × Tables)
  insert_user m t =
      let row = record m { id = t.next_user } in
      elim (unique_user row t.users) [
        | err e ↦ err e
        | ok _ ↦
            ok (t.next_user, record t { users = t.users ++ row ∷ []; next_user = suc t.next_user })
      ]

  -- UPDATE users SET f WHERE id = target.id: `f` keeps the primary key.
  unfoldable pub update_user :
      UserModel → (UserModel → UserModel) → Tables → Result (Unit {0} × Tables)
  update_user target f t = elim (unique_user (f target) t.users) [
    | err e ↦ err e
    | ok _ ↦ ok (tt, record t { users = update_where (λ r. r.id == target.id) f t.users })
  ]

  -- INSERT INTO refresh_tokens, with its foreign key and its unique hash.
  unfoldable pub insert_refresh : ℕ → String → ℕ → Tables → Result (ℕ × Tables)
  insert_refresh user_id token_hash expires_at t =
      if any (λ r. str_eq r.token_hash token_hash) t.refresh_tokens
      then err (duplicate token_hash "refresh_tokens.token_hash")
      else if not (any (λ u. u.id == user_id) t.users)
      then err (driver.foreign_key "fk_refresh_tokens_user_id")
      else ok (
        t.next_refresh,
        record t {
          refresh_tokens =
              t.refresh_tokens
              ++ (record {
                id = t.next_refresh;
                user_id = user_id;
                token_hash = token_hash;
                expires_at = driver.timestamp expires_at;
                revoked_at = none;
              })
                ∷ [];
          next_refresh = suc t.next_refresh;
        },
      )

  -- INSERT INTO email_verification_tokens: one row to a user, one to a hash.
  unfoldable pub insert_verification : ℕ → String → ℕ → ℕ → Tables → Result (ℕ × Tables)
  insert_verification user_id token_hash expires_at created_at t =
      if any (λ r. r.user_id == user_id) t.verification_tokens
      then err (duplicate "" "email_verification_tokens.user_id")
      else if any (λ r. str_eq r.token_hash token_hash) t.verification_tokens
      then err (duplicate token_hash "email_verification_tokens.token_hash")
      else if not (any (λ u. u.id == user_id) t.users)
      then err (driver.foreign_key "fk_email_verification_tokens_user_id")
      else ok (
        t.next_verification,
        record t {
          verification_tokens =
              t.verification_tokens
              ++ (record {
                id = t.next_verification;
                user_id = user_id;
                token_hash = token_hash;
                expires_at = driver.timestamp expires_at;
                created_at = driver.timestamp created_at;
              })
                ∷ [];
          next_verification = suc t.next_verification;
        },
      )
