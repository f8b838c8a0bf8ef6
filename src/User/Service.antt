-- ===== src/User/Service.antt =====
-- internal/user/service.go: `Service`, over the repository in internal/adapter/mysql/identity. The
-- password service (internal/adapter/password, bcrypt) is a parameter; a method that makes the
-- repository read the clock takes the reading.
pub mod Guards
use golang_clean_architectur.Common.{
  ℕ, Bool, true, false, not, ◌&&◌, List, String, ◌==◌, leb, str_eq, if◌then◌else◌,
}
use golang_clean_architectur.Common.Int.{ℤ, is_positive, to_ℕ}
use golang_clean_architectur.Errors.{
  Error, Result, ok, err, sentinel, wrap, is_ok, forbidden, not_found, last_admin, invalid_password,
}
use golang_clean_architectur.Sql.{Db, pure, fail, lift, attempt, ◌>>=◌, ◌>>◌, refuse, rename_error}
use golang_clean_architectur.User
use golang_clean_architectur.User.{
  Texts, User, Role, role_user, role_admin, is_admin, can_promote, parse_role, assign_role,
  validate_password, normalize_and_validate, normalize_pagination, change_password_hash,
}
use golang_clean_architectur.Identity.{Tables, Driver}
use golang_clean_architectur.Identity.Users

-- `PasswordService`
pub record PasswordService : Type 0 where
  pub hash : String → Result String
  pub compare : String → String → Result (Unit {0})

-- The account that `Create` and `Register` store for a hashed password.
abbrev pub new_account : User → String → User
new_account account hashed = record account {
  password = hashed;
  role = role_user;
  token_version = 1;
}

-- `actor, err := GetByID(actorID)`: an error, or an actor who is no admin, is forbidden.
abbrev pub lacks_admin : Result User → Bool
lacks_admin (ok actor) = not (is_admin actor)
lacks_admin (err e) = true

abbrev pub next_email : User → String
next_email account =
    if str_eq account.pending_email "" then account.email else account.pending_email

module _ {W : Type 0} where
  unfoldable pub list : ℤ → ℤ → Db Tables W (List User × ℕ)
  list page limit = let (p, l) = normalize_pagination page limit in Users.list p l

  unfoldable pub get_by_id : ℤ → Db Tables W User
  get_by_id id =
      if is_positive id then Users.get_user_by_id (to_ℕ id) else fail (sentinel not_found)

  -- Refuses where the target is an admin that no other one could stand in for.
  abbrev pub refuse_last_admin : Bool → Db Tables W (Unit {0})
  refuse_last_admin false = pure tt
  refuse_last_admin true = do count ← Users.count_admins; refuse (leb count 1) (sentinel last_admin)

  unfoldable pub delete : ℕ → ℕ → Db Tables W (Unit {0})
  delete actor_id target_id = do
    refuse (actor_id == target_id) (sentinel forbidden)
    actor ← attempt (Users.get_user_by_id actor_id)
    refuse (lacks_admin actor) (sentinel forbidden)
    target ← Users.get_user_by_id target_id
    refuse_last_admin (is_admin target)
    Users.delete target_id

module _ (texts : Texts) {W : Type 0} where
  open texts use {trim_space, to_lower}

  unfoldable pub change_role : ℕ → ℕ → String → ℕ → Db Tables W (Unit {0})
  change_role actor_id target_id role now = do
    parsed ← lift (parse_role (to_lower (trim_space role)))
    refuse (actor_id == target_id) (sentinel forbidden)
    actor ← attempt (Users.get_user_by_id actor_id)
    refuse (lacks_admin actor) (sentinel forbidden)
    target ← Users.get_user_by_id target_id
    refuse (str_eq parsed role_admin && not (can_promote target)) (sentinel forbidden)
    refuse_last_admin (is_admin target && not (str_eq parsed role_admin))
    lift (assign_role target parsed)
    Users.change_role actor_id target_id parsed now

module _ (texts : Texts) (driver : Driver) {W : Type 0} where
  unfoldable pub update_profile : ℕ → String → String → Db Tables W (Unit {0})
  update_profile id username email = do
    account ← Users.get_user_by_id id
    changed ← lift (User.update_profile texts account username email)
    Users.update_profile driver id changed.username (next_email changed)

module _ (password : PasswordService) {W : Type 0} where
  open password use {hash, compare}

  unfoldable pub change_password : ℕ → String → String → ℕ → Db Tables W (Unit {0})
  change_password id current_password new_password now = do
    lift (validate_password new_password)
    account ← Users.get_user_by_id id
    refuse (not (is_ok (compare account.password current_password))) (sentinel invalid_password)
    hashed ← lift (rename_error (wrap "hash password") (hash new_password))
    Users.change_password id (change_password_hash account hashed).password now

  unfoldable pub delete_self : ℕ → String → Db Tables W (Unit {0})
  delete_self id current_password = do
    account ← Users.get_user_by_id id
    refuse (not (is_ok (compare account.password current_password))) (sentinel invalid_password)
    Users.delete id

module _ (texts : Texts) (password : PasswordService) (driver : Driver) {W : Type 0} where
  open password use {hash}

  -- The account as it is stored.
  unfoldable pub create : User → Db Tables W User
  create account =
      let (checked, normalized) = normalize_and_validate texts account true in
      do
        lift checked
        hashed ← lift (rename_error (wrap "hash password") (hash normalized.password))
        Users.create_user driver (new_account normalized hashed)
