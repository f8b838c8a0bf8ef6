-- ===== src/Identity/Users.antt =====
-- internal/adapter/mysql/identity/repository.go: the methods on Users. A method that reads the
-- clock takes the reading, `now`; row locks order the transactions and change no row.
pub mod Accounts
pub mod Invariant
pub mod Registration
pub mod Admins
use golang_clean_architectur.Common.{
  ℕ, zero, suc, ◌+◌, ◌-◌, ◌*◌, Bool, true, false, not, ◌&&◌, ◌||◌, Option, none, some, String, List,
  [], ◌∷◌, map, ◌==◌, ltb, leb, str_eq, if◌then◌else◌, length, count_where, find_where,
  update_where, delete_where, take, drop,
}
use golang_clean_architectur.Errors.{
  Error, Result, ok, err, sentinel, not_found, forbidden, last_admin, duplicate_email,
  gorm_record_not_found,
}
use golang_clean_architectur.Sql.{
  Db, pure, lift, ◌>>=◌, ◌>>◌, query, execute, transaction, refuse, or_fail, map_error,
}
use golang_clean_architectur.User.{User, Role, role_admin}
use golang_clean_architectur.Identity.{
  UserModel, RefreshTokenModel, Tables, from_user, to_user, map_user_not_found, map_write_error,
  require_affected, Driver, insert_user, update_user, insert_verification,
}

abbrev pub is_admin_row : UserModel → Bool
is_admin_row r = str_eq r.role role_admin

-- UPDATE refresh_tokens SET revoked_at = now WHERE user_id = id AND revoked_at IS NULL
abbrev pub is_live_of : ℕ → RefreshTokenModel → Bool
is_live_of id r = elim r.revoked_at [ none ↦ r.user_id == id | some at ↦ false ]

abbrev pub revoke_at : ℕ → RefreshTokenModel → RefreshTokenModel
revoke_at now r = record r { revoked_at = some now }

unfoldable pub revoke_all : ℕ → ℕ → Tables → Tables
revoke_all id now t = record t {
  refresh_tokens = update_where (is_live_of id) (revoke_at now) t.refresh_tokens;
}

module _ {W : Type 0} where
  -- `tx.First(&record, id)`
  abbrev pub first_user : ℕ → Db Tables W UserModel
  first_user id = query (λ t. find_where (λ r. r.id == id) t.users) >>= λ found.
      or_fail found (sentinel gorm_record_not_found)

  -- Counts the pending holders of the email of a new account.
  abbrev pub refuse_pending : String → Db Tables W (Unit {0})
  refuse_pending email =
      query (λ t. count_where (λ r. str_eq r.pending_email email) t.users) >>= λ pending.
      refuse (ltb 0 pending) (sentinel duplicate_email)

  -- `List`: `page` is at least 1.
  unfoldable pub list : ℕ → ℕ → Db Tables W (List User × ℕ)
  list page limit = do
    count ← query (λ t. length t.users)
    records ← query (λ t. take limit (drop ((page - 1) * limit) t.users))
    pure (map to_user records, count)

  unfoldable pub get_user_by_id : ℕ → Db Tables W User
  get_user_by_id id = do found ← map_error map_user_not_found (first_user id); pure (to_user found)

  abbrev first_where : (UserModel → Bool) → Db Tables W User
  first_where p = do
    found ← query (λ t. find_where p t.users)
    r ← or_fail found (sentinel gorm_record_not_found)
    pure (to_user r)

  unfoldable pub get_user_by_email : String → Db Tables W User
  get_user_by_email email = map_error map_user_not_found (first_where (λ r. str_eq r.email email))

  unfoldable pub get_user_by_email_or_pending : String → Db Tables W User
  get_user_by_email_or_pending email =
      map_error map_user_not_found
        (first_where (λ r. str_eq r.email email || str_eq r.pending_email email))

  unfoldable pub count_admins : Db Tables W ℕ
  count_admins = query (λ t. count_where is_admin_row t.users)

  unfoldable pub change_password_body : ℕ → String → ℕ → Db Tables W (Unit {0})
  change_password_body id hashed now = do
    affected ← execute (λ t. ok (
      count_where (λ r. r.id == id) t.users,
      record t {
        users =
            update_where (λ r. r.id == id)
              (λ r. record r { password = hashed; token_version = r.token_version + 1 }) t.users;
      },
    ))
    lift (require_affected affected)
    execute (λ t. ok (tt, revoke_all id now t))

  unfoldable pub change_password : ℕ → String → ℕ → Db Tables W (Unit {0})
  change_password id hashed now = transaction (change_password_body id hashed now)

module _ {W : Type 0} (driver : Driver) where
  unfoldable pub create_user_body : User → Db Tables W User
  create_user_body account = do
    refuse_pending account.email
    id ← map_error map_write_error (execute (insert_user driver (from_user account)))
    pure (record account { id = id })

  unfoldable pub create_user : User → Db Tables W User
  create_user account = transaction (create_user_body account)

  -- The token's hash and expiry, and the dispatch of its message, which runs inside the
  -- transaction; `created_at` is gorm's stamp on the token.
  unfoldable pub register_user_body :
      User → String → ℕ → ℕ → (User → Db Tables W (Unit {0})) → Db Tables W User
  register_user_body account token_hash expires_at created_at dispatch = do
    refuse_pending account.email
    id ← map_error map_write_error (execute (insert_user driver (from_user account)))
    execute (insert_verification driver id token_hash expires_at created_at)
    dispatch (record account { id = id })
    pure (record account { id = id })

  unfoldable pub register_user :
      User → String → ℕ → ℕ → (User → Db Tables W (Unit {0})) → Db Tables W User
  register_user account token_hash expires_at created_at dispatch =
      transaction (register_user_body account token_hash expires_at created_at dispatch)

  unfoldable pub update_profile_body : ℕ → String → String → Db Tables W (Unit {0})
  update_profile_body id username email = do
    target ← map_error map_user_not_found (first_user id)
    pending ←
        (if str_eq email target.email then pure "" else do
          count ← query (λ t.
              count_where
                (λ r. (str_eq r.email email || str_eq r.pending_email email) && not (r.id == id))
                t.users)
          refuse (ltb 0 count) (sentinel duplicate_email)
          pure email)
    map_error map_write_error (
        execute (
          update_user driver target
            (λ r. record r { username = username; pending_email = pending })))

  unfoldable pub update_profile : ℕ → String → String → Db Tables W (Unit {0})
  update_profile id username email = transaction (update_profile_body id username email)

-- UPDATE users SET role, token_version WHERE id = target.id
abbrev pub set_role : Role → UserModel → UserModel
set_role role r = record r { role = role; token_version = r.token_version + 1 }

-- DELETE FROM users WHERE id, and what the foreign keys cascade to.
unfoldable pub delete_rows : ℕ → Tables → Tables
delete_rows id t = record t {
  users = delete_where (λ r. r.id == id) t.users;
  refresh_tokens = delete_where (λ r. r.user_id == id) t.refresh_tokens;
  verification_tokens = delete_where (λ r. r.user_id == id) t.verification_tokens;
}

-- The statements of `ChangeRole` and `Delete` that keep the last admin.
module _ {W : Type 0} where
  abbrev pub keep_last_admin : Bool → Db Tables W (Unit {0})
  keep_last_admin false = pure tt
  keep_last_admin true = do
    admins ← query (λ t. count_where is_admin_row t.users)
    refuse (leb admins 1) (sentinel last_admin)

  unfoldable pub change_role_body : ℕ → ℕ → Role → ℕ → Db Tables W (Unit {0})
  change_role_body actor_id target_id role now = do
    actor ← map_error map_user_not_found (first_user actor_id)
    refuse (not (is_admin_row actor)) (sentinel forbidden)
    target ← map_error map_user_not_found (first_user target_id)
    refuse
        (str_eq role role_admin && elim target.email_verified_at [ none ↦ true | some at ↦ false ])
        (sentinel forbidden)
    keep_last_admin (is_admin_row target && not (str_eq role role_admin))
    execute (λ t.
        ok (tt, record t { users = update_where (λ r. r.id == target.id) (set_role role) t.users }))
    execute (λ t. ok (tt, revoke_all target_id now t))

  unfoldable pub change_role : ℕ → ℕ → Role → ℕ → Db Tables W (Unit {0})
  change_role actor_id target_id role now =
      transaction (change_role_body actor_id target_id role now)

  unfoldable pub delete_body : ℕ → Db Tables W (Unit {0})
  delete_body id = do
    target ← map_error map_user_not_found (first_user id)
    keep_last_admin (is_admin_row target)
    affected ←
        execute (λ t. ok (count_where (λ r. r.id == target.id) t.users, delete_rows target.id t))
    lift (require_affected affected)

  unfoldable pub delete : ℕ → Db Tables W (Unit {0})
  delete id = transaction (delete_body id)
