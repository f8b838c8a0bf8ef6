-- ===== src/Http/Conflicts.antt =====
-- Usernames and emails that are taken, from the unique keys of the table (internal/adapter/mysql/identity)
-- to the answer (internal/adapter/http).
use golang_clean_architectur.Common.{◌≡◌, refl, String, [], arith, str_eq, count_where}
use golang_clean_architectur.Errors.{Error, err, sentinel, gorm_duplicated_key}
use golang_clean_architectur.Sql.{Session, next_fault, later_faults}
use golang_clean_architectur.User.{User}
use golang_clean_architectur.Identity.{
  Tables, Driver, from_user, unique_user, insert_user, map_write_error,
}
use golang_clean_architectur.Identity.Users.{create_user, create_user_body}
use golang_clean_architectur.Http.{Fiber, Response, error_text, write_domain_error}

module _ (fiber : Fiber) {W : Type 0} (driver : Driver)
    (translated : (value key : String)
      → driver.duplicate_entry value key ≡ sentinel gorm_duplicated_key)
    (account : User) (r : Response) (s : Session Tables W) where
  violation :
      (e : Error)
      → unique_user driver (record (from_user account) { id = s.tables.next_user }) s.tables.users
        ≡ err e
      → e ≡ sentinel gorm_duplicated_key
  unfolding unique_user
  violation e h =
      let m = from_user account in
      ground (
        arith,
        translated m.username "users.username",
        translated m.email "users.email",
        translated m.pending_email "users.ux_users_pending_email",
      )

  -- Where the connection translates errors, an account whose username or email is taken is not told so:
  -- the repository returns gorm's error for a duplicated key, which is neither ErrDuplicateUsername nor
  -- ErrDuplicateEmail, and the handler answers it with 500. No statement fails, and no other User waits
  -- for the email.
  pub create_user-untold :
      (e : Error)
      → s.faults ≡ []
      → count_where (λ x. str_eq x.pending_email account.email) s.tables.users ≡ 0
      → unique_user driver (record (from_user account) { id = s.tables.next_user }) s.tables.users
        ≡ err e
      → ((create_user driver account s).0 ≡ err (sentinel gorm_duplicated_key))
        × ((write_domain_error fiber (sentinel gorm_duplicated_key) r).1
            ≡ record { status = 500; body = error_text "internal server error" })
  unfolding create_user create_user_body insert_user map_write_error write_domain_error next_fault
      later_faults
  create_user-untold e fine nobody taken = let clash = violation e taken in (ground arith, refl)
