-- ===== src/Identity/Users/Invariant.antt =====
-- Each method of the repository that writes to `users` keeps the table's invariant.
use golang_clean_architectur.Common.{
  ℕ, suc, ◌≡◌, ◌≢◌, refl, Bool, false, not, ◌&&◌, ◌||◌, some, String, List, [], ◌∷◌, ◌++◌, arith,
  ◌==◌, str_eq, str_eq_iff, str_eq_symm, str_eq-ne, if◌then◌else◌, All, count_where, find_where,
  update_where, inl, inr, ◌⊎◌, eq_iff,
}
use golang_clean_architectur.Errors.{ok}
use golang_clean_architectur.Sql.{Session}
use golang_clean_architectur.Sql.Rows.{
  All-of_any, any-of_count, All-map, All-zip, All-trivial, Apart-others, All-find,
}
use golang_clean_architectur.User.{User, role_admin, role_user}
use golang_clean_architectur.Identity.{
  UserModel, Tables, Driver, unique_user, insert_user, update_user, from_user,
}
use golang_clean_architectur.Identity.Users.{create_user_body, update_profile_body}
use golang_clean_architectur.Identity.Users.Accounts.{
  IsValid, awaits, insert_user-IsValid, update_user-IsValid, clash, clash_symm,
}
use golang_clean_architectur.Identity.Users.Admins.{found_self, found_id}

user-ne-admin : role_user ≢ role_admin
user-ne-admin = ground (arith, eq_iff role_user role_admin)

-- A new account as the services hand it over: a plain User that waits for no email.
pub record IsNew (account : User) : Type 0 where
  pub no_pending : account.pending_email ≡ ""
  pub plain : account.role ≡ role_user

-- The rows after an INSERT of the account.
unfoldable pub with_user : User → Tables → Tables
with_user account t = record t {
  users = t.users ++ record (from_user account) { id = t.next_user } ∷ [];
  next_user = suc t.next_user;
}

-- What the guards of a creation have established.
pub record Creates (driver : Driver) (account : User) (t : Tables) : Type 0 where
  pub unclaimed : count_where (λ r. str_eq r.pending_email account.email) t.users ≡ 0
  pub unique : unique_user driver (record (from_user account) { id = t.next_user }) t.users ≡ ok tt

pub Creates-IsValid :
    (driver : Driver) (account : User) (t : Tables)
    → IsNew account
    → IsValid t
    → Creates driver account t
    → IsValid (with_user account t)
unfolding with_user from_user
Creates-IsValid driver account t new v c =
    insert_user-IsValid driver (from_user account) t v new.no_pending
      (rw (new.plain) (str_eq-ne role_user role_admin (λ e. user-ne-admin e)))
      (any-of_count _ t.users c.unclaimed) c.unique

-- The row after `UpdateProfile`.
pub profile : String → String → UserModel → UserModel → UserModel
profile username email target r = record r {
  username = username;
  pending_email = if str_eq email target.email then "" else email;
}

pub is_taken : ℕ → String → UserModel → Bool
is_taken id email r = (str_eq r.email email || str_eq r.pending_email email) && not (r.id == id)

module _ {W : Type 0} (driver : Driver) where
  pub create_user_body-rows :
      (account : User) (s : Session Tables W) (a : User)
      → (create_user_body driver account s).0 ≡ ok a
      → Creates driver account s.tables
        × ((create_user_body driver account s).1.tables ≡ with_user account s.tables)
  unfolding create_user_body insert_user from_user with_user
  create_user_body-rows account s a e =
      (record { unclaimed = ground arith; unique = ground arith }, ground arith)

  pub update_profile_body-rows :
      (id : ℕ) (username email : String) (s : Session Tables W) (a : Unit {0}) (target : UserModel)
      → find_where (λ r. r.id == id) s.tables.users ≡ some target
      → (update_profile_body driver id username email s).0 ≡ ok a
      → (unique_user driver (profile username email target target) s.tables.users ≡ ok tt)
        × ((email ≡ target.email) ⊎ (count_where (is_taken id email) s.tables.users ≡ 0))
        × ((update_profile_body driver id username email s).1.tables ≡ record s.tables {
          users =
              update_where (λ r. r.id == target.id) (profile username email target) s.tables.users;
        })
  unfolding update_profile_body update_user profile is_taken
  update_profile_body-rows id username email s a target found e =
      (ground arith, ground (arith, str_eq_iff email target.email), ground arith)

-- The checks of `UpdateProfile` keep the new pending email apart from other rows.
profile_apart :
    (id : ℕ) (username email : String) (target r : UserModel)
    → clash target r ≡ false
    → (email ≡ target.email) ⊎ (is_taken id email r ≡ false)
    → (r.id == id) ≡ false
    → (awaits (profile username email target target) r.email ≡ false)
      × (awaits r target.email ≡ false)
unfolding profile is_taken clash
profile_apart id username email target r c free other = (
  ground (arith, str_eq_iff email target.email, str_eq_symm r.email email, str_eq_iff "" ""),
  ground arith,
)

free_rows :
    (id : ℕ) (email own : String) (rows : List UserModel)
    → (email ≡ own) ⊎ (count_where (is_taken id email) rows ≡ 0)
    → All (λ r. (email ≡ own) ⊎ (is_taken id email r ≡ false)) rows
free_rows id email own rows (inl same) = All-map _ _ rows (λ r u. inl same) (All-trivial rows)
free_rows id email own rows (inr none_has) =
    All-map (λ r. is_taken id email r ≡ false) _ rows (λ r h. inr h)
      (All-of_any _ rows (any-of_count _ rows none_has))

-- The row of the target is rewritten, in a valid table, to one that nothing clashes with.
pub profile-IsValid :
    (driver : Driver) (id : ℕ) (username email : String) (target : UserModel) (t : Tables)
    → IsValid t
    → find_where (λ r. r.id == id) t.users ≡ some target
    → unique_user driver (profile username email target target) t.users ≡ ok tt
    → (email ≡ target.email) ⊎ (count_where (is_taken id email) t.users ≡ 0)
    → IsValid (record t {
      users = update_where (λ r. r.id == target.id) (profile username email target) t.users;
    })
unfolding profile is_taken
profile-IsValid driver id username email target t v found unique free =
    let self = found_self id t.users target found in
    update_user-IsValid driver target (profile username email target) t (λ r. refl) v self
      (All-map
        (λ r.
          ((r.id == target.id) ≡ false → clash target r ≡ false)
          × ((email ≡ target.email) ⊎ (is_taken id email r ≡ false)))
        _ t.users
        (λ r c other.
          profile_apart id username email target r (c.0 other) c.1
            (rw (← found_id id t.users target found) other))
        (All-zip _ _ t.users (Apart-others clash clash_symm _ t.users target self v.apart)
          (free_rows id email target.email t.users free)))
      (All-find _ _ t.users target self v.admins_verified).0 unique
