-- ===== src/Identity/History.antt =====
-- Every method of the repository keeps the invariant of `users`, so every history of calls does.
use golang_clean_architectur.Common.{
  ℕ, ◌+◌, ◌≡◌, refl, sym, true, Option, some, String, List, [], ◌∷◌, arith, ◌==◌, find_where,
  update_where, All, inl, inr, is_some, str_eq_iff,
}
use mathlib.Core.Path.{subst}
use golang_clean_architectur.Errors.{Result-cases, on_ok, on_err}
use golang_clean_architectur.Sql.{Session, Db}
use golang_clean_architectur.Sql.Laws.{transaction-Keeps}
use golang_clean_architectur.Sql.Rows.{
  All-update, All-delete, Apart-delete, Apart-update_same, All-update_found,
}
use golang_clean_architectur.User.{User, Role, role_admin}
use golang_clean_architectur.Identity.{Tables, Driver, UserModel}
use golang_clean_architectur.Identity.Users.{
  create_user, register_user, update_profile, change_password, change_password_body, change_role,
  delete, delete_rows, revoke_all, set_role, is_admin_row,
}
use golang_clean_architectur.Identity.Users.Accounts.{
  IsValid, IsValid-same, IsValid-key, clash, clash_symm,
}
use golang_clean_architectur.Identity.Users.Admins.{found_self, change_role_outcome, delete_outcome}
use golang_clean_architectur.Identity.Users.Invariant.{IsNew}
use golang_clean_architectur.Identity.Users.Registration.{
  create_user-IsValid, register_user-IsValid, update_profile-IsValid,
}
use golang_clean_architectur.Identity.Verification.Consumed.{verify_email-IsValid}
use golang_clean_architectur.Identity.Verification.{VerificationRolePolicy, verify_email}

password_row : String → UserModel → UserModel
password_row hashed r = record r { password = hashed; token_version = r.token_version + 1 }

password_row-IsValid :
    (id : ℕ) (hashed : String) (t : Tables)
    → IsValid t
    → IsValid (record t { users = update_where (λ r. r.id == id) (password_row hashed) t.users })
unfolding password_row clash
password_row-IsValid id hashed t v = record {
  apart = Apart-update_same clash clash_symm _ (password_row hashed) t.users (λ x y. refl) v.apart;
  fresh = All-update _ _ (password_row hashed) t.users (λ r e h. h) v.fresh;
  admins_verified = All-update _ _ (password_row hashed) t.users (λ r e h. h) v.admins_verified;
}

set_role-IsValid :
    (id : ℕ) (role : Role) (target : UserModel) (t : Tables)
    → IsValid t
    → find_where (λ r. r.id == id) t.users ≡ some target
    → (role ≡ role_admin → is_some target.email_verified_at ≡ true)
    → IsValid (record t { users = update_where (λ r. r.id == target.id) (set_role role) t.users })
unfolding clash
set_role-IsValid id role target t v found verified = record {
  apart = Apart-update_same clash clash_symm _ (set_role role) t.users (λ x y. refl) v.apart;
  fresh = All-update _ _ (set_role role) t.users (λ r e h. h) v.fresh;
  admins_verified =
      All-update_found (λ r. is_admin_row r ≡ true → is_some r.email_verified_at ≡ true)
        (λ r. r.id == target.id) (set_role role) t.users target (found_self id t.users target found)
        (IsValid-key t v target.id) (λ e. verified ((str_eq_iff role role_admin).0 e))
        v.admins_verified;
}

delete_rows-IsValid : (id : ℕ) (t : Tables) → IsValid t → IsValid (delete_rows id t)
unfolding delete_rows
delete_rows-IsValid id t v = record {
  apart = Apart-delete clash (λ r. r.id == id) t.users v.apart;
  fresh = All-delete _ (λ r. r.id == id) t.users v.fresh;
  admins_verified = All-delete _ (λ r. r.id == id) t.users v.admins_verified;
}

module _ {W : Type 0} where
  change_password-IsValid :
      (id : ℕ) (hashed : String) (now : ℕ) (s : Session Tables W)
      → IsValid s.tables
      → IsValid (change_password id hashed now s).1.tables
  unfolding change_password change_password_body password_row revoke_all
  change_password-IsValid id hashed now =
      transaction-Keeps IsValid (change_password_body id hashed now) λ z a v e.
        IsValid-same
          (record z.tables {
            users = update_where (λ r. r.id == id) (password_row hashed) z.tables.users;
          })
          _ (ground arith) (ground arith) (password_row-IsValid id hashed z.tables v)

  change_role-IsValid :
      (actor_id target_id : ℕ) (role : Role) (now : ℕ) (s : Session Tables W)
      → IsValid s.tables
      → IsValid (change_role actor_id target_id role now s).1.tables
  unfolding revoke_all
  change_role-IsValid actor_id target_id role now s v =
      let outcome = change_role_outcome actor_id target_id role now s in
      elim (Result-cases (change_role actor_id target_id role now s).0) [
        | inr (e, h) ↦ subst IsValid (sym (on_err outcome e h)) v
        | inl (a, h) ↦
            let (actor, target, there, found, admin, verified, rows) = on_ok outcome a h in
            subst IsValid (sym rows) (
              IsValid-same
                (record s.tables {
                  users = update_where (λ r. r.id == target.id) (set_role role) s.tables.users;
                })
                _ refl refl (set_role-IsValid target_id role target s.tables v found verified))
      ]

  delete-IsValid :
      (id : ℕ) (s : Session Tables W) → IsValid s.tables → IsValid (delete id s).1.tables
  delete-IsValid id s v =
      let outcome = delete_outcome id s in
      elim (Result-cases (delete id s).0) [
        | inr (e, h) ↦ subst IsValid (sym (on_err outcome e h)) v
        | inl (a, h) ↦ subst IsValid (sym (on_ok outcome a h).1) (delete_rows-IsValid id s.tables v)
      ]

-- A call of a method that writes, with the readings of the clock that it takes.
pub data Call (W : Type 0) : Type 0 where
  create : User → Call W
  register : User → String → ℕ → ℕ → (User → Db Tables W (Unit {0})) → Call W
  profile : ℕ → String → String → Call W
  password : ℕ → String → ℕ → Call W
  role : ℕ → ℕ → Role → ℕ → Call W
  remove : ℕ → Call W
  verify : String → ℕ → Option VerificationRolePolicy → Call W

-- Only the session matters: an error goes to the caller, and the next call comes all the same.
unfoldable pub perform : {W : Type 0} → Driver → Call W → Session Tables W → Session Tables W
perform driver (create account) s = (create_user driver account s).1
perform driver (register account token_hash expires_at created_at dispatch) s =
    (register_user driver account token_hash expires_at created_at dispatch s).1
perform driver (profile id username email) s = (update_profile driver id username email s).1
perform driver (password id hashed now) s = (change_password id hashed now s).1
perform driver (role actor_id target_id new_role now) s =
    (change_role actor_id target_id new_role now s).1
perform driver (remove id) s = (delete id s).1
perform driver (verify token_hash now policy) s = (verify_email driver token_hash now policy s).1

-- What the services promise of the accounts that they create.
abbrev pub IsAdmissible : {W : Type 0} → Call W → Type 0
IsAdmissible (create account) = IsNew account
IsAdmissible {W} (register account token_hash expires_at created_at dispatch) =
    IsNew account × ((u : User) (z : Session Tables W) → (dispatch u z).1.tables ≡ z.tables)
IsAdmissible (profile id username email) = Unit
IsAdmissible (password id hashed now) = Unit
IsAdmissible (role actor_id target_id new_role now) = Unit
IsAdmissible (remove id) = Unit
IsAdmissible (verify token_hash now policy) = Unit

unfoldable pub replay : {W : Type 0} → Driver → List (Call W) → Session Tables W → Session Tables W
replay driver [] s = s
replay driver (c ∷ cs) s = replay driver cs (perform driver c s)

module _ {W : Type 0} (driver : Driver) where
  perform-IsValid :
      (c : Call W) (s : Session Tables W)
      → IsAdmissible c
      → IsValid s.tables
      → IsValid (perform driver c s).tables
  unfolding perform
  perform-IsValid (create account) s new = create_user-IsValid driver account s new
  perform-IsValid (register account token_hash expires_at created_at dispatch) s h =
      register_user-IsValid driver account token_hash expires_at created_at dispatch s h.0 h.1
  perform-IsValid (profile id username email) s h =
      update_profile-IsValid driver id username email s
  perform-IsValid (password id hashed now) s h = change_password-IsValid id hashed now s
  perform-IsValid (role actor_id target_id new_role now) s h =
      change_role-IsValid actor_id target_id new_role now s
  perform-IsValid (remove id) s h = delete-IsValid id s
  perform-IsValid (verify token_hash now policy) s h =
      verify_email-IsValid driver token_hash now policy s

  -- From valid rows, after any calls in any order and with any faults, the rows are valid: the users are
  -- told apart by username, email and pending email, no email is waited for by another User, keys are
  -- below the next one, and every admin is verified. Created accounts are plain Users that wait for no
  -- email, and the dispatch of a registration leaves these tables alone.
  pub replay-IsValid :
      (cs : List (Call W)) (s : Session Tables W)
      → All IsAdmissible cs
      → IsValid s.tables
      → IsValid (replay driver cs s).tables
  unfolding replay
  replay-IsValid [] s h v = v
  replay-IsValid (c ∷ cs) s h v =
      replay-IsValid cs (perform driver c s) h.1 (perform-IsValid c s h.0 v)
