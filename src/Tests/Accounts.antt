-- ===== src/Tests/Accounts.antt =====
-- internal/user and internal/adapter/mysql/identity at concrete inputs.
use golang_clean_architectur.Common.{
  ◌<◌, ◌≡◌, refl, arith, str_eq, str_eq_iff, true, List, [], ◌∷◌, some, none,
}
use golang_clean_architectur.Errors.{ok, on_ok}
use golang_clean_architectur.Sql.{next_fault, later_faults}
use golang_clean_architectur.User
use golang_clean_architectur.User.{
  User, normalize_email, validate_password, change_password_hash, role_admin, role_user, parse_role,
  assign_role,
}
use golang_clean_architectur.User.Service.{change_password, change_role, delete}
use golang_clean_architectur.User.Service.Guards.{
  change_password_revokes, change_role_guarded, delete_guarded, live_sessions,
}
use golang_clean_architectur.Identity.{to_user, require_affected, unique_user, update_user}
use golang_clean_architectur.Identity.Users
use golang_clean_architectur.Identity.Users.{
  get_user_by_id, change_password_body, revoke_all, count_admins, change_role_body, delete_body,
  delete_rows,
}
use golang_clean_architectur.Identity.Users.Accounts.{IsValid, IsValid-key, clash}
use golang_clean_architectur.Identity.Users.Admins.{
  admins, RoleChanged, delete-keeps_admin, change_role-keeps_admin,
}
use golang_clean_architectur.Identity.History.{Call, replay, replay-IsValid}
use golang_clean_architectur.Identity.Verification
use golang_clean_architectur.Identity.Verification.{verify_email_body, EmailVerificationResult}
use golang_clean_architectur.Identity.Verification.Consumed.{Verified}
use golang_clean_architectur.Auth.{verify_email, role_policy}
use golang_clean_architectur.Auth.Bootstrap.{verify_email_bootstraps}
use golang_clean_architectur.Tests.Data.{
  texts, ports, password, driver, tables, session, faulty, cyd,
}

tables-IsValid : IsValid tables
unfolding clash str_eq
tables-IsValid = record {
  apart = ((refl, (refl, tt)), ((refl, tt), (tt, tt)));
  fresh = (omega arith, (omega arith, (omega arith, tt)));
  admins_verified =
      (λ h. refl, (λ h. refl, (λ h. ground (arith, str_eq_iff role_user role_admin), tt)));
}

some_admin : 0 < admins tables
unfolding str_eq
some_admin = omega arith

abbrev calls : List (Call (Unit {0}))
calls =
    Call.profile 2 "bobby" "ada@x"
    ∷ Call.role 1 2 role_admin 5
    ∷ Call.verify "v1" 6 none
    ∷ Call.remove 1
    ∷ []

replay-IsValid_example : IsValid (replay driver calls session).tables
replay-IsValid_example =
    replay-IsValid driver calls session (tt, (tt, (tt, (tt, tt)))) tables-IsValid

delete-keeps_admin_example : 0 < admins (Users.delete 1 faulty).1.tables
delete-keeps_admin_example =
    delete-keeps_admin 1 faulty (IsValid-key tables tables-IsValid) some_admin

change_role-keeps_admin_example : 0 < admins (Users.change_role 1 1 role_user 5 session).1.tables
change_role-keeps_admin_example =
    change_role-keeps_admin 1 1 role_user 5 session (IsValid-key tables tables-IsValid) some_admin

promotes : (change_role texts 1 2 "admin" 5 session).0 ≡ ok tt
unfolding change_role parse_role get_user_by_id to_user count_admins assign_role Users.change_role
    change_role_body revoke_all next_fault later_faults str_eq
promotes = refl

change_role_guarded_example :
    RoleChanged 1 2 "admin" 5 tables (change_role texts 1 2 "admin" 5 session).1.tables
change_role_guarded_example =
    (on_ok (change_role_guarded texts 1 2 "admin" 5 session) tt promotes).1

deletes : (delete 1 2 session).0 ≡ ok tt
unfolding delete get_user_by_id to_user count_admins Users.delete delete_body delete_rows
    require_affected next_fault later_faults str_eq
deletes = refl

delete_guarded_example : (delete 1 2 session).1.tables ≡ delete_rows 2 tables
delete_guarded_example = (on_ok (delete_guarded 1 2 session) tt deletes).2

changes_password : (change_password password 2 "old" "a long password" 9 session).0 ≡ ok tt
unfolding change_password validate_password get_user_by_id to_user change_password_hash
    Users.change_password change_password_body require_affected revoke_all next_fault later_faults
changes_password = refl

change_password_revokes_example :
    live_sessions 2 (change_password password 2 "old" "a long password" 9 session).1.tables ≡ 0
change_password_revokes_example =
    (on_ok (change_password_revokes password 2 "old" "a long password" 9 session) tt
      changes_password).3

verifies : (verify_email ports driver "v1" 6 session).0 ≡ ok tt
unfolding verify_email Verification.verify_email verify_email_body role_policy User.verify_email
    assign_role to_user update_user unique_user revoke_all next_fault later_faults str_eq
verifies = refl

verify_email_bootstraps_example :
    Verified driver "v1" 6
      (some (role_policy "cyd@x"))
      tables
      (verify_email ports driver "v1" 6 session).1.tables
verify_email_bootstraps_example =
    (on_ok (verify_email_bootstraps ports driver "v1" 6 session) tt verifies).1

consumes :
    (Verification.verify_email driver "v1" 6 none session).0
    ≡ ok (record {
      user = record (to_user cyd) { email_verified_at = some 6; token_version = 2 };
      first_verification = true;
    })
unfolding Verification.verify_email verify_email_body User.verify_email to_user update_user
    unique_user revoke_all next_fault later_faults str_eq
consumes = refl
