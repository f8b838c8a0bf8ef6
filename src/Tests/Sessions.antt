-- ===== src/Tests/Sessions.antt =====
-- internal/auth at concrete inputs.
use golang_clean_architectur.Common.{
  ◌≡◌, ◌≢◌, refl, arith, String, str_eq, str_eq_iff, false, All, List, [], ◌∷◌, some, none,
}
use golang_clean_architectur.Errors.{Error, not_found, ok, err, is, on_ok}
use golang_clean_architectur.Sql.{Session, next_fault, later_faults}
use golang_clean_architectur.User.{normalize_email, validate_password, change_password_hash}
use golang_clean_architectur.User.Service.{change_password}
use golang_clean_architectur.Identity.{Tables, insert_refresh, to_user, require_affected}
use golang_clean_architectur.Identity.Users
use golang_clean_architectur.Identity.Users.{
  get_user_by_id, get_user_by_email, change_password_body, revoke_all,
}
use golang_clean_architectur.Identity.Tokens.{
  get_active_refresh_token_by_hash, rotate_refresh_token, rotate_refresh_token_body,
  create_refresh_token, revoke_refresh_token_by_hash, delete_expired_or_revoked_refresh_tokens,
}
use golang_clean_architectur.Auth.{Tokens, refresh, login, logout, issue_tokens}
use golang_clean_architectur.Auth.Login.{login_outcome, LoggedIn}
use golang_clean_architectur.Auth.Sessions.{
  refresh_once, refresh_outcome, Renewed, Rotated, change_password_ends_sessions,
}
use golang_clean_architectur.Auth.Maintenance.{cleanup_refresh_tokens}
use golang_clean_architectur.Auth.Holders.{holder}
use golang_clean_architectur.Auth.Refinement.{
  Call, IsBy, perform, perform_all, replay, history_refines,
}
use golang_clean_architectur.Tests.Data.{
  texts, ports, password, driver, session, draws, later_draws,
}

abbrev renewed : Tokens
renewed = record {
  access_token = "a2";
  access_expires_at = 20;
  refresh_token = "r2";
  refresh_expires_at = 200;
}

refresh_succeeds : (refresh ports driver draws "r1" 5 6 session).0 ≡ ok renewed
unfolding refresh get_active_refresh_token_by_hash get_user_by_id to_user rotate_refresh_token
    rotate_refresh_token_body insert_refresh next_fault later_faults str_eq
refresh_succeeds = refl

abbrev renewed_later : Tokens
renewed_later = record {
  access_token = "a3";
  access_expires_at = 21;
  refresh_token = "r3";
  refresh_expires_at = 201;
}

abbrev after : Session Tables (Unit {0})
after = (refresh ports driver draws "r1" 5 6 session).1

refresh_once_example : (refresh ports driver later_draws "r1" 6 7 after).0 ≢ ok renewed_later
refresh_once_example =
    refresh_once ports driver draws "r1" 5 6 session renewed refresh_succeeds later_draws 6 7 after
      renewed_later (omega arith) refl

refresh_outcome_example :
    Renewed ports driver draws "r1" 5 session.tables
    × Rotated ports driver "r1" 6 renewed session.tables after.tables
refresh_outcome_example =
    on_ok (refresh_outcome ports driver draws "r1" 5 6 session) renewed refresh_succeeds

rotates : (rotate_refresh_token driver "r1" 2 "r2" 200 6 session).0 ≡ ok 2
unfolding rotate_refresh_token rotate_refresh_token_body insert_refresh next_fault later_faults
    str_eq
rotates = refl

changes_password : (change_password password 2 "old" "a long password" 9 session).0 ≡ ok tt
unfolding change_password validate_password get_user_by_id to_user change_password_hash
    Users.change_password change_password_body require_affected revoke_all next_fault later_faults
changes_password = refl

change_password_ends_sessions_example :
    (refresh ports driver draws "r1" 10 10
      (change_password password 2 "old" "a long password" 9 session).1).0
    ≢ ok renewed
change_password_ends_sessions_example =
    change_password_ends_sessions ports driver 2 "old" "a long password" 9 session tt
      changes_password draws "r1" (record { user_id = 2; token_version = 1 }) refl refl 10 10
      (change_password password 2 "old" "a long password" 9 session).1 renewed refl

abbrev entered : Tokens
entered = record {
  access_token = "a2";
  access_expires_at = 20;
  refresh_token = "r2";
  refresh_expires_at = 200;
}

logs_in : (login texts ports driver draws "bob@x" "secret" session).0 ≡ ok entered
unfolding login get_user_by_email normalize_email to_user issue_tokens create_refresh_token
    insert_refresh next_fault later_faults str_eq
logs_in = refl

login_outcome_example :
    LoggedIn texts ports driver draws "bob@x" "secret" session.tables
      (login texts ports driver draws "bob@x" "secret" session).1.tables
      entered
login_outcome_example =
    on_ok (login_outcome texts ports driver draws "bob@x" "secret" session) entered logs_in

logs_out : (logout ports "r1" 5 session).0 ≡ ok tt
unfolding logout revoke_refresh_token_by_hash require_affected next_fault later_faults str_eq
logs_out = refl

no_fault : (e : Error) → next_fault session.faults ≡ err e → is e not_found ≡ false
unfolding next_fault
no_fault e h = cc

r1_named : ◌≢◌ {A = String} "r1" ""
unfolding str_eq
r1_named = ground (arith, str_eq_iff "r1" "")

-- A token is rotated, the next one is revoked, and the clean-up comes by.
abbrev history : List Call
history =
    Call.rotate "r1" 2 "r2" 200 6 ∷ Call.create 1 "r3" 90 ∷ Call.revoke "r2" 8 ∷ Call.clean 20 ∷ []

live_after :
    (replay driver 30 history session (holder 30 session.tables.refresh_tokens) "r1" ≡ none)
    × (replay driver 30 history session (holder 30 session.tables.refresh_tokens) "r2" ≡ none)
    × (replay driver 30 history session (holder 30 session.tables.refresh_tokens) "r3" ≡ some 1)
unfolding replay perform create_refresh_token rotate_refresh_token rotate_refresh_token_body
    revoke_refresh_token_by_hash cleanup_refresh_tokens delete_expired_or_revoked_refresh_tokens
    insert_refresh require_affected next_fault later_faults str_eq
live_after = (refl, refl, refl)

in_time : All (IsBy 30) history
in_time = (omega arith, (tt, (omega arith, (omega arith, tt))))

history_refines_example :
    holder 30 (perform_all driver history session).tables.refresh_tokens
    ≡ replay driver 30 history session (holder 30 session.tables.refresh_tokens)
history_refines_example = (history_refines driver 30 history session in_time).0
