-- ===== src/Identity/Verification.antt =====
-- internal/adapter/mysql/identity/repository.go, `VerifyEmail`: one transaction that consumes a
-- token, verifies its User, lets the policy choose a role, and revokes the User's sessions.
pub mod Consumed
use golang_clean_architectur.Common.{
  ℕ, Bool, true, false, ◌&&◌, Option, none, some, String, ◌==◌, ltb, str_eq, if◌then◌else◌,
  count_where, find_where, delete_where,
}
use golang_clean_architectur.Errors.{
  Error, Result, ok, err, sentinel, is, invalid_token, gorm_record_not_found,
}
use golang_clean_architectur.Sql.{
  Db, pure, lift, ◌>>=◌, ◌>>◌, query, execute, transaction, or_fail, map_error,
}
use golang_clean_architectur.User
use golang_clean_architectur.User.{User, Role, assign_role}
use golang_clean_architectur.Identity.{
  UserModel, EmailVerificationTokenModel, Tables, to_user, map_user_not_found, map_write_error,
  Driver, update_user,
}
use golang_clean_architectur.Identity.Users.{is_admin_row, first_user, revoke_all}

-- `auth.EmailVerificationResult`, with a result for each success.
pub record EmailVerificationResult : Type 0 where
  pub user : User
  pub first_verification : Bool

-- `auth.VerificationRolePolicy`
abbrev pub VerificationRolePolicy : Type 0
VerificationRolePolicy = User → ℕ → Result Role

-- token_hash = hash AND expires_at > now
abbrev pub is_usable : String → ℕ → EmailVerificationTokenModel → Bool
is_usable hash now r = str_eq r.token_hash hash && ltb now r.expires_at

abbrev invalid_if_missing : Error → Error
invalid_if_missing e = if is e gorm_record_not_found then sentinel invalid_token else e

-- The columns that the UPDATE sets.
abbrev pub set_verified : User → UserModel → UserModel
set_verified u r = record r {
  email = u.email;
  pending_email = u.pending_email;
  email_verified_at = u.email_verified_at;
  role = u.role;
  token_version = u.token_version;
}

-- `policy` is none for a nil policy.
abbrev pub apply_policy : Option VerificationRolePolicy → User → ℕ → Result User
apply_policy none u admins = ok u
apply_policy (some policy) u admins = elim (policy u admins) [
  | ok role ↦ assign_role u role
  | err e ↦ err e
]

module _ {W : Type 0} (driver : Driver) where
  unfoldable pub verify_email_body :
      String → ℕ → Option VerificationRolePolicy → Db Tables W EmailVerificationResult
  verify_email_body token_hash now policy = do
    usable ← query (λ t. find_where (is_usable token_hash now) t.verification_tokens)
    token ← map_error invalid_if_missing (or_fail usable (sentinel gorm_record_not_found))
    target ← map_error map_user_not_found (first_user token.user_id)
    let verified = User.verify_email (to_user target) now
    admins ← query (λ t. count_where is_admin_row t.users)
    account ← lift (apply_policy policy verified.0 admins)
    map_error map_write_error (execute (update_user driver target (set_verified account)))
    execute (λ t. ok (
      tt,
      record t {
        verification_tokens = delete_where (λ r. r.user_id == target.id) t.verification_tokens;
      },
    ))
    execute (λ t. ok (tt, revoke_all target.id now t))
    updated ← first_user target.id
    pure (record { user = to_user updated; first_verification = verified.1 })

  unfoldable pub verify_email :
      String → ℕ → Option VerificationRolePolicy → Db Tables W EmailVerificationResult
  verify_email token_hash now policy = transaction (verify_email_body token_hash now policy)
