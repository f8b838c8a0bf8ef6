-- ===== src/Identity/Verification/Consumed.antt =====
-- What `VerifyEmail` of the repository does where it succeeds, and that it keeps the invariant.
use golang_clean_architectur.Common.{
  ℕ, ◌≡◌, refl, sym, false, Option, some, none, String, arith, ◌==◌, find_where, count_where,
  update_where, delete_where, inl, inr, Option-cases, str_eq_iff, str_eq_symm,
}
use mathlib.Core.Path.{subst}
use golang_clean_architectur.Errors.{ok, Result-cases, Answers, answers}
use golang_clean_architectur.Sql.{Session, later_faults}
use golang_clean_architectur.Sql.Laws.{
  transaction-Keeps, transaction-commits, transaction-rolls_back,
}
use golang_clean_architectur.Sql.Rows.{All-map, Apart-others}
use golang_clean_architectur.User
use golang_clean_architectur.User.{User, assign_role}
use golang_clean_architectur.Identity.{
  Tables, Driver, UserModel, EmailVerificationTokenModel, update_user, to_user, unique_user,
}
use golang_clean_architectur.Identity.Users.{is_admin_row, revoke_all}
use golang_clean_architectur.Identity.Users.Accounts.{
  IsValid, IsValid-same, clash, clash_symm, awaits, update_user-IsValid,
}
use golang_clean_architectur.Identity.Users.Admins.{found_self}
use golang_clean_architectur.Identity.Verification.{
  EmailVerificationResult, VerificationRolePolicy, verify_email, verify_email_body, set_verified,
  apply_policy, is_usable,
}

-- The rows after a token of the target has been used, for the account that was computed.
unfoldable pub consume : UserModel → User → ℕ → Tables → Tables
consume target account now t = revoke_all target.id now (record t {
  users = update_where (λ r. r.id == target.id) (set_verified account) t.users;
  verification_tokens = delete_where (λ r. r.user_id == target.id) t.verification_tokens;
})

-- The steps of a verification that succeeded.
pub record Verified (driver : Driver) (token_hash : String) (now : ℕ)
    (policy : Option VerificationRolePolicy) (t t' : Tables) : Type 0 where
  pub token : EmailVerificationTokenModel
  pub target : UserModel
  pub account : User
  pub usable : find_where (is_usable token_hash now) t.verification_tokens ≡ some token
  pub found : find_where (λ r. r.id == token.user_id) t.users ≡ some target
  pub decided :
      apply_policy policy
        (User.verify_email (to_user target) now).0
        (count_where is_admin_row t.users)
      ≡ ok account
  pub unique : unique_user driver (set_verified account target) t.users ≡ ok tt
  pub rows : t' ≡ consume target account now t

-- What the policy may change of the verified account: its role.
apply_policy-fields :
    (policy : Option VerificationRolePolicy) (u v : User) (admins : ℕ)
    → apply_policy policy u admins ≡ ok v
    → v ≡ record u { role = v.role }
unfolding assign_role
apply_policy-fields none u v admins e = ground arith
apply_policy-fields (some policy) u v admins e = ground arith

module _ {W : Type 0} (driver : Driver) (token_hash : String) (now : ℕ)
    (policy : Option VerificationRolePolicy) where
  verify_email_body-Verified :
      (s : Session Tables W) (a : EmailVerificationResult)
      → (verify_email_body driver token_hash now policy s).0 ≡ ok a
      → Verified driver token_hash now policy s.tables
          (verify_email_body driver token_hash now policy s).1.tables
  unfolding verify_email_body update_user consume
  verify_email_body-Verified s a e =
      elim (Option-cases (find_where (is_usable token_hash now) s.tables.verification_tokens)) [
        | inl unusable ↦ absurd (ground arith)
        | inr (token, usable) ↦
            elim (Option-cases (find_where (λ r. r.id == token.user_id) s.tables.users)) [
              | inl missing ↦ absurd (ground arith)
              | inr (target, found) ↦
                  elim (Result-cases (
                    apply_policy policy (User.verify_email (to_user target) now).0
                      (count_where is_admin_row s.tables.users))) [
                        | inr (refused, why) ↦ absurd (ground arith)
                        | inl (account, decided) ↦ record {
                          token = token;
                          target = target;
                          account = account;
                          usable = usable;
                          found = found;
                          decided = decided;
                          unique = ground arith;
                          rows = ground arith;
                        }
                      ]
            ]
      ]

-- The account's new email was its own pending one, which no other row holds or awaits.
verified_apart :
    (target r : UserModel) (now : ℕ)
    → clash target r ≡ false
    → let account = (User.verify_email (to_user target) now).0 in
      (awaits (set_verified account target) r.email ≡ false) × (awaits r account.email ≡ false)
unfolding clash User.verify_email to_user
verified_apart target r now c = (
  ground (arith, str_eq_iff "" ""),
  ground
      (arith, str_eq_symm target.pending_email r.pending_email, str_eq_iff target.pending_email ""),
)

Verified-IsValid :
    (driver : Driver) (token_hash : String) (now : ℕ) (policy : Option VerificationRolePolicy)
    (t t' : Tables)
    → IsValid t
    → Verified driver token_hash now policy t t'
    → IsValid t'
unfolding consume revoke_all User.verify_email to_user
Verified-IsValid driver token_hash now policy t t' v d =
    let fields =
      apply_policy-fields policy (User.verify_email (to_user target) now).0 account
        (count_where is_admin_row t.users) decided in
    let self = found_self token.user_id t.users target found in
    let users' = update_where (λ r. r.id == target.id) (set_verified account) t.users in
    IsValid-same (record t { users = users' }) t' (ground arith) (ground arith)
      (update_user-IsValid driver target (set_verified account) t (λ r. refl) v self
        (All-map (λ r. (r.id == target.id) ≡ false → clash target r ≡ false) _ t.users
          (λ r c other. ground (arith, verified_apart target r now (c other), fields))
          (Apart-others clash clash_symm _ t.users target self v.apart))
        (λ e. ground (arith, fields)) unique)
  where
    open d use {token, target, account, found, decided, unique, rows}

module _ {W : Type 0} (driver : Driver) (token_hash : String) (now : ℕ)
    (policy : Option VerificationRolePolicy) where
  -- A verification keeps the invariant, whatever the policy answers.
  pub verify_email-IsValid :
      (s : Session Tables W)
      → IsValid s.tables
      → IsValid (verify_email driver token_hash now policy s).1.tables
  unfolding verify_email
  verify_email-IsValid =
      transaction-Keeps IsValid (verify_email_body driver token_hash now policy) λ z a v e.
        Verified-IsValid driver token_hash now policy z.tables _ v
          (verify_email_body-Verified driver token_hash now policy z a e)

  -- `VerifyEmail` of the repository returns an error and changes no row, or has found an unexpired
  -- token and its User, and leaves exactly the rows of a verification.
  pub verify_email_outcome :
      (s : Session Tables W)
      → let (r, s') = verify_email driver token_hash now policy s in
        Answers
          (λ a. Verified driver token_hash now policy s.tables s'.tables)
          (λ e. s'.tables ≡ s.tables)
          r
  unfolding verify_email
  verify_email_outcome s =
      answers _
        (λ a h.
          let done = transaction-commits (verify_email_body driver token_hash now policy) s a h in
          subst (Verified driver token_hash now policy s.tables) (sym done.1) (
            verify_email_body-Verified driver token_hash now policy
              (record s { faults = later_faults s.faults }) a done.0))
        (λ e h. transaction-rolls_back (verify_email_body driver token_hash now policy) s e h)
