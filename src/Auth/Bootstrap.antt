-- ===== src/Auth/Bootstrap.antt =====
-- The first admin: the role policy that `VerifyEmail` of internal/auth/service.go hands to the
-- repository.
use golang_clean_architectur.Common.{
  ℕ, ◌≤◌, Bool-cases, str_eq, ◌≡◌, ◌≢◌, String, some, arith, str_eq_iff, count_where, inl, inr, ◌⊎◌,
}
use mathlib.Core.Path.{subst}
use golang_clean_architectur.Errors.{ok, Result-cases, Answers, answers, on_ok, on_err}
use golang_clean_architectur.Sql.{Session}
use golang_clean_architectur.User
use golang_clean_architectur.User.{User, role_admin, assign_role}
use golang_clean_architectur.Identity.{Tables, Driver, to_user}
use golang_clean_architectur.Identity.Users.{is_admin_row}
use golang_clean_architectur.Identity.Verification
use golang_clean_architectur.Identity.Verification.{apply_policy}
use golang_clean_architectur.Identity.Verification.Consumed.{Verified, verify_email_outcome}
use golang_clean_architectur.Auth.{Ports, verify_email, role_policy}

-- What the policy decides.
policy_role :
    (bootstrap : String) (u v : User) (admins : ℕ)
    → apply_policy (some (role_policy bootstrap)) u admins ≡ ok v
    → ((bootstrap ≢ "") × (v.email ≡ bootstrap) × (admins ≡ 0) × (v.role ≡ role_admin))
      ⊎ (((bootstrap ≡ "") ⊎ (v.email ≢ bootstrap) ⊎ (1 ≤ admins)) × (v.role ≡ u.role))
unfolding role_policy assign_role
policy_role bootstrap u v admins e = elim (Bool-cases (str_eq bootstrap "")) [
  | inl unset ↦ inr (inl ((str_eq_iff bootstrap "").0 unset), ground arith)
  | inr set ↦ elim (Bool-cases (str_eq u.email bootstrap)) [
    | inl same ↦ ground (arith, str_eq_iff u.email bootstrap, str_eq_iff bootstrap "")
    | inr other ↦ inr (inr (inl (ground (arith, str_eq_iff u.email bootstrap))), ground arith)
  ]
]

module _ {W : Type 0} (ports : Ports W) (driver : Driver) where
  -- A verification through the service either returns an error and changes no row, or it used an
  -- unexpired token and left exactly the rows of a verification. In these the account becomes an admin
  -- where a bootstrap email is configured, the account's verified email is that one, and there was no
  -- admin: then it is the first. In every other case the account keeps its role.
  pub verify_email_bootstraps :
      (token : String) (now : ℕ) (s : Session Tables W)
      → let (r, s') = verify_email ports driver token now s in
        Answers
          (λ a.
            (token ≢ "")
            × (d : Verified driver
                (ports.hash_token token)
                now
                (some (role_policy ports.bootstrap_email))
                s.tables
                s'.tables)
            × (((ports.bootstrap_email ≢ "")
                  × (d.account.email ≡ ports.bootstrap_email)
                  × (count_where is_admin_row s.tables.users ≡ 0)
                  × (d.account.role ≡ role_admin))
                ⊎ (((ports.bootstrap_email ≡ "")
                      ⊎ (d.account.email ≢ ports.bootstrap_email)
                      ⊎ (1 ≤ count_where is_admin_row s.tables.users))
                    × (d.account.role ≡ d.target.role))))
          (λ e. s'.tables ≡ s.tables)
          r
  unfolding verify_email User.verify_email to_user
  verify_email_bootstraps token now s =
      let policy = some (role_policy ports.bootstrap_email) in
      let first = Verification.verify_email driver (ports.hash_token token) now policy s in
      let outcome = verify_email_outcome driver (ports.hash_token token) now policy s in
      elim (Result-cases first.0) [
        | inr (e, h) ↦
            answers _ (λ a k. absurd (ground arith)) (λ x k. ground (arith, on_err outcome e h))
        | inl (result, h) ↦
            answers _
              (λ a k.
                let final = (verify_email ports driver token now s).1.tables in
                let still : first.1.tables ≡ final = ground arith in
                let d =
                  subst (Verified driver (ports.hash_token token) now policy s.tables) still
                    (on_ok outcome result h) in
                (
                  ground (arith, str_eq_iff token ""),
                  d,
                  policy_role ports.bootstrap_email _ d.account
                      (count_where is_admin_row s.tables.users) d.decided,
                ))
              (λ x k. ground arith)
      ]
