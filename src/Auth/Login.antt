-- ===== src/Auth/Login.antt =====
-- `Login` of internal/auth/service.go.
use golang_clean_architectur.Common.{
  suc, ◌≡◌, true, String, some, none, arith, str_eq, find_where, [], ◌∷◌, ◌++◌, inl, inr,
  Option-cases, is_some,
}
use golang_clean_architectur.Errors.{Error, ok, err, is_ok, Result-cases, Answers, answers}
use golang_clean_architectur.Sql.{Session}
use golang_clean_architectur.User.{Texts, normalize_email}
use golang_clean_architectur.Identity.{Tables, Driver, UserModel, to_user, insert_refresh}
use golang_clean_architectur.Identity.Users.{get_user_by_email}
use golang_clean_architectur.Identity.Tokens.{create_refresh_token}
use golang_clean_architectur.Auth.{Ports, Tokens, Draws, login, issue_tokens}

-- A session that was issued: exactly one refresh token was stored, for that User.
abbrev pub Issued :
    {W : Type 0} → Ports W → Driver → Draws → UserModel → Tokens → Tables → Tables → Type 0
Issued ports driver draws row tokens t t' =
    (ports.tokens.generate_access draws.access row.id row.token_version
      ≡ ok (tokens.access_token, tokens.access_expires_at))
    × (ports.tokens.generate_refresh draws.refresh row.id row.token_version
        ≡ ok (tokens.refresh_token, tokens.refresh_expires_at))
    × (t' ≡ record t {
      refresh_tokens =
          t.refresh_tokens
          ++ (record {
            id = t.next_refresh;
            user_id = row.id;
            token_hash = ports.hash_token tokens.refresh_token;
            expires_at = driver.timestamp tokens.refresh_expires_at;
            revoked_at = none;
          })
            ∷ [];
      next_refresh = suc t.next_refresh;
    })

-- A login: the account that has the email, its password and its verification, and the session.
abbrev pub LoggedIn :
    {W : Type 0}
    → Texts
    → Ports W
    → Driver
    → Draws
    → String
    → String
    → Tables
    → Tables
    → Tokens
    → Type 0
LoggedIn texts ports driver draws email given t t' tokens =
    (row : UserModel) × (find_where (λ x. str_eq x.email (normalize_email texts email)) t.users
      ≡ some row)
    × (is_ok (ports.password.compare row.password given) ≡ true)
    × (is_some row.email_verified_at ≡ true)
    × Issued ports driver draws row tokens t t'

module _ (texts : Texts) {W : Type 0} (ports : Ports W) (driver : Driver) where
  issue_tokens-Issued :
      (draws : Draws) (row : UserModel) (z : Session Tables W)
      → let (r, z') = issue_tokens ports driver draws (to_user row) z in
        ((tokens : Tokens)
          → r ≡ ok tokens
          → Issued ports driver draws row tokens z.tables z'.tables)
        × ((e : Error) → r ≡ err e → z'.tables ≡ z.tables)
  unfolding issue_tokens create_refresh_token insert_refresh to_user
  issue_tokens-Issued draws row z =
      elim (Result-cases (ports.tokens.generate_access draws.access row.id row.token_version)) [
        | inr (e, h) ↦ (λ t k. absurd (ground arith), λ x k. ground arith)
        | inl (access, h) ↦
            elim (Result-cases
              (ports.tokens.generate_refresh draws.refresh row.id row.token_version)) [
                | inr (e, h') ↦ (λ t k. absurd (ground arith), λ x k. ground arith)
                | inl (next, h') ↦
                    (λ t k. (ground arith, ground arith, ground arith), λ x k. ground arith)
              ]
      ]

  -- `Login` succeeds only for a verified account whose stored hash the password passes, and stores
  -- exactly one refresh token, by its hash; otherwise it changes no row.
  pub login_outcome :
      (draws : Draws) (email given : String) (s : Session Tables W)
      → let (r, s') = login texts ports driver draws email given s in
        Answers
          (LoggedIn texts ports driver draws email given s.tables s'.tables)
          (λ e. s'.tables ≡ s.tables)
          r
  unfolding login get_user_by_email to_user
  login_outcome draws email given s =
      elim (Option-cases
        (find_where (λ x. str_eq x.email (normalize_email texts email)) s.tables.users)) [
          | inl missing ↦ answers _ (λ t k. absurd (ground arith)) (λ x k. ground arith)
          | inr (row, found) ↦
              let z = (get_user_by_email (normalize_email texts email) s).1 in
              let issued = issue_tokens-Issued draws row z in
              answers _
                (λ t k. (row, found, ground arith, ground arith, ground (arith, issued.0 t)))
                (λ x k. ground (arith, issued.1 x))
        ]
