-- ===== src/Auth.antt =====
-- internal/auth/service.go: `Service`, over the repository in internal/adapter/mysql/identity. The
-- services that it is given (passwords, signed tokens, notifiers) and SHA-256 are fields of `Ports`;
-- `crypto/rand` and the clock are arguments.
pub mod Login
pub mod Logout
pub mod Sessions
pub mod Bootstrap
pub mod Maintenance
pub mod Holders
pub mod Refinement
use golang_clean_architectur.Common.{
  ℕ, ◌+◌, ◌-◌, Bool, true, false, not, ◌&&◌, ◌||◌, Option, none, some, String, ◌==◌, str_eq,
  if◌then◌else◌,
}
use golang_clean_architectur.Errors.{
  Error, Result, ok, err, sentinel, wrap, is, is_ok, not_found, invalid_token, expired_token,
  unauthorized, invalid_credentials, email_unverified, verification_rate,
}
use golang_clean_architectur.Sql.{
  Session, Db, pure, fail, lift, attempt, ◌>>=◌, ◌>>◌, refuse, rename_error, map_error,
}
use golang_clean_architectur.Queue.{minute}
use golang_clean_architectur.User.{
  Texts, User, Role, role_admin, email_verified, normalize_and_validate, normalize_email,
}
use golang_clean_architectur.User.Service.{PasswordService, new_account, next_email}
use golang_clean_architectur.Identity.{Tables, Driver, RefreshTokenModel}
use golang_clean_architectur.Identity.Users.{
  register_user, get_user_by_id, get_user_by_email, get_user_by_email_or_pending,
}
use golang_clean_architectur.Identity.Tokens.{
  create_refresh_token, get_active_refresh_token_by_hash, revoke_refresh_token_by_hash,
  rotate_refresh_token, can_issue_email_verification, replace_email_verification_token,
}
use golang_clean_architectur.Identity.Verification
use golang_clean_architectur.Identity.Verification.{EmailVerificationResult, VerificationRolePolicy}

pub record Claims : Type 0 where
  pub user_id : ℕ
  pub token_version : ℕ

pub record Tokens : Type 0 where
  pub access_token : String
  pub access_expires_at : ℕ
  pub refresh_token : String
  pub refresh_expires_at : ℕ

-- What one generation of a token draws: the clock, and the bytes of `crypto/rand`.
pub record Draw : Type 0 where
  pub now : ℕ
  pub random : Result String

-- The two readings of the clock of one validation.
pub record Checks : Type 0 where
  pub issued_check : ℕ
  pub now : ℕ

-- `TokenService`: a token and the time when it expires. Each call draws anew.
pub record TokenService : Type 0 where
  pub generate_access : Draw → ℕ → ℕ → Result (String × ℕ)
  pub generate_refresh : Draw → ℕ → ℕ → Result (String × ℕ)
  pub validate_refresh : Checks → String → Result Claims

-- What the calls of one request draw from the token service.
pub record Draws : Type 0 where
  pub checks : Checks
  pub access : Draw
  pub refresh : Draw

-- A notifier acts outside the tables.
abbrev pub External : Type 0 → Type 0
External W = W → Result (Unit {0}) × W

pub record Ports (W : Type 0) : Type 0 where
  pub tokens : TokenService
  pub password : PasswordService
  pub hash_token : String → String
  -- none for nil
  pub notifier : Option (User → String → External W)
  pub welcome : Option (User → External W)
  pub verification_ttl : ℕ
  pub bootstrap_email : String

abbrev pub external : {W : Type 0} → External W → Db Tables W (Unit {0})
external f s = let (r, w) = f s.world in (r, record s { world = w })

abbrev pub is_settled : User → Bool
is_settled account = email_verified account && str_eq account.pending_email ""

-- The role policy of `VerifyEmail`, for the normalised bootstrap email.
unfoldable pub role_policy : String → VerificationRolePolicy
role_policy bootstrap account admin_count =
    if not (str_eq bootstrap "") && str_eq account.email bootstrap && admin_count == 0
    then ok role_admin
    else ok account.role

abbrev pub invalid_credentials_if_missing : Error → Error
invalid_credentials_if_missing e =
    if is e not_found then sentinel invalid_credentials else wrap "find user for login" e

abbrev verification_error : Error → Error
verification_error e = if is e invalid_token then sentinel invalid_token else wrap "verify email" e

abbrev validation_error : Error → Error
validation_error e = if is e expired_token then sentinel unauthorized else sentinel invalid_token

-- `err != nil || storedToken.UserID != claims.UserID`
abbrev pub is_foreign : Claims → Result RefreshTokenModel → Bool
is_foreign claims (ok stored) = not (stored.user_id == claims.user_id)
is_foreign claims (err e) = true

-- `err != nil || account.TokenVersion != claims.TokenVersion || !account.EmailVerified()`
abbrev pub current_account : Claims → Result User → Result User
current_account claims (err e) = err (sentinel unauthorized)
current_account claims (ok account) =
    if not (account.token_version == claims.token_version) || not (email_verified account)
    then err (sentinel unauthorized)
    else ok account

module _ {W : Type 0} where
  unfoldable pub me : ℕ → Db Tables W User
  me user_id = map_error (λ e. sentinel unauthorized) (get_user_by_id user_id)

module _ {W : Type 0} (ports : Ports W) where
  open ports use {hash_token, notifier, welcome, bootstrap_email}

  abbrev notify : User → String → Db Tables W (Unit {0})
  notify account token = elim notifier [
    | none ↦ pure tt
    | some send ↦ external (send account token)
  ]

  unfoldable pub logout : String → ℕ → Db Tables W (Unit {0})
  logout refresh_token now = if str_eq refresh_token "" then pure tt else do
    revoked ← attempt (revoke_refresh_token_by_hash (hash_token refresh_token) now)
    elim revoked [
      | ok _ ↦ pure tt
      | err e ↦ if is e not_found then pure tt else fail (wrap "revoke refresh token" e)
    ]

  -- What the welcome notifier answers is dropped.
  abbrev greet : EmailVerificationResult → Db Tables W (Unit {0})
  greet result = elim welcome [
    | none ↦ pure tt
    | some send ↦
        if result.first_verification
        then attempt (external (send result.user)) >> pure tt
        else pure tt
  ]

module _ {W : Type 0} (ports : Ports W) (driver : Driver) where
  open ports use {tokens, password, hash_token, verification_ttl, bootstrap_email}

  unfoldable pub verify_email : String → ℕ → Db Tables W (Unit {0})
  verify_email token now = if str_eq token "" then fail (sentinel invalid_token) else do
    result ← map_error verification_error (
        Verification.verify_email driver (hash_token token) now
          (some (role_policy bootstrap_email)))
    greet ports result

  -- `issued_now` and `expires_now` are the two readings of the clock, `stamp` gorm's.
  unfoldable pub send_verification : User → Result String → ℕ → ℕ → ℕ → Db Tables W (Unit {0})
  send_verification account random issued_now expires_now stamp = do
    allowed ←
        map_error (wrap "check verification rate")
          (can_issue_email_verification account.id (issued_now - minute))
    refuse (not allowed) (sentinel verification_rate)
    token ← lift (rename_error (wrap "generate verification token") random)
    map_error (wrap "store verification token") (
        replace_email_verification_token driver account.id (hash_token token)
          (expires_now + verification_ttl) stamp)
    map_error (wrap "notify verification")
        (notify ports (record account { email = next_email account }) token)

  unfoldable pub send_verification_for_user : ℕ → Result String → ℕ → ℕ → ℕ → Db Tables W (Unit {0})
  send_verification_for_user user_id random issued_now expires_now stamp = do
    account ← get_user_by_id user_id
    (if is_settled account
        then pure tt
        else send_verification account random issued_now expires_now stamp)

  unfoldable pub issue_tokens : Draws → User → Db Tables W Tokens
  issue_tokens draws account = do
    access ← lift (
        rename_error (wrap "generate access token")
          (tokens.generate_access draws.access account.id account.token_version))
    refresh ← lift (
        rename_error (wrap "generate refresh token")
          (tokens.generate_refresh draws.refresh account.id account.token_version))
    map_error (wrap "store refresh token")
        (create_refresh_token driver account.id (hash_token refresh.0) refresh.1)
    pure (record {
      access_token = access.0;
      access_expires_at = access.1;
      refresh_token = refresh.0;
      refresh_expires_at = refresh.1;
    })

  -- `lookup_now` and `rotate_now` are the repository's readings of the clock.
  unfoldable pub refresh : Draws → String → ℕ → ℕ → Db Tables W Tokens
  refresh draws refresh_token lookup_now rotate_now = do
    claims ←
        lift (rename_error validation_error (tokens.validate_refresh draws.checks refresh_token))
    stored ← attempt (get_active_refresh_token_by_hash (hash_token refresh_token) lookup_now)
    refuse (is_foreign claims stored) (sentinel unauthorized)
    found ← attempt (get_user_by_id claims.user_id)
    account ← lift (current_account claims found)
    access ← lift (
        rename_error (wrap "generate access token")
          (tokens.generate_access draws.access account.id account.token_version))
    next ← lift (
        rename_error (wrap "generate refresh token")
          (tokens.generate_refresh draws.refresh account.id account.token_version))
    map_error (wrap "rotate refresh token") (
        rotate_refresh_token driver (hash_token refresh_token) account.id (hash_token next.0) next.1
          rotate_now)
    pure (record {
      access_token = access.0;
      access_expires_at = access.1;
      refresh_token = next.0;
      refresh_expires_at = next.1;
    })

module _ (texts : Texts) {W : Type 0} (ports : Ports W) (driver : Driver) where
  open ports use {password, hash_token, verification_ttl}

  -- The account as it is stored.
  unfoldable pub register : User → Result String → ℕ → ℕ → Db Tables W User
  register account random now stamp =
      let (checked, normalized) = normalize_and_validate texts account true in
      do
        lift checked
        hashed ← lift (rename_error (wrap "hash password") (password.hash normalized.password))
        token ← lift (rename_error (wrap "generate verification token") random)
        map_error (wrap "register user") (
            register_user driver (new_account normalized hashed) (hash_token token)
              (now + verification_ttl) stamp (λ stored. notify ports stored token))

  unfoldable pub resend_verification : String → Result String → ℕ → ℕ → ℕ → Db Tables W (Unit {0})
  resend_verification email random issued_now expires_now stamp = do
    found ← attempt (get_user_by_email_or_pending (normalize_email texts email))
    elim found [
      | err e ↦ if is e not_found then pure tt else fail (wrap "find user for verification" e)
      | ok account ↦
          if is_settled account
          then pure tt
          else send_verification ports driver account random issued_now expires_now stamp
    ]

  -- The comparison with the dummy hash changes nothing.
  unfoldable pub login : Draws → String → String → Db Tables W Tokens
  login draws email given = do
    account ←
        map_error invalid_credentials_if_missing (get_user_by_email (normalize_email texts email))
    refuse (not (is_ok (password.compare account.password given))) (sentinel invalid_credentials)
    refuse (not (email_verified account)) (sentinel email_unverified)
    issue_tokens ports driver draws account
