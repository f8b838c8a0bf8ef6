-- ===== src/Identity/Tokens.antt =====
-- internal/adapter/mysql/identity/repository.go: the methods on refresh tokens and on the tokens
-- that verify an email, but `VerifyEmail`. A method that reads the clock takes the reading.
pub mod Rotation
use golang_clean_architectur.Common.{
  ℕ, zero, suc, ◌+◌, Bool, true, false, not, ◌&&◌, ◌||◌, Option, none, some, String, List, [], ◌∷◌,
  ◌==◌, ltb, leb, str_eq, if◌then◌else◌, count_where, find_where, update_where, delete_where,
}
use golang_clean_architectur.Errors.{
  Error, Result, ok, err, sentinel, unauthorized, gorm_record_not_found,
}
use golang_clean_architectur.Sql.{
  Db, pure, lift, ◌>>=◌, ◌>>◌, query, execute, transaction, refuse, or_fail, map_error,
}
use golang_clean_architectur.Identity.{
  RefreshTokenModel, Tables, map_record_not_found, require_affected, Driver, insert_refresh,
  insert_verification,
}

-- token_hash = hash AND revoked_at IS NULL
abbrev pub is_unrevoked : String → RefreshTokenModel → Bool
is_unrevoked hash r = elim r.revoked_at [ none ↦ str_eq r.token_hash hash | some at ↦ false ]

-- … AND expires_at > now
abbrev pub is_active : String → ℕ → RefreshTokenModel → Bool
is_active hash now r = is_unrevoked hash r && ltb now r.expires_at

revoke_where : (RefreshTokenModel → Bool) → ℕ → Tables → Result (ℕ × Tables)
revoke_where p now t = ok (
  count_where p t.refresh_tokens,
  record t {
    refresh_tokens = update_where p (λ r. record r { revoked_at = some now }) t.refresh_tokens;
  },
)

-- `expires_at < before OR (revoked_at IS NOT NULL AND revoked_at < before)`
abbrev pub is_stale : ℕ → RefreshTokenModel → Bool
is_stale before r =
    ltb r.expires_at before || elim r.revoked_at [ none ↦ false | some at ↦ ltb at before ]

module _ {W : Type 0} where
  unfoldable pub get_active_refresh_token_by_hash : String → ℕ → Db Tables W RefreshTokenModel
  get_active_refresh_token_by_hash hash now = map_error map_record_not_found do
    found ← query (λ t. find_where (is_active hash now) t.refresh_tokens)
    or_fail found (sentinel gorm_record_not_found)

  unfoldable pub revoke_refresh_token_by_hash : String → ℕ → Db Tables W (Unit {0})
  unfolding revoke_where
  revoke_refresh_token_by_hash hash now = do
    affected ← execute (revoke_where (is_unrevoked hash) now)
    lift (require_affected affected)

  -- `created_at > issued_after` for no token of the user.
  unfoldable pub can_issue_email_verification : ℕ → ℕ → Db Tables W Bool
  can_issue_email_verification user_id issued_after = do
    count ← query (λ t.
        count_where (λ r. r.user_id == user_id && ltb issued_after r.created_at)
          t.verification_tokens)
    pure (count == 0)

  -- The number of rows that the DELETE removed.
  unfoldable pub delete_expired_or_revoked_refresh_tokens : ℕ → Db Tables W ℕ
  delete_expired_or_revoked_refresh_tokens before = execute (λ t. ok (
    count_where (is_stale before) t.refresh_tokens,
    record t { refresh_tokens = delete_where (is_stale before) t.refresh_tokens },
  ))

module _ {W : Type 0} (driver : Driver) where
  unfoldable pub create_refresh_token : ℕ → String → ℕ → Db Tables W ℕ
  create_refresh_token user_id token_hash expires_at =
      execute (insert_refresh driver user_id token_hash expires_at)

  -- The key of the replacement.
  unfoldable pub rotate_refresh_token_body : String → ℕ → String → ℕ → ℕ → Db Tables W ℕ
  unfolding revoke_where
  rotate_refresh_token_body current user_id token_hash expires_at now = do
    affected ← execute (revoke_where (is_active current now) now)
    refuse (not (affected == 1)) (sentinel unauthorized)
    execute (insert_refresh driver user_id token_hash expires_at)

  unfoldable pub rotate_refresh_token : String → ℕ → String → ℕ → ℕ → Db Tables W ℕ
  rotate_refresh_token current user_id token_hash expires_at now =
      transaction (rotate_refresh_token_body current user_id token_hash expires_at now)

  unfoldable pub replace_email_verification_token_body : ℕ → String → ℕ → ℕ → Db Tables W (Unit {0})
  replace_email_verification_token_body user_id token_hash expires_at created_at = do
    execute (λ t. ok (
      tt,
      record t {
        verification_tokens = delete_where (λ r. r.user_id == user_id) t.verification_tokens;
      },
    ))
    execute (insert_verification driver user_id token_hash expires_at created_at)
    pure tt

  unfoldable pub replace_email_verification_token : ℕ → String → ℕ → ℕ → Db Tables W (Unit {0})
  replace_email_verification_token user_id token_hash expires_at created_at =
      transaction (replace_email_verification_token_body user_id token_hash expires_at created_at)
