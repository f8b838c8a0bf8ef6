-- ===== src/Auth/Maintenance.antt =====
-- internal/auth/maintenance.go: `MaintenanceService`, over its repository.
use golang_clean_architectur.Common.{ℕ}
use golang_clean_architectur.Sql.{Db}
use golang_clean_architectur.Identity.{Tables}
use golang_clean_architectur.Identity.Tokens.{delete_expired_or_revoked_refresh_tokens}

-- `MaintenanceRepository`
pub record MaintenanceRepository (W : Type 0) : Type 0 where
  pub delete_expired_or_revoked_refresh_tokens : ℕ → Db Tables W ℕ

module _ {W : Type 0} where
  -- `CleanupRefreshTokens`
  unfoldable pub cleanup_refresh_tokens : MaintenanceRepository W → ℕ → Db Tables W ℕ
  cleanup_refresh_tokens repo before = repo.delete_expired_or_revoked_refresh_tokens before

  abbrev pub repository : MaintenanceRepository W
  repository = record {
    delete_expired_or_revoked_refresh_tokens = delete_expired_or_revoked_refresh_tokens;
  }
