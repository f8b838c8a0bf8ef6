-- ===== src/Auth/Logout.antt =====
-- `Logout` of internal/auth/service.go.
use golang_clean_architectur.Common.{
  ℕ, ◌≡◌, ◌≢◌, refl, false, String, some, arith, str_eq_iff, count_where, update_where, List, [],
  ◌∷◌, inl, inr,
}
use golang_clean_architectur.Errors.{Error, err, is, not_found, Result-cases, Answers, answers}
use golang_clean_architectur.Sql.{Session, next_fault}
use golang_clean_architectur.Identity.{Tables, RefreshTokenModel, require_affected}
use golang_clean_architectur.Identity.Tokens.{revoke_refresh_token_by_hash, is_unrevoked}
use golang_clean_architectur.Auth.{Ports, logout}

revoke-unrevoked :
    (hash : String) (now : ℕ) (rows : List RefreshTokenModel)
    → count_where
        (is_unrevoked hash)
        (update_where (is_unrevoked hash) (λ r. record r { revoked_at = some now }) rows)
      ≡ 0
revoke-unrevoked hash now [] = refl
revoke-unrevoked hash now (r ∷ rows) = ground (arith, revoke-unrevoked hash now rows)

-- `Logout` with a token that is not empty leaves it revoked, also where it was revoked or unknown
-- before; an error changes no row. The failures of the database are not the program's own ErrNotFound.
pub logout_revokes :
    {W : Type 0} (ports : Ports W) (token : String) (now : ℕ) (s : Session Tables W)
    → token ≢ ""
    → ((e : Error) → next_fault s.faults ≡ err e → is e not_found ≡ false)
    → let (r, s') = logout ports token now s in
      Answers
        (λ a. count_where (is_unrevoked (ports.hash_token token)) s'.tables.refresh_tokens ≡ 0)
        (λ e. s'.tables ≡ s.tables)
        r
unfolding logout revoke_refresh_token_by_hash require_affected
logout_revokes ports token now s h foreign =
    let gone = revoke-unrevoked (ports.hash_token token) now s.tables.refresh_tokens in
    elim (Result-cases (next_fault s.faults)) [
      | inl (x, fine) ↦
          answers _ (λ a k. ground (arith, str_eq_iff token "", gone))
            (λ e k. ground (arith, str_eq_iff token ""))
      | inr (x, broken) ↦
          answers _ (λ a k. ground (arith, str_eq_iff token "", foreign x broken))
            (λ e k. ground (arith, str_eq_iff token "", foreign x broken))
    ]
