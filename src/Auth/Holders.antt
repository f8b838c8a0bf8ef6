-- ===== src/Auth/Holders.antt =====
-- Who may still use a refresh token, as a function of its hash, and what the statements on the rows of
-- refresh_tokens (internal/adapter/mysql/identity/repository.go) do to it.
use golang_clean_architectur.Common.{
  ℕ, ◌≤◌, ◌≡◌, refl, false, Option, none, some, String, List, [], ◌∷◌, ◌++◌, arith, str_eq,
  str_eq_iff, ltb, any, update_where, delete_where, find_where, if◌then◌else◌,
}
use golang_clean_architectur.Identity.{RefreshTokenModel}
use golang_clean_architectur.Identity.Tokens.{is_active, is_unrevoked, is_stale}

-- Who may use a token with that hash at that time.
abbrev pub holder : ℕ → List RefreshTokenModel → String → Option ℕ
holder later [] hash = none
holder later (r ∷ rows) hash =
    let rest = holder later rows hash in if is_active hash later r then some r.user_id else rest

-- A token opened or closed, for the one who looks at that time.
abbrev pub opened : ℕ → ℕ → String → ℕ → (String → Option ℕ) → String → Option ℕ
opened later user hash expires f h =
    if str_eq hash h then (if ltb later expires then some user else none) else f h

abbrev pub closed : String → (String → Option ℕ) → String → Option ℕ
closed hash f h = if str_eq hash h then none else f h

module _ (later : ℕ) where
  pub holder-append :
      (rows : List RefreshTokenModel) (r : RefreshTokenModel) (h : String)
      → any (λ x. str_eq x.token_hash r.token_hash) rows ≡ false
      → r.revoked_at ≡ none
      → holder later (rows ++ r ∷ []) h
        ≡ opened later r.user_id r.token_hash r.expires_at (holder later rows) h
  holder-append [] r h fresh live = ground arith
  holder-append (x ∷ rows) r h fresh live = ground (
    arith,
    holder-append rows r h,
    str_eq_iff x.token_hash h,
    str_eq_iff r.token_hash h,
    str_eq_iff x.token_hash r.token_hash,
  )

  pub holder-revoke :
      (current : String) (now : ℕ) (rows : List RefreshTokenModel) (h : String)
      → now ≤ later
      → holder later
          (update_where (is_active current now) (λ r. record r { revoked_at = some now }) rows)
          h
        ≡ closed current (holder later rows) h
  holder-revoke current now [] h le = ground arith
  holder-revoke current now (x ∷ rows) h le = ground (
    arith,
    holder-revoke current now rows h,
    str_eq_iff x.token_hash h,
    str_eq_iff current h,
    str_eq_iff x.token_hash current,
  )

  pub holder-revoke_unexpired :
      (current : String) (now : ℕ) (rows : List RefreshTokenModel) (h : String)
      → holder later
          (update_where (is_unrevoked current) (λ r. record r { revoked_at = some now }) rows)
          h
        ≡ closed current (holder later rows) h
  holder-revoke_unexpired current now [] h = ground arith
  holder-revoke_unexpired current now (x ∷ rows) h = ground (
    arith,
    holder-revoke_unexpired current now rows h,
    str_eq_iff x.token_hash h,
    str_eq_iff current h,
    str_eq_iff x.token_hash current,
  )

  pub holder-clean :
      (before : ℕ) (rows : List RefreshTokenModel) (h : String)
      → before ≤ later
      → holder later (delete_where (is_stale before) rows) h ≡ holder later rows h
  holder-clean before [] h le = refl
  holder-clean before (x ∷ rows) h le = ground (arith, holder-clean before rows h)

  pub find-holder :
      (hash : String) (rows : List RefreshTokenModel)
      → holder later rows hash
        ≡ (elim (find_where (is_active hash later) rows) [ none ↦ none | some r ↦ some r.user_id ])
  find-holder hash [] = refl
  find-holder hash (r ∷ rows) = ground (arith, find-holder hash rows)
