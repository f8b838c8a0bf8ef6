-- ===== src/Identity/Tokens/Rotation.antt =====
-- Refresh tokens are used once: `RotateRefreshToken`, `RevokeRefreshTokenByHash` and the clean-up.
use golang_clean_architectur.Common.{
  ℕ, ◌≤◌, ◌≡◌, ◌≢◌, refl, sym, ◌∙◌, Bool, true, some, none, String, List, [], ◌∷◌, arith, str_eq,
  str_eq_iff, any, count_where, find_where, update_where,
}
use mathlib.Core.Path.{subst}
use golang_clean_architectur.Errors.{ok}
use golang_clean_architectur.Sql.{Session, later_faults}
use golang_clean_architectur.Sql.Laws.{transaction-commits}
use golang_clean_architectur.Sql.Rows.{count-append}
use golang_clean_architectur.Identity.{Tables, Driver, RefreshTokenModel, insert_refresh}
use golang_clean_architectur.Identity.Tokens.{
  is_active, rotate_refresh_token, rotate_refresh_token_body, get_active_refresh_token_by_hash,
}

-- No row holds a usable token with that hash.
abbrev pub IsSpent : String → ℕ → Tables → Type 0
IsSpent hash now t = count_where (is_active hash now) t.refresh_tokens ≡ 0

revoked_rows :
    (hash : String) (now later : ℕ) (rows : List RefreshTokenModel)
    → now ≤ later
    → count_where
        (is_active hash later)
        (update_where (is_active hash now) (λ r. record r { revoked_at = some now }) rows)
      ≡ 0
revoked_rows hash now later [] h = refl
revoked_rows hash now later (r ∷ rows) h = ground (arith, revoked_rows hash now later rows h)

same_hashes :
    (hash other : String) (now : ℕ) (rows : List RefreshTokenModel)
    → any
        (λ r. str_eq r.token_hash other)
        (update_where (is_active hash now) (λ r. record r { revoked_at = some now }) rows)
      ≡ any (λ r. str_eq r.token_hash other) rows
same_hashes hash other now [] = refl
same_hashes hash other now (r ∷ rows) = ground (arith, same_hashes hash other now rows)

holds_hash :
    (hash : String) (now : ℕ) (rows : List RefreshTokenModel)
    → count_where (is_active hash now) rows ≢ 0
    → any (λ r. str_eq r.token_hash hash) rows ≡ true
holds_hash hash now [] h = absurd (h refl)
holds_hash hash now (r ∷ rows) h = ground (arith, holds_hash hash now rows)

find-none-of_count :
    (p : RefreshTokenModel → Bool) (rows : List RefreshTokenModel)
    → count_where p rows ≡ 0
    → find_where p rows ≡ none
find-none-of_count p [] h = refl
find-none-of_count p (r ∷ rows) h = ground (arith, find-none-of_count p rows)

module _ {W : Type 0} (driver : Driver) where
  spent_lookup :
      (current : String) (later : ℕ) (z : Session Tables W) (r : RefreshTokenModel)
      → IsSpent current later z.tables
      → (get_active_refresh_token_by_hash current later z).0 ≢ ok r
  unfolding get_active_refresh_token_by_hash
  spent_lookup current later z r h e =
      ground (arith, find-none-of_count (is_active current later) z.tables.refresh_tokens h)

  spent_rotation :
      (current : String) (other : ℕ) (next : String) (end later : ℕ) (z : Session Tables W) (j : ℕ)
      → IsSpent current later z.tables
      → (rotate_refresh_token_body driver current other next end later z).0 ≢ ok j
  unfolding rotate_refresh_token_body
  spent_rotation current other next end later z j h e = ground arith

  rotate_body-IsSpent :
      (current : String) (user_id : ℕ) (token_hash : String) (expires_at now later : ℕ)
      (s : Session Tables W) (k : ℕ)
      → now ≤ later
      → (rotate_refresh_token_body driver current user_id token_hash expires_at now s).0 ≡ ok k
      → IsSpent current later
          (rotate_refresh_token_body driver current user_id token_hash expires_at now s).1.tables
  unfolding rotate_refresh_token_body insert_refresh
  rotate_body-IsSpent current user_id token_hash expires_at now later s k h e =
      let old = s.tables.refresh_tokens in
      let revoked =
        update_where (is_active current now) (λ r. record r { revoked_at = some now }) old in
      let row : RefreshTokenModel = record {
        id = s.tables.next_refresh;
        user_id = user_id;
        token_hash = token_hash;
        expires_at = driver.timestamp expires_at;
        revoked_at = none;
      } in
      ground (
        arith,
        count-append (is_active current later) revoked row,
        revoked_rows current now later old h,
        same_hashes current token_hash now old,
        holds_hash current now old,
        str_eq_iff token_hash current,
      )

  -- A token that was rotated is spent: from the rows that the rotation left, at no later reading of the
  -- clock does a lookup find it or a rotation accept it, whatever user, replacement and faults come.
  pub rotate_once :
      (current : String) (user_id : ℕ) (token_hash : String) (expires_at now : ℕ)
      (s : Session Tables W) (k : ℕ)
      → (rotate_refresh_token driver current user_id token_hash expires_at now s).0 ≡ ok k
      → (later : ℕ) (z : Session Tables W) → now ≤ later
      → z.tables
        ≡ (rotate_refresh_token driver current user_id token_hash expires_at now s).1.tables
      → ((r : RefreshTokenModel) → (get_active_refresh_token_by_hash current later z).0 ≢ ok r)
        × ((other : ℕ) (next : String) (end j : ℕ)
            → (rotate_refresh_token driver current other next end later z).0 ≢ ok j)
  unfolding rotate_refresh_token
  rotate_once current user_id token_hash expires_at now s k e later z h same =
      let (done, rows) =
        transaction-commits
          (rotate_refresh_token_body driver current user_id token_hash expires_at now) s k e in
      let spent : IsSpent current later z.tables =
        subst (IsSpent current later) (sym (same ∙ rows)) (
          rotate_body-IsSpent current user_id token_hash expires_at now later
            (record s { faults = later_faults s.faults }) k h done) in
      (
        λ r found. spent_lookup current later z r spent found,
        λ other next end j again.
            let (done', rows') =
              transaction-commits (rotate_refresh_token_body driver current other next end later) z
                j again in
            spent_rotation current other next end later
              (record z { faults = later_faults z.faults }) j spent done',
      )
