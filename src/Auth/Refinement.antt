-- ===== src/Auth/Refinement.antt =====
-- The refresh tokens of the repository (internal/adapter/mysql/identity/repository.go) as what a
-- client of the auth service sees of them: a function from a token's hash to the user who may still
-- use it. The rows' order, the revoked and the expired ones and the clean-up are forgotten.
use mathlib.Core.Path.{fun_ext}
use golang_clean_architectur.Common.{
  ℕ, ◌≤◌, ◌≡◌, refl, sym, ap, ◌∙◌, Bool, true, false, Option, none, some, String, List, [], ◌∷◌,
  arith, update_where, find_where, count_where, All,
}
use golang_clean_architectur.Errors.{is_ok, Answers, answers}
use golang_clean_architectur.Sql.{Session}
use golang_clean_architectur.Sql.Laws.{next_fault-nil}
use golang_clean_architectur.Sql.Rows.{update-none, any-of_count}
use golang_clean_architectur.Identity.{
  Tables, Driver, RefreshTokenModel, insert_refresh, require_affected,
}
use golang_clean_architectur.Identity.Tokens.{
  is_active, is_unrevoked, create_refresh_token, rotate_refresh_token, rotate_refresh_token_body,
  revoke_refresh_token_by_hash, delete_expired_or_revoked_refresh_tokens,
  get_active_refresh_token_by_hash,
}
use golang_clean_architectur.Auth.Holders.{
  holder, opened, closed, holder-append, holder-revoke, holder-revoke_unexpired, holder-clean,
  find-holder,
}
use golang_clean_architectur.Auth.Maintenance.{cleanup_refresh_tokens, repository}

-- The calls on the repository, with the readings of the clock.
pub data Call : Type 0 where
  create : ℕ → String → ℕ → Call
  rotate : String → ℕ → String → ℕ → ℕ → Call
  revoke : String → ℕ → Call
  clean : ℕ → Call

-- The call is made by that time.
abbrev pub IsBy : ℕ → Call → Type 0
IsBy later (create user hash expires) = Unit
IsBy later (rotate current user hash expires now) = now ≤ later
IsBy later (revoke hash now) = now ≤ later
IsBy later (clean before) = before ≤ later

-- What a call that succeeded means for the one who looks at that time; `keeps` is what the column of
-- the expiry keeps of a time.
abbrev pub meaning : (ℕ → ℕ) → ℕ → Call → (String → Option ℕ) → String → Option ℕ
meaning keeps later (create user hash expires) f = opened later user hash (keeps expires) f
meaning keeps later (rotate current user hash expires now) f =
    opened later user hash (keeps expires) (closed current f)
meaning keeps later (revoke hash now) f = closed hash f
meaning keeps later (clean before) f = f

-- A call that failed means nothing.
abbrev pub effect : (ℕ → ℕ) → ℕ → Bool → Call → (String → Option ℕ) → String → Option ℕ
effect keeps later true call f = meaning keeps later call f
effect keeps later false call f = f

module _ {W : Type 0} (driver : Driver) where
  -- A call on the repository: whether it succeeded.
  unfoldable pub perform : Call → Session Tables W → Bool × Session Tables W
  perform (create user hash expires) s =
      let (r, s') = create_refresh_token driver user hash expires s in (is_ok r, s')
  perform (rotate current user hash expires now) s =
      let (r, s') = rotate_refresh_token driver current user hash expires now s in (is_ok r, s')
  perform (revoke hash now) s =
      let (r, s') = revoke_refresh_token_by_hash hash now s in (is_ok r, s')
  perform (clean before) s =
      let (r, s') = cleanup_refresh_tokens repository before s in (is_ok r, s')

  -- A history of calls, and the same calls on the function.
  unfoldable pub perform_all : List Call → Session Tables W → Session Tables W
  perform_all [] s = s
  perform_all (call ∷ calls) s = perform_all calls (perform call s).1

  unfoldable pub replay : ℕ → List Call → Session Tables W → (String → Option ℕ) → String → Option ℕ
  replay later [] s f = f
  replay later (call ∷ calls) s f =
      let (done, s') = perform call s in
      replay later calls s' (effect driver.timestamp later done call f)

  create-effect :
      (later user : ℕ) (hash : String) (expires : ℕ) (s : Session Tables W) (h : String)
      → let (done, s') = perform (create user hash expires) s in
        holder later s'.tables.refresh_tokens h
        ≡ effect driver.timestamp later done
            (create user hash expires)
            (holder later s.tables.refresh_tokens)
            h
  unfolding perform create_refresh_token insert_refresh
  create-effect later user hash expires s h =
      let row : RefreshTokenModel = record {
        id = s.tables.next_refresh;
        user_id = user;
        token_hash = hash;
        expires_at = driver.timestamp expires;
        revoked_at = none;
      } in
      ground (arith, holder-append later s.tables.refresh_tokens row h)

  revoke-effect :
      (later : ℕ) (hash : String) (now : ℕ) (s : Session Tables W) (h : String)
      → let (done, s') = perform (revoke hash now) s in
        holder later s'.tables.refresh_tokens h
        ≡ effect driver.timestamp later done
            (revoke hash now)
            (holder later s.tables.refresh_tokens)
            h
  unfolding perform revoke_refresh_token_by_hash require_affected
  revoke-effect later hash now s h =
      let rows = s.tables.refresh_tokens in
      ground (
        arith,
        holder-revoke_unexpired later hash now rows h,
        λ (none_left : count_where (is_unrevoked hash) rows ≡ 0).
            update-none (is_unrevoked hash) (λ r. record r { revoked_at = some now }) rows
              (any-of_count (is_unrevoked hash) rows none_left),
      )

  clean-effect :
      (later before : ℕ) (s : Session Tables W) (h : String)
      → before ≤ later
      → let (done, s') = perform (clean before) s in
        holder later s'.tables.refresh_tokens h
        ≡ effect driver.timestamp later done (clean before) (holder later s.tables.refresh_tokens) h
  unfolding perform cleanup_refresh_tokens delete_expired_or_revoked_refresh_tokens
  clean-effect later before s h le =
      ground (arith, holder-clean later before s.tables.refresh_tokens h le)

  rotate-effect :
      (later : ℕ) (current : String) (user : ℕ) (hash : String) (expires now : ℕ)
      (s : Session Tables W) (h : String)
      → now ≤ later
      → let (done, s') = perform (rotate current user hash expires now) s in
        holder later s'.tables.refresh_tokens h
        ≡ effect driver.timestamp later done
            (rotate current user hash expires now)
            (holder later s.tables.refresh_tokens)
            h
  unfolding perform rotate_refresh_token rotate_refresh_token_body insert_refresh
  rotate-effect later current user hash expires now s h le =
      let revoked =
        update_where (is_active current now) (λ r. record r { revoked_at = some now })
          s.tables.refresh_tokens in
      let row : RefreshTokenModel = record {
        id = s.tables.next_refresh;
        user_id = user;
        token_hash = hash;
        expires_at = driver.timestamp expires;
        revoked_at = none;
      } in
      ground (
        arith,
        holder-append later revoked row h,
        holder-revoke later current now s.tables.refresh_tokens h le,
      )

  perform-effect :
      (later : ℕ) (call : Call) (s : Session Tables W)
      → IsBy later call
      → let (done, s') = perform call s in
        holder later s'.tables.refresh_tokens
        ≡ effect driver.timestamp later done call (holder later s.tables.refresh_tokens)
  perform-effect later (create user hash expires) s by =
      fun_ext (create-effect later user hash expires s)
  perform-effect later (rotate current user hash expires now) s by =
      fun_ext (λ h. rotate-effect later current user hash expires now s h by)
  perform-effect later (revoke hash now) s by = fun_ext (revoke-effect later hash now s)
  perform-effect later (clean before) s by = fun_ext (λ h. clean-effect later before s h by)

  history-replay :
      (later : ℕ) (calls : List Call) (s : Session Tables W)
      → All (IsBy later) calls
      → holder later (perform_all calls s).tables.refresh_tokens
        ≡ replay later calls s (holder later s.tables.refresh_tokens)
  unfolding perform_all replay
  history-replay later [] s by = refl
  history-replay later (call ∷ calls) s by =
      history-replay later calls (perform call s).1 by.1
      ∙ ap (replay later calls (perform call s).1) (perform-effect later call s by.0)

  -- After any history of tokens created, rotated, revoked and cleaned up by a moment, whatever
  -- statements failed, the table of refresh tokens is the function that the successful calls alone
  -- build up from the one before: a creation opens a token for its user until the expiry that its column keeps, a rotation
  -- closes one and opens another, a revocation closes one, and a clean-up does nothing. What a
  -- lookup finds at that moment is what the function says: the user's row, and, where no statement
  -- fails, none for a token that is not open.
  pub history_refines :
      (later : ℕ) (calls : List Call) (s : Session Tables W)
      → All (IsBy later) calls
      → let live = replay later calls s (holder later s.tables.refresh_tokens) in
        (holder later (perform_all calls s).tables.refresh_tokens ≡ live)
        × ((hash : String) (z : Session Tables W)
            → z.tables ≡ (perform_all calls s).tables
            → Answers
                (λ r. live hash ≡ some r.user_id)
                (λ e. z.faults ≡ [] → live hash ≡ none)
                (get_active_refresh_token_by_hash hash later z).0)
  unfolding get_active_refresh_token_by_hash
  history_refines later calls s by =
      let same = history-replay later calls s by in
      (
        same,
        λ hash z tables.
            let found : replay later calls s (holder later s.tables.refresh_tokens) hash
                ≡ (elim (find_where (is_active hash later) z.tables.refresh_tokens) [
                  | none ↦ none
                  | some r ↦ some r.user_id
                ]) =
              ap (λ f. f hash) (sym same)
              ∙ ap (λ t. holder later t.refresh_tokens hash) (sym tables)
              ∙ find-holder later hash z.tables.refresh_tokens in
            answers _ (λ r e. ground (arith, found))
              (λ e h fine. ground (arith, found, next_fault-nil)),
      )
