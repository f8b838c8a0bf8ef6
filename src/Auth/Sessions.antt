-- ===== src/Auth/Sessions.antt =====
-- Sessions of internal/auth/service.go: `Refresh`, and what ends a session.
use golang_clean_architectur.Common.{
  ℕ, ◌≤◌, ◌≡◌, ◌≢◌, sym, ◌∙◌, true, String, some, arith, ◌==◌, find_where, count_where, List, [],
  ◌∷◌, inl, inr, Option-cases, is_some,
}
use mathlib.Core.Path.{subst}
use golang_clean_architectur.Errors.{ok, Result-cases, Answers, answers, on_ok}
use golang_clean_architectur.Sql.{Session}
use golang_clean_architectur.Identity.{Tables, Driver, UserModel, RefreshTokenModel, to_user}
use golang_clean_architectur.User.Service.{change_password}
use golang_clean_architectur.User.Service.Guards.{change_password_revokes, live_sessions}
use golang_clean_architectur.Identity.Users.{is_live_of, get_user_by_id}
use golang_clean_architectur.Identity.Tokens.{
  rotate_refresh_token, get_active_refresh_token_by_hash, is_active,
}
use golang_clean_architectur.Identity.Tokens.Rotation.{rotate_once}
use golang_clean_architectur.Auth.{Ports, Tokens, Draws, Claims, refresh}

module _ {W : Type 0} (ports : Ports W) (driver : Driver) where
  -- What a refresh checked before it rotated the token.
  pub record Renewed (draws : Draws) (token : String) (lookup_now : ℕ) (t : Tables) : Type 0 where
    pub claims : Claims
    pub stored : RefreshTokenModel
    pub row : UserModel
    pub valid : ports.tokens.validate_refresh draws.checks token ≡ ok claims
    pub looked_up :
        find_where (is_active (ports.hash_token token) lookup_now) t.refresh_tokens ≡ some stored
    pub owned : stored.user_id ≡ claims.user_id
    pub found : find_where (λ x. x.id == claims.user_id) t.users ≡ some row
    pub same_version : row.token_version ≡ claims.token_version
    pub verified : is_some row.email_verified_at ≡ true

  refresh-Renewed :
      (draws : Draws) (token : String) (lookup_now rotate_now : ℕ) (s : Session Tables W)
      (tokens : Tokens)
      → (refresh ports driver draws token lookup_now rotate_now s).0 ≡ ok tokens
      → Renewed draws token lookup_now s.tables
  unfolding refresh get_active_refresh_token_by_hash get_user_by_id to_user
  refresh-Renewed draws token lookup_now rotate_now s tokens e =
      elim (Result-cases (ports.tokens.validate_refresh draws.checks token)) [
        | inr (x, h) ↦ absurd (ground arith)
        | inl (claims, valid) ↦
            elim (Option-cases (
              find_where (is_active (ports.hash_token token) lookup_now) s.tables.refresh_tokens)) [
                | inl missing ↦ absurd (ground arith)
                | inr (stored, looked_up) ↦
                    elim (Option-cases (find_where (λ x. x.id == claims.user_id) s.tables.users)) [
                      | inl missing ↦ absurd (ground arith)
                      | inr (row, found) ↦ record {
                        claims = claims;
                        stored = stored;
                        row = row;
                        valid = valid;
                        looked_up = looked_up;
                        owned = ground arith;
                        found = found;
                        same_version = ground arith;
                        verified = ground arith;
                      }
                    ]
              ]
      ]

  -- The rotation that a refresh ended with.
  pub record Rotated (token : String) (rotate_now : ℕ) (tokens : Tokens) (t t' : Tables)
      : Type 0 where
    pub user_id : ℕ
    pub key : ℕ
    pub next : String × ℕ
    pub before : Session Tables W
    pub handed : next ≡ (tokens.refresh_token, tokens.refresh_expires_at)
    pub same : before.tables ≡ t
    pub done :
        (rotate_refresh_token driver
          (ports.hash_token token)
          user_id
          (ports.hash_token next.0)
          next.1
          rotate_now
          before).0
        ≡ ok key
    pub rows :
        t'
        ≡ (rotate_refresh_token driver
            (ports.hash_token token)
            user_id
            (ports.hash_token next.0)
            next.1
            rotate_now
            before).1.tables

  refresh-Rotated :
      (draws : Draws) (token : String) (lookup_now rotate_now : ℕ) (s : Session Tables W)
      (tokens : Tokens)
      → (refresh ports driver draws token lookup_now rotate_now s).0 ≡ ok tokens
      → Rotated token rotate_now tokens s.tables
          (refresh ports driver draws token lookup_now rotate_now s).1.tables
  unfolding refresh get_active_refresh_token_by_hash get_user_by_id to_user
  refresh-Rotated draws token lookup_now rotate_now s tokens e =
      let d = refresh-Renewed draws token lookup_now rotate_now s tokens e in
      let z =
        (get_user_by_id d.claims.user_id
          (get_active_refresh_token_by_hash (ports.hash_token token) lookup_now s).1).1 in
      let valid = d.valid in
      let looked = d.looked_up in
      let found = d.found in
      elim (Result-cases (ports.tokens.generate_access draws.access d.row.id d.row.token_version)) [
        | inr (x, h) ↦ absurd (ground arith)
        | inl (access, h) ↦
            elim (Result-cases
              (ports.tokens.generate_refresh draws.refresh d.row.id d.row.token_version)) [
                | inr (x, h') ↦ absurd (ground arith)
                | inl (next, h') ↦
                    elim (Result-cases
                      (rotate_refresh_token driver (ports.hash_token token) d.row.id
                        (ports.hash_token next.0) next.1 rotate_now z).0) [
                          | inr (x, h'') ↦ absurd (ground arith)
                          | inl (key, h'') ↦ record {
                            user_id = d.row.id;
                            key = key;
                            next = next;
                            before = z;
                            handed = ground arith;
                            same = ground arith;
                            done = h'';
                            rows = ground arith;
                          }
                        ]
              ]
      ]

  -- A refresh token is exchanged once: from the rows that a successful refresh left, no refresh with the
  -- same token succeeds, whatever tokens its request draws, where the clock of its rotation has not gone
  -- back and whatever faults come.
  pub refresh_once :
      (draws : Draws) (token : String) (lookup_now rotate_now : ℕ) (s : Session Tables W)
      (tokens : Tokens)
      → (refresh ports driver draws token lookup_now rotate_now s).0 ≡ ok tokens
      → (others : Draws) (later last : ℕ) (z : Session Tables W) (more : Tokens) → rotate_now ≤ last
      → z.tables ≡ (refresh ports driver draws token lookup_now rotate_now s).1.tables
      → (refresh ports driver others token later last z).0 ≢ ok more
  refresh_once draws token lookup_now rotate_now s tokens e others later last z more le same again =
      let d = refresh-Rotated draws token lookup_now rotate_now s tokens e in
      let d' = refresh-Rotated others token later last z more again in
      (rotate_once driver (ports.hash_token token) d.user_id (ports.hash_token d.next.0) d.next.1
          rotate_now d.before d.key d.done last d'.before le (d'.same ∙ same ∙ d.rows)).1
        d'.user_id (ports.hash_token d'.next.0) d'.next.1 d'.key d'.done

  foreign_sessions :
      (id : ℕ) (hash : String) (now : ℕ) (rows : List RefreshTokenModel) (r : RefreshTokenModel)
      → count_where (is_live_of id) rows ≡ 0
      → find_where (is_active hash now) rows ≡ some r
      → r.user_id ≢ id
  foreign_sessions id hash now [] r h e = absurd (ground arith)
  foreign_sessions id hash now (x ∷ rows) r h e =
      ground (arith, foreign_sessions id hash now rows r)

  -- A change of password ends every session of the User: no refresh token that names the User is
  -- exchanged any more, from the rows that the change left.
  pub change_password_ends_sessions :
      (id : ℕ) (present next : String) (now : ℕ) (s : Session Tables W) (a : Unit {0})
      → (change_password ports.password id present next now s).0 ≡ ok a
      → (draws : Draws) (token : String) (claims : Claims)
      → ports.tokens.validate_refresh draws.checks token ≡ ok claims
      → claims.user_id ≡ id
      → (lookup_now rotate_now : ℕ) (z : Session Tables W) (tokens : Tokens)
      → z.tables ≡ (change_password ports.password id present next now s).1.tables
      → (refresh ports driver draws token lookup_now rotate_now z).0 ≢ ok tokens
  change_password_ends_sessions id present next now s a e draws token claims valid named lookup_now
        rotate_now z tokens same again =
      let none_live =
        (on_ok (change_password_revokes ports.password id present next now s) a e).3 in
      let d = refresh-Renewed draws token lookup_now rotate_now z tokens again in
      foreign_sessions id (ports.hash_token token) lookup_now z.tables.refresh_tokens d.stored
        (subst (λ t. live_sessions id t ≡ 0) (sym same) none_live) d.looked_up
        (ground (arith, d.owned, d.valid))

  -- `Refresh` succeeds only for a valid token that is stored and neither revoked nor expired, of the
  -- User that its claims name, whose token version the claims carry and whose email is verified;
  -- where it fails, no row changes.
  pub refresh_outcome :
      (draws : Draws) (token : String) (lookup_now rotate_now : ℕ) (s : Session Tables W)
      → let (r, s') = refresh ports driver draws token lookup_now rotate_now s in
        Answers
          (λ tokens.
            Renewed draws token lookup_now s.tables
            × Rotated token rotate_now tokens s.tables s'.tables)
          (λ e. s'.tables ≡ s.tables)
          r
  unfolding refresh rotate_refresh_token get_active_refresh_token_by_hash get_user_by_id
  refresh_outcome draws token lookup_now rotate_now s =
      answers _
        (λ tokens e. (
          refresh-Renewed draws token lookup_now rotate_now s tokens e,
          refresh-Rotated draws token lookup_now rotate_now s tokens e,
        ))
        (λ x e. ground arith)
