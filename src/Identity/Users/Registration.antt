-- ===== src/Identity/Users/Registration.antt =====
-- `Create`, `RegisterUser` and `UpdateProfile` of the repository keep the invariant of `users`.
use golang_clean_architectur.Common.{
  ℕ, ◌≡◌, sym, none, String, arith, ◌==◌, find_where, count_where, inl, inr, Option-cases, str_eq,
}
use mathlib.Core.Path.{subst}
use golang_clean_architectur.Errors.{ok}
use golang_clean_architectur.Sql.{Session, Db, execute, pure, ◌>>=◌, ◌>>◌, map_error}
use golang_clean_architectur.Sql.Laws.{transaction-Keeps, Triple, bind-Triple}
use golang_clean_architectur.User.{User}
use golang_clean_architectur.Identity.{
  Tables, Driver, insert_verification, insert_user, from_user, map_write_error,
}
use golang_clean_architectur.Identity.Users.{
  refuse_pending, create_user, create_user_body, register_user, register_user_body, update_profile,
  update_profile_body,
}
use golang_clean_architectur.Identity.Users.Accounts.{IsValid, IsValid-same}
use golang_clean_architectur.Identity.Users.Invariant.{
  IsNew, Creates, Creates-IsValid, with_user, create_user_body-rows, profile-IsValid,
  update_profile_body-rows,
}

Unclaimed : User → Tables → Type 0
Unclaimed account t =
    IsValid t × (count_where (λ r. str_eq r.pending_email account.email) t.users ≡ 0)

module _ {W : Type 0} (driver : Driver) where
  -- Creating a plain account keeps the invariant.
  pub create_user-IsValid :
      (account : User) (s : Session Tables W)
      → IsNew account
      → IsValid s.tables
      → IsValid (create_user driver account s).1.tables
  unfolding create_user
  create_user-IsValid account s new =
      transaction-Keeps IsValid (create_user_body driver account)
        (λ z a v e.
          let (guards, rows) = create_user_body-rows driver account z a e in
          subst IsValid (sym rows) (Creates-IsValid driver account z.tables new v guards))
        s

  update_profile_body-missing :
      (id : ℕ) (username email : String) (s : Session Tables W) (a : Unit {0})
      → find_where (λ r. r.id == id) s.tables.users ≡ none
      → (update_profile_body driver id username email s).0 ≡ ok a
      → IsValid (update_profile_body driver id username email s).1.tables
  unfolding update_profile_body
  update_profile_body-missing id username email s a missing e = absurd (ground arith)

  -- A new profile keeps the invariant.
  pub update_profile-IsValid :
      (id : ℕ) (username email : String) (s : Session Tables W)
      → IsValid s.tables
      → IsValid (update_profile driver id username email s).1.tables
  unfolding update_profile
  update_profile-IsValid id username email =
      transaction-Keeps IsValid (update_profile_body driver id username email) λ z a v e.
        elim (Option-cases (find_where (λ r. r.id == id) z.tables.users)) [
          | inl missing ↦ update_profile_body-missing id username email z a missing e
          | inr (target, found) ↦
              let (unique, free, rows) =
                update_profile_body-rows driver id username email z a target found e in
              subst IsValid (sym rows)
                (profile-IsValid driver id username email target z.tables v found unique free)
        ]

  refuse_pending-Triple :
      (account : User)
      → Triple {W = W} IsValid (refuse_pending account.email) (λ x. Unclaimed account)
  unfolding Unclaimed
  refuse_pending-Triple account z a v e =
      (IsValid-same z.tables _ (ground arith) (ground arith) v, ground arith)

  insert-Triple :
      (account : User)
      → IsNew account
      → Triple {W = W}
          (Unclaimed account)
          (map_error map_write_error (execute (insert_user driver (from_user account))))
          (λ id. IsValid)
  unfolding insert_user Unclaimed with_user
  insert-Triple account new z a h e =
      let guards : Creates driver account z.tables = record {
        unclaimed = h.1;
        unique = ground arith;
      } in
      IsValid-same (with_user account z.tables) _ (ground arith) (ground arith)
        (Creates-IsValid driver account z.tables new h.0 guards)

  insert_verification-Triple :
      (id : ℕ) (token_hash : String) (expires_at created_at : ℕ)
      → Triple {W = W} IsValid
          (execute (insert_verification driver id token_hash expires_at created_at))
          (λ key. IsValid)
  unfolding insert_verification
  insert_verification-Triple id token_hash expires_at created_at z a v e =
      IsValid-same z.tables _ (ground arith) (ground arith) v

  -- Registering a plain account keeps the invariant, whatever its dispatch does outside the tables.
  pub register_user-IsValid :
      (account : User) (token_hash : String) (expires_at created_at : ℕ)
      (dispatch : User → Db Tables W (Unit {0})) (s : Session Tables W)
      → IsNew account
      → ((u : User) (z : Session Tables W) → (dispatch u z).1.tables ≡ z.tables)
      → IsValid s.tables
      → IsValid (register_user driver account token_hash expires_at created_at dispatch s).1.tables
  unfolding register_user register_user_body
  register_user-IsValid account token_hash expires_at created_at dispatch s new silent =
      transaction-Keeps IsValid
        (register_user_body driver account token_hash expires_at created_at dispatch)
        (bind-Triple IsValid (λ x. Unclaimed account) (λ u. IsValid) (refuse_pending account.email)
          (λ x. insert >>= after_insert) (refuse_pending-Triple account)
          λ x.
            bind-Triple (Unclaimed account) (λ id. IsValid) (λ u. IsValid) insert after_insert
              (insert-Triple account new)
              λ id.
                bind-Triple IsValid (λ key. IsValid) (λ u. IsValid) (token id) (λ key. deliver id)
                  (insert_verification-Triple id token_hash expires_at created_at)
                  λ key.
                    bind-Triple IsValid (λ x. IsValid) (λ u. IsValid)
                      (dispatch (record account { id = id }))
                      (λ x. pure (record account { id = id }))
                      (λ z a v e. subst IsValid (sym (silent (record account { id = id }) z)) v)
                      (λ x z a v e. v))
        s
    where
      insert : Db Tables W ℕ
      insert = map_error map_write_error (execute (insert_user driver (from_user account)))

      token : ℕ → Db Tables W ℕ
      token id = execute (insert_verification driver id token_hash expires_at created_at)

      deliver : ℕ → Db Tables W User
      deliver id = do dispatch (record account { id = id }); pure (record account { id = id })

      after_insert : ℕ → Db Tables W User
      after_insert id = token id >>= λ key. deliver id
