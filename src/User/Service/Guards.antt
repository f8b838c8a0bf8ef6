-- ===== src/User/Service/Guards.antt =====
-- What the guards of internal/user/service.go let through to the repository, and that nothing else
-- changes a row.
use golang_clean_architectur.Common.{
  ℕ, ◌+◌, ◌∙◌, ◌≤◌, ◌≡◌, ◌≢◌, refl, true, not, ◌&&◌, String, some, arith, ◌==◌, str_eq, str_eq_iff,
  find_where, count_where, update_where, List, [], ◌∷◌, inl, inr, Option-cases,
}
use mathlib.Core.Path.{subst}
use Prim.Native.String.{len}
use golang_clean_architectur.Errors.{
  Error, ok, err, is_ok, Result-cases, Answers, answers, on_ok, on_err,
}
use golang_clean_architectur.Sql.{Session, later_faults}
use golang_clean_architectur.Sql.Laws.{transaction-commits, transaction-rolls_back}
use golang_clean_architectur.User.{
  Texts, User, is_admin, role_admin, role_user, validate_password, parse_role, change_password_hash,
}
use golang_clean_architectur.User.Service.{
  PasswordService, change_password, change_role, delete, refuse_last_admin,
}
use golang_clean_architectur.Identity.{Tables, UserModel, RefreshTokenModel, to_user}
use golang_clean_architectur.Identity.Users
use golang_clean_architectur.Identity.Users.{
  get_user_by_id, count_admins, is_admin_row, is_live_of, revoke_at, revoke_all,
  change_password_body,
}
use golang_clean_architectur.Identity.Users.Admins.{
  RoleChanged, change_role_outcome, delete_outcome,
}

-- The refresh tokens of the User that are not revoked.
abbrev pub live_sessions : ℕ → Tables → ℕ
live_sessions id t = count_where (is_live_of id) t.refresh_tokens

revoke_all-none :
    (id now : ℕ) (rows : List RefreshTokenModel)
    → count_where (is_live_of id) (update_where (is_live_of id) (revoke_at now) rows) ≡ 0
revoke_all-none id now [] = refl
revoke_all-none id now (r ∷ rows) = ground (arith, revoke_all-none id now rows)

-- The rows with another password of the User: its hash, the next token version, and no live session.
abbrev pub with_password : ℕ → String → ℕ → Tables → Tables
with_password id hashed now t = record t {
  users =
      update_where (λ r. r.id == id)
        (λ r. record r { password = hashed; token_version = r.token_version + 1 }) t.users;
  refresh_tokens =
      update_where (is_live_of id) (λ r. record r { revoked_at = some now }) t.refresh_tokens;
}

module _ {W : Type 0} where
  get_user_by_id-tables :
      (id : ℕ) (s : Session Tables W) → (get_user_by_id id s).1.tables ≡ s.tables
  unfolding get_user_by_id
  get_user_by_id-tables id s = ground arith

  get_user_by_id-found :
      (id : ℕ) (s : Session Tables W) (u : User)
      → (get_user_by_id id s).0 ≡ ok u
      → (r : UserModel) × (find_where (λ r. r.id == id) s.tables.users ≡ some r) × (u ≡ to_user r)
  unfolding get_user_by_id
  get_user_by_id-found id s u e =
      elim (Option-cases (find_where (λ r. r.id == id) s.tables.users)) [
        | inl missing ↦ absurd (ground arith)
        | inr (r, found) ↦ (r, found, ground arith)
      ]

  change_password_body-rows :
      (id : ℕ) (hashed : String) (now : ℕ) (s : Session Tables W) (a : Unit {0})
      → (change_password_body id hashed now s).0 ≡ ok a
      → (change_password_body id hashed now s).1.tables ≡ with_password id hashed now s.tables
  unfolding change_password_body revoke_all
  change_password_body-rows id hashed now s a e = ground arith

  repository_password :
      (id : ℕ) (hashed : String) (now : ℕ) (s : Session Tables W)
      → ((a : Unit {0})
          → (Users.change_password id hashed now s).0 ≡ ok a
          → (Users.change_password id hashed now s).1.tables ≡ with_password id hashed now s.tables)
        × ((e : Error)
            → (Users.change_password id hashed now s).0 ≡ err e
            → (Users.change_password id hashed now s).1.tables ≡ s.tables)
  unfolding Users.change_password
  repository_password id hashed now s = (
    λ a h.
        let (done, rows) = transaction-commits (change_password_body id hashed now) s a h in
        rows
        ∙ change_password_body-rows id hashed now (record s { faults = later_faults s.faults }) a
            done,
    λ e h. transaction-rolls_back (change_password_body id hashed now) s e h,
  )

module _ (password : PasswordService) {W : Type 0} where
  -- A change of password that succeeds was asked for with the present password of an account that
  -- exists and names one of 12 to 72 bytes. It changes exactly these rows: the User's password, to the
  -- hash of the new one, its token version, to the next, and its live refresh tokens, which are
  -- revoked, so that none is left. One that fails changes no row.
  pub change_password_revokes :
      (id : ℕ) (present next : String) (now : ℕ) (s : Session Tables W)
      → let (r, s') = change_password password id present next now s in
        Answers
          (λ a.
            ((row : UserModel) × (find_where (λ x. x.id == id) s.tables.users ≡ some row)
              × (is_ok (password.compare row.password present) ≡ true))
            × (12 ≤ len next)
            × (len next ≤ 72)
            × (live_sessions id s'.tables ≡ 0)
            × (hashed : String) × (password.hash next ≡ ok hashed)
            × (s'.tables ≡ with_password id hashed now s.tables))
          (λ e. s'.tables ≡ s.tables)
          r
  unfolding change_password validate_password change_password_hash to_user
  change_password_revokes id present next now s =
      let looked = get_user_by_id id s in
      let same = get_user_by_id-tables id s in
      elim (Result-cases looked.0) [
        | inr (e, h) ↦ answers _ (λ a k. absurd (ground arith)) (λ x k. ground arith)
        | inl (u, h) ↦
            let (row, found, is_row) = get_user_by_id-found id s u h in
            elim (Result-cases (password.hash next)) [
              | inr (e, h') ↦ answers _ (λ a k. absurd (ground arith)) (λ x k. ground arith)
              | inl (hashed, h') ↦
                  let repo = repository_password id hashed now looked.1 in
                  answers _
                    (λ a k.
                      let rows : (change_password password id present next now s).1.tables
                          ≡ with_password id hashed now s.tables =
                        ground (arith, repo.0 a) in
                      (
                        (row, found, ground arith),
                        ground arith,
                        ground arith,
                        rw rows (revoke_all-none id now s.tables.refresh_tokens),
                        hashed,
                        h',
                        rows,
                      ))
                    (λ x k. ground (arith, repo.1 x))
            ]
      ]

module _ {W : Type 0} where
  -- `Delete` of the service that succeeds was asked for by an admin other than the target, and
  -- removed exactly the target's rows. One that fails changes no row.
  pub delete_guarded :
      (actor_id target_id : ℕ) (s : Session Tables W)
      → let (r, s') = delete actor_id target_id s in
        Answers
          (λ a.
            (actor_id ≢ target_id)
            × ((actor : UserModel) × (find_where (λ x. x.id == actor_id) s.tables.users
                  ≡ some actor)
                × (actor.role ≡ role_admin))
            × (s'.tables ≡ Users.delete_rows target_id s.tables))
          (λ e. s'.tables ≡ s.tables)
          r
  unfolding delete count_admins to_user
  delete_guarded actor_id target_id s =
      let looked = get_user_by_id actor_id s in
      let same = get_user_by_id-tables actor_id s in
      elim (Result-cases looked.0) [
        | inr (e, h) ↦ answers _ (λ a k. absurd (ground arith)) (λ x k. ground arith)
        | inl (u, h) ↦
            let (row, found, is_row) = get_user_by_id-found actor_id s u h in
            let aimed = get_user_by_id target_id looked.1 in
            let same' = get_user_by_id-tables target_id looked.1 in
            elim (Result-cases aimed.0) [
              | inr (e, h') ↦ answers _ (λ a k. absurd (ground arith)) (λ x k. ground arith)
              | inl (target, h') ↦
                  let z = (refuse_last_admin (is_admin target) aimed.1).1 in
                  let repo = delete_outcome target_id z in
                  answers _
                    (λ a k. (
                      ground arith,
                      (row, found, ground (arith, str_eq_iff row.role role_admin)),
                      ground (arith, on_ok repo a),
                    ))
                    (λ x k. ground (arith, on_err repo x))
            ]
      ]

module _ (texts : Texts) {W : Type 0} where
  open texts use {trim_space, to_lower}

  -- `ChangeRole` of the service that succeeds was asked for by an admin other than the target, promotes
  -- a verified User only, and changes exactly these rows: the target's role, to the one that was named,
  -- trimmed and in lower case, its token version, and its live refresh tokens, which are revoked. One
  -- that fails changes no row.
  pub change_role_guarded :
      (actor_id target_id : ℕ) (role : String) (now : ℕ) (s : Session Tables W)
      → let (r, s') = change_role texts actor_id target_id role now s in
        Answers
          (λ a.
            (actor_id ≢ target_id)
            × RoleChanged actor_id target_id (to_lower (trim_space role)) now s.tables s'.tables)
          (λ e. s'.tables ≡ s.tables)
          r
  unfolding change_role count_admins parse_role
  change_role_guarded actor_id target_id role now s =
      let looked = get_user_by_id actor_id s in
      let same = get_user_by_id-tables actor_id s in
      let wanted = to_lower (trim_space role) in
      elim (Result-cases (parse_role wanted)) [
        | inr (e, h) ↦ answers _ (λ a k. absurd (ground arith)) (λ x k. ground arith)
        | inl (parsed, p) ↦
            let is_wanted : parsed ≡ wanted =
              ground (arith, str_eq_iff wanted role_admin, str_eq_iff wanted role_user) in
            elim (Result-cases looked.0) [
              | inr (e, h) ↦ answers _ (λ a k. absurd (ground arith)) (λ x k. ground arith)
              | inl (u, h) ↦
                  let aimed = get_user_by_id target_id looked.1 in
                  let same' = get_user_by_id-tables target_id looked.1 in
                  elim (Result-cases aimed.0) [
                    | inr (e, h') ↦ answers _ (λ a k. absurd (ground arith)) (λ x k. ground arith)
                    | inl (target, h') ↦
                        let z =
                          (refuse_last_admin (is_admin target && not (str_eq parsed role_admin))
                            aimed.1).1 in
                        let repo = change_role_outcome actor_id target_id parsed now z in
                        let still : z.tables ≡ s.tables = ground arith in
                        let final = (change_role texts actor_id target_id role now s).1.tables in
                        answers _
                          (λ a k.
                            let through : (Users.change_role actor_id target_id parsed now z).0
                                ≡ ok a =
                              ground arith in
                            (
                              ground arith,
                              subst (λ w. RoleChanged actor_id target_id w now s.tables final)
                                  is_wanted
                                  (subst (λ t. RoleChanged actor_id target_id parsed now t final)
                                    still
                                    (subst
                                      (λ t. RoleChanged actor_id target_id parsed now z.tables t)
                                      (ground arith) (on_ok repo a through))),
                            ))
                          (λ x k. ground (arith, on_err repo x))
                  ]
            ]
      ]
