-- ===== src/Identity/Users/Admins.antt =====
-- The last admin: `CountAdmins`, `ChangeRole` and `Delete` of the repository.
use golang_clean_architectur.Common.{
  ℕ, ◌<◌, ◌≡◌, true, some, arith, ◌==◌, count_where, find_where, inl, inr, Option-cases, List, any,
  ◌∙◌, sym, is_some, str_eq_iff, update_where,
}
use mathlib.Core.Path.{subst}
use golang_clean_architectur.Errors.{ok, Answers, answers}
use golang_clean_architectur.Sql.{Session, later_faults}
use golang_clean_architectur.Sql.Laws.{
  transaction-Ensures, transaction-commits, transaction-rolls_back,
}
use golang_clean_architectur.Sql.Rows.{
  any-of_find, All-trivial, All-find, AtMostOne, count-delete, count-update,
}
use golang_clean_architectur.User.{Role, role_admin}
use golang_clean_architectur.Identity.{UserModel, Tables}
use golang_clean_architectur.Identity.Users.{
  is_admin_row, set_role, change_role, change_role_body, delete, delete_body, delete_rows,
  revoke_all,
}

abbrev pub admins : Tables → ℕ
admins t = count_where is_admin_row t.users

-- The primary key of `users`.
abbrev pub IsKeyed : Tables → Type 0
IsKeyed t = (id : ℕ) → AtMostOne (λ r. r.id == id) t.users

pub found_id :
    (id : ℕ) (rows : List UserModel) (target : UserModel)
    → find_where (λ r. r.id == id) rows ≡ some target
    → target.id ≡ id
found_id id rows target e =
    ground (arith, (All-find (λ r. Unit {0}) (λ r. r.id == id) rows target e (All-trivial rows)).1)

-- The row that a primary key finds, by its own key.
pub found_self :
    (id : ℕ) (rows : List UserModel) (target : UserModel)
    → find_where (λ r. r.id == id) rows ≡ some target
    → find_where (λ r. r.id == target.id) rows ≡ some target
found_self id rows target e =
    subst (λ k. find_where (λ r. r.id == k) rows ≡ some target) (sym (found_id id rows target e)) e

-- What `ChangeRole` did, where it returned nil.
abbrev pub RoleChanged : ℕ → ℕ → Role → ℕ → Tables → Tables → Type 0
RoleChanged actor_id target_id role now t t' =
    (actor target : UserModel) × (find_where (λ r. r.id == actor_id) t.users ≡ some actor)
    × (find_where (λ r. r.id == target_id) t.users ≡ some target)
    × (actor.role ≡ role_admin)
    × (role ≡ role_admin → is_some target.email_verified_at ≡ true)
    × (t'
        ≡ revoke_all target_id now
            (record t { users = update_where (λ r. r.id == target.id) (set_role role) t.users }))

module _ {W : Type 0} where
  delete_body-admins :
      (id : ℕ) (s : Session Tables W) (a : Unit {0})
      → IsKeyed s.tables × (0 < admins s.tables)
      → (delete_body id s).0 ≡ ok a
      → 0 < admins (delete_body id s).1.tables
  unfolding delete_body delete_rows
  delete_body-admins id s a h e =
      elim (Option-cases (find_where (λ r. r.id == id) s.tables.users)) [
        | inl missing ↦ ground arith
        | inr (target, found) ↦ ground (
          arith,
          count-delete (λ r. r.id == target.id) is_admin_row s.tables.users target
              (found_self id s.tables.users target found) (h.0 target.id),
        )
      ]

  -- The repository deletes no last admin: where there is an admin and each key has one row at most, an
  -- admin is left, whichever User is deleted and whichever statements fail.
  pub delete-keeps_admin :
      (id : ℕ) (s : Session Tables W)
      → IsKeyed s.tables
      → 0 < admins s.tables
      → 0 < admins (delete id s).1.tables
  unfolding delete
  delete-keeps_admin id s keyed some_admin =
      transaction-Ensures (λ t. IsKeyed t × (0 < admins t)) (λ t. 0 < admins t) (delete_body id)
        (λ t h. h.1) (delete_body-admins id) s (keyed, some_admin)

  change_role_body-admins :
      (actor_id target_id : ℕ) (role : Role) (now : ℕ) (s : Session Tables W) (a : Unit {0})
      → IsKeyed s.tables × (0 < admins s.tables)
      → (change_role_body actor_id target_id role now s).0 ≡ ok a
      → 0 < admins (change_role_body actor_id target_id role now s).1.tables
  unfolding change_role_body revoke_all
  change_role_body-admins actor_id target_id role now s a h e =
      elim (Option-cases (find_where (λ r. r.id == target_id) s.tables.users)) [
        | inl missing ↦ ground arith
        | inr (target, found) ↦ ground (
          arith,
          count-update (λ r. r.id == target.id) is_admin_row (set_role role) s.tables.users target
              (found_self target_id s.tables.users target found) (h.0 target.id),
        )
      ]

  -- A change of role leaves an admin where there was one and each key has one row at most, whichever
  -- Users it names, whatever the role, and whichever statements fail.
  pub change_role-keeps_admin :
      (actor_id target_id : ℕ) (role : Role) (now : ℕ) (s : Session Tables W)
      → IsKeyed s.tables
      → 0 < admins s.tables
      → 0 < admins (change_role actor_id target_id role now s).1.tables
  unfolding change_role
  change_role-keeps_admin actor_id target_id role now s keyed some_admin =
      transaction-Ensures (λ t. IsKeyed t × (0 < admins t)) (λ t. 0 < admins t)
        (change_role_body actor_id target_id role now) (λ t h. h.1)
        (change_role_body-admins actor_id target_id role now) s (keyed, some_admin)

  change_role_body-RoleChanged :
      (actor_id target_id : ℕ) (role : Role) (now : ℕ) (s : Session Tables W) (a : Unit {0})
      → (change_role_body actor_id target_id role now s).0 ≡ ok a
      → RoleChanged actor_id target_id role now s.tables
          (change_role_body actor_id target_id role now s).1.tables
  unfolding change_role_body revoke_all
  change_role_body-RoleChanged actor_id target_id role now s a e =
      elim (Option-cases (find_where (λ r. r.id == actor_id) s.tables.users)) [
        | inl missing ↦ ground arith
        | inr (actor, found_actor) ↦
            elim (Option-cases (find_where (λ r. r.id == target_id) s.tables.users)) [
              | inl missing ↦ ground arith
              | inr (target, found) ↦ (
                actor,
                target,
                found_actor,
                found,
                ground (arith, str_eq_iff actor.role role_admin),
                ground (arith, str_eq_iff role role_admin),
                ground arith,
              )
            ]
      ]

  -- `ChangeRole` either returns an error and changes no row, or the actor was an admin, the target
  -- exists and is verified if it becomes an admin, and exactly these rows change: the target's role
  -- and token version, and its live refresh tokens, which are revoked.
  pub change_role_outcome :
      (actor_id target_id : ℕ) (role : Role) (now : ℕ) (s : Session Tables W)
      → let (r, s') = change_role actor_id target_id role now s in
        Answers
          (λ a. RoleChanged actor_id target_id role now s.tables s'.tables)
          (λ e. s'.tables ≡ s.tables)
          r
  unfolding change_role
  change_role_outcome actor_id target_id role now s =
      answers _
        (λ a h.
          let done = transaction-commits (change_role_body actor_id target_id role now) s a h in
          subst (RoleChanged actor_id target_id role now s.tables) (sym done.1) (
            change_role_body-RoleChanged actor_id target_id role now
              (record s { faults = later_faults s.faults }) a done.0))
        (λ e h. transaction-rolls_back (change_role_body actor_id target_id role now) s e h)

  delete_body-rows :
      (id : ℕ) (s : Session Tables W) (a : Unit {0})
      → (delete_body id s).0 ≡ ok a
      → (any (λ r. r.id == id) s.tables.users ≡ true)
        × ((delete_body id s).1.tables ≡ delete_rows id s.tables)
  unfolding delete_body delete_rows
  delete_body-rows id s a e = elim (Option-cases (find_where (λ r. r.id == id) s.tables.users)) [
    | inl missing ↦ ground arith
    | inr (target, found) ↦ (
      any-of_find (λ r. r.id == id) s.tables.users target found,
      subst (λ k. (delete_body id s).1.tables ≡ delete_rows k s.tables)
          (found_id id s.tables.users target found) (ground arith),
    )
  ]

  -- `Delete` either returns an error and changes no row, or the User existed and exactly its row,
  -- its refresh tokens and its verification tokens are gone.
  pub delete_outcome :
      (id : ℕ) (s : Session Tables W)
      → let (r, s') = delete id s in
        Answers
          (λ a.
            (any (λ r. r.id == id) s.tables.users ≡ true) × (s'.tables ≡ delete_rows id s.tables))
          (λ e. s'.tables ≡ s.tables)
          r
  unfolding delete
  delete_outcome id s =
      answers _
        (λ a h.
          let (done, rows) = transaction-commits (delete_body id) s a h in
          let (found, left) =
            delete_body-rows id (record s { faults = later_faults s.faults }) a done in
          (found, rows ∙ left))
        (λ e h. transaction-rolls_back (delete_body id) s e h)
