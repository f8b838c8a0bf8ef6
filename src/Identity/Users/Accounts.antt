-- ===== src/Identity/Users/Accounts.antt =====
-- The invariant of the table `users`, and that each method of the repository keeps it.
use golang_clean_architectur.Common.{
  ℕ, suc, ◌<◌, ◌≡◌, sym, Bool, true, false, not, ◌&&◌, ◌||◌, some, String, List, [], ◌∷◌, ◌++◌,
  arith, ◌==◌, str_eq, str_eq_iff, str_eq_symm, is_some, any, All, find_where, update_where, inl,
  inr, ◌⊎◌, Bool-cases,
}
use mathlib.Core.Path.{subst}
use golang_clean_architectur.Errors.{ok}
use golang_clean_architectur.Sql.Rows.{
  All-of_any, All-map, All-zip, All-append, All-update, Apart, Apart-append, Apart-update,
  AtMostOne-of_Apart, AtMostOne, All-trivial, All-update_found,
}
use golang_clean_architectur.Identity.{UserModel, Tables, Driver, unique_user}
use golang_clean_architectur.Identity.Users.{is_admin_row}

-- A waiting email is another's email.
abbrev pub awaits : UserModel → String → Bool
awaits r email = not (str_eq r.pending_email "") && str_eq r.pending_email email

-- Two rows that the table must not hold together: they share a key, a username or an email, they
-- wait for the same email, or one waits for the other's.
unfoldable pub clash : UserModel → UserModel → Bool
clash x y =
    (x.id == y.id)
    || str_eq x.username y.username
    || str_eq x.email y.email
    || awaits x y.pending_email
    || awaits x y.email
    || awaits y x.email

awaits_symm : (x y : UserModel) → awaits x y.pending_email ≡ awaits y x.pending_email
awaits_symm x y =
    ground (
      arith,
      str_eq_iff x.pending_email y.pending_email,
      str_eq_symm x.pending_email y.pending_email,
    )

pub clash_symm : (x y : UserModel) → clash x y ≡ clash y x
unfolding clash
clash_symm x y =
    ground (arith, str_eq_symm x.username y.username, str_eq_symm x.email y.email, awaits_symm x y)

pub record IsValid (t : Tables) : Type 0 where
  -- Usernames, emails and pending emails are told apart, also a pending email from an email.
  pub apart : Apart clash t.users
  pub fresh : All (λ r. r.id < t.next_user) t.users
  pub admins_verified :
      All (λ r. is_admin_row r ≡ true → is_some r.email_verified_at ≡ true) t.users

-- A test that no other row passes.
others :
    (id : ℕ) (p : UserModel → Bool) (rows : List UserModel)
    → any (λ r. not (r.id == id) && p r) rows ≡ false
    → All (λ r. (r.id == id) ≡ false → p r ≡ false) rows
others id p rows h =
    All-map (λ r. (not (r.id == id) && p r) ≡ false) (λ r. (r.id == id) ≡ false → p r ≡ false) rows
      (λ r c e. ground arith) (All-of_any _ rows h)

module _ (driver : Driver) (m : UserModel) where
  Differs : UserModel → Type 0
  Differs r =
      (r.id == m.id) ≡ false
      → (str_eq r.username m.username ≡ false)
        × (str_eq r.email m.email ≡ false)
        × ((m.pending_email ≡ "") ⊎ (str_eq r.pending_email m.pending_email ≡ false))

  waiting_others :
      (rows : List UserModel)
      → unique_user driver m rows ≡ ok tt
      → All
          (λ r.
            (r.id == m.id) ≡ false
            → (m.pending_email ≡ "") ⊎ (str_eq r.pending_email m.pending_email ≡ false))
          rows
  unfolding unique_user
  waiting_others rows h = elim (Bool-cases (str_eq m.pending_email "")) [
    | inl none_waits ↦
        All-map (λ r. Unit {0}) _ rows (λ r c e. inl ((str_eq_iff m.pending_email "").0 none_waits))
          (All-trivial rows)
    | inr waits ↦
        All-map (λ r. (r.id == m.id) ≡ false → str_eq r.pending_email m.pending_email ≡ false) _
          rows (λ r c e. inr (c e))
          (others m.id (λ r. str_eq r.pending_email m.pending_email) rows (ground arith))
  ]

  -- The checks of `unique_user`, row by row.
  unique-rows : (rows : List UserModel) → unique_user driver m rows ≡ ok tt → All Differs rows
  unfolding unique_user Differs
  unique-rows rows h =
      All-map
        (λ r.
          ((r.id == m.id) ≡ false → str_eq r.username m.username ≡ false)
          × (((r.id == m.id) ≡ false → str_eq r.email m.email ≡ false)
              × ((r.id == m.id) ≡ false
                  → (m.pending_email ≡ "") ⊎ (str_eq r.pending_email m.pending_email ≡ false))))
        Differs rows (λ r c e. (c.0 e, c.1.0 e, c.1.1 e))
        (All-zip _ _ rows (others m.id (λ r. str_eq r.username m.username) rows (ground arith)) (
          All-zip _ _ rows (others m.id (λ r. str_eq r.email m.email) rows (ground arith))
            (waiting_others rows h)))

-- A row that no pending email waits for, and that shares nothing else, does not clash.
no-clash :
    (driver : Driver) (m r : UserModel)
    → Differs driver m r
    → (r.id == m.id) ≡ false
    → awaits m r.email ≡ false
    → awaits r m.email ≡ false
    → clash m r ≡ false
unfolding clash Differs
no-clash driver m r d other ahead behind = ground (
  arith,
  d other,
  str_eq_symm m.username r.username,
  str_eq_symm m.email r.email,
  str_eq_symm m.pending_email r.pending_email,
  str_eq_iff m.pending_email "",
)

pub same_key :
    (x y : UserModel) (id : ℕ) → (x.id == id) ≡ true → (y.id == id) ≡ true → clash x y ≡ true
unfolding clash
same_key x y id h k = ground arith

-- A valid table finds at most one row by its primary key.
pub IsValid-key : (t : Tables) → IsValid t → (id : ℕ) → AtMostOne (λ r. r.id == id) t.users
IsValid-key t v id =
    AtMostOne-of_Apart clash (λ r. r.id == id) (λ x y. same_key x y id) t.users v.apart

pub insert_user-IsValid :
    (driver : Driver) (m : UserModel) (t : Tables)
    → IsValid t
    → m.pending_email ≡ ""
    → is_admin_row m ≡ false
    → any (λ r. str_eq r.pending_email m.email) t.users ≡ false
    → unique_user driver (record m { id = t.next_user }) t.users ≡ ok tt
    → IsValid (record t {
      users = t.users ++ record m { id = t.next_user } ∷ [];
      next_user = suc t.next_user;
    })
insert_user-IsValid driver m t v unwaiting plain nobody unique =
    let row = record m { id = t.next_user } in
    record {
      apart =
          Apart-append clash clash_symm row t.users
            (All-map
              (λ r.
                Differs driver row r
                × ((r.id < t.next_user) × (str_eq r.pending_email m.email ≡ false)))
              (λ r. clash row r ≡ false) t.users
              (λ r c.
                no-clash driver row r c.0 (ground arith)
                  (ground (arith, str_eq_iff m.pending_email "")) (ground arith))
              (All-zip _ _ t.users (unique-rows driver row t.users unique)
                (All-zip _ _ t.users v.fresh (All-of_any _ t.users nobody))))
            v.apart;
      fresh =
          All-append _ t.users row (All-map _ _ t.users (λ r h. omega arith) v.fresh) (omega arith);
      admins_verified = All-append _ t.users row v.admins_verified (λ e. cc);
    }

-- An UPDATE of the row `target`, found by its key, to `f target`.
pub update_user-IsValid :
    (driver : Driver) (target : UserModel) (f : UserModel → UserModel) (t : Tables)
    → ((r : UserModel) → (f r).id ≡ r.id)
    → IsValid t
    → find_where (λ r. r.id == target.id) t.users ≡ some target
    → All
        (λ r.
          (r.id == target.id) ≡ false
          → (awaits (f target) r.email ≡ false) × (awaits r (f target).email ≡ false))
        t.users
    → (is_admin_row (f target) ≡ true → is_some (f target).email_verified_at ≡ true)
    → unique_user driver (f target) t.users ≡ ok tt
    → IsValid (record t { users = update_where (λ r. r.id == target.id) f t.users })
update_user-IsValid driver target f t keeps v found apart verified unique =
    let one = IsValid-key t v target.id in
    record {
      apart =
          Apart-update clash clash_symm (λ r. r.id == target.id) f t.users target found one
            (All-map
              (λ r.
                Differs driver (f target) r
                × ((r.id == target.id) ≡ false
                    → (awaits (f target) r.email ≡ false) × (awaits r (f target).email ≡ false)))
              (λ r. (r.id == target.id) ≡ false → clash (f target) r ≡ false) t.users
              (λ r c e. no-clash driver (f target) r c.0 (rw (keeps target) e) (c.1 e).0 (c.1 e).1)
              (All-zip _ _ t.users (unique-rows driver (f target) t.users unique) apart))
            v.apart;
      fresh =
          All-update _ (λ r. r.id == target.id) f t.users (λ r e h. omega (arith, keeps r)) v.fresh;
      admins_verified =
          All-update_found (λ r. is_admin_row r ≡ true → is_some r.email_verified_at ≡ true)
            (λ r. r.id == target.id) f t.users target found one verified v.admins_verified;
    }

-- The invariant reads the users and their next key alone.
pub IsValid-same :
    (t t' : Tables) → t'.users ≡ t.users → t'.next_user ≡ t.next_user → IsValid t → IsValid t'
IsValid-same t t' p q v = record {
  apart = subst (Apart clash) (sym p) v.apart;
  fresh = rw (p, q) v.fresh;
  admins_verified =
      subst (All (λ r. is_admin_row r ≡ true → is_some r.email_verified_at ≡ true)) (sym p)
        v.admins_verified;
}
