-- ===== src/Sql/Laws.antt =====
-- Transactions are atomic: laws that hold of every body and of every list of faults.
use golang_clean_architectur.Common.{◌≡◌, refl, [], arith}
use golang_clean_architectur.Errors.{Error, Result, ok, err}
use golang_clean_architectur.Sql.{
  Session, Db, next_fault, later_faults, commit, finish, begin, transaction, ◌>>=◌, execute, write,
}

pub next_fault-nil : next_fault [] ≡ ok tt
unfolding next_fault
next_fault-nil = refl

pub later_faults-nil : later_faults [] ≡ []
unfolding later_faults
later_faults-nil = refl

module _ {T W A : Type 0} where
  commit-Keeps :
      (P : T → Type 0) (old : T) (a : A) (r : Result (Unit {0})) (s : Session T W)
      → P old
      → P s.tables
      → P (commit old a r s).1.tables
  commit-Keeps P old a (ok x) s h k = k
  commit-Keeps P old a (err e) s h k = h

  finish-Keeps :
      (P : T → Type 0) (old : T) (r : Result A) (s : Session T W)
      → P old
      → ((a : A) → r ≡ ok a → P s.tables)
      → P (finish old r s).1.tables
  finish-Keeps P old (ok a) s h k =
      commit-Keeps P old a (next_fault s.faults) (record s { faults = later_faults s.faults }) h
        (k a refl)
  finish-Keeps P old (err e) s h k = h

  -- The postcondition of a successful body holds afterwards, if it holds of unchanged rows too.
  pub transaction-Ensures :
      (P Q : T → Type 0) (body : Db T W A)
      → ((t : T) → P t → Q t)
      → ((s : Session T W) (a : A) → P s.tables → (body s).0 ≡ ok a → Q (body s).1.tables)
      → (s : Session T W) → P s.tables
      → Q (transaction body s).1.tables
  transaction-Ensures P Q body idle step s h =
      let z : Session T W = record s { faults = later_faults s.faults } in
      elim (next_fault s.faults) as (λ r. Q (begin body r z).1.tables) [
        | ok x ↦
            finish-Keeps Q s.tables (body z).0 (body z).1 (idle s.tables h) (λ a e. step z a h e)
        | err e ↦ idle s.tables h
      ]

  -- What a successful body keeps, the transaction keeps.
  pub transaction-Keeps :
      (P : T → Type 0) (body : Db T W A)
      → ((s : Session T W) (a : A) → P s.tables → (body s).0 ≡ ok a → P (body s).1.tables)
      → (s : Session T W) → P s.tables
      → P (transaction body s).1.tables
  transaction-Keeps P body keep = transaction-Ensures P P body (λ t h. h) keep

module _ {T W A : Type 0} (body : Db T W A) where
  -- A transaction that returns an error leaves the rows as they were.
  pub transaction-rolls_back :
      (s : Session T W) (e : Error)
      → (transaction body s).0 ≡ err e
      → (transaction body s).1.tables ≡ s.tables
  transaction-rolls_back s e h = ground arith

  -- A transaction that succeeds has run its body from the rows at hand, to the rows it leaves.
  pub transaction-commits :
      (s : Session T W) (a : A)
      → (transaction body s).0 ≡ ok a
      → let z : Session T W = record s { faults = later_faults s.faults } in
        ((body z).0 ≡ ok a) × ((transaction body s).1.tables ≡ (body z).1.tables)
  transaction-commits s a h = ground arith

-- A write with no constraint: the rows are the old ones or the new ones.
pub execute-Keeps :
    {T W A : Type 0} (P : T → Type 0) (answer : T → A) (f : T → T) (s : Session T W)
    → P s.tables
    → P (f s.tables)
    → P (execute (λ t. ok (answer t, f t)) s).1.tables
execute-Keeps {T} {W} {A} P answer f s h k =
    let z : Session T W = record s { faults = later_faults s.faults } in
    elim (next_fault s.faults)
      as (λ r.
        P
          (elim r as (λ x. Result A × Session T W) [
            | ok x ↦ write (ok (answer z.tables, f z.tables)) z
            | err e ↦ (err e, z)
          ]).1.tables) [ ok x ↦ k | err e ↦ h ]

-- A postcondition of the runs that succeed.
abbrev pub Triple : {T W A : Type 0} → (T → Type 0) → Db T W A → (A → T → Type 0) → Type 0
Triple {T} {W} {A} P m Q =
    (s : Session T W) (a : A) → P s.tables → (m s).0 ≡ ok a → Q a (m s).1.tables

module _ {T W A B : Type 0} where
  bind_step :
      (Q : A → T → Type 0) (R : B → T → Type 0) (f : A → Db T W B) (r : Result A) (z : Session T W)
      → ((a : A) → r ≡ ok a → Q a z.tables)
      → ((a : A) → Triple (Q a) (f a) R)
      → (b : B)
      → (elim r as (λ x. Result B × Session T W) [ ok a ↦ f a z | err e ↦ (err e, z) ]).0 ≡ ok b
      → R b (elim r as (λ x. Result B × Session T W) [ ok a ↦ f a z | err e ↦ (err e, z) ]).1.tables
  bind_step Q R f (ok a) z q k b h = k a z b (q a refl) h
  bind_step Q R f (err e) z q k b h = cc

  -- The rule for a sequence of steps.
  pub bind-Triple :
      (P : T → Type 0) (Q : A → T → Type 0) (R : B → T → Type 0) (m : Db T W A) (f : A → Db T W B)
      → Triple P m Q
      → ((a : A) → Triple (Q a) (f a) R)
      → Triple P (m >>= f) R
  bind-Triple P Q R m f first rest s b h e =
      bind_step Q R f (m s).0 (m s).1 (λ a r. first s a h r) rest b e
