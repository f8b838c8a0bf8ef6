-- ===== src/Sql.antt =====
-- What the repositories and the queue ask of gorm: statements that may fail, and transactions.
-- The rows of a database are the field `tables`; `world` is what no rollback undoes (messages
-- already handed to a queue). `faults` says, statement by statement, whether the connection, a
-- lock or a deadline makes the next one fail, and with which error: the database itself is not in
-- the repository, so every theorem holds for every such list.
pub mod Laws
pub mod Rows
use golang_clean_architectur.Common.{Bool, true, false, List, [], ◌∷◌, Option, none, some}
use golang_clean_architectur.Errors.{Error, Result, ok, err}

pub record Session (T W : Type 0) : Type 0 where
  pub tables : T
  pub world : W
  pub faults : List (Option Error)

-- An action on the database: the session comes back after an error too.
abbrev pub Db : Type 0 → Type 0 → Type 0 → Type 0
Db T W A = Session T W → Result A × Session T W

-- Shut: proofs split on whether the next statement fails, and never ask why.
unfoldable pub next_fault : List (Option Error) → Result (Unit {0})
next_fault [] = ok tt
next_fault (none ∷ fs) = ok tt
next_fault (some e ∷ fs) = err e

unfoldable pub later_faults : List (Option Error) → List (Option Error)
later_faults [] = []
later_faults (f ∷ fs) = fs

module _ {T W A : Type 0} where
  abbrev pub pure : A → Db T W A
  pure a s = (ok a, s)

  abbrev pub fail : Error → Db T W A
  fail e s = (err e, s)

  abbrev pub lift : Result A → Db T W A
  lift r s = (r, s)

  -- The code inspects the error itself instead of returning it.
  abbrev pub attempt : Db T W A → Db T W (Result A)
  attempt m s = let (r, s') = m s in (ok r, s')

infixl 5 ◌>>=◌ ◌>>◌
abbrev pub ◌>>=◌ : {T W A B : Type 0} → Db T W A → (A → Db T W B) → Db T W B
◌>>=◌ m f s = let (r, s') = m s in elim r [ ok a ↦ f a s' | err e ↦ (err e, s') ]

abbrev pub ◌>>◌ : {T W A B : Type 0} → Db T W A → Db T W B → Db T W B
m >> k = m >>= λ _. k

module _ {T W : Type 0} where
  -- One round trip to the database, before its effect.
  abbrev pub statement : Db T W (Unit {0})
  statement s = (next_fault s.faults, record s { faults = later_faults s.faults })

  abbrev pub modify : (T → T) → Db T W (Unit {0})
  modify f s = (ok tt, record s { tables = f s.tables })

  abbrev pub effect : (W → W) → Db T W (Unit {0})
  effect f s = (ok tt, record s { world = f s.world })

  abbrev pub rollback : T → Session T W → Session T W
  rollback old s = record s { tables = old }

module _ {T W A : Type 0} where
  -- A SELECT.
  abbrev pub query : (T → A) → Db T W A
  query f s =
      let (r, s') = statement s in elim r [ ok _ ↦ (ok (f s'.tables), s') | err e ↦ (err e, s') ]

  -- The effect of a write: a violated constraint is an error and changes no row.
  abbrev pub write : Result (A × T) → Session T W → Result A × Session T W
  write (ok (a, t)) s = (ok a, record s { tables = t })
  write (err e) s = (err e, s)

  -- An INSERT, UPDATE or DELETE.
  abbrev pub execute : (T → Result (A × T)) → Db T W A
  execute f s =
      let (r, s') = statement s in elim r [ ok _ ↦ write (f s'.tables) s' | err e ↦ (err e, s') ]

  -- The answer to COMMIT: the rows stay, or are those from before.
  abbrev pub commit : T → A → Result (Unit {0}) → Session T W → Result A × Session T W
  commit old a (ok x) s = (ok a, s)
  commit old a (err e) s = (err e, rollback old s)

  abbrev pub finish : T → Result A → Session T W → Result A × Session T W
  finish old (ok a) s = let (r, s') = statement s in commit old a r s'
  finish old (err e) s = (err e, rollback old s)

  -- The answer to BEGIN.
  abbrev pub begin : Db T W A → Result (Unit {0}) → Session T W → Result A × Session T W
  begin body (ok x) s = let (r, s') = body s in finish s.tables r s'
  begin body (err e) s = (err e, s)

  -- `db.Transaction(body)`: BEGIN, the body, then COMMIT or ROLLBACK. The rows are those from
  -- before unless the body returns nil and the COMMIT succeeds.
  abbrev pub transaction : Db T W A → Db T W A
  transaction body s = let (r, s') = statement s in begin body r s'

module _ {T W : Type 0} where
  -- `if test { return e }`
  abbrev pub refuse : Bool → Error → Db T W (Unit {0})
  refuse true e s = (err e, s)
  refuse false e s = (ok tt, s)

abbrev pub rename_error : {A : Type 0} → (Error → Error) → Result A → Result A
rename_error f (ok a) = ok a
rename_error f (err e) = err (f e)

module _ {T W A : Type 0} where
  -- `First`: gorm.ErrRecordNotFound where no row fits.
  abbrev pub or_fail : Option A → Error → Db T W A
  or_fail none e s = (err e, s)
  or_fail (some a) e s = (ok a, s)

  abbrev pub map_error : (Error → Error) → Db T W A → Db T W A
  map_error f m s = let (r, s') = m s in (rename_error f r, s')
