-- ===== src/Queue/Dispatch/Locks.antt =====
-- Locks of the database queue (internal/adapter/queue/database.go): which a dispatch leaves, and which
-- refuse one.
use golang_clean_architectur.Common.{
  ℕ, ◌≡◌, ◌≢◌, Bool, true, false, not, ◌&&◌, String, List, [], ◌∷◌, ◌++◌, arith, str_eq, str_eq_iff,
  any, delete_where, inl, inr, ◌⊎◌, Bool-cases, Option-cases,
}
use mathlib.Core.Path.{subst}
use golang_clean_architectur.Errors.{ok, Result-cases}
use golang_clean_architectur.Sql.{Session, execute}
use golang_clean_architectur.Queue.{DatabaseJob, DatabaseLock, JobTables}
use golang_clean_architectur.Queue.Dispatch.{
  is_past, insert_job, insert_lock, sweep_lock, sweep_locks, insert_locks, dispatch_body,
}

-- The lock has that key and is not past at that time.
abbrev pub holds_key : String → ℕ → DatabaseLock → Bool
holds_key key now l = str_eq l.lock_key key && not (is_past l.expires_at now)

abbrev pub IsLocked : String → ℕ → JobTables → Type 0
IsLocked key now t = any (holds_key key now) t.locks ≡ true

pub any-append_last :
    (p : DatabaseLock → Bool) (xs : List DatabaseLock) (l : DatabaseLock)
    → any p xs ≡ true
    → any p (xs ++ l ∷ []) ≡ true
any-append_last p [] l h = absurd (ground arith)
any-append_last p (x ∷ xs) l h = ground (arith, any-append_last p xs l)

pub any-append_own :
    (p : DatabaseLock → Bool) (xs : List DatabaseLock) (l : DatabaseLock)
    → p l ≡ true
    → any p (xs ++ l ∷ []) ≡ true
any-append_own p [] l h = ground arith
any-append_own p (x ∷ xs) l h = ground (arith, any-append_own p xs l)

sweep-keeps :
    (key swept : String) (now : ℕ) (xs : List DatabaseLock)
    → any (holds_key key now) xs ≡ true
    → any
        (holds_key key now)
        (delete_where (λ r. str_eq r.lock_key swept && is_past r.expires_at now) xs)
      ≡ true
sweep-keeps key swept now [] h = h
sweep-keeps key swept now (x ∷ xs) h = ground (arith, sweep-keeps key swept now xs)

holds-has :
    (key : String) (now : ℕ) (xs : List DatabaseLock)
    → any (holds_key key now) xs ≡ true
    → any (λ r. str_eq r.lock_key key) xs ≡ true
holds-has key now [] h = h
holds-has key now (x ∷ xs) h = ground (arith, holds-has key now xs)

module _ {W : Type 0} (key : String) (now : ℕ) where
  sweep_lock-IsLocked :
      (swept : String) (s : Session JobTables W)
      → IsLocked key now s.tables
      → IsLocked key now (execute (sweep_lock swept now) s).1.tables
  unfolding sweep_lock
  sweep_lock-IsLocked swept s h = ground (arith, sweep-keeps key swept now s.tables.locks h)

  sweep_locks-IsLocked :
      (locks : List DatabaseLock) (s : Session JobTables W)
      → IsLocked key now s.tables
      → IsLocked key now (sweep_locks locks now s).1.tables
  unfolding sweep_locks
  sweep_locks-IsLocked [] s h = h
  sweep_locks-IsLocked (l ∷ locks) s h =
      let z = (execute {W = W} (sweep_lock l.lock_key now) s).1 in
      let swept = sweep_lock-IsLocked l.lock_key s h in
      elim (Option-cases l.expires_at) [
        | inl forever ↦ ground (arith, sweep_locks-IsLocked locks s h)
        | inr (at, until) ↦ ground (arith, swept, sweep_locks-IsLocked locks z swept)
      ]

  pub insert_lock-adds :
      (l : DatabaseLock) (s : Session JobTables W) (a : Unit {0})
      → (execute (insert_lock l) s).0 ≡ ok a
      → ((execute (insert_lock l) s).1.tables.locks ≡ s.tables.locks ++ l ∷ [])
        × (any (λ r. str_eq r.lock_key l.lock_key) s.tables.locks ≡ false)
  unfolding insert_lock
  insert_lock-adds l s a e = (ground arith, ground arith)

  insert_locks-IsLocked :
      (locks : List DatabaseLock) (s : Session JobTables W) (a : Unit {0})
      → (insert_locks locks s).0 ≡ ok a
      → (any (holds_key key now) locks ≡ true) ⊎ IsLocked key now s.tables
      → IsLocked key now (insert_locks locks s).1.tables
  unfolding insert_locks
  insert_locks-IsLocked [] s a e h = ground arith
  insert_locks-IsLocked (l ∷ locks) s a e h =
      let z = (execute {W = W} (insert_lock l) s).1 in
      elim (Result-cases (execute {W = W} (insert_lock l) s).0) [
        | inr (x, broken) ↦ absurd (ground arith)
        | inl (x, fine) ↦
            let added = insert_lock-adds l s x fine in
            let next : (any (holds_key key now) locks ≡ true) ⊎ IsLocked key now z.tables = ground (
              arith,
              added.0,
              any-append_last (holds_key key now) s.tables.locks l,
              any-append_own (holds_key key now) s.tables.locks l,
            ) in
            ground (arith, insert_locks-IsLocked locks z a (ground arith) next)
      ]

  insert_locks-refused :
      (locks : List DatabaseLock) (s : Session JobTables W) (a : Unit {0})
      → any (λ r. str_eq r.lock_key key) locks ≡ true
      → any (λ r. str_eq r.lock_key key) s.tables.locks ≡ true
      → (insert_locks locks s).0 ≢ ok a
  unfolding insert_locks
  insert_locks-refused [] s a m h e = ground arith
  insert_locks-refused (l ∷ locks) s a m h e =
      let z = (execute {W = W} (insert_lock l) s).1 in
      elim (Result-cases (execute {W = W} (insert_lock l) s).0) [
        | inr (x, broken) ↦ ground arith
        | inl (x, fine) ↦
            let added = insert_lock-adds l s x fine in
            elim (Bool-cases (str_eq l.lock_key key)) [
              | inl mine ↦
                  let same = (str_eq_iff l.lock_key key).0 mine in
                  absurd (
                    ground (
                      arith,
                      h,
                      subst (λ k. any (λ r. str_eq r.lock_key k) s.tables.locks ≡ false) same
                          added.1,
                    ))
              | inr other ↦
                  insert_locks-refused locks z a (ground arith)
                    (rw (added.0) (any-append_last (λ r. str_eq r.lock_key key) s.tables.locks l h))
                    (ground arith)
            ]
      ]

  -- A dispatch that succeeded leaves its locks in place.
  pub dispatch_body-IsLocked :
      (job : DatabaseJob) (locks : List DatabaseLock) (swept : ℕ) (s : Session JobTables W)
      (a : Unit {0})
      → any (holds_key key now) locks ≡ true
      → (dispatch_body job locks swept s).0 ≡ ok a
      → IsLocked key now (dispatch_body job locks swept s).1.tables
  unfolding dispatch_body
  dispatch_body-IsLocked job locks swept s a m e =
      let y = (sweep_locks {W = W} locks swept s).1 in
      let z = (execute {W = W} (insert_job job) y).1 in
      ground (arith, insert_locks-IsLocked locks z a (ground arith) (inl m))

  -- A dispatch that wants a lock that holds does not succeed.
  pub dispatch_body-refused :
      (job : DatabaseJob) (locks : List DatabaseLock) (s : Session JobTables W) (a : Unit {0})
      → any (λ r. str_eq r.lock_key key) locks ≡ true
      → IsLocked key now s.tables
      → (dispatch_body job locks now s).0 ≢ ok a
  unfolding dispatch_body insert_job
  dispatch_body-refused job locks s a m h e =
      let y = (sweep_locks {W = W} locks now s).1 in
      let z = (execute {W = W} (insert_job job) y).1 in
      let held = sweep_locks-IsLocked locks s h in
      let has = holds-has key now y.tables.locks held in
      let still : any (λ r. str_eq r.lock_key key) z.tables.locks ≡ true = ground (arith, has) in
      insert_locks-refused locks z a m still (ground arith)
