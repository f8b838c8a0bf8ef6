-- ===== src/Queue/Dispatch/Tasks.antt =====
-- Task identifiers (internal/adapter/queue/database.go): the lock of a dispatch under a task identifier
-- has no expiry, and no later dispatch removes it or succeeds under the same identifier.
use golang_clean_architectur.Common.{
  ℕ, ◌≡◌, ◌≢◌, sym, Bool, true, not, ◌&&◌, String, List, [], ◌∷◌, arith, str_eq, str_eq_refl,
  str_eq-ne, any, delete_where, is_some, inl, inr, ◌⊎◌, Option-cases,
}
use mathlib.Core.Path.{subst}
use golang_clean_architectur.Errors.{ok, Result-cases}
use golang_clean_architectur.Sql.{Session, execute, later_faults}
use golang_clean_architectur.Sql.Laws.{transaction-Keeps}
use golang_clean_architectur.Queue.{
  Job, DispatchOptions, JobInfo, DatabaseJob, DatabaseLock, JobTables,
}
use golang_clean_architectur.Queue.Dispatch.{
  is_past, insert_job, insert_lock, sweep_lock, sweep_locks, insert_locks, dispatch_body,
  hash_lock_key, dispatch_locks, dispatch, new_job,
}
use golang_clean_architectur.Queue.Dispatch.Uniqueness.{dispatch-commits, dispatch-rolls_back}
use golang_clean_architectur.Queue.Dispatch.Locks.{
  any-append_last, any-append_own, insert_lock-adds, dispatch_body-refused, holds_key,
}

-- A lock of that key, without an expiry.
abbrev pub is_permanent : String → DatabaseLock → Bool
is_permanent key l = str_eq l.lock_key key && not (is_some l.expires_at)

abbrev pub IsTaken : String → JobTables → Type 0
IsTaken key t = any (is_permanent key) t.locks ≡ true

-- The key of a task's lock.
abbrev pub task_key : (String → String) → String → String
task_key sha256 id = hash_lock_key sha256 "task" id

sweep-IsTaken :
    (key swept : String) (now : ℕ) (xs : List DatabaseLock)
    → any (is_permanent key) xs ≡ true
    → any
        (is_permanent key)
        (delete_where (λ r. str_eq r.lock_key swept && is_past r.expires_at now) xs)
      ≡ true
sweep-IsTaken key swept now [] h = h
sweep-IsTaken key swept now (x ∷ xs) h = ground (arith, sweep-IsTaken key swept now xs)

IsTaken-IsLocked :
    (key : String) (now : ℕ) (xs : List DatabaseLock)
    → any (is_permanent key) xs ≡ true
    → any (holds_key key now) xs ≡ true
IsTaken-IsLocked key now [] h = h
IsTaken-IsLocked key now (x ∷ xs) h = ground (arith, IsTaken-IsLocked key now xs)

module _ {W : Type 0} (key : String) where
  sweep_locks-IsTaken :
      (locks : List DatabaseLock) (now : ℕ) (s : Session JobTables W)
      → IsTaken key s.tables
      → IsTaken key (sweep_locks locks now s).1.tables
  unfolding sweep_locks sweep_lock
  sweep_locks-IsTaken [] now s h = h
  sweep_locks-IsTaken (l ∷ locks) now s h =
      let z = (execute {W = W} (sweep_lock l.lock_key now) s).1 in
      let swept : IsTaken key z.tables =
        ground (arith, sweep-IsTaken key l.lock_key now s.tables.locks h) in
      elim (Option-cases l.expires_at) [
        | inl forever ↦ ground (arith, sweep_locks-IsTaken locks now s h)
        | inr (at, until) ↦ ground (arith, swept, sweep_locks-IsTaken locks now z swept)
      ]

  insert_locks-IsTaken :
      (locks : List DatabaseLock) (s : Session JobTables W) (a : Unit {0})
      → (insert_locks locks s).0 ≡ ok a
      → (any (is_permanent key) locks ≡ true) ⊎ IsTaken key s.tables
      → IsTaken key (insert_locks locks s).1.tables
  unfolding insert_locks
  insert_locks-IsTaken [] s a e h = ground arith
  insert_locks-IsTaken (l ∷ locks) s a e h =
      let z = (execute {W = W} (insert_lock l) s).1 in
      elim (Result-cases (execute {W = W} (insert_lock l) s).0) [
        | inr (x, broken) ↦ absurd (ground arith)
        | inl (x, fine) ↦
            let added = insert_lock-adds "" 0 l s x fine in
            let next : (any (is_permanent key) locks ≡ true) ⊎ IsTaken key z.tables = ground (
              arith,
              added.0,
              any-append_last (is_permanent key) s.tables.locks l,
              any-append_own (is_permanent key) s.tables.locks l,
            ) in
            ground (arith, insert_locks-IsTaken locks z a (ground arith) next)
      ]

  dispatch_body-IsTaken :
      (job : DatabaseJob) (locks : List DatabaseLock) (swept : ℕ) (s : Session JobTables W)
      (a : Unit {0})
      → (any (is_permanent key) locks ≡ true) ⊎ IsTaken key s.tables
      → (dispatch_body job locks swept s).0 ≡ ok a
      → IsTaken key (dispatch_body job locks swept s).1.tables
  unfolding dispatch_body insert_job
  dispatch_body-IsTaken job locks swept s a h e =
      let y = (sweep_locks {W = W} locks swept s).1 in
      let z = (execute {W = W} (insert_job job) y).1 in
      let still : (any (is_permanent key) locks ≡ true) ⊎ IsTaken key z.tables = elim h [
        | inl m ↦ inl m
        | inr k ↦ inr (ground (arith, sweep_locks-IsTaken locks swept s k))
      ] in
      ground (arith, insert_locks-IsTaken locks z a (ground arith) still)

task_wanted :
    (sha256 : String → String) (options : DispatchOptions) (id queue type payload : String) (at : ℕ)
    → options.task_id ≢ ""
    → any
        (is_permanent (task_key sha256 options.task_id))
        (dispatch_locks sha256 id queue type payload options at)
      ≡ true
unfolding dispatch_locks
task_wanted sha256 options id queue type payload at named =
    ground
      (arith, str_eq_refl (task_key sha256 options.task_id), str_eq-ne options.task_id "" named)

permanent-has :
    (key : String) (xs : List DatabaseLock)
    → any (is_permanent key) xs ≡ true
    → any (λ r. str_eq r.lock_key key) xs ≡ true
permanent-has key [] h = h
permanent-has key (x ∷ xs) h = ground (arith, permanent-has key xs)

module _ (sha256 : String → String) {W : Type 0} (job : Job) (options : DispatchOptions)
    (uuid : String) (available created at swept : ℕ) (s : Session JobTables W) where
  -- A dispatch under a task identifier that succeeds takes it for good.
  pub dispatch-takes :
      (info : JobInfo)
      → options.task_id ≢ ""
      → (dispatch sha256 job options uuid available created at swept s).0 ≡ ok info
      → IsTaken
          (task_key sha256 options.task_id)
          (dispatch sha256 job options uuid available created at swept s).1.tables
  unfolding dispatch
  dispatch-takes info named e = elim (Result-cases job.payload) [
    | inr (x, h) ↦ absurd (ground arith)
    | inl (payload, h) ↦
        let (a, done, rows) =
          dispatch-commits sha256 job options payload uuid available created at swept s info h e in
        let row = new_job job payload options uuid available created in
        subst (IsTaken (task_key sha256 options.task_id)) (sym rows) (
          dispatch_body-IsTaken (task_key sha256 options.task_id) row
            (dispatch_locks sha256 row.id row.queue job.type payload options at) swept
            (record s { faults = later_faults s.faults }) a
            (inl (task_wanted sha256 options row.id row.queue job.type payload at named)) done)
  ]

  -- No dispatch gives it back.
  pub dispatch-IsTaken :
      (key : String)
      → IsTaken key s.tables
      → IsTaken key (dispatch sha256 job options uuid available created at swept s).1.tables
  unfolding dispatch
  dispatch-IsTaken key h = elim (Result-cases job.payload) [
    | inr (x, broken) ↦ ground arith
    | inl (payload, fine) ↦
        let row = new_job job payload options uuid available created in
        let locks = dispatch_locks sha256 row.id row.queue job.type payload options at in
        ground (
          arith,
          transaction-Keeps (IsTaken key) (dispatch_body {W = W} row locks swept)
              (λ z a k e. dispatch_body-IsTaken key row locks swept z a (inr k) e) s h,
        )
  ]

  -- No dispatch under a task identifier that was taken succeeds, and none changes a row.
  pub dispatch-refuses :
      options.task_id ≢ ""
      → IsTaken (task_key sha256 options.task_id) s.tables
      → ((info : JobInfo)
          → (dispatch sha256 job options uuid available created at swept s).0 ≢ ok info)
        × ((dispatch sha256 job options uuid available created at swept s).1.tables ≡ s.tables)
  unfolding dispatch
  dispatch-refuses named taken =
      let key = task_key sha256 options.task_id in
      let never : (info : JobInfo)
          → (dispatch sha256 job options uuid available created at swept s).0 ≢ ok info =
        λ info again. elim (Result-cases job.payload) [
          | inr (x, h) ↦ absurd (ground arith)
          | inl (payload, h) ↦
              let (a, done, rows) =
                dispatch-commits sha256 job options payload uuid available created at swept s info h
                  again in
              let row = new_job job payload options uuid available created in
              let locks = dispatch_locks sha256 row.id row.queue job.type payload options at in
              dispatch_body-refused key swept row locks
                (record s { faults = later_faults s.faults }) a
                (permanent-has key locks
                  (task_wanted sha256 options row.id row.queue job.type payload at named))
                (IsTaken-IsLocked key swept s.tables.locks taken) done
        ] in
      (
        never,
        elim (Result-cases (dispatch sha256 job options uuid available created at swept s).0) [
          | inl (info, again) ↦ absurd (never info again)
          | inr (x, broken) ↦
              dispatch-rolls_back sha256 job options uuid available created at swept s x broken
        ],
      )
