-- ===== src/Queue/Dispatch/Added.antt =====
-- What a dispatch leaves in queue_jobs (internal/adapter/queue/database.go).
use golang_clean_architectur.Common.{
  ℕ, ◌≡◌, ◌≢◌, refl, false, String, List, [], ◌∷◌, ◌++◌, arith, any, str_eq,
}
use golang_clean_architectur.Errors.{Error, ok, err}
use golang_clean_architectur.Sql.{Session, execute, later_faults}
use golang_clean_architectur.Queue.{
  Job, DispatchOptions, JobInfo, JobTables, DatabaseJob, DatabaseLock,
}
use golang_clean_architectur.Queue.Dispatch.{
  sweep_lock, sweep_locks, insert_job, insert_lock, insert_locks, dispatch_body, dispatch_locks,
  dispatch, new_job,
}
use golang_clean_architectur.Queue.Dispatch.Uniqueness.{dispatch-commits}

module _ {W : Type 0} where
  sweep_locks-jobs :
      (locks : List DatabaseLock) (now : ℕ) (s : Session JobTables W)
      → (sweep_locks locks now s).1.tables.jobs ≡ s.tables.jobs
  unfolding sweep_locks sweep_lock
  sweep_locks-jobs [] now s = refl
  sweep_locks-jobs (l ∷ locks) now s = ground (
    arith,
    sweep_locks-jobs locks now s,
    sweep_locks-jobs locks now (execute {W = W} (sweep_lock l.lock_key now) s).1,
  )

  insert_locks-jobs :
      (locks : List DatabaseLock) (s : Session JobTables W)
      → (insert_locks locks s).1.tables.jobs ≡ s.tables.jobs
  unfolding insert_locks insert_lock
  insert_locks-jobs [] s = refl
  insert_locks-jobs (l ∷ locks) s =
      ground (arith, insert_locks-jobs locks (execute {W = W} (insert_lock l) s).1)

  dispatch_body-jobs :
      (job : DatabaseJob) (locks : List DatabaseLock) (now : ℕ) (s : Session JobTables W)
      (a : Unit {0})
      → (dispatch_body job locks now s).0 ≡ ok a
      → ((dispatch_body job locks now s).1.tables.jobs ≡ s.tables.jobs ++ job ∷ [])
        × (any (λ r. str_eq r.id job.id) s.tables.jobs ≡ false)
  unfolding dispatch_body insert_job
  dispatch_body-jobs job locks now s a e =
      let y = (sweep_locks {W = W} locks now s).1 in
      let z = (execute {W = W} (insert_job job) y).1 in
      ground (arith, sweep_locks-jobs locks now s, insert_locks-jobs locks z)

module _ (sha256 : String → String) {W : Type 0} where
  -- A dispatch that succeeds adds one row at the end of the jobs, under an identifier that no other
  -- row has, and answers its identifier and queue.
  pub dispatch-adds :
      (job : Job) (options : DispatchOptions) (payload uuid : String)
      (available created at swept : ℕ) (s : Session JobTables W) (info : JobInfo)
      → job.payload ≡ ok payload
      → (dispatch sha256 job options uuid available created at swept s).0 ≡ ok info
      → let row = new_job job payload options uuid available created in
        ((dispatch sha256 job options uuid available created at swept s).1.tables.jobs
          ≡ s.tables.jobs ++ row ∷ [])
        × (any (λ r. str_eq r.id row.id) s.tables.jobs ≡ false)
        × (info ≡ record { id = row.id; queue = row.queue })
  unfolding dispatch
  dispatch-adds job options payload uuid available created at swept s info p e =
      let row = new_job job payload options uuid available created in
      let locks = dispatch_locks sha256 row.id row.queue job.type payload options at in
      let (a, done, rows) =
        dispatch-commits sha256 job options payload uuid available created at swept s info p e in
      let (added, fresh) =
        dispatch_body-jobs row locks swept (record s { faults = later_faults s.faults }) a done in
      (rw rows added, fresh, ground arith)

  pub dispatch-unmarshalled :
      (job : Job) (options : DispatchOptions) (uuid : String) (available created at swept : ℕ)
      (s : Session JobTables W) (e : Error) (info : JobInfo)
      → job.payload ≡ err e
      → (dispatch sha256 job options uuid available created at swept s).0 ≢ ok info
  unfolding dispatch
  dispatch-unmarshalled job options uuid available created at swept s e info p h = ground arith
