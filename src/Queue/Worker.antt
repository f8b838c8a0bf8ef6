-- ===== src/Queue/Worker.antt =====
-- internal/adapter/queue/database.go: `DatabaseWorker`, and database_reservation.go. `locked` tells
-- the rows that another transaction holds, which SKIP LOCKED passes over.
pub mod Lease
pub mod Exclusion
pub mod Holds
pub mod Rivals
pub mod Attempts
pub mod Ends
pub mod Failing
pub mod Loop
use Prim.Native.String.{compare as compare_text}
use text.Mathlib.Text.{is_le}
use golang_clean_architectur.Common.{
  ℕ, zero, suc, ◌+◌, ◌*◌, ◌/◌, ◌<◌, Bool, true, false, not, ◌&&◌, ◌||◌, Option, none, some, String,
  List, [], ◌∷◌, ◌++◌, map, ◌==◌, ltb, leb, str_eq, if◌then◌else◌, any, count_where, select_where,
  update_where, delete_where, take, max,
}
use golang_clean_architectur.Errors.{
  Error, Result, ok, err, sentinel, message, is, gorm_record_not_found,
}
use golang_clean_architectur.Sql.{
  Session, Db, pure, fail, lift, attempt, effect, ◌>>=◌, ◌>>◌, query, execute, transaction, or_fail,
}
use golang_clean_architectur.Queue.{
  DatabaseJob, DatabaseLock, DatabaseStat, JobTables, Status, pending, active, retry, failed,
  completed, status_eq, second, retry_delay, HandlerRegistry, Handler, handler_for,
}
use golang_clean_architectur.Queue.Dispatch.{is_past}

-- The WHERE of a reservation: due and waiting, or held under a lease that ran out.
abbrev pub is_reservable : String → ℕ → DatabaseJob → Bool
is_reservable queue now r =
    str_eq r.queue queue
    && (((status_eq r.status pending || status_eq r.status retry) && leb r.available_at now)
        || (status_eq r.status active && is_past r.leased_until now))

-- ORDER BY available_at, created_at, and gorm's primary key.
unfoldable pub precedes : DatabaseJob → DatabaseJob → Bool
precedes x y =
    if ltb x.available_at y.available_at
    then true
    else if ltb y.available_at x.available_at
    then false
    else if ltb x.created_at y.created_at
    then true
    else if ltb y.created_at x.created_at
    then false
    else is_le (compare_text x.id y.id)

better : DatabaseJob → Option DatabaseJob → DatabaseJob
better x none = x
better x (some y) = if precedes x y then x else y

-- LIMIT 1 of the rows that fit, in that order.
unfoldable pub first_by_order : (DatabaseJob → Bool) → List DatabaseJob → Option DatabaseJob
unfolding better
first_by_order p [] = none
first_by_order p (x ∷ xs) =
    let best = first_by_order p xs in if p x then some (better x best) else best

-- The columns that a reservation sets.
abbrev pub lease : String → ℕ → DatabaseJob → DatabaseJob
lease token until r = record r {
  status = active;
  attempts = r.attempts + 1;
  lease_token = some token;
  leased_until = some until;
}

none_if_missing : Result DatabaseJob → Result (Option DatabaseJob)
none_if_missing (ok job) = ok (some job)
none_if_missing (err e) = if is e gorm_record_not_found then ok none else err e

module _ {W : Type 0} where
  unfoldable pub reserve_body :
      (String → Bool) → String → ℕ → ℕ → String → Db JobTables W DatabaseJob
  reserve_body locked queue now reservation token = do
    found ← query (λ t. first_by_order (λ r. is_reservable queue now r && not (locked r.id)) t.jobs)
    job ← or_fail found (sentinel gorm_record_not_found)
    execute (λ t. ok (
      tt,
      record t {
        jobs = update_where (λ r. str_eq r.id job.id) (lease token (now + reservation)) t.jobs;
      },
    ))
    pure (lease token (now + reservation) job)

  -- `reserveDatabaseJob`: none where no job is to be had. `token` is a fresh UUID.
  unfoldable pub reserve_database_job :
      (String → Bool) → String → ℕ → ℕ → String → Db JobTables W (Option DatabaseJob)
  unfolding none_if_missing
  reserve_database_job locked queue now reservation token = do
    r ← attempt (transaction (reserve_body locked queue now reservation token))
    lift (none_if_missing r)

-- id = job.id AND status = active AND lease_token = *job.LeaseToken; a reserved job has a token.
abbrev pub holds_token : Option String → Option String → Bool
holds_token none theirs = false
holds_token (some mine) none = false
holds_token (some mine) (some theirs) = str_eq theirs mine

abbrev pub is_held : DatabaseJob → DatabaseJob → Bool
is_held job r =
    str_eq r.id job.id && (status_eq r.status active && holds_token job.lease_token r.lease_token)

-- INSERT INTO queue_stats … ON CONFLICT (queue) DO UPDATE SET processed_total = processed_total + 1
unfoldable pub add_processed : String → List DatabaseStat → List DatabaseStat
add_processed queue [] = (record { queue = queue; processed_total = 1 }) ∷ []
add_processed queue (x ∷ xs) =
    if str_eq x.queue queue
    then record x { processed_total = x.processed_total + 1 } ∷ xs
    else x ∷ add_processed queue xs

-- job_id = id AND expires_at IS NULL
abbrev pub is_task_lock : String → DatabaseLock → Bool
is_task_lock id l = elim l.expires_at [ none ↦ str_eq l.job_id id | some at ↦ false ]

abbrev pub finished : ℕ → ℕ → DatabaseJob → DatabaseJob
finished now retention r = record r {
  status = completed;
  completed_at = some now;
  expires_at = some (now + retention * second);
  lease_token = none;
  leased_until = none;
}

-- The first statement of `complete`: a DELETE without retention, or an UPDATE.
unfoldable pub complete_rows : DatabaseJob → ℕ → List DatabaseJob → List DatabaseJob
complete_rows job now jobs =
    if job.retention_secs == 0
    then delete_where (is_held job) jobs
    else update_where (is_held job) (finished now job.retention_secs) jobs

-- The columns that `fail` sets.
unfoldable pub failure : DatabaseJob → Error → (Error → String) → ℕ → DatabaseJob → DatabaseJob
failure job e text now r =
    let spent = ltb job.max_retry job.attempts in
    record r {
      status = if spent then failed else retry;
      available_at = if spent then now else now + retry_delay job.attempts;
      last_error = some (text e);
      last_failed_at = some now;
      lease_token = none;
      leased_until = none;
    }

module _ {W : Type 0} where
  abbrev forget_task_locks : DatabaseJob → Db JobTables W (Unit {0})
  forget_task_locks job =
      if job.retention_secs == 0
      then execute (λ t. ok (tt, record t { locks = delete_where (is_task_lock job.id) t.locks }))
      else pure tt

  abbrev count_completion : DatabaseJob → ℕ → Db JobTables W (Unit {0})
  count_completion job zero = pure tt
  count_completion job (suc affected) = do
    forget_task_locks job
    execute (λ t. ok (tt, record t { stats = add_processed job.queue t.stats }))

  unfoldable pub complete_body : DatabaseJob → ℕ → Db JobTables W (Unit {0})
  complete_body job now = do
    affected ← execute (λ t.
        ok (count_where (is_held job) t.jobs, record t { jobs = complete_rows job now t.jobs }))
    count_completion job affected

  unfoldable pub complete : DatabaseJob → ℕ → Db JobTables W (Unit {0})
  complete job now = transaction (complete_body job now)

  unfoldable pub fail_job : DatabaseJob → Error → (Error → String) → ℕ → Db JobTables W (Unit {0})
  fail_job job e text now =
      execute (λ t.
        ok (tt, record t { jobs = update_where (is_held job) (failure job e text now) t.jobs }))

  -- One tick of `heartbeat`.
  unfoldable pub heartbeat : DatabaseJob → ℕ → ℕ → Db JobTables W (Unit {0})
  heartbeat job reservation now = execute (λ t. ok (
    tt,
    record t {
      jobs =
          update_where (is_held job) (λ r. record r { leased_until = some (now + reservation) })
            t.jobs;
    },
  ))

  -- What becomes of a job once its handler has answered: `ended` is the error of the handler's
  -- context when the handler returned.
  unfoldable pub settle_job :
      (Error → String)
      → DatabaseJob
      → Option Error
      → ℕ
      → Result (Unit {0})
      → Db JobTables W (Result (Unit {0}))
  settle_job text job ended now (err e) = attempt (fail_job job e text now)
  settle_job text job (some e) now (ok done) = attempt (fail_job job e text now)
  settle_job text job none now (ok done) = attempt (complete job now)

  -- `process`: the handler reads the clock at `handled`; `now` is the reading with which the outcome
  -- is written. What fails to be written is only logged. `stored` is the text that the JSON column of
  -- the payload gives back for the one that was inserted.
  unfoldable pub process :
      (String → String)
      → HandlerRegistry W
      → (Error → String)
      → DatabaseJob
      → Option Error
      → ℕ
      → ℕ
      → Db JobTables W (Result (Unit {0}))
  process stored registry text job ended handled now s = elim (handler_for registry job.type) [
    | none ↦ attempt (fail_job job (message "no handler registered") text now) s
    | some handler ↦
        let (answer, world) = handler handled (stored job.payload) s.world in
        settle_job text job ended now answer (record s { world = world })
  ]

-- status = completed AND expires_at <= now
abbrev pub is_expired : ℕ → DatabaseJob → Bool
is_expired now r = status_eq r.status completed && is_past r.expires_at now

abbrev pub is_in : List String → String → Bool
is_in ids id = any (λ x. str_eq x id) ids

abbrev pub cleanup_interval : ℕ
cleanup_interval = 30 * second

module _ {W : Type 0} where
  cleanup_jobs : List String → Db JobTables W (Unit {0})
  cleanup_jobs ids = transaction do
    execute (λ t. ok (
      tt,
      record t {
        locks =
            delete_where (λ l. elim l.expires_at [ none ↦ is_in ids l.job_id | some at ↦ false ])
              t.locks;
      },
    ))
    execute (λ t. ok (tt, record t { jobs = delete_where (λ r. is_in ids r.id) t.jobs }))

  sweep_past : ℕ → Db JobTables W (Unit {0})
  sweep_past now =
      execute
        (λ t. ok (tt, record t { locks = delete_where (λ l. is_past l.expires_at now) t.locks }))

  -- The rows of the LIMIT are the first 100 that fit.
  expired_ids : ℕ → Db JobTables W (List String)
  expired_ids now = query (λ t. map (λ r. r.id) (take 100 (select_where (is_expired now) t.jobs)))

  -- What `cleanup` does with the answer of its scan.
  remove_completed : Result (List String) → Db JobTables W (Result (Unit {0}))
  remove_completed (err e) = pure (err e)
  remove_completed (ok []) = pure (ok tt)
  remove_completed (ok (id ∷ rest)) = attempt (cleanup_jobs (id ∷ rest))

  -- `cleanup`: every error is logged.
  unfoldable pub cleanup : ℕ → Db JobTables W (Result (Unit {0}))
  unfolding cleanup_jobs sweep_past expired_ids remove_completed
  cleanup now = do attempt (sweep_past now); ids ← attempt (expired_ids now); remove_completed ids

-- The worker's `nextCleanup`; none is the zero time.
pub record WorkerState : Type 0 where
  pub next_cleanup : Option ℕ

-- `maybeCleanup`
unfoldable pub maybe_cleanup : ℕ → Db JobTables WorkerState (Result (Unit {0}))
maybe_cleanup now s =
    if elim s.world.next_cleanup [ none ↦ false | some next ↦ ltb now next ]
    then pure (ok tt) s
    else (effect (λ w. record { next_cleanup = some (now + cleanup_interval) }) >> cleanup now) s

-- `reserve`
unfoldable pub reserve :
    (String → Bool) → String → ℕ → ℕ → String → Db JobTables WorkerState (Option DatabaseJob)
reserve locked queue now reservation token =
    maybe_cleanup now >>= λ cleaned. reserve_database_job locked queue now reservation token
