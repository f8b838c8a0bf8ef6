-- ===== src/Queue/Dispatch.antt =====
-- internal/adapter/queue/database.go: `DatabaseDispatcher.Dispatch`. The generator of identifiers
-- and SHA-256 are parameters; the readings of the clock are arguments.
pub mod Locks
pub mod Uniqueness
pub mod Tasks
pub mod Added
use Prim.Native.String.{◌++◌ as str_append}
use golang_clean_architectur.Common.{
  ℕ, suc, ◌+◌, Bool, true, false, not, ◌&&◌, ◌||◌, Option, none, some, String, List, [], ◌∷◌, ◌++◌,
  ◌==◌, leb, str_eq, if◌then◌else◌, any, delete_where,
}
use golang_clean_architectur.Common.Int.{ℤ, pos, negsuc, is_positive, to_ℕ}
use golang_clean_architectur.Errors.{
  Error, Result, ok, err, sentinel, wrap, mysql, is, as_mysql, gorm_duplicated_key, duplicate_job,
}
use golang_clean_architectur.Sql.{
  Session, Db, pure, fail, ◌>>=◌, ◌>>◌, execute, transaction, map_error,
}
use golang_clean_architectur.Queue.{
  Job, DispatchOptions, JobInfo, DatabaseJob, DatabaseLock, JobTables, Dispatcher, pending,
  duration_seconds,
}

-- `isDuplicateKey`
unfoldable pub is_duplicate_key : Error → Bool
is_duplicate_key e =
    if is e gorm_duplicated_key
    then true
    else elim (as_mysql e) [ none ↦ false | some (number, message) ↦ number == 1062 ]

abbrev pub default_max_retry : ℕ
default_max_retry = 25

positive_or : ℕ → ℤ → ℕ
positive_or default z = if is_positive z then to_ℕ z else default

-- `chooseJobID`
unfoldable pub choose_job_id : String → String → String
choose_job_id task_id uuid = if str_eq task_id "" then uuid else task_id

-- expires_at <= now, false of NULL
abbrev pub is_past : Option ℕ → ℕ → Bool
is_past none now = false
is_past (some at) now = leb at now

-- INSERT INTO queue_jobs, and INTO queue_locks: their primary keys, whose error the connection
-- translates.
unfoldable pub insert_job : DatabaseJob → JobTables → Result (Unit {0} × JobTables)
insert_job job t =
    if any (λ r. str_eq r.id job.id) t.jobs
    then err (sentinel gorm_duplicated_key)
    else ok (tt, record t { jobs = t.jobs ++ job ∷ [] })

unfoldable pub insert_lock : DatabaseLock → JobTables → Result (Unit {0} × JobTables)
insert_lock lock t =
    if any (λ r. str_eq r.lock_key lock.lock_key) t.locks
    then err (sentinel gorm_duplicated_key)
    else ok (tt, record t { locks = t.locks ++ lock ∷ [] })

-- DELETE FROM queue_locks WHERE lock_key = key AND expires_at <= now
unfoldable pub sweep_lock : String → ℕ → JobTables → Result (Unit {0} × JobTables)
sweep_lock key now t = ok (
  tt,
  record t {
    locks = delete_where (λ r. str_eq r.lock_key key && is_past r.expires_at now) t.locks;
  },
)

duplicate_or : Error → Error
duplicate_or e = if is_duplicate_key e then sentinel duplicate_job else e

queue_or_default : String → String
queue_or_default queue = if str_eq queue "" then "default" else queue

-- The row that `Dispatch` inserts; `created_now` is gorm's stamp.
unfoldable pub new_job : Job → String → DispatchOptions → String → ℕ → ℕ → DatabaseJob
unfolding positive_or queue_or_default
new_job job payload options uuid available_now created_now = record {
  id = choose_job_id options.task_id uuid;
  queue = queue_or_default options.queue;
  type = job.type;
  payload = payload;
  status = pending;
  attempts = 0;
  max_retry = positive_or default_max_retry options.max_retry;
  timeout_seconds = duration_seconds options.timeout;
  retention_secs = duration_seconds options.retention;
  available_at = elim options.process_at [ none ↦ available_now | some at ↦ at ];
  lease_token = none;
  leased_until = none;
  last_error = none;
  last_failed_at = none;
  completed_at = none;
  expires_at = none;
  created_at = created_now;
}

module _ {W : Type 0} where
  sweep_locks : List DatabaseLock → ℕ → Db JobTables W (Unit {0})
  sweep_locks [] now = pure tt
  sweep_locks (lock ∷ locks) now =
      (elim lock.expires_at [ none ↦ pure tt | some at ↦ execute (sweep_lock lock.lock_key now) ])
      >> sweep_locks locks now

  insert_locks : List DatabaseLock → Db JobTables W (Unit {0})
  insert_locks [] = pure tt
  insert_locks (lock ∷ locks) = execute (insert_lock lock) >> insert_locks locks

  -- The function that the transaction runs.
  unfoldable pub dispatch_body : DatabaseJob → List DatabaseLock → ℕ → Db JobTables W (Unit {0})
  unfolding sweep_locks insert_locks
  dispatch_body job locks now = do
    sweep_locks locks now
    execute (insert_job job)
    insert_locks locks

module _ (sha256 : String → String) where
  -- `hashLockKey`
  unfoldable pub hash_lock_key : String → String → String
  hash_lock_key prefix value = str_append prefix (str_append ":" (sha256 value))

  unfoldable pub unique_value : String → String → String → String
  unique_value queue job_type payload =
      str_append queue (str_append "\0" (str_append job_type (str_append "\0" payload)))

  -- `dispatchLocks`
  unfoldable pub dispatch_locks :
      String → String → String → String → DispatchOptions → ℕ → List DatabaseLock
  dispatch_locks job_id queue job_type payload options now =
      (if str_eq options.task_id ""
        then []
        else (record {
          lock_key = hash_lock_key "task" options.task_id;
          job_id = job_id;
          expires_at = none;
        })
          ∷ [])
      ++ (if is_positive options.unique_for
          then (record {
            lock_key = hash_lock_key "unique" (unique_value queue job_type payload);
            job_id = job_id;
            expires_at = some (now + to_ℕ options.unique_for);
          })
            ∷ []
          else [])

module _ (sha256 : String → String) {W : Type 0} where
  unfoldable pub dispatch : Job → DispatchOptions → String → ℕ → ℕ → ℕ → ℕ → Db JobTables W JobInfo
  unfolding duplicate_or
  dispatch job options uuid available_now created_now locks_now sweep_now = elim job.payload [
    | err e ↦ fail (wrap "marshal job" e)
    | ok payload ↦
        let row = new_job job payload options uuid available_now created_now in
        let locks = dispatch_locks sha256 row.id row.queue job.type payload options locks_now in
        map_error duplicate_or (transaction (dispatch_body row locks sweep_now))
        >> pure (record { id = row.id; queue = row.queue })
  ]

-- The random identifier and the readings of the clock of one dispatch.
pub record Readings : Type 0 where
  pub uuid : String
  pub available : ℕ
  pub created : ℕ
  pub locks : ℕ
  pub sweep : ℕ

-- `NewDatabaseDispatcher`
abbrev pub database_dispatcher :
    (String → String) → Readings → {W : Type 0} → Dispatcher (Session JobTables W)
database_dispatcher sha256 at = record {
  dispatch = λ job options s.
      dispatch sha256 job options at.uuid at.available at.created at.locks at.sweep s;
}
