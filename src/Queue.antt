-- ===== src/Queue.antt =====
-- internal/queue/queue.go: the jobs, options and answers of a queue, and the registry of handlers;
-- and the rows of internal/adapter/queue/database_models.go. A time is a number of nanoseconds,
-- and the zero `time.Time` is none; a duration may be negative.
pub mod Dispatch
pub mod Worker
pub mod Inspector
pub mod Asynq
use golang_clean_architectur.Common.{
  ℕ, ◌*◌, ◌^◌, ◌+◌, ◌-◌, ◌/◌, ◌%◌, min, suc, zero, Bool, true, false, Option, none, some, String,
  List, [], ◌∷◌, ◌++◌, ◌==◌, str_eq, if◌then◌else◌, any,
}
use golang_clean_architectur.Common.Int.{ℤ, pos, negsuc}
use golang_clean_architectur.Errors.{Error, Result, ok, err, message}

abbrev pub second : ℕ
second = 1_000_000_000

abbrev pub minute : ℕ
minute = 60 * second

abbrev pub hour : ℕ
hour = 3600 * second

-- `queue.Job`: its type, and what `json.Marshal` makes of its payload.
pub record Job : Type 0 where
  pub type : String
  pub payload : Result String

pub record DispatchOptions : Type 0 where
  pub queue : String
  pub process_at : Option ℕ
  pub max_retry : ℤ
  pub timeout : ℤ
  pub unique_for : ℤ
  pub retention : ℤ
  pub task_id : String

pub record JobInfo : Type 0 where
  pub id : String
  pub queue : String

-- `Dispatcher`, over the state that it changes.
pub record Dispatcher (S : Type 0) : Type 0 where
  pub dispatch : Job → DispatchOptions → S → Result JobInfo × S

pub record QueueStats : Type 0 where
  pub pending : ℕ
  pub active : ℕ
  pub scheduled : ℕ
  pub retry : ℕ
  pub failed : ℕ
  pub processed : ℕ

pub record FailedJob : Type 0 where
  pub id : String
  pub queue : String
  pub type : String
  pub retried : ℕ
  pub max_retry : ℕ
  pub last_failed_at : Option ℕ
  pub last_error : String

-- `Inspector`, over the state that it reads and changes.
pub record JobInspector (S : Type 0) : Type 0 where
  pub queues : S → Result (List String) × S
  pub stats : String → S → Result QueueStats × S
  pub failed_jobs : String → ℕ → S → Result (List FailedJob) × S
  pub retry_jobs : String → String → S → Result ℕ × S
  pub delete_jobs : String → String → S → Result ℕ × S
  pub close : S → Result (Unit {0}) × S

pub data Status : Type 0 where
  pending active retry failed completed : Status

abbrev tag : Status → ℕ
tag pending = 0
tag active = 1
tag retry = 2
tag failed = 3
tag completed = 4

abbrev pub status_eq : Status → Status → Bool
status_eq a b = tag a == tag b

pub record DatabaseJob : Type 0 where
  pub id : String
  pub queue : String
  pub type : String
  pub payload : String
  pub status : Status
  pub attempts : ℕ
  pub max_retry : ℕ
  pub timeout_seconds : ℕ
  pub retention_secs : ℕ
  pub available_at : ℕ
  pub lease_token : Option String
  pub leased_until : Option ℕ
  pub last_error : Option String
  pub last_failed_at : Option ℕ
  pub completed_at : Option ℕ
  pub expires_at : Option ℕ
  pub created_at : ℕ

pub record DatabaseLock : Type 0 where
  pub lock_key : String
  pub job_id : String
  pub expires_at : Option ℕ

pub record DatabaseStat : Type 0 where
  pub queue : String
  pub processed_total : ℕ

-- The tables queue_jobs, queue_locks and queue_stats (migration 000003).
pub record JobTables : Type 0 where
  pub jobs : List DatabaseJob
  pub locks : List DatabaseLock
  pub stats : List DatabaseStat

-- `durationSeconds`
unfoldable pub duration_seconds : ℤ → ℕ
duration_seconds (pos d) = if d == 0 then 0 else if d / second == 0 then 1 else d / second
duration_seconds (negsuc d) = 0

-- `retryDelay`: `1<<exponent` seconds, an hour at most.
unfoldable pub retry_delay : ℕ → ℕ
retry_delay attempt = let exponent = min (attempt - 1) 12 in min (second * 2 ^ exponent) hour

-- `Handler`: it answers a payload, at a reading of the clock, and acts on the world.
abbrev pub Handler : Type 0 → Type 0
Handler W = ℕ → String → W → Result (Unit {0}) × W

-- `HandlerRegistry`: the handlers by job type; none is a nil handler.
abbrev pub HandlerRegistry : Type 0 → Type 0
HandlerRegistry W = List (String × Handler W)

unfoldable pub handler_for : {W : Type 0} → HandlerRegistry W → String → Option (Handler W)
handler_for [] job_type = none
handler_for ((key, handler) ∷ rest) job_type =
    if str_eq key job_type then some handler else handler_for rest job_type

unfoldable pub register :
    {W : Type 0} → HandlerRegistry W → String → Option (Handler W) → Result (HandlerRegistry W)
register registry job_type none =
    if str_eq job_type ""
    then err (message "job type is required")
    else err (message "job handler is required")
register registry job_type (some handler) =
    if str_eq job_type ""
    then err (message "job type is required")
    else elim (handler_for registry job_type) [
      | some existing ↦ err (message "handler already registered")
      | none ↦ ok ((job_type, handler) ∷ registry)
    ]
