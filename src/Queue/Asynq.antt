-- ===== src/Queue/Asynq.antt =====
-- internal/adapter/queue/asynq.go: the dispatcher and the inspector of the redis queue, and the
-- server's settings. The library asynq is `Client` and `RedisInspector`, over the state `S` of redis.
pub mod Outcomes
use golang_clean_architectur.Common.{
  ℕ, ◌*◌, Bool, true, false, ◌||◌, Option, none, some, String, List, [], ◌∷◌, ◌++◌, map, str_eq,
  is_some, if◌then◌else◌,
}
use golang_clean_architectur.Common.Int.{ℤ, pos, is_positive, to_ℕ}
use golang_clean_architectur.Errors.{
  Error, Result, ok, err, sentinel, wrap, is, duplicate_job, duplicate_task, task_id_conflict,
}
use golang_clean_architectur.Config.{QueueConfig}
use golang_clean_architectur.Queue.{
  Job, DispatchOptions, JobInfo, QueueStats, FailedJob, Dispatcher, JobInspector, Handler,
  HandlerRegistry, second,
}

-- `asynq.Option`
pub data TaskOption : Type 0 where
  queue task_id : String → TaskOption
  process_at : ℕ → TaskOption
  max_retry timeout unique retention : ℤ → TaskOption

-- `asynq.TaskInfo`, as far as it is read.
pub record TaskInfo : Type 0 where
  pub id : String
  pub queue : String
  pub type : String
  pub retried : ℕ
  pub max_retry : ℕ
  pub last_failed_at : Option ℕ
  pub last_err : String

-- `asynq.QueueInfo`, as far as it is read.
pub record QueueInfo : Type 0 where
  pub pending : ℕ
  pub active : ℕ
  pub scheduled : ℕ
  pub retry : ℕ
  pub archived : ℕ
  pub processed_total : ℕ

-- `asynq.Client`: `EnqueueContext` for a type, a payload and options.
pub record Client (S : Type 0) : Type 0 where
  pub enqueue : String → String → List TaskOption → S → Result TaskInfo × S

-- `asynq.Inspector`
pub record RedisInspector (S : Type 0) : Type 0 where
  pub queues : S → Result (List String) × S
  pub get_queue_info : String → S → Result QueueInfo × S
  pub list_archived_tasks : String → ℕ → S → Result (List TaskInfo) × S
  pub run_task : String → String → S → Result (Unit {0}) × S
  pub run_all_archived_tasks : String → S → Result ℕ × S
  pub delete_task : String → String → S → Result (Unit {0}) × S
  pub delete_all_archived_tasks : String → S → Result ℕ × S
  pub close : S → Result (Unit {0}) × S

abbrev option_if : Bool → TaskOption → List TaskOption
option_if true o = o ∷ []
option_if false o = []

abbrev option_of_text : String → (String → TaskOption) → List TaskOption
option_of_text s o = if str_eq s "" then [] else o s ∷ []

-- The options that `Dispatch` hands to the client.
unfoldable pub task_options : DispatchOptions → List TaskOption
task_options o =
    option_of_text o.queue queue
    ++ ((elim o.process_at [ none ↦ [] | some at ↦ process_at at ∷ [] ])
        ++ (option_if (is_positive o.max_retry) (max_retry o.max_retry)
            ++ (option_if (is_positive o.timeout) (timeout o.timeout)
                ++ (option_if (is_positive o.unique_for) (unique o.unique_for)
                    ++ (option_if (is_positive o.retention) (retention o.retention)
                        ++ option_of_text o.task_id task_id)))))

-- The error that `Dispatch` returns for one of the client's.
abbrev pub duplicate_or : Error → Error
duplicate_or e = if is e duplicate_task || is e task_id_conflict then sentinel duplicate_job else e

abbrev answer_of : Result TaskInfo → Result JobInfo
answer_of (ok info) = ok (record { id = info.id; queue = info.queue })
answer_of (err e) = err (duplicate_or e)

abbrev stats_of : QueueInfo → QueueStats
stats_of info = record {
  pending = info.pending;
  active = info.active;
  scheduled = info.scheduled;
  retry = info.retry;
  failed = info.archived;
  processed = info.processed_total;
}

abbrev failed_of : TaskInfo → FailedJob
failed_of task = record {
  id = task.id;
  queue = task.queue;
  type = task.type;
  retried = task.retried;
  max_retry = task.max_retry;
  last_failed_at = task.last_failed_at;
  last_error = task.last_err;
}

abbrev map_answer : {A B : Type 0} → (A → B) → Result A → Result B
map_answer f (ok a) = ok (f a)
map_answer f (err e) = err e

module _ {S : Type 0} where
  abbrev then_map : {A B : Type 0} → (A → B) → Result A × S → Result B × S
  then_map f (r, s) = (map_answer f r, s)

  -- `Dispatch`
  unfoldable pub dispatch : Client S → Job → DispatchOptions → S → Result JobInfo × S
  dispatch client job options s = elim job.payload [
    | err e ↦ (err (wrap "marshal job" e), s)
    | ok payload ↦
        let (r, s') = client.enqueue job.type payload (task_options options) s in (answer_of r, s')
  ]

  abbrev pub redis_dispatcher : Client S → Dispatcher S
  redis_dispatcher client = record { dispatch = dispatch client }

  module _ (inspector : RedisInspector S) where
    unfoldable pub stats : String → S → Result QueueStats × S
    stats name s = then_map stats_of (inspector.get_queue_info name s)

    unfoldable pub failed_jobs : String → ℕ → S → Result (List FailedJob) × S
    failed_jobs name limit s = then_map (map failed_of) (inspector.list_archived_tasks name limit s)

    -- `Retry` and `Delete` answer 1 for one task.
    unfoldable pub retry_jobs : String → String → S → Result ℕ × S
    retry_jobs name id s =
        if str_eq id "all"
        then inspector.run_all_archived_tasks name s
        else then_map (λ x. 1) (inspector.run_task name id s)

    unfoldable pub delete_jobs : String → String → S → Result ℕ × S
    delete_jobs name id s =
        if str_eq id "all"
        then inspector.delete_all_archived_tasks name s
        else then_map (λ x. 1) (inspector.delete_task name id s)

    abbrev pub redis_inspector : JobInspector S
    redis_inspector = record {
      queues = inspector.queues;
      stats = stats;
      failed_jobs = failed_jobs;
      retry_jobs = retry_jobs;
      delete_jobs = delete_jobs;
      close = inspector.close;
    }

-- `asynq.Config`, and the handlers of the `ServeMux` by their types.
pub record Server (W : Type 0) : Type 0 where
  pub concurrency : ℤ
  pub queues : List (String × ℤ)
  pub shutdown_timeout : ℕ
  pub mux : List (String × Handler W)

-- `NewServer`, for settings whose shutdown time is not negative.
unfoldable pub new_server : {W : Type 0} → QueueConfig → HandlerRegistry W → Server W
new_server cfg registry = record {
  concurrency = cfg.concurrency;
  queues = cfg.queues;
  shutdown_timeout = to_ℕ cfg.shutdown_seconds * second;
  mux = registry;
}
