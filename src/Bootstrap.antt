-- ===== src/Bootstrap.antt =====
-- internal/bootstrap/bootstrap.go: the parts that the settings choose, with cmd/app/queue.go's opening
-- of the queue and `NewRegistry` of internal/scheduler/scheduler.go. A nil connection is none; what
-- asynq and gorm open is `Backends`.
pub mod Handlers
pub mod Built
pub mod Cleanup
use golang_clean_architectur.Common.{
  ℕ, ◌*◌, Bool, not, Option, none, some, String, [], ◌∷◌, map, str_eq, if◌then◌else◌,
}
use golang_clean_architectur.Common.Int.{pos}
use golang_clean_architectur.Errors.{Result, ok, err, message, wrap}
use golang_clean_architectur.Sql.{Session}
use golang_clean_architectur.Config.{
  Config, RedisConfig, DatabaseConfig, QueueConfig, queue_driver_redis, queue_driver_database,
}
use golang_clean_architectur.Queue.{JobTables, Dispatcher, JobInspector, HandlerRegistry, minute}
use golang_clean_architectur.Queue.Dispatch.{Readings, database_dispatcher}
use golang_clean_architectur.Queue.Inspector.{database_inspector}
use golang_clean_architectur.Queue.Asynq.{
  Client, RedisInspector, Server, redis_dispatcher, redis_inspector, new_server,
}
use golang_clean_architectur.Mail.{Transport}
use golang_clean_architectur.Mail.Jobs.{Payloads, cleanup_refresh_tokens, register_handlers}
use golang_clean_architectur.Scheduler.{Calendar, Definition, Registry, register}

-- What the libraries open: asynq for an address, gorm for the settings of the database.
pub record Backends (S D : Type 0) : Type 0 where
  pub new_client : RedisConfig → Client S
  pub new_inspector : RedisConfig → RedisInspector S
  pub open_database : DatabaseConfig → S → Result D × S
  pub close_database : D → S → Result (Unit {0}) × S

module _ {A D : Type 0} where
  abbrev connected : Option D → A → Result A
  connected none part = err (message "database connection is required for database queue driver")
  connected (some db) part = ok part

  -- The `switch` on the driver.
  unfoldable pub by_driver : String → Option D → A → A → Result A
  by_driver driver db redis database =
      if str_eq driver queue_driver_redis
      then ok redis
      else if str_eq driver queue_driver_database
      then connected db database
      else err (message "unsupported queue driver")

module _ {W D : Type 0} (backends : Backends (Session JobTables W) D) where
  -- `Dispatcher`
  unfoldable pub dispatcher :
      (String → String) → Readings → Config → Option D → Result (Dispatcher (Session JobTables W))
  dispatcher sha256 at cfg db =
      by_driver cfg.queue.driver db (redis_dispatcher (backends.new_client cfg.redis))
        (database_dispatcher sha256 at)

  -- `Inspector`
  unfoldable pub inspector :
      (String → ℕ) → Config → Option D → Result (JobInspector (Session JobTables W))
  inspector clock cfg db =
      by_driver cfg.queue.driver db (redis_inspector (backends.new_inspector cfg.redis))
        (database_inspector (map (λ q. q.0) cfg.queue.queues) clock)

  -- `openQueueDB`
  unfoldable pub open_queue_db :
      Config → Session JobTables W → Result (Option D) × Session JobTables W
  open_queue_db cfg s =
      if not (str_eq cfg.queue.driver queue_driver_database)
      then (ok none, s)
      else (let (r, s') = backends.open_database cfg.database s in
          elim r [ ok db ↦ (ok (some db), s') | err e ↦ (err e, s') ])

  abbrev pub close_db : Option D → Session JobTables W → Result (Unit {0}) × Session JobTables W
  close_db none s = (ok tt, s)
  close_db (some db) s = backends.close_database db s

  -- `managedInspector`: it closes the connection after the inspector.
  abbrev pub managed :
      JobInspector (Session JobTables W) → Option D → JobInspector (Session JobTables W)
  managed i db = record i {
    close = λ s. let (r, s') = i.close s in elim r [ err e ↦ (err e, s') | ok x ↦ close_db db s' ];
  }

  -- `newInspector`
  unfoldable pub new_inspector :
      (String → ℕ)
      → Result Config
      → Session JobTables W
      → Result (JobInspector (Session JobTables W)) × Session JobTables W
  new_inspector clock loaded s = elim loaded [
    | err e ↦ (err e, s)
    | ok cfg ↦
        let (opened, s') = open_queue_db cfg s in
        elim opened [
          | err e ↦ (err e, s')
          | ok db ↦ elim (inspector clock cfg db) [
            | err e ↦ (err e, (close_db db s').1)
            | ok i ↦ (ok (managed i db), s')
          ]
        ]
  ]

-- `queue.Worker`
pub data Worker (V : Type 0) : Type 0 where
  redis_worker : Server V → Worker V
  database_worker : QueueConfig → HandlerRegistry V → Worker V

-- The handlers that a worker was made with.
abbrev pub handlers_of : {V : Type 0} → Worker V → HandlerRegistry V
handlers_of (redis_worker server) = server.mux
handlers_of (database_worker cfg registry) = registry

-- `Worker`; `transport` is what `smtp.NewTransport` answers, and `cleanup` the method of the
-- maintenance service.
unfoldable pub worker :
    {V D : Type 0}
    → Payloads
    → (ℕ → V → Result ℕ × V)
    → Result Transport
    → Config
    → Option D
    → Result (Worker V)
worker payloads cleanup transport cfg none =
    err (message "database connection is required by worker job handlers")
worker payloads cleanup transport cfg (some db) = elim transport [
  | err e ↦ err e
  | ok send ↦ elim (register_handlers payloads [] cleanup (some send)) [
    | err e ↦ err (wrap "register job handlers" e)
    | ok registry ↦
        by_driver cfg.queue.driver (some db) (redis_worker (new_server cfg.queue registry))
          (database_worker cfg.queue registry)
  ]
]

-- `NewRegistry`, for a parser that is given.
unfoldable pub new_registry : Calendar → String → Result Registry
new_registry calendar timezone = elim (calendar.load_location timezone) [
  | err e ↦ err (wrap "load scheduler timezone" e)
  | ok location ↦ ok (record { default_location = location; definitions = [] })
]

-- The definition that `ScheduleRegistry` registers.
abbrev pub cleanup_schedule : Payloads → String → Definition
cleanup_schedule payloads timezone = record {
  name = "cleanup-refresh-tokens";
  cron = "0 0 * * *";
  timezone = timezone;
  job = some (cleanup_refresh_tokens payloads);
  dispatch_options = record {
    queue = "maintenance";
    process_at = none;
    max_retry = pos 3;
    timeout = pos 0;
    unique_for = pos 0;
    retention = pos (2 * minute);
    task_id = "";
  };
}

-- `ScheduleRegistry`
unfoldable pub schedule_registry : Calendar → Payloads → Config → Result Registry
schedule_registry calendar payloads cfg = elim (new_registry calendar cfg.scheduler.timezone) [
  | err e ↦ err e
  | ok registry ↦ register calendar registry (cleanup_schedule payloads cfg.scheduler.timezone)
]
