-- ===== src/Tests/Starting.antt =====
-- internal/bootstrap at concrete settings.
use golang_clean_architectur.Common.{
  ℕ, none, ◌+◌, ◌*◌, ◌≡◌, ◌≢◌, refl, true, some, String, [], ◌∷◌, arith, str_eq, str_eq_iff, ◌==◌,
  ◌-◌,
}
use golang_clean_architectur.Errors.{Result, ok, err, message}
use golang_clean_architectur.Sql.{Session, next_fault, later_faults}
use golang_clean_architectur.Queue.{
  Dispatcher, JobInspector, JobTables, DatabaseJob, handler_for, register as register_handler,
  minute,
}
use golang_clean_architectur.Queue.Dispatch.{
  Readings, dispatch, dispatch_body, dispatch_locks, new_job, insert_job, insert_lock, sweep_lock,
  choose_job_id,
}
use golang_clean_architectur.Identity.{Tables}
use golang_clean_architectur.Auth.Maintenance.{cleanup_refresh_tokens as clean_up, repository}
use golang_clean_architectur.Queue.Worker.{lease}
use golang_clean_architectur.Mail.{Message, type_send}
use golang_clean_architectur.Mail.Jobs.{
  Payloads, register_handlers, handle_cleanup, handle_send, handle_demo, type_cleanup_refresh_token,
  type_demo_log,
}
use golang_clean_architectur.Scheduler.{
  Calendar, Scheduled, Registry, register, insert_by_name, due, dispatch_each, outcomes, task_id,
  minute_of,
}
use golang_clean_architectur.Bootstrap.{
  Backends, Worker, handlers_of, by_driver, dispatcher, inspector, worker, database_worker,
  new_registry, schedule_registry, cleanup_schedule,
}
use golang_clean_architectur.Bootstrap.Handlers.{CleanupLaw}
use golang_clean_architectur.Bootstrap.Cleanup.{
  IsCleanupRegistry, IsCleanupRow, Cleans, scheduled_cleanup,
}
use golang_clean_architectur.Bootstrap.Built.{Handles, loaded_builds}
use golang_clean_architectur.Tests.Data.{texts, session}
use golang_clean_architectur.Tests.Settings.{parsers, sources, loaded, loads}

-- JSON that reads back the clean-up job.
abbrev payloads : Payloads
payloads = record {
  marshal_send = λ job. err (message "payload");
  unmarshal_send = λ text. err (message "payload");
  marshal_demo = λ job. ok "demo";
  unmarshal_demo = λ text. ok (record { message = text });
  marshal_cleanup = ok "{}";
  unmarshal_cleanup = λ text. ok tt;
}

abbrev stored : String → String
stored text = text

payloads_law : CleanupLaw payloads stored
payloads_law text e = refl

-- Every schedule is due in every minute.
abbrev calendar : Calendar
calendar = record {
  load_location = λ zone. ok zone;
  parse = λ cron location. ok (λ after. after + minute);
  format = λ at. "now";
}

abbrev digest : String → String
digest text = text

abbrev delivered : Message → Result (Unit {0})
delivered m = ok tt

abbrev jobs : Session JobTables (Unit {0})
jobs = record { tables = record { jobs = []; locks = []; stats = [] }; world = tt; faults = [] }

abbrev at : Readings
at = record { uuid = "j1"; available = 5; created = 5; locks = 5; sweep = 5 }

-- A redis that answers nothing but errors.
abbrev refused :
    {A : Type 0} → Session JobTables (Unit {0}) → Result A × Session JobTables (Unit {0})
refused s = (err (message "redis"), s)

abbrev backends : Backends (Session JobTables (Unit {0})) (Unit {0})
backends = record {
  new_client = λ redis. record { enqueue = λ type payload options. refused };
  new_inspector = λ redis. record {
    queues = refused;
    get_queue_info = λ name. refused;
    list_archived_tasks = λ name limit. refused;
    run_task = λ name id. refused;
    run_all_archived_tasks = λ name. refused;
    delete_task = λ name id. refused;
    delete_all_archived_tasks = λ name. refused;
    close = refused;
  };
  open_database = λ database s. (ok tt, s);
  close_database = λ db s. (ok tt, s);
}

queued : ◌≢◌ {A = String} loaded.queue.driver "none"
unfolding str_eq
queued = ground (arith, str_eq_iff "database" "none")

abbrev two : ℕ → Unit {0} → Result ℕ × Unit {0}
two now w = (ok 2, w)

loaded_builds_example :
    ((d : Dispatcher (Session JobTables (Unit {0}))) × (dispatcher backends digest at loaded
          (some tt)
        ≡ ok d))
    × ((i : JobInspector (Session JobTables (Unit {0}))) × (inspector backends
            (λ name. 9)
            loaded
            (some tt)
          ≡ ok i))
    × (w : Worker (Unit {0})) × (worker payloads two (ok delivered) loaded (some tt) ≡ ok w)
    × Handles payloads two delivered w
loaded_builds_example =
    loaded_builds texts parsers sources loaded loads queued backends tt digest at (λ name. 9)
      payloads two delivered

abbrev cleaner : Scheduled
cleaner = record {
  name = "cleanup-refresh-tokens";
  cron = "0 0 * * *";
  timezone = "UTC";
  job = record { type = type_cleanup_refresh_token; payload = ok "{}" };
  dispatch_options = (cleanup_schedule payloads "UTC").dispatch_options;
  schedule = λ after. after + minute;
}

abbrev registry : Registry
registry = record { default_location = "UTC"; definitions = cleaner ∷ [] }

registers : schedule_registry calendar payloads loaded ≡ ok registry
unfolding schedule_registry new_registry register insert_by_name str_eq
registers = refl

abbrev readings : Scheduled → Readings
readings d = at

dispatches :
    (outcomes calendar digest registry (2 * minute) readings jobs).0
    ≡ (cleaner, ok (record { id = "schedule:cleanup-refresh-tokens:now"; queue = "maintenance" }))
      ∷ []
unfolding dispatch_each due task_id dispatch dispatch_body dispatch_locks new_job insert_job
    insert_lock sweep_lock choose_job_id next_fault later_faults str_eq
dispatches = refl

abbrev cleaning : ℕ → Session Tables (Unit {0}) → Result ℕ × Session Tables (Unit {0})
cleaning = clean_up repository

abbrev started : Worker (Session Tables (Unit {0}))
started = database_worker loaded.queue (
    (type_send, handle_send payloads (some delivered))
    ∷ (type_cleanup_refresh_token, handle_cleanup payloads cleaning)
    ∷ (type_demo_log, handle_demo payloads)
    ∷ [])

starts : worker payloads cleaning (ok delivered) loaded (some tt) ≡ ok started
unfolding worker by_driver register_handlers register_handler handler_for str_eq
starts = refl

-- The worker's database, with the refresh tokens of the accounts.
abbrev working : Session JobTables (Session Tables (Unit {0}))
working = record { tables = jobs.tables; world = session; faults = [] }

scheduled_cleanup_example :
    (is : IsCleanupRegistry calendar payloads loaded registry) × ((is.only.schedule
          (minute_of (minute_of (2 * minute)) - minute)
        == minute_of (minute_of (2 * minute)))
      ≡ true)
    × (row : DatabaseJob) × IsCleanupRow calendar digest registry (2 * minute) readings jobs row
    × Cleans stored (handlers_of started) (λ e. "error") (lease "t1" 20 row) none 200 201 working
scheduled_cleanup_example =
    scheduled_cleanup calendar digest payloads stored payloads_law loaded registry registers
      (ok delivered) loaded (some tt) started starts (2 * minute) readings jobs cleaner
      (record { id = "schedule:cleanup-refresh-tokens:now"; queue = "maintenance" }) dispatches
      (λ e. "error") "t1" 20 200 201 none working
