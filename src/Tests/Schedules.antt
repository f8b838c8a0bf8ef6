-- ===== src/Tests/Schedules.antt =====
-- internal/scheduler at concrete inputs.
use golang_clean_architectur.Common.{
  ℕ, ◌+◌, ◌*◌, ◌≡◌, ◌≢◌, refl, true, false, String, [], ◌∷◌, some, none, arith, str_eq, str_eq_iff,
  All,
}
use golang_clean_architectur.Common.Int.{pos}
use golang_clean_architectur.Errors.{ok, is_ok}
use golang_clean_architectur.Sql.{Session, next_fault, later_faults}
use golang_clean_architectur.Queue.{DispatchOptions, JobTables, minute, second}
use golang_clean_architectur.Queue.Dispatch.{
  Readings, dispatch, dispatch_body, dispatch_locks, new_job, insert_job, insert_lock, sweep_lock,
  choose_job_id,
}
use golang_clean_architectur.Scheduler.{
  Calendar, Definition, Scheduled, Registry, register, insert_by_name, due, dispatch_each, outcomes,
  run, task_id,
}
use golang_clean_architectur.Scheduler.Once.{Tick, run_all, run_once}

-- Every schedule is due in every minute.
abbrev calendar : Calendar
calendar = record {
  load_location = λ zone. ok zone;
  parse = λ cron location. ok (λ after. after + minute);
  format = λ at. "now";
}

abbrev sweep : Definition
sweep = record {
  name = "sweep";
  cron = "* * * * *";
  timezone = "";
  job = some (record { type = "tokens:sweep"; payload = ok "{}" });
  dispatch_options = record {
    queue = "low";
    process_at = none;
    max_retry = pos 0;
    timeout = pos 0;
    unique_for = pos 0;
    retention = pos 0;
    task_id = "";
  };
}

abbrev swept : Scheduled
swept = record {
  name = "sweep";
  cron = "* * * * *";
  timezone = "UTC";
  job = record { type = "tokens:sweep"; payload = ok "{}" };
  dispatch_options = sweep.dispatch_options;
  schedule = λ after. after + minute;
}

abbrev empty : Registry
empty = record { default_location = "UTC"; definitions = [] }

abbrev registry : Registry
registry = record { default_location = "UTC"; definitions = swept ∷ [] }

registers : register calendar empty sweep ≡ ok registry
unfolding register insert_by_name str_eq
registers = refl

abbrev rows : JobTables
rows = record { jobs = []; locks = []; stats = [] }

abbrev session : Session JobTables (Unit {0})
session = record { tables = rows; world = tt; faults = [] }

abbrev readings : String → ℕ → Scheduled → Readings
readings uuid now d = record {
  uuid = uuid;
  available = now;
  created = now;
  locks = now;
  sweep = now;
}

abbrev digest : String → String
digest text = text

abbrev tick : String → ℕ → Tick
tick uuid now = record { registry = registry; at = now; readings = readings uuid now }

abbrev once : Session JobTables (Unit {0})
once =
    run_all calendar digest (tick "u9" (130 * second) ∷ [])
      (run calendar digest registry (120 * second) (readings "u1" (120 * second)) session).1

dispatches :
    (outcomes calendar digest registry (120 * second) (readings "u1" (120 * second)) session).0
    ≡ (swept, ok (record { id = "schedule:sweep:now"; queue = "low" })) ∷ []
unfolding dispatch_each due task_id dispatch dispatch_body dispatch_locks new_job insert_job
    insert_lock sweep_lock choose_job_id next_fault later_faults str_eq
dispatches = refl

run_once_example :
    All
      (λ p.
        is_ok p.1 ≡ true
        → All
            (λ p'. p'.0.name ≡ p.0.name → is_ok p'.1 ≡ false)
            (outcomes calendar digest registry
              (150 * second)
              (readings "u2" (150 * second))
              once).0)
      (outcomes calendar digest registry (120 * second) (readings "u1" (120 * second)) session).0
run_once_example =
    run_once calendar digest (tick "u1" (120 * second)) (tick "u2" (150 * second))
      (tick "u9" (130 * second) ∷ []) session once refl refl

-- The rows that a dispatch under the task identifier "t" left.
abbrev taken : JobTables
taken = record {
  jobs = [];
  locks = record { lock_key = "task:t"; job_id = "t"; expires_at = none } ∷ [];
  stats = [];
}

abbrev named : DispatchOptions
named = record sweep.dispatch_options { task_id = "t" }

t_named : ◌≢◌ {A = String} "t" ""
unfolding str_eq
t_named = ground (arith, str_eq_iff "t" "")

abbrev other : Session JobTables (Unit {0})
other = record session { tables = taken }
