-- ===== src/Tests/Jobs.antt =====
-- internal/adapter/queue at concrete inputs.
use golang_clean_architectur.Common.{
  Option, ◌%◌, ℕ, min, ◌+◌, ◌*◌, ◌≡◌, ◌≢◌, refl, arith, str_eq, count_where, false, List, [], ◌∷◌,
  some, none, String, Bool,
}
use golang_clean_architectur.Common.Int.{pos}
use golang_clean_architectur.Errors.{Result, ok, message, on_ok}
use golang_clean_architectur.Sql.{Session, next_fault, later_faults}
use golang_clean_architectur.Queue.{
  QueueStats, Job, DispatchOptions, DatabaseJob, JobTables, pending, failed, retry_delay, hour,
}
use golang_clean_architectur.Queue.Dispatch.{
  dispatch, dispatch_body, dispatch_locks, new_job, insert_job, insert_lock, sweep_lock,
  choose_job_id,
}
use golang_clean_architectur.Queue.Dispatch.Uniqueness.{dispatch_unique}
use golang_clean_architectur.Queue.Worker.{
  reserve_database_job, reserve_body, first_by_order, precedes, lease, complete, is_reservable,
  fail_job, cleanup, complete_body, complete_rows,
}
use golang_clean_architectur.Queue.Worker.Holds.{Holds}
use golang_clean_architectur.Queue.Worker.Rivals.{
  Rival, act, act_all, lease_survives, reserve_excludes,
}
use golang_clean_architectur.Queue.Worker.Attempts.{retry_delay_doubles}
use golang_clean_architectur.Queue.Worker.Loop.{round}
use golang_clean_architectur.Queue.Worker.Loop.Rounds.{start, ask, round_asks_all}
use golang_clean_architectur.Queue.Inspector.{is_chosen, retry_jobs, stats, stats_of}
use golang_clean_architectur.Queue.Inspector.Operations.{retry_requeues}

abbrev pub job : String → ℕ → DatabaseJob
job id available_at = record {
  id = id;
  queue = "mail";
  type = "welcome";
  payload = "{}";
  status = pending;
  attempts = 0;
  max_retry = 2;
  timeout_seconds = 10;
  retention_secs = 0;
  available_at = available_at;
  lease_token = none;
  leased_until = none;
  last_error = none;
  last_failed_at = none;
  completed_at = none;
  expires_at = none;
  created_at = 0;
}

abbrev pub rows : JobTables
rows = record { jobs = job "j1" 4 ∷ job "j2" 3 ∷ []; locks = []; stats = [] }

abbrev pub session : Session JobTables (Unit {0})
session = record { tables = rows; world = tt; faults = [] }

abbrev unlocked : String → Bool
unlocked id = false

abbrev taken : DatabaseJob
taken = lease "t1" 15 (job "j2" 3)

reserves : (reserve_database_job unlocked "mail" 5 10 "t1" session).0 ≡ ok (some taken)
unfolding reserve_database_job reserve_body first_by_order precedes next_fault later_faults str_eq
reserves = refl

abbrev leased : Session JobTables (Unit {0})
leased = (reserve_database_job unlocked "mail" 5 10 "t1" session).1

abbrev rivals : List Rival
rivals =
    Rival.cleans 6
    ∷ Rival.completes (lease "t0" 12 (job "j2" 3)) 7
    ∷ Rival.fails (lease "t0" 12 (job "j2" 3)) (message "late") (λ e. "late") 7
    ∷ []

lease_survives_example : Holds "j2" "t1" 15 (act_all rivals leased).tables.jobs
unfolding str_eq
lease_survives_example =
    lease_survives unlocked "mail" 5 10 "t1" session taken reserves rivals (tt, (refl, (refl, tt)))

-- The other job is still there for another worker.
other_reserves :
    (reserve_database_job unlocked "mail" 8 10 "t2" (act_all rivals leased)).0
    ≡ ok (some (lease "t2" 18 (job "j1" 4)))
unfolding act_all act reserve_database_job reserve_body fail_job complete cleanup complete_body
    complete_rows first_by_order precedes next_fault later_faults str_eq
other_reserves = refl

reserve_excludes_example : ◌≢◌ {A = String} "j1" "j2"
unfolding str_eq
reserve_excludes_example =
    reserve_excludes unlocked "mail" 5 10 "t1" session taken reserves rivals
      (tt, (refl, (refl, tt))) unlocked "mail" 8 10 "t2" (lease "t2" 18 (job "j1" 4)) (omega arith)
      other_reserves

retry_delay_doubles_example : retry_delay 5 ≡ min (2 * retry_delay 4) hour
retry_delay_doubles_example = (retry_delay_doubles 3).4

abbrev mail_once : DispatchOptions
mail_once = record {
  queue = "mail";
  process_at = none;
  max_retry = pos 0;
  timeout = pos 0;
  unique_for = pos 60;
  retention = pos 0;
  task_id = "";
}

abbrev greeting : Job
greeting = record { type = "welcome"; payload = ok "{}" }

abbrev digest : String → String
digest text = text

dispatches :
    (dispatch digest greeting mail_once "j3" 9 9 9 9 session).0
    ≡ ok (record { id = "j3"; queue = "mail" })
unfolding dispatch dispatch_body dispatch_locks new_job insert_job insert_lock sweep_lock
    choose_job_id next_fault later_faults str_eq
dispatches = refl

abbrev dispatched : Session JobTables (Unit {0})
dispatched = (dispatch digest greeting mail_once "j3" 9 9 9 9 session).1

dispatch_unique_example :
    (dispatch digest greeting mail_once "j4" 20 20 20 20 dispatched).1.tables ≡ dispatched.tables
dispatch_unique_example =
    (dispatch_unique digest greeting mail_once "{}" "j3" 9 9 9 9 session
      (record { id = "j3"; queue = "mail" }) refl refl dispatches mail_once "j4" 20 20 20 20
      dispatched refl refl (omega arith) refl).1

abbrev archived : Session JobTables (Unit {0})
archived = record session {
  tables = record rows {
    jobs = record (job "j1" 4) { status = failed; attempts = 3 } ∷ job "j2" 3 ∷ [];
  };
}

retries : (retry_jobs "mail" "all" 9 archived).0 ≡ ok 1
unfolding retry_jobs next_fault later_faults str_eq
retries = refl

retry_requeues_example :
    (1 ≡ count_where (is_chosen "mail" "all") archived.tables.jobs)
    × (count_where (is_chosen "mail" "all") (retry_jobs "mail" "all" 9 archived).1.tables.jobs ≡ 0)
    × (count_where (is_reservable "mail" 9) (retry_jobs "mail" "all" 9 archived).1.tables.jobs
        ≡ count_where (is_reservable "mail" 9) archived.tables.jobs + 1)
retry_requeues_example = on_ok (retry_requeues "mail" "all" 9 archived) 1 retries

abbrev counted : QueueStats
counted = record { pending = 1; active = 0; scheduled = 0; retry = 0; failed = 1; processed = 0 }

counts : (stats "mail" 9 archived).0 ≡ ok counted
unfolding stats stats_of next_fault later_faults str_eq
counts = refl

-- Reservations find nothing; their readings are left out.
abbrev nothing : String → ℕ → Result (Option DatabaseJob) × ℕ
nothing queue calls = (ok none, calls + 1)

round_asks_all_example :
    round nothing ("low" ∷ "mail" ∷ "mail" ∷ []) 3 (start 1) 0
    ≡ ask nothing ("mail" ∷ "mail" ∷ "low" ∷ []) (λ k. (1 + k) % 3) 0
round_asks_all_example = round_asks_all nothing ("low" ∷ []) "mail" ("mail" ∷ []) 0
