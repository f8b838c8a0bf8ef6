-- ===== src/Tests/Commands.antt =====
-- The commands on the queues, failing jobs, and the options of the redis queue at concrete inputs.
use golang_clean_architectur.Common.{
  ℕ, ◌+◌, ◌≤◌, ◌≡◌, refl, String, List, [], ◌∷◌, ◌++◌, none, false, str_eq,
}
use golang_clean_architectur.Common.Int.{pos}
use golang_clean_architectur.Errors.{Result, ok, message}
use golang_clean_architectur.Sql.{Session, next_fault, later_faults}
use golang_clean_architectur.Queue.{JobTables, DispatchOptions, failed}
use golang_clean_architectur.Queue.Inspector.{
  queues, sort_names, insert_name, retry_jobs, database_inspector,
}
use golang_clean_architectur.Queue.Worker.{
  reserve_database_job, reserve_body, first_by_order, precedes, fail_job,
}
use golang_clean_architectur.Queue.Worker.Ends.{tries_left}
use golang_clean_architectur.Queue.Worker.Failing.{Try, try_once, try_all, failures_end}
use golang_clean_architectur.Queue.Asynq.{queue, max_retry, task_options}
use golang_clean_architectur.Queue.Asynq.Outcomes.{apply_all, task_options-apply}
use golang_clean_architectur.Cli.{
  Line, affected_jobs, with_inspector, operate_each, operate_archived, retry_command,
}
use golang_clean_architectur.Cli.Archived.{failed_count}
use golang_clean_architectur.Cli.Everywhere.{printing, retry_all}
use golang_clean_architectur.Tests.Jobs.{job, rows, session}

-- Two failed jobs, one of them in a queue that is not configured.
abbrev scattered : Session JobTables (List Line)
scattered = record {
  tables = record rows {
    jobs =
        record (job "j1" 4) { status = failed; attempts = 3 }
        ∷ record (job "j2" 3) { status = failed; attempts = 3; queue = "old" }
        ∷ job "j3" 3
        ∷ [];
  };
  world = [];
  faults = [];
}

abbrev print : Line → List Line → Result (Unit {0}) × List Line
print line lines = (ok tt, lines ++ line ∷ [])

abbrev clock : String → ℕ
clock name = 9

abbrev after : Result (Unit {0}) × Session JobTables (List Line)
after =
    retry_command (printing ("mail" ∷ []) clock print)
      (λ z. (ok (database_inspector ("mail" ∷ []) clock), z)) "" "all" scattered

retries_all : after.0 ≡ ok tt
unfolding retry_command operate_archived with_inspector operate_each queues sort_names insert_name
    retry_jobs next_fault later_faults str_eq
retries_all = refl

retry_all_example : (failed_count after.1.tables.jobs ≡ 0) × (after.1.world ≡ affected_jobs 2 ∷ [])
retry_all_example = retry_all ("mail" ∷ []) clock print scattered tt retries_all

abbrev trying : String → ℕ → Try
trying token now = record {
  locked = λ id. false;
  queue = "mail";
  now = now;
  reservation = 10;
  token = token;
  error = message "down";
  text = λ e. "down";
  failed_at = now;
}

-- Both jobs fail once.
abbrev fails : List Try
fails = trying "t1" 5 ∷ trying "t2" 6 ∷ []

two_failures : (try_all fails session).0 ≡ 2
unfolding try_all try_once reserve_database_job reserve_body first_by_order precedes fail_job
    next_fault later_faults str_eq
two_failures = refl

failures_end_example :
    (try_all fails session).0 + tries_left (try_all fails session).1.tables.jobs ≤ 6
unfolding str_eq
failures_end_example = failures_end fails session ((refl, tt), (tt, tt))

abbrev plain : DispatchOptions
plain = record {
  queue = "mail";
  process_at = none;
  max_retry = pos 3;
  timeout = pos 0;
  unique_for = pos 0;
  retention = pos 0;
  task_id = "";
}

hands_over : task_options plain ≡ queue "mail" ∷ max_retry (pos 3) ∷ []
unfolding task_options str_eq
hands_over = refl

task_options-apply_example :
    apply_all (task_options plain) (record plain { queue = "default"; timeout = pos 60 })
    ≡ record plain { timeout = pos 60 }
unfolding str_eq
task_options-apply_example =
    task_options-apply plain (record plain { queue = "default"; timeout = pos 60 })
