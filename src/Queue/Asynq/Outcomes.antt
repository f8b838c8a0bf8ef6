-- ===== src/Queue/Asynq/Outcomes.antt =====
-- What the options that are handed to asynq ask for (internal/adapter/queue/asynq.go).
use golang_clean_architectur.Common.{
  ◌≡◌, refl, none, some, List, [], ◌∷◌, ◌++◌, arith, str_eq, if◌then◌else◌,
}
use golang_clean_architectur.Common.Int.{is_positive}
use golang_clean_architectur.Queue.{DispatchOptions}
use golang_clean_architectur.Queue.Asynq.{
  TaskOption, queue, task_id, process_at, max_retry, timeout, unique, retention, task_options,
}

-- An option sets one field; the last one that sets a field counts.
abbrev pub apply : TaskOption → DispatchOptions → DispatchOptions
apply (queue x) d = record d { queue = x }
apply (task_id x) d = record d { task_id = x }
apply (process_at x) d = record d { process_at = some x }
apply (max_retry x) d = record d { max_retry = x }
apply (timeout x) d = record d { timeout = x }
apply (unique x) d = record d { unique_for = x }
apply (retention x) d = record d { retention = x }

abbrev pub apply_all : List TaskOption → DispatchOptions → DispatchOptions
apply_all [] d = d
apply_all (o ∷ os) d = apply_all os (apply o d)

apply_all-append :
    (xs ys : List TaskOption) (d : DispatchOptions)
    → apply_all (xs ++ ys) d ≡ apply_all ys (apply_all xs d)
apply_all-append [] ys d = refl
apply_all-append (x ∷ xs) ys d = apply_all-append xs ys (apply x d)

-- The options that are handed to asynq set exactly the fields that were given: a queue and an
-- identifier that are not empty, a time, and a number of retries, a timeout, a uniqueness and a
-- retention that are positive; every other field keeps what asynq has as its default.
pub task_options-apply :
    (o d : DispatchOptions)
    → apply_all (task_options o) d ≡ record {
      queue = if str_eq o.queue "" then d.queue else o.queue;
      process_at = elim o.process_at [ none ↦ d.process_at | some at ↦ some at ];
      max_retry = if is_positive o.max_retry then o.max_retry else d.max_retry;
      timeout = if is_positive o.timeout then o.timeout else d.timeout;
      unique_for = if is_positive o.unique_for then o.unique_for else d.unique_for;
      retention = if is_positive o.retention then o.retention else d.retention;
      task_id = if str_eq o.task_id "" then d.task_id else o.task_id;
    }
unfolding task_options
task_options-apply o d = ground arith
