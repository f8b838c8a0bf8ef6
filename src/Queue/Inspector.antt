-- ===== src/Queue/Inspector.antt =====
-- internal/adapter/queue/database.go: `DatabaseInspector`.
pub mod Operations
use Prim.Native.String.{compare as compare_text}
use text.Mathlib.Text.{is_le}
use golang_clean_architectur.Common.{
  ℕ, ◌+◌, ◌-◌, Bool, true, false, not, ◌&&◌, ◌||◌, Option, none, some, String, List, [], ◌∷◌, ◌++◌,
  map, ltb, leb, str_eq, if◌then◌else◌, any, count_where, select_where, find_where, update_where,
  delete_where, take,
}
use golang_clean_architectur.Errors.{Error, Result, ok, err}
use golang_clean_architectur.Sql.{Session, Db, pure, ◌>>=◌, ◌>>◌, query, execute, transaction}
use golang_clean_architectur.Queue.{
  DatabaseJob, DatabaseStat, JobTables, QueueStats, FailedJob, JobInspector, pending, active, retry,
  failed, status_eq,
}
use golang_clean_architectur.Queue.Worker.{is_in}

-- `sort.Strings` over the keys of a map: one of each name.
unfoldable pub insert_name : String → List String → List String
insert_name name [] = name ∷ []
insert_name name (x ∷ xs) =
    let later = x ∷ insert_name name xs in
    if str_eq name x then x ∷ xs else if is_le (compare_text name x) then name ∷ x ∷ xs else later

unfoldable pub sort_names : List String → List String
sort_names [] = []
sort_names (x ∷ xs) = insert_name x (sort_names xs)

-- queue = queueName AND status = failed, and id = id but for "all".
abbrev pub is_chosen : String → String → DatabaseJob → Bool
is_chosen queue id r =
    str_eq r.queue queue && (status_eq r.status failed && (str_eq id "all" || str_eq r.id id))

-- ORDER BY last_failed_at DESC, NULL last.
abbrev pub failed_before : DatabaseJob → DatabaseJob → Bool
failed_before x y = elim x.last_failed_at [
  | none ↦ false
  | some at ↦ elim y.last_failed_at [ none ↦ true | some at' ↦ leb at' at ]
]

insert_failed : DatabaseJob → List DatabaseJob → List DatabaseJob
insert_failed x [] = x ∷ []
insert_failed x (y ∷ ys) =
    let later = y ∷ insert_failed x ys in if failed_before x y then x ∷ y ∷ ys else later

unfoldable pub order_failed : List DatabaseJob → List DatabaseJob
unfolding insert_failed
order_failed [] = []
order_failed (x ∷ xs) = insert_failed x (order_failed xs)

-- The counts of `Stats`, and the row of queue_stats.
unfoldable pub stats_of : String → ℕ → JobTables → QueueStats
stats_of queue now t =
    let rows = select_where (λ r. str_eq r.queue queue) t.jobs in
    record {
      pending = count_where (λ r. status_eq r.status pending && leb r.available_at now) rows;
      active = count_where (λ r. status_eq r.status active) rows;
      scheduled = count_where (λ r. status_eq r.status pending && ltb now r.available_at) rows;
      retry = count_where (λ r. status_eq r.status retry) rows;
      failed = count_where (λ r. status_eq r.status failed) rows;
      processed = elim (find_where (λ x. str_eq x.queue queue) t.stats) [
        | none ↦ 0
        | some x ↦ x.processed_total
      ];
    }

unfoldable pub failed_job : DatabaseJob → FailedJob
failed_job r = record {
  id = r.id;
  queue = r.queue;
  type = r.type;
  retried = r.attempts - 1;
  max_retry = r.max_retry;
  last_failed_at = r.last_failed_at;
  last_error = elim r.last_error [ none ↦ "" | some e ↦ e ];
}

-- The columns that `Retry` sets.
abbrev pub requeued : ℕ → DatabaseJob → DatabaseJob
requeued now r = record r {
  status = retry;
  attempts = 0;
  available_at = now;
  last_error = none;
  last_failed_at = none;
}

module _ {W : Type 0} where
  unfoldable pub queues : List String → Db JobTables W (List String)
  queues configured = do
    stored ← query (λ t. map (λ r. r.queue) t.jobs)
    counted ← query (λ t. map (λ x. x.queue) t.stats)
    pure (sort_names (configured ++ stored ++ counted))

  -- The two SELECTs answer what `stats_of` counts: the model has no writer between them.
  unfoldable pub stats : String → ℕ → Db JobTables W QueueStats
  stats queue now = do
    counts ← query (stats_of queue now)
    stat ← query (λ t. find_where (λ x. str_eq x.queue queue) t.stats)
    pure (record counts { processed = elim stat [ none ↦ 0 | some x ↦ x.processed_total ] })

  unfoldable pub failed_jobs : String → ℕ → Db JobTables W (List FailedJob)
  failed_jobs queue limit = query (λ t.
      map failed_job (take limit (order_failed (select_where (is_chosen queue "all") t.jobs))))

  -- `Retry`: the number of rows.
  unfoldable pub retry_jobs : String → String → ℕ → Db JobTables W ℕ
  retry_jobs queue id now = execute (λ t. ok (
    count_where (is_chosen queue id) t.jobs,
    record t { jobs = update_where (is_chosen queue id) (requeued now) t.jobs },
  ))

  delete_by_ids : List String → Db JobTables W ℕ
  delete_by_ids [] = pure 0
  delete_by_ids (id ∷ ids) = do
    execute
        (λ t. ok (tt, record t { locks = delete_where (λ l. is_in (id ∷ ids) l.job_id) t.locks }))
    execute (λ t. ok (
      count_where (λ r. is_in (id ∷ ids) r.id) t.jobs,
      record t { jobs = delete_where (λ r. is_in (id ∷ ids) r.id) t.jobs },
    ))

  -- `Delete`
  unfoldable pub delete_jobs_body : String → String → Db JobTables W ℕ
  unfolding delete_by_ids
  delete_jobs_body queue id = do
    ids ← query (λ t. map (λ r. r.id) (select_where (is_chosen queue id) t.jobs))
    delete_by_ids ids

  unfoldable pub delete_jobs : String → String → Db JobTables W ℕ
  delete_jobs queue id = transaction (delete_jobs_body queue id)

  -- `DatabaseInspector`; the clock is read as a queue is asked. `Close` does nothing.
  abbrev pub database_inspector : List String → (String → ℕ) → JobInspector (Session JobTables W)
  database_inspector configured clock = record {
    queues = queues configured;
    stats = λ queue s. stats queue (clock queue) s;
    failed_jobs = failed_jobs;
    retry_jobs = λ queue id s. retry_jobs queue id (clock queue) s;
    delete_jobs = delete_jobs;
    close = λ s. (ok tt, s);
  }
