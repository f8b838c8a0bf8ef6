-- ===== src/Queue/Inspector/Operations.antt =====
-- What an operator sees and does through the inspector of the database queue.
use golang_clean_architectur.Common.{
  ℕ, ◌+◌, ◌≡◌, refl, ◌&&◌, String, List, [], ◌∷◌, arith, ltb, leb, str_eq, count_where,
  select_where, update_where, length,
}
use golang_clean_architectur.Errors.{Answers, answers}
use golang_clean_architectur.Sql.{Session}
use golang_clean_architectur.Queue.{
  DatabaseJob, JobTables, status_eq, completed, failed, retry, pending, active,
}
use golang_clean_architectur.Queue.Worker.{is_reservable}
use golang_clean_architectur.Queue.Inspector.{stats, stats_of, is_chosen, requeued, retry_jobs}

-- Every row of the queue is counted once.
counts_add_up :
    (now : ℕ) (rows : List DatabaseJob)
    → count_where (λ r. status_eq r.status pending && leb r.available_at now) rows
        + count_where (λ r. status_eq r.status active) rows
        + count_where (λ r. status_eq r.status pending && ltb now r.available_at) rows
        + count_where (λ r. status_eq r.status retry) rows
        + count_where (λ r. status_eq r.status failed) rows
        + count_where (λ r. status_eq r.status completed) rows
      ≡ length rows
counts_add_up now [] = refl
counts_add_up now (r ∷ rows) = ground (arith, counts_add_up now rows)

-- The statistics of a queue account for its rows, each in one place: pending, active, scheduled,
-- retry, failed, and the completed ones, which it does not report. Reading them changes no row.
pub stats_partition :
    {W : Type 0} (queue : String) (now : ℕ) (s : Session JobTables W)
    → let (r, s') = stats queue now s in
      Answers
        (λ q.
          (s'.tables ≡ s.tables)
          × (let rows = select_where (λ r. str_eq r.queue queue) s.tables.jobs in
              q.pending
                + q.active
                + q.scheduled
                + q.retry
                + q.failed
                + count_where (λ r. status_eq r.status completed) rows
              ≡ length rows))
        (λ e. s'.tables ≡ s.tables)
        r
unfolding stats stats_of
stats_partition queue now s =
    answers _
      (λ q e. (
        ground arith,
        ground (arith, counts_add_up now (select_where (λ r. str_eq r.queue queue) s.tables.jobs)),
      ))
      (λ e k. ground arith)

none_chosen :
    (queue id : String) (now : ℕ) (rows : List DatabaseJob)
    → count_where (is_chosen queue id) (update_where (is_chosen queue id) (requeued now) rows) ≡ 0
none_chosen queue id now [] = refl
none_chosen queue id now (r ∷ rows) = ground (arith, none_chosen queue id now rows)

reservable_after :
    (queue id : String) (now : ℕ) (rows : List DatabaseJob)
    → count_where (is_reservable queue now) (update_where (is_chosen queue id) (requeued now) rows)
      ≡ count_where (is_reservable queue now) rows + count_where (is_chosen queue id) rows
reservable_after queue id now [] = refl
reservable_after queue id now (r ∷ rows) = ground (arith, reservable_after queue id now rows)

-- A retry by the operator that succeeds answers the number of failed jobs that were chosen; none of
-- them is failed any more, and exactly that many more jobs of the queue can be reserved at once. One
-- that fails changes no row.
pub retry_requeues :
    {W : Type 0} (queue id : String) (now : ℕ) (s : Session JobTables W)
    → let (r, s') = retry_jobs queue id now s in
      Answers
        (λ n.
          (n ≡ count_where (is_chosen queue id) s.tables.jobs)
          × (count_where (is_chosen queue id) s'.tables.jobs ≡ 0)
          × (count_where (is_reservable queue now) s'.tables.jobs
              ≡ count_where (is_reservable queue now) s.tables.jobs + n))
        (λ e. s'.tables ≡ s.tables)
        r
unfolding retry_jobs
retry_requeues queue id now s =
    answers _
      (λ n e. ground (
        arith,
        none_chosen queue id now s.tables.jobs,
        reservable_after queue id now s.tables.jobs,
      ))
      (λ x e. ground arith)
