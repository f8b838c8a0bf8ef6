-- ===== src/Bootstrap/Cleanup.antt =====
-- From the settings to the clean-up of the refresh tokens: the schedule that
-- internal/bootstrap/bootstrap.go registers, the run that dispatches its job
-- (internal/scheduler/scheduler.go), and the handler that its worker has for it.
use golang_clean_architectur.Common.{
  some, ℕ, ◌-◌, ◌≡◌, refl, Bool, if◌then◌else◌, ap, ◌∙◌, true, false, Option, none, String, List,
  [], ◌∷◌, ◌++◌, arith, ◌==◌, str_eq, select_where, count_where, delete_where, str_eq-ne, inl, inr,
}
use golang_clean_architectur.Errors.{Error, Result, ok, err, Result-cases, Answers, answers}
use golang_clean_architectur.Sql.{Db, Session, attempt}
use golang_clean_architectur.Config.{Config}
use golang_clean_architectur.Queue.{
  JobTables, JobInfo, DatabaseJob, HandlerRegistry, handler_for, pending, minute, duration_seconds,
}
use golang_clean_architectur.Queue.Dispatch.{Readings, dispatch, new_job, choose_job_id}
use golang_clean_architectur.Queue.Dispatch.Added.{dispatch-adds, dispatch-unmarshalled}
use golang_clean_architectur.Queue.Worker.{process, complete, fail_job, lease}
use golang_clean_architectur.Mail.{Transport}
use golang_clean_architectur.Mail.Jobs.{
  handle_cleanup, Payloads, type_cleanup_refresh_token, cleanup_refresh_tokens,
}
use golang_clean_architectur.Scheduler.{
  Calendar, Scheduled, Registry, outcomes, dispatch_each, due, minute_of, run, run_options,
  insert_by_name, task_id,
}
use golang_clean_architectur.Scheduler.Registration.{register-Added}
use golang_clean_architectur.Scheduler.Once.{task_id-named}
use golang_clean_architectur.Mail.Delivery.{ended_with}
use golang_clean_architectur.Auth.Maintenance.{cleanup_refresh_tokens as clean_up, repository}
use golang_clean_architectur.Identity.{Tables}
use golang_clean_architectur.Identity.Tokens.{is_stale, delete_expired_or_revoked_refresh_tokens}
use golang_clean_architectur.Bootstrap.{
  schedule_registry, new_registry, cleanup_schedule, worker, Worker, handlers_of,
}
use golang_clean_architectur.Bootstrap.Handlers.{CleanupLaw, worker-handles, cleanup-processed}

module _ (calendar : Calendar) (payloads : Payloads) where
  -- The registry of the program: one schedule, which makes the clean-up job.
  pub record IsCleanupRegistry (c : Config) (registry : Registry) : Type 0 where
    pub only : Scheduled
    pub rows : registry.definitions ≡ only ∷ []
    pub named : only.name ≡ "cleanup-refresh-tokens"
    pub makes : only.job ≡ cleanup_refresh_tokens payloads
    pub parsed : calendar.parse "0 0 * * *" only.timezone ≡ ok only.schedule
    pub options :
        only.dispatch_options ≡ (cleanup_schedule payloads c.scheduler.timezone).dispatch_options

  schedule_registry-Is :
      (c : Config) (registry : Registry)
      → schedule_registry calendar payloads c ≡ ok registry
      → IsCleanupRegistry c registry
  unfolding schedule_registry new_registry insert_by_name
  schedule_registry-Is c registry h =
      elim (Result-cases (calendar.load_location c.scheduler.timezone)) [
        | inr (x, e) ↦ absurd (ground arith)
        | inl (location, e) ↦
            let empty : Registry = record { default_location = location; definitions = [] } in
            let a =
              register-Added calendar empty (cleanup_schedule payloads c.scheduler.timezone)
                registry (ground arith) in
            record {
              only = a.added;
              rows = ap (λ r. r.definitions) a.rows;
              named = a.named;
              makes = ground arith;
              parsed = a.parsed;
              options = a.options;
            }
      ]

abbrev cleanup_row : Calendar → Scheduled → String → ℕ → Readings → DatabaseJob
cleanup_row calendar d payload at read =
    new_job d.job payload (run_options calendar d at) read.uuid read.available read.created

module _ (calendar : Calendar) (payloads : Payloads) (c : Config) (registry : Registry)
    (is : IsCleanupRegistry calendar payloads c registry) (payload : String) (at : ℕ)
    (read : Readings) where
  row-id :
      (cleanup_row calendar is.only payload at read).id
      ≡ task_id calendar "cleanup-refresh-tokens" at
  unfolding new_job choose_job_id
  row-id = ground (arith, str_eq-ne _ _ (task_id-named calendar (λ x. x) is.only.name at), is.named)

  row-options :
      ((cleanup_row calendar is.only payload at read).queue ≡ "maintenance")
      × ((cleanup_row calendar is.only payload at read).max_retry ≡ 3)
      × ((cleanup_row calendar is.only payload at read).retention_secs ≡ 120)
  unfolding new_job duration_seconds str_eq
  row-options = rw is.options (refl, refl, refl)

-- What a worker does with a job of the clean-up: the refresh tokens that are revoked or expired when the
-- handler reads the clock are gone and the job has the outcome of the handler's context, or the
-- deletion failed, no token is gone, and the job failed with that error.
abbrev pub Cleans :
    {U : Type 0}
    → (String → String)
    → HandlerRegistry (Session Tables U)
    → (Error → String)
    → DatabaseJob
    → Option Error
    → ℕ
    → ℕ
    → Session JobTables (Session Tables U)
    → Type 0
Cleans {U} stored handlers text job ended handled now z =
    let (deleted, world) = clean_up repository handled z.world in
    Answers
      (λ n.
        (n ≡ count_where (is_stale handled) z.world.tables.refresh_tokens)
        × (world.tables ≡ record z.world.tables {
          refresh_tokens = delete_where (is_stale handled) z.world.tables.refresh_tokens;
        })
        × (process stored handlers text job ended handled now z
            ≡ (elim ended as (λ o. Db JobTables (Session Tables U) (Result (Unit {0}))) [
              | some e ↦ attempt (fail_job job e text now)
              | none ↦ attempt (complete job now)
            ])
                (record z { world = world })))
      (λ e.
        (world.tables ≡ z.world.tables)
        × (process stored handlers text job ended handled now z
            ≡ attempt (fail_job job e text now) (record z { world = world })))
      deleted

module _ (payloads : Payloads) {U : Type 0} where
  cleanup-Cleans :
      (stored : String → String)
      → CleanupLaw payloads stored
      → (handlers : HandlerRegistry (Session Tables U)) (text : Error → String) (job : DatabaseJob)
        (ended : Option Error) (handled now : ℕ) (z : Session JobTables (Session Tables U))
      → handler_for handlers job.type ≡ some (handle_cleanup payloads (clean_up repository))
      → payloads.marshal_cleanup ≡ ok job.payload
      → Cleans stored handlers text job ended handled now z
  unfolding clean_up delete_expired_or_revoked_refresh_tokens
  cleanup-Cleans stored law handlers text job ended handled now z h e =
      let processed =
        cleanup-processed payloads (clean_up repository) stored law handlers text job ended handled
          now z h e in
      let world = (clean_up repository handled z.world).1 in
      let settled : Result ℕ → Result (Result (Unit {0})) × Session JobTables (Session Tables U) =
        λ r.
          ended_with text job ended now (elim r [ ok n ↦ ok tt | err e' ↦ err e' ])
            (record z { world = world }) in
      answers _ (λ n k. (ground arith, ground arith, processed ∙ ap settled k))
        (λ x k. (ground arith, processed ∙ ap settled k))

module _ (calendar : Calendar) (sha256 : String → String) {W : Type 0} where
  sent : Scheduled → ℕ → Readings → Session JobTables W → Result JobInfo × Session JobTables W
  sent d at read s =
      dispatch sha256 d.job (run_options calendar d at) read.uuid read.available read.created
        read.locks read.sweep s

  one_dispatch :
      (ds : List Scheduled) (only d : Scheduled) (due_now : Bool) (at : ℕ)
      (readings : Scheduled → Readings) (s : Session JobTables W) (info : JobInfo)
      → ds ≡ (if due_now then only ∷ [] else [])
      → (dispatch_each calendar sha256 at readings ds s).0 ≡ (d, ok info) ∷ []
      → (due_now ≡ true)
        × ((sent only at (readings only) s).0 ≡ ok info)
        × ((dispatch_each calendar sha256 at readings ds s).1 ≡ (sent only at (readings only) s).1)
  unfolding dispatch_each sent
  one_dispatch ds only d true at readings s info e h = (refl, ground arith, ground arith)
  one_dispatch ds only d false at readings s info e h = absurd ground arith

  -- The row of a scheduled clean-up.
  pub record IsCleanupRow (registry : Registry) (at : ℕ) (readings : Scheduled → Readings)
      (s : Session JobTables W) (row : DatabaseJob) : Type 0 where
    pub added :
        (run calendar sha256 registry at readings s).1.tables.jobs ≡ s.tables.jobs ++ row ∷ []
    pub type : row.type ≡ type_cleanup_refresh_token
    pub id : row.id ≡ task_id calendar "cleanup-refresh-tokens" (minute_of at)
    pub queue : row.queue ≡ "maintenance"
    pub status : row.status ≡ pending
    pub max_retry : row.max_retry ≡ 3
    pub retention : row.retention_secs ≡ 120

  sent-row :
      (payloads : Payloads) (c : Config) (registry : Registry) (at : ℕ) (read : Readings)
      (s : Session JobTables W) (info : JobInfo)
      (is : IsCleanupRegistry calendar payloads c registry)
      → (sent is.only at read s).0 ≡ ok info
      → (payload : String) × (payloads.marshal_cleanup ≡ ok payload)
        × ((sent is.only at read s).1.tables.jobs
            ≡ s.tables.jobs ++ cleanup_row calendar is.only payload at read ∷ [])
  unfolding sent
  sent-row payloads c registry at read s info is h =
      let made : is.only.job.payload ≡ payloads.marshal_cleanup = ap (λ j. j.payload) is.makes in
      elim (Result-cases payloads.marshal_cleanup) [
        | inr (x, e) ↦ absurd (
            dispatch-unmarshalled sha256 is.only.job (run_options calendar is.only at) read.uuid
              read.available read.created read.locks read.sweep s x info (made ∙ e) h)
        | inl (payload, e) ↦ (
          payload,
          e,
          (dispatch-adds sha256 is.only.job (run_options calendar is.only at) payload read.uuid
              read.available read.created read.locks read.sweep s info (made ∙ e) h).0,
        )
      ]

  sole_dispatch :
      (registry : Registry) (only d : Scheduled) (at : ℕ) (readings : Scheduled → Readings)
      (s : Session JobTables W) (info : JobInfo)
      → registry.definitions ≡ only ∷ []
      → (outcomes calendar sha256 registry at readings s).0 ≡ (d, ok info) ∷ []
      → ((only.schedule (minute_of (minute_of at) - minute) == minute_of (minute_of at)) ≡ true)
        × ((sent only (minute_of at) (readings only) s).0 ≡ ok info)
        × ((run calendar sha256 registry at readings s).1
            ≡ (sent only (minute_of at) (readings only) s).1)
  unfolding due run
  sole_dispatch registry only d at readings s info rows h =
      one_dispatch (due registry (minute_of at)) only d _ (minute_of at) readings s info
        (ap
          (select_where
            (λ x. x.schedule (minute_of (minute_of at) - minute) == minute_of (minute_of at)))
          rows)
        h

  -- Where JSON reads back the clean-up job, the registry that the settings build does clean up: when
  -- one of its runs dispatched a job, its minute was due by the registry's only schedule, the parsed
  -- expression 0 0 * * *, and one row was added for the clean-up to the jobs: in the queue
  -- maintenance, identified by the schedule and the minute, with three retries, kept for two minutes.
  -- A worker that the program built and that took the row under a lease deletes exactly the refresh
  -- tokens that are revoked or expired when its handler reads the clock, then completes the job, or
  -- fails it with the error of the handler's context if that has ended; where the deletion fails, no
  -- token is deleted and the job fails with its error. The job's row keeps its state where the write of
  -- its outcome is itself a statement that fails.
  pub scheduled_cleanup :
      {U D : Type 0} (payloads : Payloads) (stored : String → String)
      → CleanupLaw payloads stored
      → (c : Config) (registry : Registry) → schedule_registry calendar payloads c ≡ ok registry
      → (transport : Result Transport) (c' : Config) (db : Option D) (w : Worker (Session Tables U))
      → worker payloads (clean_up repository) transport c' db ≡ ok w
      → (at : ℕ) (readings : Scheduled → Readings) (s : Session JobTables W) (d : Scheduled)
        (info : JobInfo)
      → (outcomes calendar sha256 registry at readings s).0 ≡ (d, ok info) ∷ []
      → (text : Error → String) (token : String) (until handled now : ℕ) (ended : Option Error)
        (z : Session JobTables (Session Tables U))
      → (is : IsCleanupRegistry calendar payloads c registry) × ((is.only.schedule
              (minute_of (minute_of at) - minute)
            == minute_of (minute_of at))
          ≡ true)
        × (row : DatabaseJob) × IsCleanupRow registry at readings s row
        × Cleans stored (handlers_of w) text (lease token until row) ended handled now z
  unfolding new_job
  scheduled_cleanup payloads stored law c registry built transport c' db w working at readings s d
        info h text token until handled now ended z =
      let is = schedule_registry-Is calendar payloads c registry built in
      let read = readings is.only in
      let (due_now, dispatched, ran) =
        sole_dispatch registry is.only d at readings s info is.rows h in
      let (payload, marshalled, added) =
        sent-row payloads c registry (minute_of at) read s info is dispatched in
      let row = cleanup_row calendar is.only payload (minute_of at) read in
      let (queue, max_retry, retention) =
        row-options calendar payloads c registry is payload (minute_of at) read in
      let handler =
        ap (λ j. handler_for (handlers_of w) j.type) is.makes
        ∙ worker-handles payloads (clean_up repository) transport c' db w working in
      (
        is,
        due_now,
        row,
        record {
          added = ap (λ x. x.tables.jobs) ran ∙ added;
          type = ap (λ j. j.type) is.makes;
          id = row-id calendar payloads c registry is payload (minute_of at) read;
          queue = queue;
          status = refl;
          max_retry = max_retry;
          retention = retention;
        },
        cleanup-Cleans payloads stored law (handlers_of w) text (lease token until row) ended
            handled now z handler marshalled,
      )
