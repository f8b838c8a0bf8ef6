-- ===== src/Mail/Delivery.antt =====
-- From the mailer to the transport: a message that is queued (internal/mail/mail.go,
-- internal/adapter/queue/mail_dispatcher.go) as a row of the database queue, and what the worker's
-- handler does with it (internal/adapter/jobs/handlers.go).
use golang_clean_architectur.Common.{
  ℕ, ◌≡◌, refl, ap, ◌∙◌, false, Option, none, some, String, [], ◌∷◌, ◌++◌, arith, str_eq,
  str_eq_refl, if◌then◌else◌, Bool-cases, inl, inr,
}
use golang_clean_architectur.Common.Int.{is_positive, to_ℕ}
use golang_clean_architectur.Errors.{Error, Result, ok, err, message, Result-cases}
use golang_clean_architectur.Sql.{Session, Db, attempt}
use golang_clean_architectur.User.{Texts}
use golang_clean_architectur.Queue.{
  Job, DispatchOptions, JobInfo, JobTables, DatabaseJob, Handler, HandlerRegistry, handler_for,
  register, pending, duration_seconds,
}
use golang_clean_architectur.Queue.Dispatch.{new_job, database_dispatcher, Readings}
use golang_clean_architectur.Queue.Dispatch.Added.{dispatch-adds, dispatch-unmarshalled}
use golang_clean_architectur.Queue.Worker.{process, settle_job, complete, fail_job, lease}
use golang_clean_architectur.Mail.{
  Address, Message, Mailable, Mailer, SendJob, QueueOptions, Transport, render, queue,
  with_defaults, type_send,
}
use golang_clean_architectur.Mail.Jobs.{
  Payloads, options_of, mail_job, mail_dispatcher, register_handlers, handle_send, handle_demo,
  handle_cleanup, type_demo_log, type_cleanup_refresh_token,
}

-- What `encoding/json` promises of a job that it marshalled and the column of the payload stored.
abbrev pub PayloadLaw : Payloads → (String → String) → Type 0
PayloadLaw payloads stored =
    (job : SendJob) (text : String)
    → payloads.marshal_send job ≡ ok text
    → payloads.unmarshal_send (stored text) ≡ ok job

-- What the handler of mail does with a message.
abbrev pub deliver : Option Transport → Message → Result (Unit {0})
deliver none m = err (message "mail transport is not configured")
deliver (some send) m = send m

module _ (payloads : Payloads) where
  pub register-handler_for :
      {V : Type 0} (registry next : HandlerRegistry V) (job_type : String) (handler : Handler V)
      → register registry job_type (some handler) ≡ ok next
      → handler_for next job_type ≡ some handler
  unfolding register handler_for
  register-handler_for registry next job_type handler h = ground (arith, str_eq_refl job_type)

  pub register_handlers-send :
      {V : Type 0} (registry next : HandlerRegistry V) (cleanup : ℕ → V → Result ℕ × V)
      (transport : Option Transport)
      → register_handlers payloads registry cleanup transport ≡ ok next
      → handler_for next type_send ≡ some (handle_send payloads transport)
  unfolding register_handlers
  register_handlers-send registry next cleanup transport h =
      elim (Result-cases (register registry type_demo_log (some (handle_demo payloads)))) [
        | inr (x, e) ↦ absurd (ground arith)
        | inl (demo, e) ↦
            elim (Result-cases
              (register demo type_cleanup_refresh_token (some (handle_cleanup payloads cleanup)))) [
                | inr (x, e') ↦ absurd (ground arith)
                | inl (cleaning, e') ↦
                    register-handler_for cleaning next type_send (handle_send payloads transport)
                      (ground arith)
              ]
      ]

  -- The row of a queued message: under the options with the mailer's defaults.
  pub record IsMailRow (m : Message) (options : QueueOptions) (row : DatabaseJob) : Type 0 where
    pub type : row.type ≡ type_send
    pub payload : payloads.marshal_send (record { message = m }) ≡ ok row.payload
    pub status : row.status ≡ pending
    pub attempts : row.attempts ≡ 0
    pub queue : row.queue ≡ (if str_eq options.queue "" then "mail" else options.queue)
    pub max_retry :
        row.max_retry ≡ (if is_positive options.max_retry then to_ℕ options.max_retry else 3)
    pub timeout :
        row.timeout_seconds
        ≡ (if is_positive options.timeout then duration_seconds options.timeout else 30)

  abbrev mail_of : Message → Job
  mail_of m = mail_job payloads (record { message = m })

abbrev wanted : QueueOptions → DispatchOptions
wanted options = options_of (with_defaults options)

mail_named : str_eq "mail" "" ≡ false
unfolding str_eq
mail_named = refl

-- A name that is filled in is not filled in again.
named :
    (name fallback : String)
    → str_eq fallback "" ≡ false
    → let chosen = if str_eq name "" then fallback else name in
      (if str_eq chosen "" then "default" else chosen) ≡ chosen
named name fallback h = elim (Bool-cases (str_eq name "")) [
  | inl e ↦ rw (e, h) refl
  | inr e ↦ rw (e, e) refl
]

-- The outcome of a job, from what its handler answered and the error of the handler's context: the job
-- is completed where there is neither error, and failed with the first one otherwise.
abbrev pub ended_with :
    {V : Type 0}
    → (Error → String)
    → DatabaseJob
    → Option Error
    → ℕ
    → Result (Unit {0})
    → Db JobTables V (Result (Unit {0}))
ended_with text job ended now answer = elim answer [
  | err e ↦ attempt (fail_job job e text now)
  | ok done ↦ elim ended [
    | some e ↦ attempt (fail_job job e text now)
    | none ↦ attempt (complete job now)
  ]
]

settle_job-ends :
    {V : Type 0} (text : Error → String) (job : DatabaseJob) (ended : Option Error) (now : ℕ)
    (answer : Result (Unit {0})) (s : Session JobTables V)
    → settle_job text job ended now answer s ≡ ended_with text job ended now answer s
unfolding settle_job
settle_job-ends text job ended now (err e) s = refl
settle_job-ends text job (some e) now (ok done) s = refl
settle_job-ends text job none now (ok done) s = refl

module _ (payloads : Payloads) where
  new_job-IsMailRow :
      (m : Message) (options : QueueOptions) (payload uuid : String) (available created : ℕ)
      → payloads.marshal_send (record { message = m }) ≡ ok payload
      → IsMailRow payloads m options
          (new_job (mail_of payloads m) payload (wanted options) uuid available created)
  unfolding new_job duration_seconds
  new_job-IsMailRow m options payload uuid available created e = record {
    type = refl;
    payload = e;
    status = refl;
    attempts = refl;
    queue = named options.queue "mail" mail_named;
    max_retry = ground arith;
    timeout = ground arith;
  }

  handle_send-delivers :
      {V : Type 0} (stored : String → String) (law : PayloadLaw payloads stored)
      (transport : Option Transport) (m : Message) (payload : String) (at : ℕ) (w : V)
      → payloads.marshal_send (record { message = m }) ≡ ok payload
      → handle_send payloads transport at (stored payload) w ≡ (deliver transport m, w)
  unfolding handle_send
  handle_send-delivers stored law transport m payload at w e =
      ground (arith, law (record { message = m }) payload e)

  -- What a worker does with a job whose handler it has.
  pub process-handled :
      {V : Type 0} (stored : String → String) (handlers : HandlerRegistry V) (text : Error → String)
      (job : DatabaseJob) (ended : Option Error) (handled now : ℕ) (s : Session JobTables V)
      (handler : Handler V)
      → handler_for handlers job.type ≡ some handler
      → let (answer, world) = handler handled (stored job.payload) s.world in
        process stored handlers text job ended handled now s
        ≡ ended_with text job ended now answer (record s { world = world })
  unfolding process
  process-handled stored handlers text job ended handled now s handler h =
      let (answer, world) = handler handled (stored job.payload) s.world in
      rw (h, process) (settle_job-ends text job ended now answer (record s { world = world }))

module _ (texts : Texts) (payloads : Payloads) (sha256 : String → String) (at : Readings)
    {W : Type 0} (default_from : Address) (transport : Option Transport) where
  -- The mailer of a process that queues its mail in the database.
  abbrev pub queueing : Mailer (Session JobTables W)
  queueing = record {
    default_from = default_from;
    transport = transport;
    dispatcher = some (mail_dispatcher payloads (database_dispatcher sha256 at));
  }

  -- A mailable that was queued rendered to a message, and one row was added for it to the jobs, under
  -- the identifier and the queue that were answered: pending, not yet tried.
  pub queue-adds :
      (mailable : Mailable) (options : QueueOptions) (s : Session JobTables W) (info : JobInfo)
      → (queue texts queueing (some mailable) options s).0 ≡ ok info
      → (m : Message) × (row : DatabaseJob) × (render texts queueing (some mailable) ≡ ok m)
        × IsMailRow payloads m options row
        × ((queue texts queueing (some mailable) options s).1.tables.jobs
            ≡ s.tables.jobs ++ row ∷ [])
        × (info ≡ record { id = row.id; queue = row.queue })
  unfolding queue new_job
  queue-adds mailable options s info h =
      elim (Result-cases (render texts queueing (some mailable))) [
        | inr (x, e) ↦ absurd (ground arith)
        | inl (m, e) ↦ elim (Result-cases (payloads.marshal_send (record { message = m }))) [
          | inr (x, e') ↦ absurd (
              dispatch-unmarshalled sha256 (mail_of payloads m) (wanted options) at.uuid
                at.available at.created at.locks at.sweep s x info e' (rw (e, queue) at h))
          | inl (payload, e') ↦
              let row =
                new_job (mail_of payloads m) payload (wanted options) at.uuid at.available
                  at.created in
              let (added, fresh, answered) =
                dispatch-adds sha256 (mail_of payloads m) (wanted options) payload at.uuid
                  at.available at.created at.locks at.sweep s info e' (rw (e, queue) at h) in
              (
                m,
                row,
                e,
                new_job-IsMailRow payloads m options payload at.uuid at.available at.created e',
                rw (e, queue) added,
                answered,
              )
        ]
      ]

  -- A message that was queued as a row, and what becomes of it under those handlers when a worker
  -- has taken the row under a lease.
  pub record Delivers (stored : String → String) (mailable : Mailable) (options : QueueOptions)
      (s : Session JobTables W) (handlers : HandlerRegistry W) (text : Error → String)
      (token : String) (until handled now : ℕ) (ended : Option Error) (z : Session JobTables W)
      (m : Message) (row : DatabaseJob) : Type 0 where
    pub rendered : render texts queueing (some mailable) ≡ ok m
    pub is_mail : IsMailRow payloads m options row
    pub added :
        (queue texts queueing (some mailable) options s).1.tables.jobs ≡ s.tables.jobs ++ row ∷ []
    pub processed :
        process stored handlers text (lease token until row) ended handled now z
        ≡ ended_with text (lease token until row) ended now (deliver transport m) z

  -- Where JSON reads back what it wrote, a mailable that was queued is sent as it was rendered: the
  -- mailer rendered a message and added one pending row for it to the mail queue's jobs; and a worker
  -- with the program's handlers that took that row under a lease hands exactly that message to the
  -- transport. It completes the job where the transport takes the message and the handler's context
  -- has not ended, and fails it with the transport's error, or else the context's, otherwise, unless
  -- that write is itself a statement that fails.
  pub queue-Delivers :
      (stored : String → String)
      → PayloadLaw payloads stored
      → (registry handlers : HandlerRegistry W) (cleanup : ℕ → W → Result ℕ × W)
      → register_handlers payloads registry cleanup transport ≡ ok handlers
      → (mailable : Mailable) (options : QueueOptions) (s : Session JobTables W) (info : JobInfo)
      → (queue texts queueing (some mailable) options s).0 ≡ ok info
      → (text : Error → String) (token : String) (until handled now : ℕ) (ended : Option Error)
        (z : Session JobTables W)
      → (m : Message) × (row : DatabaseJob) × Delivers stored mailable options s handlers text token
          until handled now ended z m row
  queue-Delivers stored law registry handlers cleanup r mailable options s info h text token until
        handled now ended z =
      let (m, row, rendered, is_mail, added, answered) = queue-adds mailable options s info h in
      let handler : handler_for handlers row.type ≡ some (handle_send payloads transport) =
        ap (handler_for handlers) is_mail.type
        ∙ register_handlers-send payloads registry handlers cleanup transport r in
      (
        m,
        row,
        record {
          rendered = rendered;
          is_mail = is_mail;
          added = added;
          processed =
              process-handled payloads stored handlers text (lease token until row) ended handled
                now z (handle_send payloads transport) handler
              ∙ ap
                  (λ a.
                    ended_with text (lease token until row) ended now a.0
                      (record z { world = a.1 }))
                  (handle_send-delivers payloads stored law transport m row.payload handled z.world
                    is_mail.payload);
        },
      )
