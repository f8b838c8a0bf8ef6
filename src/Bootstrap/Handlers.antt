-- ===== src/Bootstrap/Handlers.antt =====
-- The handlers that a worker has (internal/bootstrap/bootstrap.go), and what the one for the clean-up of
-- refresh tokens (internal/adapter/jobs/handlers.go) makes of a job.
use golang_clean_architectur.Common.{
  ℕ, ◌≡◌, ap, ◌∙◌, Option, none, some, String, [], arith, str_eq_iff, inl, inr, ◌⊎◌,
}
use golang_clean_architectur.Errors.{Error, Result, ok, err, Result-cases}
use golang_clean_architectur.Sql.{Session}
use golang_clean_architectur.Config.{Config}
use golang_clean_architectur.Queue.{
  JobTables, DatabaseJob, Handler, HandlerRegistry, handler_for, register,
}
use golang_clean_architectur.Queue.Worker.{process}
use golang_clean_architectur.Queue.Asynq.{new_server}
use golang_clean_architectur.Mail.{Transport, type_send}
use golang_clean_architectur.Mail.Jobs.{
  Payloads, register_handlers, handle_send, handle_demo, handle_cleanup, type_demo_log,
  type_cleanup_refresh_token,
}
use golang_clean_architectur.Mail.Delivery.{register-handler_for, process-handled, ended_with}
use golang_clean_architectur.Bootstrap.{
  worker, Worker, handlers_of, by_driver, redis_worker, database_worker,
}

-- The JSON of the clean-up job is read back from the text that the column of the payload gives back.
abbrev pub CleanupLaw : Payloads → (String → String) → Type 0
CleanupLaw payloads stored =
    (text : String)
    → payloads.marshal_cleanup ≡ ok text
    → payloads.unmarshal_cleanup (stored text) ≡ ok tt

module _ (payloads : Payloads) {V : Type 0} (cleanup : ℕ → V → Result ℕ × V) where
  register-keeps :
      (registry next : HandlerRegistry V) (key job_type : String) (handler given : Handler V)
      → handler_for registry job_type ≡ some handler
      → register registry key (some given) ≡ ok next
      → handler_for next job_type ≡ some handler
  unfolding register handler_for
  register-keeps registry next key job_type handler given h e =
      ground (arith, str_eq_iff key job_type)

  handles_cleanup :
      (registry next : HandlerRegistry V) (transport : Option Transport)
      → register_handlers payloads registry cleanup transport ≡ ok next
      → handler_for next type_cleanup_refresh_token ≡ some (handle_cleanup payloads cleanup)
  unfolding register_handlers
  handles_cleanup registry next transport h =
      elim (Result-cases (register registry type_demo_log (some (handle_demo payloads)))) [
        | inr (x, e) ↦ absurd (ground arith)
        | inl (demo, e) ↦
            elim (Result-cases
              (register demo type_cleanup_refresh_token (some (handle_cleanup payloads cleanup)))) [
                | inr (x, e') ↦ absurd (ground arith)
                | inl (cleaning, e') ↦
                    register-keeps cleaning next type_send type_cleanup_refresh_token
                      (handle_cleanup payloads cleanup) (handle_send payloads transport)
                      (register-handler_for payloads demo cleaning type_cleanup_refresh_token
                        (handle_cleanup payloads cleanup) e')
                      (ground arith)
              ]
      ]

  by_driver-worker :
      {D : Type 0} (driver : String) (db : Option D) (a b w : Worker V)
      → by_driver driver db a b ≡ ok w
      → (w ≡ a) ⊎ (w ≡ b)
  unfolding by_driver
  by_driver-worker driver none a b w h = ground arith
  by_driver-worker driver (some db) a b w h = ground arith

  pub worker-handles :
      {D : Type 0} (transport : Result Transport) (c : Config) (db : Option D) (w : Worker V)
      → worker payloads cleanup transport c db ≡ ok w
      → handler_for (handlers_of w) type_cleanup_refresh_token
        ≡ some (handle_cleanup payloads cleanup)
  unfolding worker new_server
  worker-handles transport c none w h = absurd (ground arith)
  worker-handles (err e) c (some db) w h = absurd (ground arith)
  worker-handles (ok send) c (some db) w h =
      elim (Result-cases (register_handlers payloads [] cleanup (some send))) [
        | inr (x, e) ↦ absurd (ground arith)
        | inl (registry, e) ↦
            let handled = handles_cleanup [] registry (some send) e in
            elim (by_driver-worker c.queue.driver (some db)
              (redis_worker (new_server c.queue registry)) (database_worker c.queue registry) w
              (rw (e, worker) at h)) [
                | inl same ↦
                    ap (λ x. handler_for (handlers_of x) type_cleanup_refresh_token) same ∙ handled
                | inr same ↦
                    ap (λ x. handler_for (handlers_of x) type_cleanup_refresh_token) same ∙ handled
              ]
      ]

  handle_cleanup-cleans :
      (stored : String → String)
      → CleanupLaw payloads stored
      → (payload : String) (at : ℕ) (w : V) → payloads.marshal_cleanup ≡ ok payload
      → let (deleted, w') = cleanup at w in
        handle_cleanup payloads cleanup at (stored payload) w
        ≡ ((elim deleted [ ok n ↦ ok tt | err e ↦ err e ]), w')
  unfolding handle_cleanup
  handle_cleanup-cleans stored law payload at w e = ground (arith, law payload e)

  pub cleanup-processed :
      (stored : String → String)
      → CleanupLaw payloads stored
      → (handlers : HandlerRegistry V) (text : Error → String) (job : DatabaseJob)
        (ended : Option Error) (handled now : ℕ) (z : Session JobTables V)
      → handler_for handlers job.type ≡ some (handle_cleanup payloads cleanup)
      → payloads.marshal_cleanup ≡ ok job.payload
      → let (deleted, world) = cleanup handled z.world in
        process stored handlers text job ended handled now z
        ≡ ended_with text job ended now
            (elim deleted [ ok n ↦ ok tt | err e ↦ err e ])
            (record z { world = world })
  cleanup-processed stored law handlers text job ended handled now z h e =
      process-handled payloads stored handlers text job ended handled now z
        (handle_cleanup payloads cleanup) h
      ∙ ap (λ a. ended_with text job ended now a.0 (record z { world = a.1 }))
          (handle_cleanup-cleans stored law job.payload handled z.world e)
