-- ===== src/Bootstrap/Built.antt =====
-- What a process builds from settings that `Load` returned (internal/config/config.go,
-- internal/bootstrap/bootstrap.go).
use golang_clean_architectur.Common.{
  ℕ, ◌≡◌, ◌≢◌, ◌⊎◌, refl, some, String, [], ◌∷◌, inl, inr, ap, str_eq,
}
use golang_clean_architectur.Errors.{Result, ok}
use golang_clean_architectur.Sql.{Session}
use golang_clean_architectur.User.{Texts}
use golang_clean_architectur.Config.{
  Config, Parsers, Sources, queue_driver_none, queue_driver_database, queue_driver_redis,
}
use golang_clean_architectur.Config.Check.{load}
use golang_clean_architectur.Config.Sound.{load-IsRunnable}
use golang_clean_architectur.Queue.{
  JobTables, Dispatcher, JobInspector, HandlerRegistry, handler_for, register,
}
use golang_clean_architectur.Queue.Dispatch.{Readings}
use golang_clean_architectur.Queue.Asynq.{new_server}
use golang_clean_architectur.Mail.{Transport, type_send}
use golang_clean_architectur.Mail.Jobs.{
  Payloads, register_handlers, handle_send, handle_demo, handle_cleanup, type_demo_log,
  type_cleanup_refresh_token,
}
use golang_clean_architectur.Bootstrap.{
  Backends, Worker, redis_worker, database_worker, handlers_of, by_driver, dispatcher, inspector,
  worker,
}

by_driver-builds :
    {A D : Type 0} (driver : String) (db : D) (redis database : A)
    → (driver ≡ queue_driver_database) ⊎ (driver ≡ queue_driver_redis)
    → (part : A) × (by_driver driver (some db) redis database ≡ ok part)
unfolding by_driver str_eq
by_driver-builds driver db redis database (inl e) =
    (database, ap (λ d. by_driver d (some db) redis database) e)
by_driver-builds driver db redis database (inr e) =
    (redis, ap (λ d. by_driver d (some db) redis database) e)

module _ (payloads : Payloads) {V : Type 0} (cleanup : ℕ → V → Result ℕ × V)
    (send : Transport) where
  -- A worker that has a handler for every type of job that the program dispatches.
  pub record Handles (w : Worker V) : Type 0 where
    pub demo : handler_for (handlers_of w) type_demo_log ≡ some (handle_demo payloads)
    pub cleaning :
        handler_for (handlers_of w) type_cleanup_refresh_token
        ≡ some (handle_cleanup payloads cleanup)
    pub sending : handler_for (handlers_of w) type_send ≡ some (handle_send payloads (some send))

  abbrev handlers : HandlerRegistry V
  handlers =
      (type_send, handle_send payloads (some send))
      ∷ (type_cleanup_refresh_token, handle_cleanup payloads cleanup)
      ∷ (type_demo_log, handle_demo payloads)
      ∷ []

  worker-builds :
      {D : Type 0} (c : Config) (db : D)
      → (c.queue.driver ≡ queue_driver_database) ⊎ (c.queue.driver ≡ queue_driver_redis)
      → (w : Worker V) × (worker payloads cleanup (ok send) c (some db) ≡ ok w) × Handles w
  unfolding worker by_driver register_handlers register handler_for str_eq new_server
  worker-builds c db (inl e) = (
    database_worker c.queue handlers,
    ap
        (λ d.
          by_driver d (some db) (redis_worker (new_server c.queue handlers))
            (database_worker c.queue handlers))
        e,
    record { demo = refl; cleaning = refl; sending = refl },
  )
  worker-builds c db (inr e) = (
    redis_worker (new_server c.queue handlers),
    ap
        (λ d.
          by_driver d (some db) (redis_worker (new_server c.queue handlers))
            (database_worker c.queue handlers))
        e,
    record { demo = refl; cleaning = refl; sending = refl },
  )

module _ (texts : Texts) (parsers : Parsers) where
  loaded_driver :
      (sources : Sources) (c : Config)
      → load texts parsers sources ≡ ok c
      → c.queue.driver ≢ queue_driver_none
      → (c.queue.driver ≡ queue_driver_database) ⊎ (c.queue.driver ≡ queue_driver_redis)
  loaded_driver sources c h queued = elim (load-IsRunnable texts parsers sources c h).driver [
    | inl e ↦ absurd (queued e)
    | inr chosen ↦ chosen
  ]

  -- Settings that Load returned, whose driver is not none, build every part of the queue where there
  -- are a connection and a mail transport: a dispatcher, an inspector, and a worker that has the
  -- handler for every type of job that the program dispatches.
  pub loaded_builds :
      (sources : Sources) (c : Config)
      → load texts parsers sources ≡ ok c
      → c.queue.driver ≢ queue_driver_none
      → {W D : Type 0} (backends : Backends (Session JobTables W) D) (db : D)
        (sha256 : String → String) (at : Readings) (clock : String → ℕ) (payloads : Payloads)
        {V : Type 0} (cleanup : ℕ → V → Result ℕ × V) (send : Transport)
      → ((d : Dispatcher (Session JobTables W)) × (dispatcher backends sha256 at c (some db)
            ≡ ok d))
        × ((i : JobInspector (Session JobTables W)) × (inspector backends clock c (some db) ≡ ok i))
        × (w : Worker V) × (worker payloads cleanup (ok send) c (some db) ≡ ok w)
        × Handles payloads cleanup send w
  unfolding dispatcher inspector
  loaded_builds sources c h queued backends db sha256 at clock payloads cleanup send =
      let chosen = loaded_driver sources c h queued in
      let (w, works, handles) = worker-builds payloads cleanup send c db chosen in
      (
        by_driver-builds c.queue.driver db _ _ chosen,
        by_driver-builds c.queue.driver db _ _ chosen,
        w,
        works,
        handles,
      )
