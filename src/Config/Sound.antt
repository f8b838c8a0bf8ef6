-- ===== src/Config/Sound.antt =====
-- What the rest of the program may rely on in settings that `Load` returned
-- (internal/config/config.go): a worker has queues to walk, and production has secrets.
use golang_clean_architectur.Common.{
  ◌+◌, ℕ, zero, suc, ◌≤◌, ◌≡◌, ◌≢◌, ◌⊎◌, inl, inr, true, false, String, List, [], ◌∷◌, ◌++◌,
  replicate, length, All, arith, str_eq, str_eq_iff, str_eq-ne, Bool-cases,
}
use golang_clean_architectur.Common.Int.{ℤ, pos, negsuc, to_ℕ}
use golang_clean_architectur.Errors.{ok, Result-cases}
use golang_clean_architectur.User.{Texts}
use golang_clean_architectur.Queue.Worker.Loop.{
  weighted_queue_names, insert_queue, sort_queues, repeat_names,
}
use golang_clean_architectur.Config.{
  Config, Parsers, Sources, QueueConfig, positive_or, queue_driver_none, queue_driver_database,
  queue_driver_redis,
}
use golang_clean_architectur.Config.Normal.{
  normalize_queue_config, normalize_mail_config, normalize_auth_config,
  normalize_elasticsearch_config, normalize_logging_config,
}
use golang_clean_architectur.Config.Check.{check_queues, validate_config, settle, load, is_none}

pub to_ℕ-positive_or : (z : ℤ) (n : ℕ) → 1 ≤ n → 1 ≤ to_ℕ (positive_or z n)
to_ℕ-positive_or (pos zero) n h = h
to_ℕ-positive_or (pos (suc k)) n h = omega arith
to_ℕ-positive_or (negsuc k) n h = h

replicate-length :
    (n : ℕ) (name : String) (rest : List String)
    → length (replicate n name ++ rest) ≡ n + length rest
replicate-length zero name rest = omega arith
replicate-length (suc n) name rest = omega (arith, replicate-length n name rest)

insert-length :
    (q : String × ℤ) (queues : List (String × ℤ))
    → length (repeat_names (insert_queue q queues)) ≡ to_ℕ q.1 + length (repeat_names queues)
unfolding insert_queue repeat_names
insert-length (name, weight) [] = replicate-length (to_ℕ weight) name []
insert-length (name, weight) ((o, w) ∷ queues) = ground (
  arith,
  insert-length (name, weight) queues,
  replicate-length (to_ℕ w) o (repeat_names (insert_queue (name, weight) queues)),
  replicate-length (to_ℕ w) o (repeat_names queues),
  replicate-length (to_ℕ weight) name (replicate (to_ℕ w) o ++ repeat_names queues),
)

weighted_queue_names-length :
    (q : String × ℤ) (queues : List (String × ℤ))
    → to_ℕ q.1 ≤ length (weighted_queue_names (q ∷ queues))
unfolding weighted_queue_names sort_queues
weighted_queue_names-length q queues = omega (arith, insert-length q (sort_queues queues))

module _ (texts : Texts) (parsers : Parsers) where
  -- What went into each part of settled settings.
  pub record Settled (raw c : Config) : Type 0 where
    pub queue : normalize_queue_config texts raw.queue ≡ ok c.queue
    pub mail : normalize_mail_config texts raw.mail ≡ ok c.mail
    pub auth : normalize_auth_config texts raw.app raw.auth ≡ ok (c.app, c.auth)
    pub elasticsearch : c.elasticsearch ≡ normalize_elasticsearch_config texts raw.elasticsearch
    pub logging : c.logging ≡ normalize_logging_config texts raw.logging
    pub database : c.database ≡ raw.database
    pub redis : c.redis ≡ raw.redis
    pub scheduler : c.scheduler ≡ raw.scheduler
    pub valid : validate_config texts parsers c ≡ ok tt

  pub settle-Settled : (raw c : Config) → settle texts parsers raw ≡ ok c → Settled raw c
  unfolding settle
  settle-Settled raw c h = ground arith

  pub load-settle :
      (sources : Sources) (c : Config)
      → load texts parsers sources ≡ ok c
      → (raw : Config) × (sources.unmarshal ≡ ok raw) × (settle texts parsers raw ≡ ok c)
  unfolding load
  load-settle sources c h = elim (Result-cases sources.unmarshal) [
    | inl (raw, e) ↦ (raw, e, ground arith)
    | inr (x, e) ↦ ground arith
  ]

  pub load-Settled :
      (sources : Sources) (c : Config)
      → load texts parsers sources ≡ ok c
      → (raw : Config) × Settled raw c
  load-Settled sources c h =
      let (raw, e, settled) = load-settle sources c h in (raw, settle-Settled raw c settled)

  check_queues-All :
      (queues : List (String × ℤ))
      → check_queues texts queues ≡ ok tt
      → All (λ q. (texts.trim_space q.0 ≢ "") × (1 ≤ to_ℕ q.1)) queues
  unfolding check_queues
  check_queues-All [] h = tt
  check_queues-All ((name, weight) ∷ queues) h = (
    ground (arith, str_eq_iff (texts.trim_space name) ""),
    check_queues-All queues (ground arith),
  )

  -- What a worker relies on.
  pub record IsRunnable (c : Config) : Type 0 where
    pub driver :
        (c.queue.driver ≡ queue_driver_none)
        ⊎ ((c.queue.driver ≡ queue_driver_database) ⊎ (c.queue.driver ≡ queue_driver_redis))
    pub concurrency : 1 ≤ to_ℕ c.queue.concurrency
    pub poll : 1 ≤ to_ℕ c.queue.database.poll_interval_milliseconds
    pub reservation : 1 ≤ to_ℕ c.queue.database.reservation_seconds
    pub shutdown : 1 ≤ to_ℕ c.queue.shutdown_seconds
    pub queues : All (λ q. (texts.trim_space q.0 ≢ "") × (1 ≤ to_ℕ q.1)) c.queue.queues
    pub round :
        c.queue.driver ≢ queue_driver_none → 1 ≤ length (weighted_queue_names c.queue.queues)

  normalize_queue-positive :
      (q q' : QueueConfig)
      → normalize_queue_config texts q ≡ ok q'
      → (1 ≤ to_ℕ q'.concurrency)
        × (1 ≤ to_ℕ q'.database.poll_interval_milliseconds)
        × (1 ≤ to_ℕ q'.database.reservation_seconds)
        × (1 ≤ to_ℕ q'.shutdown_seconds)
  unfolding normalize_queue_config
  normalize_queue-positive q q' h = ground (
    arith,
    to_ℕ-positive_or q.concurrency 1,
    to_ℕ-positive_or q.database.poll_interval_milliseconds 500,
    to_ℕ-positive_or q.database.reservation_seconds 60,
    to_ℕ-positive_or q.shutdown_seconds 30,
  )

  normalize_queue-driver :
      (q q' : QueueConfig)
      → normalize_queue_config texts q ≡ ok q'
      → (q'.driver ≡ queue_driver_none)
        ⊎ ((q'.driver ≡ queue_driver_database) ⊎ (q'.driver ≡ queue_driver_redis))
  unfolding normalize_queue_config
  normalize_queue-driver q q' h = elim (Bool-cases (str_eq q'.driver queue_driver_none)) [
    | inl e ↦ inl ((str_eq_iff q'.driver queue_driver_none).0 e)
    | inr e ↦ elim (Bool-cases (str_eq q'.driver queue_driver_database)) [
      | inl e' ↦ inr (inl ((str_eq_iff q'.driver queue_driver_database).0 e'))
      | inr e' ↦
          let redis : str_eq q'.driver queue_driver_redis ≡ true = ground arith in
          inr (inr ((str_eq_iff q'.driver queue_driver_redis).0 redis))
    ]
  ]

  round_of :
      (queues : List (String × ℤ))
      → All (λ q. (texts.trim_space q.0 ≢ "") × (1 ≤ to_ℕ q.1)) queues
      → is_none queues ≡ false
      → 1 ≤ length (weighted_queue_names queues)
  round_of [] h e = ground arith
  round_of (q ∷ queues) h e = omega (arith, weighted_queue_names-length q queues, h.0.1)

  valid_queues :
      (c : Config)
      → validate_config texts parsers c ≡ ok tt
      → (check_queues texts c.queue.queues ≡ ok tt)
        × ((str_eq c.queue.driver queue_driver_none ≡ false) → is_none c.queue.queues ≡ false)
  unfolding validate_config
  valid_queues c h = ground arith

  -- Settings that Load returns let a worker run: the driver is none, database or redis; the
  -- concurrency, the poll interval, the reservation and the time to shut down are positive; every
  -- queue has a name that is not blank and a positive weight; and unless the driver is none, the
  -- weighted round of queues that the worker walks is not empty.
  pub load-IsRunnable :
      (sources : Sources) (c : Config) → load texts parsers sources ≡ ok c → IsRunnable c
  load-IsRunnable sources c h =
      let (raw, settled) = load-Settled sources c h in
      let (checked, some_queue) = valid_queues c settled.valid in
      let queues = check_queues-All c.queue.queues checked in
      let (concurrency, poll, reservation, shutdown) =
        normalize_queue-positive raw.queue c.queue settled.queue in
      record {
        driver = normalize_queue-driver raw.queue c.queue settled.queue;
        concurrency = concurrency;
        poll = poll;
        reservation = reservation;
        shutdown = shutdown;
        queues = queues;
        round = λ ne. round_of c.queue.queues queues (some_queue (str_eq-ne _ _ ne));
      }
