-- ===== src/Lib.antt =====
-- A verification library for the server's own logic: its settings, accounts and roles, sessions,
-- the HTTP interface over them, mail, and the queues of jobs with the commands that operate them.
--
-- The parts, and how they interact. An HTTP request passes the guard for its token
-- (internal/adapter/http/middleware, internal/adapter/jwt) and its handler
-- (internal/adapter/http/handler), and reaches a service (internal/auth/service.go,
-- internal/user/service.go), which checks what it can and calls the repository of accounts and
-- tokens (internal/adapter/mysql/identity). Registration sends its mail through a notifier
-- (internal/adapter/jobs), which queues it (internal/mail) as a job. A process starts from the
-- settings that `Load` returned (internal/config/config.go). Jobs are rows of the database queue
-- (internal/adapter/queue/database.go): a dispatcher inserts them with their locks, any number of
-- workers reserve them under leases, and an inspector reads and requeues them. A scheduler
-- (internal/scheduler/scheduler.go) dispatches the jobs that are due in a minute. Where the
-- settings name Redis, the queue is asynq's (internal/adapter/queue/asynq.go). The command line
-- (cmd/app/queue.go) drives either inspector.
--
-- The files:
--   * Common, with Common/Tests, Common/Lists and Common/Int: shared names, Boolean tests, lists of
--     rows, signed integers.
--   * Errors: Go's errors, `errors.Is` and `errors.As`, and answers that are a value or an error.
--   * Sql: what gorm is asked for. A database action takes a session (the tables, the world
--     outside, and which later statements fail) to an answer and a session; `transaction` restores
--     the tables unless its body and the COMMIT succeed. Sql/Laws and Sql/Rows: lemmas on both.
--   * Config (internal/config/config.go): the settings, as records. Config/Normal: the functions
--     that fill in defaults; Config/Check: the checks, and `load` for Load. Config/Sound, Secure
--     and Settled: proofs.
--   * User (internal/user/entity.go, and the validation of internal/user/service.go): `User` with
--     its fields, `parse_role` for ParseRole, and so on. User/Service: the methods of `Service`,
--     each under its name in snake case. User/Validation and User/Service/Guards: what they
--     promise.
--   * Identity (the models and mappers of internal/adapter/mysql/identity): `Tables` holds the
--     rows, and the INSERTs and UPDATEs check the unique and foreign keys of the migrations.
--     Identity/Users, Identity/Tokens, Identity/Verification: the methods of `UserRepository`; a
--     method whose work is a transaction has its function as `..._body`. Identity/Users/Accounts,
--     Invariant, Registration, Admins, Identity/Tokens/Rotation, Identity/Verification/Consumed and
--     Identity/History: proofs.
--   * Auth (internal/auth/service.go): the methods of `Service`; `Ports` holds its collaborators.
--     Auth/Maintenance (internal/auth/maintenance.go): the clean-up of refresh tokens. Auth/Login,
--     Logout, Sessions and Bootstrap: proofs. Auth/Refinement: the rows of refresh tokens seen as a
--     function from hashes to holders, which Auth/Holders computes.
--   * Queue (internal/queue/queue.go and internal/adapter/queue/database_models.go),
--     Queue/Dispatch, Queue/Worker and Queue/Inspector (internal/adapter/queue/database.go and
--     database_reservation.go). Queue/Worker/Loop: the turns of `runLoop`; Queue/Worker/Loop/Rounds:
--     proofs. Queue/Dispatch/Locks, Uniqueness and Tasks, Added, Queue/Worker/Lease, Exclusion,
--     Holds, Rivals, Attempts, Ends and Failing, and Queue/Inspector/Operations: proofs.
--   * Queue/Asynq (internal/adapter/queue/asynq.go): the dispatcher, the inspector and the handlers
--     of tasks over a `Client`. Queue/Asynq/Outcomes: proofs.
--   * Mail (internal/mail/mail.go) and Mail/Mailables (internal/mail/welcome.go and
--     email_verification.go): `render`, `send` and `queue`. Mail/Jobs (internal/adapter/jobs and
--     internal/adapter/queue/mail_dispatcher.go): the jobs, their handlers and the notifiers.
--     Mail/Rendered, Delivery and Verification: proofs.
--   * Bootstrap (internal/bootstrap/bootstrap.go, `NewRegistry` of internal/scheduler/scheduler.go,
--     and `newInspector` and `openQueueDB` of cmd/app/queue.go): the parts that the settings
--     choose. Bootstrap/Handlers, Cleanup and Built: proofs.
--   * Cli (cmd/app/queue.go): the commands, over any inspector. Cli/Archived and Everywhere:
--     proofs.
--   * Scheduler (internal/scheduler/scheduler.go): `register`, `due` and `run`, over
--     Queue/Dispatch. Scheduler/Registration and Scheduler/Once: proofs.
--   * Jwt (internal/adapter/jwt/service.go): `generate`, `sign` and `validate` over a `Codec`.
--     Jwt/Validation, Jwt/RoundTrip and Jwt/Sessions: proofs.
--   * Http (internal/adapter/http/handler/helpers.go and middleware/jwt_middleware.go),
--     Http/UserHandler and Http/AuthHandler (the handlers of the same names): a handler takes the
--     response so far and a session to what it returns, the response and the session.
--     Http/Guards, Http/Inputs and Http/Conflicts: proofs.
--   * Tests: evaluation on concrete inputs, and instances of the theorems.
--
-- What is a parameter: the password hash, the signed tokens, SHA-256, base64, JSON, HMAC, random
-- identifiers, the notifiers, time zones and cron expressions, the parts of Go's library that trim,
-- lower-case and parse texts, and the clock, whose readings are arguments, each at the place where
-- the code takes it. So are what viper and godotenv read (`Sources`), the parsers of URLs, numbers
-- and mail addresses, the templates of mail, the transport that sends it, the JSON of the jobs
-- (`Payloads`), and asynq's client and inspector, and what opens them and the database
-- (`Backends`). Failures of the database are a list of faults, and the theorems hold for every such
-- list. Row locks are the argument `locked`. Texts are compared exactly, without the collation of
-- the tables. Times are naturals: nanoseconds in the queue, whose columns keep microseconds of
-- them, which is left out. What a TIMESTAMP column keeps of an expiry or a stamp that is inserted is
-- `timestamp` of `Driver`; the other times in these tables (revoked_at, email_verified_at) are
-- stored as read. The column payload is JSON: the text that it gives back for one
-- that was inserted is the argument `stored` of `process`.
-- Identifiers, versions and counts are naturals without a bound: their columns are 32 bits wide
-- (64 for processed_total), and an overflow, which MySQL refuses, is left out. Interleavings are
-- sequences of whole calls: each call is a statement or a transaction. A handler acts on the world
-- of its worker's session, between two calls.
--
-- Every loop of the code that is modelled walks a list, but `runLoop`: `round` takes its turns up to
-- the first that waits or works, on fuel, and the number of the weighted queues is enough.
--
-- What has no model here: the router, the start and the end of the programs under cmd/app, what is
-- printed or logged, the server of asynq, goroutines and timers, and internal/templatepack, which
-- copies files. They are glue, or act outside the database.
pub mod Common
pub mod Errors
pub mod Sql
pub mod User
pub mod Identity
pub mod Auth
pub mod Queue
pub mod Scheduler
pub mod Config
pub mod Mail
pub mod Cli
pub mod Bootstrap
pub mod Jwt
pub mod Http
mod Tests
