-- ===== src/Mail/Jobs.antt =====
-- internal/adapter/queue/mail_dispatcher.go, which queues a message as a job, and
-- internal/adapter/jobs: the jobs, their handlers, and the notifiers that queue mail. `encoding/json`
-- at the payloads is `Payloads`; what is only logged is left out.
use golang_clean_architectur.Common.{ℕ, String, Option, none, some}
use golang_clean_architectur.Errors.{Result, ok, err, message, wrap, ◌>>=◌}
use golang_clean_architectur.User.{Texts, User}
use golang_clean_architectur.Queue.{
  Job, DispatchOptions, JobInfo, Dispatcher, Handler, HandlerRegistry, register,
}
use golang_clean_architectur.Mail.{
  SendJob, QueueOptions, no_options, Transport, MessageDispatcher, Mailer, queue, type_send,
}
use golang_clean_architectur.Mail.Mailables.{Templates, welcome_mail, verification_mail}

abbrev pub type_demo_log : String
type_demo_log = "demo:log"

abbrev pub type_cleanup_refresh_token : String
type_cleanup_refresh_token = "auth:cleanup-refresh-tokens"

pub record DemoLog : Type 0 where
  pub message : String

-- `json.Marshal` and `json.Unmarshal` at the payloads of the jobs.
pub record Payloads : Type 0 where
  pub marshal_send : SendJob → Result String
  pub unmarshal_send : String → Result SendJob
  pub marshal_demo : DemoLog → Result String
  pub unmarshal_demo : String → Result DemoLog
  pub marshal_cleanup : Result String
  pub unmarshal_cleanup : String → Result (Unit {0})

-- `QueueOptions` as the queue's options.
abbrev pub options_of : QueueOptions → DispatchOptions
options_of o = record {
  queue = o.queue;
  process_at = o.process_at;
  max_retry = o.max_retry;
  timeout = o.timeout;
  unique_for = o.unique_for;
  retention = o.retention;
  task_id = o.task_id;
}

module _ (payloads : Payloads) where
  open payloads use {unmarshal_send, unmarshal_demo, unmarshal_cleanup}

  -- `mailJob`
  abbrev pub mail_job : SendJob → Job
  mail_job job = record { type = type_send; payload = payloads.marshal_send job }

  abbrev pub demo_log : DemoLog → Job
  demo_log job = record { type = type_demo_log; payload = payloads.marshal_demo job }

  abbrev pub cleanup_refresh_tokens : Job
  cleanup_refresh_tokens = record {
    type = type_cleanup_refresh_token;
    payload = payloads.marshal_cleanup;
  }

  -- `MailDispatcher`
  abbrev pub mail_dispatcher : {S : Type 0} → Dispatcher S → MessageDispatcher S
  mail_dispatcher dispatcher = record {
    dispatch_message = λ job options s. dispatcher.dispatch (mail_job job) (options_of options) s;
  }

  module _ {W : Type 0} where
    -- The handlers of `RegisterHandlers`; `cleanup` is the method of the maintenance service, which
    -- takes the reading of the clock.
    unfoldable pub handle_demo : Handler W
    handle_demo at payload w = elim (unmarshal_demo payload) [
      | err e ↦ (err (wrap "decode demo log job" e), w)
      | ok job ↦ (ok tt, w)
    ]

    unfoldable pub handle_cleanup : (ℕ → W → Result ℕ × W) → Handler W
    handle_cleanup cleanup at payload w = elim (unmarshal_cleanup payload) [
      | err e ↦ (err (wrap "decode cleanup refresh tokens job" e), w)
      | ok job ↦ let (deleted, w') = cleanup at w in (deleted >>= λ n. ok tt, w')
    ]

    unfoldable pub handle_send : Option Transport → Handler W
    handle_send transport at payload w = elim (unmarshal_send payload) [
      | err e ↦ (err (wrap "decode send mail job" e), w)
      | ok job ↦ elim transport [
        | none ↦ (err (message "mail transport is not configured"), w)
        | some send ↦ (send job.message, w)
      ]
    ]

  -- `RegisterHandlers`
  unfoldable pub register_handlers :
      {W : Type 0}
      → HandlerRegistry W
      → (ℕ → W → Result ℕ × W)
      → Option Transport
      → Result (HandlerRegistry W)
  register_handlers registry cleanup transport = do
    demo ← register registry type_demo_log (some handle_demo)
    cleaning ← register demo type_cleanup_refresh_token (some (handle_cleanup cleanup))
    register cleaning type_send (some (handle_send transport))

module _ (texts : Texts) (render_template : Templates) {S : Type 0} (mailer : Mailer S) where
  abbrev forget : Result JobInfo × S → Result (Unit {0}) × S
  forget (ok info, s) = (ok tt, s)
  forget (err e, s) = (err e, s)

  -- `NotifyVerification`
  unfoldable pub notify_verification : User → String → S → Result (Unit {0}) × S
  notify_verification account token s =
      let mail =
        verification_mail render_template
          (record { username = account.username; email = account.email; token = token }) in
      forget (queue texts mailer (some mail) no_options s)

  -- `NotifyWelcome`
  unfoldable pub notify_welcome : User → S → Result (Unit {0}) × S
  notify_welcome account s =
      let mail =
        welcome_mail render_template
          (record { username = account.username; email = account.email }) in
      forget (queue texts mailer (some mail) no_options s)
