-- ===== src/Tests/Mailing.antt =====
-- internal/mail and the jobs of internal/adapter/jobs at concrete inputs.
use golang_clean_architectur.Common.{
  ℕ, ◌+◌, ◌*◌, ◌≡◌, refl, true, String, none, some, Bool, false, ◌&&◌, if◌then◌else◌, List, [], ◌∷◌,
  arith, str_eq, str_eq_iff,
}
use golang_clean_architectur.Errors.{sentinel, deadline_exceeded, Result, ok, err, message}
use golang_clean_architectur.Sql.{Session, next_fault, later_faults}
use golang_clean_architectur.Identity.{Tables, to_user, insert_verification}
use golang_clean_architectur.Identity.Tokens.{
  can_issue_email_verification, replace_email_verification_token,
  replace_email_verification_token_body,
}
use golang_clean_architectur.Auth.{Ports, send_verification}
use golang_clean_architectur.Queue.{
  minute, JobTables, DatabaseJob, HandlerRegistry, register, handler_for, duration_seconds,
}
use golang_clean_architectur.Queue.Dispatch.{
  Readings, dispatch, dispatch_body, dispatch_locks, new_job, insert_job, insert_lock, sweep_lock,
  choose_job_id,
}
use golang_clean_architectur.Mail.{
  Address, Attachment, Message, Mailable, render, queue, validate_message, check_recipients,
  check_attachments, no_options, type_send,
}
use golang_clean_architectur.Mail.Mailables.{Templates, verification_mail}
use golang_clean_architectur.Mail.Jobs.{
  Payloads, notify_verification, register_handlers, handle_send, handle_cleanup, handle_demo,
  type_demo_log, type_cleanup_refresh_token,
}
use golang_clean_architectur.Mail.Rendered.{IsDeliverable, render_iff}
use golang_clean_architectur.Mail.Delivery.{queueing, PayloadLaw, Delivers, queue-Delivers}
use golang_clean_architectur.Mail.Verification.{Mailed, send_verification_mails, mailing}
use golang_clean_architectur.Tests.Data
use golang_clean_architectur.Tests.Data.{texts, driver, cyd}

abbrev digest : String → String
digest text = text

-- A template is rendered as its name.
abbrev templates : Templates
templates name fields = ok name

abbrev post : Mailable
post = verification_mail templates (record { username = "cyd"; email = "cyd@x"; token = "t" })

abbrev from : Address
from = record { name = "App"; address = "app@x" }

abbrev rendered : Message
rendered = record {
  envelope = record {
    from = from;
    to = (record { name = "cyd"; address = "cyd@x" }) ∷ [];
    subject = "Verify your email";
  };
  content = record { text = "email-verification.txt"; html = "email-verification.html" };
  attachments = [];
}

-- One message has a text of its own.
is_rendered : Message → List Address → List Attachment → Bool
is_rendered m (to ∷ []) [] =
    str_eq m.envelope.from.name "App"
    && str_eq m.envelope.from.address "app@x"
    && str_eq to.name "cyd"
    && str_eq to.address "cyd@x"
    && str_eq m.envelope.subject "Verify your email"
    && str_eq m.content.text "email-verification.txt"
    && str_eq m.content.html "email-verification.html"
is_rendered m _ _ = false

abbrev payloads : Payloads
payloads = record {
  marshal_send = λ job.
      if is_rendered job.message job.message.envelope.to job.message.attachments
      then ok "m"
      else err (message "payload");
  unmarshal_send = λ text. ok (record { message = rendered });
  marshal_demo = λ job. ok "demo";
  unmarshal_demo = λ text. ok (record { message = text });
  marshal_cleanup = ok "{}";
  unmarshal_cleanup = λ text. ok tt;
}

is_rendered-eq :
    (m : Message) (to : List Address) (attachments : List Attachment)
    → is_rendered m to attachments ≡ true
    → (m.envelope.from ≡ from)
      × (to ≡ rendered.envelope.to)
      × (m.envelope.subject ≡ rendered.envelope.subject)
      × (m.content ≡ rendered.content)
      × (attachments ≡ [])
unfolding is_rendered
is_rendered-eq m [] attachments h = cc
is_rendered-eq m (to ∷ []) [] h = ground (
  arith,
  str_eq_iff m.envelope.from.name "App",
  str_eq_iff m.envelope.from.address "app@x",
  str_eq_iff to.name "cyd",
  str_eq_iff to.address "cyd@x",
  str_eq_iff m.envelope.subject "Verify your email",
  str_eq_iff m.content.text "email-verification.txt",
  str_eq_iff m.content.html "email-verification.html",
)
is_rendered-eq m (to ∷ []) (a ∷ others) h = cc
is_rendered-eq m (to ∷ b ∷ others) attachments h = cc

abbrev stored : String → String
stored text = text

payloads_law : PayloadLaw payloads stored
payloads_law job text e =
    let m = job.message in
    let is = is_rendered-eq m m.envelope.to m.attachments (ground arith) in ground (arith, is)

abbrev at : Readings
at = record { uuid = "j1"; available = 5; created = 5; locks = 5; sweep = 5 }

abbrev jobs : Session JobTables (Unit {0})
jobs = record { tables = record { jobs = []; locks = []; stats = [] }; world = tt; faults = [] }

abbrev delivered : Message → Result (Unit {0})
delivered m = ok tt

renders :
    render texts
      (queueing texts payloads digest at {W = Unit {0}} from (some delivered))
      (some post)
    ≡ ok rendered
unfolding render validate_message check_recipients check_attachments verification_mail str_eq
renders = refl

render_iff_example : IsDeliverable texts rendered
render_iff_example =
    ((render_iff texts (queueing texts payloads digest at {W = Unit {0}} from (some delivered)) post
        rendered).0
      renders).3

queues :
    (queue texts
      (queueing texts payloads digest at from (some delivered))
      (some post)
      no_options
      jobs).0
    ≡ ok (record { id = "j1"; queue = "mail" })
unfolding queue render validate_message check_recipients check_attachments verification_mail
    dispatch dispatch_body dispatch_locks new_job insert_job insert_lock sweep_lock choose_job_id
    duration_seconds next_fault later_faults is_rendered str_eq
queues = refl

abbrev none_deleted : ℕ → Unit {0} → Result ℕ × Unit {0}
none_deleted now w = (ok 0, w)

abbrev handlers : HandlerRegistry (Unit {0})
handlers =
    (type_send, handle_send payloads (some delivered))
    ∷ (type_cleanup_refresh_token, handle_cleanup payloads none_deleted)
    ∷ (type_demo_log, handle_demo payloads)
    ∷ []

registers : register_handlers payloads [] none_deleted (some delivered) ≡ ok handlers
unfolding register_handlers register handler_for str_eq
registers = refl

queue-Delivers_example :
    (m : Message) × (row : DatabaseJob) × Delivers texts payloads digest at from
      (some delivered)
      stored
      post
      no_options
      jobs
      handlers
      (λ e. "error")
      "t1"
      20
      6
      7
      (some (sentinel deadline_exceeded))
      jobs
      m
      row
queue-Delivers_example =
    queue-Delivers texts payloads digest at from (some delivered) stored payloads_law [] handlers
      none_deleted registers post no_options jobs (record { id = "j1"; queue = "mail" }) queues
      (λ e. "error") "t1" 20 6 7 (some (sentinel deadline_exceeded)) jobs

abbrev ports : Ports (Session JobTables (Unit {0}))
ports = record {
  tokens = Data.ports.tokens;
  password = Data.password;
  hash_token = λ s. s;
  notifier = none;
  welcome = none;
  verification_ttl = 100;
  bootstrap_email = "";
}

abbrev session : Session Tables (Session JobTables (Unit {0}))
session = record { tables = Data.tables; world = jobs; faults = [] }

abbrev verified : Ports (Session JobTables (Unit {0}))
verified = mailing texts templates payloads digest at from ports

sends :
    (send_verification verified driver (to_user cyd) (ok "t") (2 * minute) (2 * minute) 9 session).0
    ≡ ok tt
unfolding send_verification can_issue_email_verification replace_email_verification_token
    replace_email_verification_token_body insert_verification notify_verification queue render
    validate_message check_recipients check_attachments verification_mail dispatch dispatch_body
    dispatch_locks new_job insert_job insert_lock sweep_lock choose_job_id duration_seconds to_user
    next_fault later_faults is_rendered str_eq
sends = refl

send_verification_mails_example :
    Mailed texts templates payloads digest at from ports
      (to_user cyd)
      (ok "t")
      (2 * minute + 100)
      9
      session
      (send_verification verified driver
        (to_user cyd)
        (ok "t")
        (2 * minute)
        (2 * minute)
        9
        session).1
send_verification_mails_example =
    send_verification_mails texts templates payloads digest at from ports driver (to_user cyd)
      (ok "t") (2 * minute) (2 * minute) 9 session tt sends
