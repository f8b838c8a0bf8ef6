-- ===== src/Mail.antt =====
-- internal/mail/mail.go: messages and the mailer. The addresses' parser is that of `Texts`; the
-- transport and the queue's dispatcher are the mailer's fields, none for nil.
pub mod Mailables
pub mod Jobs
pub mod Rendered
pub mod Delivery
pub mod Verification
use golang_clean_architectur.Common.{
  ℕ, ◌*◌, Bool, true, false, not, ◌&&◌, ◌||◌, Option, none, some, String, List, [], ◌∷◌, str_eq,
  is_some, if◌then◌else◌,
}
use golang_clean_architectur.Common.Int.{ℤ, pos, is_positive}
use golang_clean_architectur.Errors.{Error, Result, ok, err, message, wrap, ◌>>=◌, ◌>>◌, refuse}
use golang_clean_architectur.User.{Texts}
use golang_clean_architectur.Queue.{JobInfo, second}

abbrev pub type_send : String
type_send = "mail:send"

pub record Address : Type 0 where
  pub name : String
  pub address : String

pub record Envelope : Type 0 where
  pub from : Address
  pub to : List Address
  pub subject : String

pub record Content : Type 0 where
  pub text : String
  pub html : String

pub record Attachment : Type 0 where
  pub filename : String
  pub content_type : String
  pub «data» : String

pub record Message : Type 0 where
  pub envelope : Envelope
  pub content : Content
  pub attachments : List Attachment

-- `Mailable`: what its methods answer.
pub record Mailable : Type 0 where
  pub envelope : Envelope
  pub content : Result Content
  pub attachments : List Attachment

pub record SendJob : Type 0 where
  pub message : Message

pub record QueueOptions : Type 0 where
  pub queue : String
  pub process_at : Option ℕ
  pub max_retry : ℤ
  pub timeout : ℤ
  pub unique_for : ℤ
  pub retention : ℤ
  pub task_id : String

-- `QueueOptions{}`
abbrev pub no_options : QueueOptions
no_options = record {
  queue = "";
  process_at = none;
  max_retry = pos 0;
  timeout = pos 0;
  unique_for = pos 0;
  retention = pos 0;
  task_id = "";
}

abbrev pub Transport : Type 0
Transport = Message → Result (Unit {0})

-- `QueuedMessageDispatcher`, over the state that it changes.
pub record MessageDispatcher (S : Type 0) : Type 0 where
  pub dispatch_message : SendJob → QueueOptions → S → Result JobInfo × S

pub record Mailer (S : Type 0) : Type 0 where
  pub default_from : Address
  pub transport : Option Transport
  pub dispatcher : Option (MessageDispatcher S)

-- What `Queue` dispatches under.
abbrev pub with_defaults : QueueOptions → QueueOptions
with_defaults o = record o {
  queue = if str_eq o.queue "" then "mail" else o.queue;
  max_retry = if is_positive o.max_retry then o.max_retry else pos 3;
  timeout = if is_positive o.timeout then o.timeout else pos (30 * second);
}

abbrev pub has_none : List Address → Bool
has_none [] = true
has_none (a ∷ others) = false

module _ (texts : Texts) where
  open texts use {trim_space, parse_address}

  abbrev pub is_parsed : Address → Bool
  is_parsed a = is_some (parse_address a.address)

  unfoldable pub check_recipients : List Address → Result (Unit {0})
  check_recipients [] = ok tt
  check_recipients (to ∷ others) =
      let rest = check_recipients others in
      if is_parsed to then rest else err (message "invalid recipient address")

  unfoldable pub check_attachments : List Attachment → Result (Unit {0})
  check_attachments [] = ok tt
  check_attachments (a ∷ others) =
      let rest = check_attachments others in
      if str_eq (trim_space a.filename) ""
      then err (message "attachment filename is required")
      else rest

  -- `validateMessage`
  unfoldable pub validate_message : Message → Result (Unit {0})
  validate_message m = do
    refuse (not (is_parsed m.envelope.from)) (message "invalid from address")
    refuse (has_none m.envelope.to) (message "at least one recipient is required")
    check_recipients m.envelope.to
    refuse (str_eq (trim_space m.envelope.subject) "") (message "mail subject is required")
    refuse (str_eq m.content.text "" && str_eq m.content.html "")
        (message "mail content is required")
    check_attachments m.attachments

  abbrev pub from_of : Address → Address → Address
  from_of default_from from = if str_eq (trim_space from.address) "" then default_from else from

  module _ {S : Type 0} (mailer : Mailer S) where
    -- `Render`
    unfoldable pub render : Option Mailable → Result Message
    render none = err (message "mailable is required")
    render (some mailable) = elim mailable.content [
      | err e ↦ err (wrap "render mail content" e)
      | ok content ↦
          let rendered : Message = record {
            envelope = record mailable.envelope {
              from = from_of mailer.default_from mailable.envelope.from;
            };
            content = content;
            attachments = mailable.attachments;
          } in
          validate_message rendered >> ok rendered
    ]

    -- `Send`
    unfoldable pub send : Option Mailable → Result (Unit {0})
    send mailable = elim mailer.transport [
      | none ↦ err (message "mail transport is not configured")
      | some transport ↦ render mailable >>= transport
    ]

    -- `Queue`
    unfoldable pub queue : Option Mailable → QueueOptions → S → Result JobInfo × S
    queue mailable options s = elim mailer.dispatcher [
      | none ↦ (err (message "queue dispatcher is not configured"), s)
      | some dispatcher ↦ elim (render mailable) [
        | err e ↦ (err e, s)
        | ok m ↦ dispatcher.dispatch_message (record { message = m }) (with_defaults options) s
      ]
    ]
