-- ===== src/Mail/Verification.antt =====
-- From the auth service (internal/auth/service.go) to the queue of mail: the notifier of
-- internal/adapter/jobs/verification_notifier.go as the service's port.
use golang_clean_architectur.Common.{
  ℕ, ◌≡◌, ◌+◌, ◌-◌, ◌==◌, none, some, String, List, [], ◌∷◌, ◌++◌, arith, delete_where, inl, inr,
}
use golang_clean_architectur.Errors.{Result, ok, Result-cases}
use golang_clean_architectur.Sql.{Session}
use golang_clean_architectur.User.{Texts, User}
use golang_clean_architectur.User.Service.{next_email}
use golang_clean_architectur.Identity.{
  Tables, Driver, EmailVerificationTokenModel, insert_verification,
}
use golang_clean_architectur.Auth.{Ports, External, send_verification}
use golang_clean_architectur.Identity.Tokens.{
  can_issue_email_verification, replace_email_verification_token,
  replace_email_verification_token_body,
}
use golang_clean_architectur.Queue.{minute, JobTables, DatabaseJob}
use golang_clean_architectur.Queue.Dispatch.{Readings}
use golang_clean_architectur.Mail.{Address, Message, Mailable, Mailer, no_options, render, queue}
use golang_clean_architectur.Mail.Mailables.{Templates, verification_mail}
use golang_clean_architectur.Mail.Jobs.{Payloads, notify_verification}
use golang_clean_architectur.Mail.Delivery.{queueing, queue-adds, IsMailRow}

abbrev pub mail_for : Templates → User → String → Mailable
mail_for templates account token =
    verification_mail templates
      (record { username = account.username; email = account.email; token = token })

replace-world :
    {W : Type 0} (driver : Driver) (user_id : ℕ) (hash : String) (expires_at created_at : ℕ)
    (s : Session Tables W)
    → (replace_email_verification_token driver user_id hash expires_at created_at s).1.world
      ≡ s.world
unfolding replace_email_verification_token replace_email_verification_token_body
replace-world driver user_id hash expires_at created_at s = ground arith

-- The tokens that a replacement leaves: none other of the user, and the new one.
abbrev pub replaced : ℕ → String → ℕ → ℕ → Tables → List EmailVerificationTokenModel
replaced user_id hash expires_at created_at t =
    delete_where (λ r. r.user_id == user_id) t.verification_tokens
    ++ (record {
      id = t.next_verification;
      user_id = user_id;
      token_hash = hash;
      expires_at = expires_at;
      created_at = created_at;
    })
      ∷ []

replace-stores :
    {W : Type 0} (driver : Driver) (user_id : ℕ) (hash : String) (expires_at created_at : ℕ)
    (s : Session Tables W) (a : Unit {0})
    → (replace_email_verification_token driver user_id hash expires_at created_at s).0 ≡ ok a
    → (replace_email_verification_token driver user_id hash expires_at created_at
        s).1.tables.verification_tokens
      ≡ replaced user_id hash (driver.timestamp expires_at) (driver.timestamp created_at) s.tables
unfolding replace_email_verification_token replace_email_verification_token_body insert_verification
replace-stores driver user_id hash expires_at created_at s a h = ground arith

module _ (texts : Texts) (templates : Templates) (payloads : Payloads) (sha256 : String → String)
    (at : Readings) {W : Type 0} (default_from : Address) where
  -- The server's mailer, which has no transport of its own.
  abbrev pub mailer : Mailer (Session JobTables W)
  mailer = queueing texts payloads sha256 at default_from none

  notify-adds :
      (account : User) (token : String) (s : Session JobTables W) (a : Unit {0})
      → (notify_verification texts templates mailer account token s).0 ≡ ok a
      → (m : Message) × (row : DatabaseJob) × (render texts mailer
            (some (mail_for templates account token))
          ≡ ok m)
        × IsMailRow payloads m no_options row
        × ((notify_verification texts templates mailer account token s).1.tables.jobs
            ≡ s.tables.jobs ++ row ∷ [])
  unfolding notify_verification
  notify-adds account token s a h =
      elim (Result-cases
        (queue texts mailer (some (mail_for templates account token)) no_options s).0) [
          | inr (x, e) ↦ absurd (ground arith)
          | inl (info, e) ↦
              let (m, row, rendered, is_mail, added, answered) =
                queue-adds texts payloads sha256 at default_from none
                  (mail_for templates account token) no_options s info e in
              (m, row, rendered, is_mail, ground (arith, added))
        ]

  -- What the service has as its notifier.
  abbrev pub notifier : User → String → External (Session JobTables W)
  notifier account token = notify_verification texts templates mailer account token

  -- A service that has it.
  abbrev pub mailing : Ports (Session JobTables W) → Ports (Session JobTables W)
  mailing ports = record ports { notifier = some notifier }

  -- What a verification that was sent left: in the tables of the accounts, and in those of the queue.
  pub record Mailed (ports : Ports (Session JobTables W)) (account : User) (random : Result String)
      (expires stamp : ℕ) (s s' : Session Tables (Session JobTables W)) : Type 0 where
    pub token : String
    pub m : Message
    pub row : DatabaseJob
    pub drawn : random ≡ ok token
    pub rendered :
        render texts mailer
          (some (mail_for templates (record account { email = next_email account }) token))
        ≡ ok m
    pub is_mail : IsMailRow payloads m no_options row
    pub added : s'.world.tables.jobs ≡ s.world.tables.jobs ++ row ∷ []
    pub stored :
        s'.tables.verification_tokens
        ≡ replaced account.id (ports.hash_token token) expires stamp s.tables

  -- A verification that was sent stored the hash of a fresh random token for the account, in place of
  -- its earlier ones, and queued one mail with that token to the account's next address: one pending
  -- row was added to the jobs, for the message that the mailer renders.
  pub send_verification_mails :
      (ports : Ports (Session JobTables W)) (driver : Driver) (account : User)
      (random : Result String) (issued_now expires_now stamp : ℕ)
      (s : Session Tables (Session JobTables W)) (a : Unit {0})
      → (send_verification (mailing ports) driver account random issued_now expires_now stamp s).0
        ≡ ok a
      → Mailed ports account random
          (driver.timestamp (expires_now + ports.verification_ttl))
          (driver.timestamp stamp)
          s
          (send_verification (mailing ports) driver account random issued_now expires_now stamp s).1
  unfolding send_verification can_issue_email_verification
  send_verification_mails ports driver account random issued_now expires_now stamp s a h =
      elim (Result-cases random) [
        | inr (x, e) ↦ absurd (ground arith)
        | inl (token, e) ↦
            let addressee : User = record account { email = next_email account } in
            let z1 =
              (can_issue_email_verification {W = Session JobTables W} account.id
                (issued_now - minute) s).1 in
            let z2 =
              (replace_email_verification_token driver account.id (ports.hash_token token)
                (expires_now + ports.verification_ttl) stamp z1).1 in
            let kept : z2.world ≡ s.world = ground (
              arith,
              replace-world driver account.id (ports.hash_token token)
                  (expires_now + ports.verification_ttl) stamp z1,
            ) in
            let sent : (notifier addressee token z2.world).0 ≡ ok a = ground arith in
            let stores =
              replace-stores driver account.id (ports.hash_token token)
                (expires_now + ports.verification_ttl) stamp z1 tt in
            let (m, row, rendered, is_mail, added) = notify-adds addressee token z2.world a sent in
            record {
              token = token;
              m = m;
              row = row;
              drawn = e;
              rendered = rendered;
              is_mail = is_mail;
              added = ground (arith, kept, added);
              stored = ground (arith, stores);
            }
      ]
