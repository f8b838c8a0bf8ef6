-- ===== src/Mail/Rendered.antt =====
-- What a rendered message is (internal/mail/mail.go), and the handlers that are registered
-- (internal/adapter/jobs/handlers.go).
use golang_clean_architectur.Common.{
  ◌≡◌, ◌≢◌, ◌↔◌, refl, ◌⊎◌, inl, inr, true, false, some, List, [], ◌∷◌, All, arith, str_eq,
  str_eq_iff, str_eq-ne, Bool-cases,
}
use golang_clean_architectur.Errors.{ok, Result-cases}
use golang_clean_architectur.User.{Texts}
use golang_clean_architectur.Mail.{
  Address, Attachment, Message, Mailable, Mailer, check_recipients, check_attachments,
  validate_message, from_of, render, is_parsed, has_none,
}

module _ (texts : Texts) where
  -- A message that can be handed to a transport.
  pub record IsDeliverable (m : Message) : Type 0 where
    pub from : is_parsed texts m.envelope.from ≡ true
    pub addressed : m.envelope.to ≢ []
    pub to : All (λ a. is_parsed texts a ≡ true) m.envelope.to
    pub subject : texts.trim_space m.envelope.subject ≢ ""
    pub content : (m.content.text ≢ "") ⊎ (m.content.html ≢ "")
    pub attachments : All (λ a. texts.trim_space a.filename ≢ "") m.attachments

  check_recipients-All :
      (to : List Address)
      → (check_recipients texts to ≡ ok tt) ↔ All (λ a. is_parsed texts a ≡ true) to
  unfolding check_recipients
  check_recipients-All [] = (λ h. tt, λ h. refl)
  check_recipients-All (a ∷ others) =
      let rest = check_recipients-All others in
      (λ h. (ground arith, rest.0 (ground arith)), λ h. ground (arith, h.0, rest.1 h.1))

  check_attachments-All :
      (xs : List Attachment)
      → (check_attachments texts xs ≡ ok tt) ↔ All (λ a. texts.trim_space a.filename ≢ "") xs
  unfolding check_attachments
  check_attachments-All [] = (λ h. tt, λ h. refl)
  check_attachments-All (a ∷ others) =
      let rest = check_attachments-All others in
      (
        λ h. (ground (arith, str_eq_iff (texts.trim_space a.filename) ""), rest.0 (ground arith)),
        λ h. ground (arith, str_eq-ne (texts.trim_space a.filename) "" h.0, rest.1 h.1),
      )

  has_none-ne : (to : List Address) → (has_none to ≡ false) ↔ (to ≢ [])
  has_none-ne [] = (λ h. ground arith, λ h. absurd (h refl))
  has_none-ne (a ∷ others) = (λ h. ground arith, λ h. refl)

  validate_message_sound : (m : Message) → validate_message texts m ≡ ok tt → IsDeliverable m
  unfolding validate_message
  validate_message_sound m h = record {
    from = ground arith;
    addressed = (has_none-ne m.envelope.to).0 (ground arith);
    to = (check_recipients-All m.envelope.to).0 (ground arith);
    subject = ground (arith, str_eq_iff (texts.trim_space m.envelope.subject) "");
    content = elim (Bool-cases (str_eq m.content.text "")) [
      | inl e ↦ inr (ground (arith, str_eq_iff m.content.html ""))
      | inr e ↦ inl (ground (arith, str_eq_iff m.content.text ""))
    ];
    attachments = (check_attachments-All m.attachments).0 (ground arith);
  }

  validate_message_complete : (m : Message) → IsDeliverable m → validate_message texts m ≡ ok tt
  unfolding validate_message
  validate_message_complete m d = ground (
    arith,
    (has_none-ne m.envelope.to).1 d.addressed,
    (check_recipients-All m.envelope.to).1 d.to,
    str_eq-ne (texts.trim_space m.envelope.subject) "" d.subject,
    str_eq-ne m.content.text "",
    str_eq-ne m.content.html "",
    d.content,
    (check_attachments-All m.attachments).1 d.attachments,
  )

  module _ {S : Type 0} (mailer : Mailer S) where
    -- A mailable renders to a message exactly if its content renders and the message, from the
    -- mailable's own sender or else the default one, can be delivered: the sender and every
    -- recipient are addresses, there is a recipient, a subject that is not blank and a text or an
    -- HTML part, and every attachment has a name.
    pub render_iff :
        (mailable : Mailable) (m : Message)
        → (render texts mailer (some mailable) ≡ ok m) ↔ (
            (mailable.content ≡ ok m.content)
            × (m.envelope ≡ record mailable.envelope {
              from = from_of texts mailer.default_from mailable.envelope.from;
            })
            × (m.attachments ≡ mailable.attachments)
            × IsDeliverable m)
    unfolding render
    render_iff mailable m = (
      λ h. elim (Result-cases mailable.content) [
        | inl (c, e) ↦
            (ground arith, ground arith, ground arith, validate_message_sound m (ground arith))
        | inr (x, e) ↦ absurd (ground arith)
      ],
      λ (c, e, a, d). ground (arith, validate_message_complete m d),
    )
