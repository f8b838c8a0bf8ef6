-- ===== src/Mail/Mailables.antt =====
-- internal/mail/welcome.go and email_verification.go: the two messages that the program writes. The
-- engine of `text/template` with the embedded templates is a parameter.
use golang_clean_architectur.Common.{String, List, [], ◌∷◌}
use golang_clean_architectur.Errors.{Result, ok, ◌>>=◌}
use golang_clean_architectur.Mail.{Address, Content, Mailable}

-- `renderTemplate`, for the name of an embedded template and the fields of its data.
abbrev pub Templates : Type 0
Templates = String → List (String × String) → Result String

pub record Welcome : Type 0 where
  pub username : String
  pub email : String

pub record EmailVerification : Type 0 where
  pub username : String
  pub email : String
  pub token : String

abbrev pub no_address : Address
no_address = record { name = ""; address = "" }

module _ (render_template : Templates) where
  abbrev pub both : String → String → List (String × String) → Result Content
  both text_name html_name fields = do
    text ← render_template text_name fields
    html ← render_template html_name fields
    ok (record { text = text; html = html })

  -- The methods of `Welcome`.
  unfoldable pub welcome_mail : Welcome → Mailable
  welcome_mail m = record {
    envelope = record {
      from = no_address;
      to = (record { name = m.username; address = m.email }) ∷ [];
      subject = "Welcome!";
    };
    content = both "welcome.txt" "welcome.html" (("Username", m.username) ∷ []);
    attachments = [];
  }

  -- The methods of `EmailVerification`.
  unfoldable pub verification_mail : EmailVerification → Mailable
  verification_mail m = record {
    envelope = record {
      from = no_address;
      to = (record { name = m.username; address = m.email }) ∷ [];
      subject = "Verify your email";
    };
    content =
        both "email-verification.txt" "email-verification.html"
          (("Username", m.username) ∷ ("Token", m.token) ∷ []);
    attachments = [];
  }
