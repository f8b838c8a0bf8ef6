-- ===== src/Http/AuthHandler.antt =====
-- internal/adapter/http/handler/auth_handler.go, over internal/auth/service.go. What is only logged is
-- dropped; random bytes and readings of the clock are arguments.
use golang_clean_architectur.Common.{ℕ, ◌||◌, Option, none, String, if◌then◌else◌}
use golang_clean_architectur.Errors.{
  Error, Result, ok, err, is, invalid_credentials, email_unverified, invalid_token, unauthorized,
}
use golang_clean_architectur.User.{Texts, User}
use golang_clean_architectur.Identity.{Driver}
use golang_clean_architectur.Auth
use golang_clean_architectur.Auth.{Ports, Draws}
use golang_clean_architectur.Sql.{Db}
use golang_clean_architectur.Identity.{Tables}
use golang_clean_architectur.Http.{
  Fiber, Response, Reply, Handler, json, reply, error_text, message_text, user_body,
  to_user_response, tokens_body, registered_body, write_domain_error, signed_in,
}
use golang_clean_architectur.Http.UserHandler.{bound, logged}

module _ (fiber : Fiber) where
  abbrev login_error : Error → Response → Reply
  login_error e r =
      if is e invalid_credentials
      then reply fiber 401 (error_text "invalid credentials") r
      else if is e email_unverified
      then reply fiber 403 (error_text "email is not verified") r
      else write_domain_error fiber e r

  abbrev refresh_error : Error → Response → Reply
  refresh_error e r =
      if is e invalid_token || is e unauthorized
      then reply fiber 401 (error_text "invalid refresh token") r
      else write_domain_error fiber e r

  abbrev verification_error : Error → Response → Reply
  verification_error e r =
      if is e invalid_token
      then reply fiber 400 (error_text "invalid or expired verification token") r
      else write_domain_error fiber e r

  module _ {W A : Type 0} where
    -- A call of the service, with the handler's own answers to its errors.
    abbrev answered :
        Db Tables W A → (Error → Response → Reply) → (A → Response → Reply) → Handler W
    answered action refuse_with reply_with r s =
        let (answer, s') = action s in
        elim answer [ err e ↦ (refuse_with e r, s') | ok a ↦ (reply_with a r, s') ]

  module _ {W : Type 0} (ports : Ports W) (driver : Driver) where
    unfoldable pub refresh : Draws → Result String → ℕ → ℕ → Handler W
    refresh draws request lookup_now rotate_now = bound fiber request (λ token.
        answered (Auth.refresh ports driver draws token lookup_now rotate_now) refresh_error
          (λ tokens. json fiber (tokens_body tokens)))

    unfoldable pub verify_email : Result String → ℕ → Handler W
    verify_email request now = bound fiber request (λ token.
        answered (Auth.verify_email ports driver token now) verification_error
          (λ done. json fiber (message_text "email verified")))

  module _ {W : Type 0} (ports : Ports W) where
    unfoldable pub logout : Result String → ℕ → Handler W
    logout request now = bound fiber request (λ token.
        answered (Auth.logout ports token now) (write_domain_error fiber)
          (λ done. json fiber (message_text "logged out")))

  module _ (texts : Texts) {W : Type 0} (ports : Ports W) (driver : Driver) where
    -- For the username, the email and the password of the request.
    unfoldable pub register : Result (String × String × String) → Result String → ℕ → ℕ → Handler W
    register request random now stamp = bound fiber request (λ req.
        answered
          (Auth.register texts ports driver
            (record {
              id = 0;
              username = req.0;
              email = req.1;
              password = req.2;
              role = "";
              email_verified_at = none;
              pending_email = "";
              token_version = 0;
            })
            random now stamp)
          (write_domain_error fiber)
          (λ account. reply fiber 201 (
            registered_body account.id account.username account.email
              "check your email to verify your account")))

    -- For the email and the password of the request.
    unfoldable pub login : Draws → Result (String × String) → Handler W
    login draws request = bound fiber request (λ req.
        answered (Auth.login texts ports driver draws req.0 req.1) login_error
          (λ tokens. json fiber (tokens_body tokens)))

    unfoldable pub resend_verification : Result String → Result String → ℕ → ℕ → ℕ → Handler W
    resend_verification request random issued_now expires_now stamp = bound fiber request (λ email.
        logged fiber
          (Auth.resend_verification texts ports driver email random issued_now expires_now stamp)
          (λ r s. (
            json fiber (message_text "if the account requires verification, an email has been sent")
                r,
            s,
          )))

  -- `Me`, for what `JWTAuth` left in `c.Locals`.
  unfoldable pub me : {W : Type 0} → Option User → Handler W
  me local =
      signed_in fiber local λ account r s. (json fiber (user_body (to_user_response account)) r, s)
