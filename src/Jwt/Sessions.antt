-- ===== src/Jwt/Sessions.antt =====
-- The signed tokens of internal/adapter/jwt/service.go as the token service of internal/auth/service.go.
use golang_clean_architectur.Common.{ℕ, ◌≡◌, refl, ◌∙◌, false, String, arith, str_eq, inl, inr}
use golang_clean_architectur.Errors.{ok, err, sentinel, invalid_token}
use golang_clean_architectur.Sql.{Session}
use golang_clean_architectur.Identity.{Tables, Driver}
use golang_clean_architectur.Auth.{Ports, Draws, refresh}
use golang_clean_architectur.Jwt.{
  Codec, Service, validate, accept, generate_access_token, token_service, token_type_access,
  token_type_refresh,
}
use golang_clean_architectur.Jwt.RoundTrip.{Lawful, signed-read, generate-signs, claims_for}

types_differ : str_eq token_type_access token_type_refresh ≡ false
unfolding str_eq
types_differ = refl

module _ (codec : Codec) (lawful : Lawful codec) (service : Service) where
  -- An access token is no refresh token, whatever the two secrets are.
  access-refused :
      (user_id version now : ℕ) (jti token : String) (expiry : ℕ)
      → generate_access_token codec service user_id version now (ok jti) ≡ ok (token, expiry)
      → (secret : String) (issued_check later : ℕ)
      → validate codec service token token_type_refresh secret issued_check later
        ≡ err (sentinel invalid_token)
  unfolding accept
  access-refused user_id version now jti token expiry e secret issued_check later =
      let claims =
        claims_for codec lawful service user_id version token_type_access service.access_ttl now
          jti in
      let signed =
        (generate-signs codec lawful service user_id version token_type_access service.access_ttl
          service.access_secret now jti token expiry e).0 in
      elim (signed-read codec lawful service claims service.access_secret token signed
        token_type_refresh secret issued_check later) [
          | inl read ↦ read ∙ ground (arith, types_differ)
          | inr refused ↦ refused
        ]

  -- The auth service with these tokens.
  abbrev pub signing : {W : Type 0} → Ports W → Ports W
  signing ports = record ports { tokens = token_service codec service }

  -- An access token does not renew a session, whatever the two secrets are: for one that the service
  -- made, at any time and with any rows, Refresh answers ErrInvalidToken, and it asks the database
  -- nothing.
  pub access_token-renews_nothing :
      {W : Type 0} (ports : Ports W) (driver : Driver) (user_id version now : ℕ)
      (jti token : String) (expiry : ℕ)
      → generate_access_token codec service user_id version now (ok jti) ≡ ok (token, expiry)
      → (draws : Draws) (lookup_now rotate_now : ℕ) (s : Session Tables W)
      → refresh (signing ports) driver draws token lookup_now rotate_now s
        ≡ (err (sentinel invalid_token), s)
  unfolding refresh
  access_token-renews_nothing ports driver user_id version now jti token expiry e draws lookup_now
        rotate_now s =
      ground (
        arith,
        access-refused user_id version now jti token expiry e service.refresh_secret
            draws.checks.issued_check draws.checks.now,
      )
