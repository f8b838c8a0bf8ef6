-- ===== src/Jwt.antt =====
-- internal/adapter/jwt/service.go: signed tokens. Base64, JSON and HMAC-SHA-256 are fields of `Codec`;
-- the random identifier and the readings of the clock, in nanoseconds, are arguments. A secret and a
-- digest are texts of bytes; the lifetimes come from the settings.
pub mod Validation
pub mod RoundTrip
pub mod Sessions
use Prim.Native.Char.{Char, code}
use Prim.Native.String.{◌++◌ as str_append}
use golang_clean_architectur.Common.{
  ℕ, ◌+◌, ◌/◌, Bool, true, false, not, ◌&&◌, ◌||◌, Option, none, some, String, List, [], ◌∷◌, ◌==◌,
  str_eq, if◌then◌else◌,
}
use golang_clean_architectur.Common.Int.{ℤ, pos, is_positive, to_ℕ, at_most}
use golang_clean_architectur.Errors.{Result, ok, err, sentinel, wrap, invalid_token, expired_token}
use golang_clean_architectur.Queue.{second, minute}
use golang_clean_architectur.Auth.{Claims, TokenService}

abbrev pub token_type_access : String
token_type_access = "access"

abbrev pub token_type_refresh : String
token_type_refresh = "refresh"

pub record TokenHeader : Type 0 where
  pub algorithm : String
  pub type : String

pub record TokenClaims : Type 0 where
  pub issuer : String
  pub audience : String
  pub user_id : ℤ
  pub token_version : ℤ
  pub jti : String
  pub token_type : String
  pub expires_at : ℤ
  pub issued_at : ℤ

pub record Codec : Type 0 where
  -- `base64.RawURLEncoding`
  pub encode : String → String
  pub decode : String → Option String
  -- `json.Marshal` and `json.Unmarshal` at the two records; none for an error
  pub marshal_header : TokenHeader → Result String
  pub unmarshal_header : String → Option TokenHeader
  pub marshal_claims : TokenClaims → Result String
  pub unmarshal_claims : String → Option TokenClaims
  -- of the secret and the text
  pub hmac : String → String → String

pub record Service : Type 0 where
  pub access_secret : String
  pub refresh_secret : String
  pub access_ttl : ℕ
  pub refresh_ttl : ℕ
  pub issuer : String
  pub audience : String

-- `strings.Split(token, ".")`
push : Char → List String → List String
push c [] = (String.◌∷◌ c "") ∷ []
push c (part ∷ parts) = (String.◌∷◌ c part) ∷ parts

unfoldable pub split : String → List String
unfolding push
split String.[] = "" ∷ []
split (String.◌∷◌ c s) = let parts = split s in if code c == b'.' then "" ∷ parts else push c parts

abbrev pub dotted : String → String → String
dotted a b = str_append a (str_append "." b)

abbrev pub jwt_header : TokenHeader
jwt_header = record { algorithm = "HS256"; type = "JWT" }

-- `header.Algorithm != "HS256" || header.Type != "JWT"`
abbrev pub is_jwt_header : TokenHeader → Bool
is_jwt_header h = str_eq h.algorithm "HS256" && str_eq h.type "JWT"

module _ (codec : Codec) where
  open codec use {encode, decode, hmac}

  abbrev pub signing_input : String → String → String
  signing_input header payload = dotted (encode header) (encode payload)

  unfoldable pub sign : TokenClaims → String → Result String
  sign claims secret = elim (codec.marshal_header jwt_header) [
    | err e ↦ err e
    | ok header ↦ elim (codec.marshal_claims claims) [
      | err e ↦ err e
      | ok payload ↦
          let input = signing_input header payload in ok (dotted input (encode (hmac secret input)))
    ]
  ]

  -- Some text that a part stands for, and the header that it is.
  abbrev pub is_header : String → Bool
  is_header part = elim (decode part) [
    | none ↦ false
    | some bytes ↦ elim (codec.unmarshal_header bytes) [
      | none ↦ false
      | some header ↦ is_jwt_header header
    ]
  ]

  abbrev pub is_signature : String → String → String → String → Bool
  is_signature secret header payload signature = elim (decode signature) [
    | none ↦ false
    | some provided ↦ str_eq provided (hmac secret (dotted header payload))
  ]

  abbrev pub claims_of : String → Option TokenClaims
  claims_of payload = elim (decode payload) [
    | none ↦ none
    | some bytes ↦ codec.unmarshal_claims bytes
  ]

module _ (service : Service) where
  -- The disjunction after `json.Unmarshal(payload, &claims)`, at the reading `now`.
  abbrev pub is_malformed : TokenClaims → String → ℕ → Bool
  is_malformed claims expected_type now =
      not (str_eq claims.token_type expected_type)
      || not (str_eq claims.issuer service.issuer)
      || not (str_eq claims.audience service.audience)
      || not (is_positive claims.user_id)
      || not (is_positive claims.token_version)
      || str_eq claims.jti ""
      || not (is_positive claims.issued_at)
      || at_most claims.expires_at claims.issued_at
      || not (at_most claims.issued_at (pos ((now + minute) / second)))

  unfoldable pub accept : TokenClaims → String → ℕ → ℕ → Result Claims
  accept claims expected_type issued_check now =
      if is_malformed claims expected_type issued_check
      then err (sentinel invalid_token)
      else if at_most claims.expires_at (pos (now / second))
      then err (sentinel expired_token)
      else ok (record { user_id = to_ℕ claims.user_id; token_version = to_ℕ claims.token_version })

module _ (codec : Codec) (service : Service) where
  -- For a token of three parts.
  unfoldable pub validate_parts : String → String → String → String → String → ℕ → ℕ → Result Claims
  validate_parts header payload signature expected_type secret issued_check now =
      if not (is_header codec header)
      then err (sentinel invalid_token)
      else if not (is_signature codec secret header payload signature)
      then err (sentinel invalid_token)
      else elim (claims_of codec payload) [
        | none ↦ err (sentinel invalid_token)
        | some claims ↦ accept service claims expected_type issued_check now
      ]

  -- `len(parts) != 3`
  unfoldable pub validate_split : List String → String → String → ℕ → ℕ → Result Claims
  validate_split (header ∷ payload ∷ signature ∷ []) expected_type secret issued_check now =
      validate_parts header payload signature expected_type secret issued_check now
  validate_split _ expected_type secret issued_check now = err (sentinel invalid_token)

  -- `issued_check` and `now` are the two readings of the clock.
  unfoldable pub validate : String → String → String → ℕ → ℕ → Result Claims
  validate token expected_type secret issued_check now =
      validate_split (split token) expected_type secret issued_check now

  -- The token and its expiry.
  unfoldable pub generate : ℕ → ℕ → String → ℕ → String → ℕ → Result String → Result (String × ℕ)
  generate user_id token_version token_type ttl secret now random = elim random [
    | err e ↦ err (wrap "generate token identifier" e)
    | ok jti ↦
        elim (sign codec
          (record {
            issuer = service.issuer;
            audience = service.audience;
            user_id = pos user_id;
            token_version = pos token_version;
            jti = jti;
            token_type = token_type;
            expires_at = pos ((now + ttl) / second);
            issued_at = pos (now / second);
          })
          secret) [ err e ↦ err e | ok token ↦ ok (token, now + ttl) ]
  ]

  abbrev pub generate_access_token : ℕ → ℕ → ℕ → Result String → Result (String × ℕ)
  generate_access_token user_id token_version now random =
      generate user_id token_version token_type_access service.access_ttl service.access_secret now
        random

  abbrev pub generate_refresh_token : ℕ → ℕ → ℕ → Result String → Result (String × ℕ)
  generate_refresh_token user_id token_version now random =
      generate user_id token_version token_type_refresh service.refresh_ttl service.refresh_secret
        now random

  abbrev pub validate_refresh_token : String → ℕ → ℕ → Result Claims
  validate_refresh_token token issued_check now =
      validate token token_type_refresh service.refresh_secret issued_check now

  abbrev pub validate_access_token : String → ℕ → ℕ → Result Claims
  validate_access_token token issued_check now =
      validate token token_type_access service.access_secret issued_check now

  -- `auth.TokenService`
  abbrev pub token_service : TokenService
  token_service = record {
    generate_access = λ draw id version. generate_access_token id version draw.now draw.random;
    generate_refresh = λ draw id version. generate_refresh_token id version draw.now draw.random;
    validate_refresh = λ checks token. validate_refresh_token token checks.issued_check checks.now;
  }
