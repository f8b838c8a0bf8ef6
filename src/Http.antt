-- ===== src/Http.antt =====
-- internal/adapter/http: handler/helpers.go and middleware/jwt_middleware.go. A handler takes the
-- response so far and the session, and returns what it returns to fiber with both. `Fiber` says what
-- `c.JSON` returns for a body; `strings.Fields`, `strconv.Atoi` and the decoding of JSON have
-- happened to the fields of a request.
pub mod UserHandler
pub mod AuthHandler
pub mod Guards
pub mod Inputs
pub mod Conflicts
use golang_clean_architectur.Common.{
  ℕ, Bool, true, false, not, ◌&&◌, ◌||◌, Option, none, some, String, List, [], ◌∷◌, ◌==◌, str_eq,
  if◌then◌else◌,
}
use golang_clean_architectur.Common.Int.{ℤ, pos, is_positive, to_ℕ}
use golang_clean_architectur.Errors.{
  Error, Result, ok, err, sentinel, is, unsupported_media_type, bad_request, invalid_input,
  invalid_role, invalid_password, unauthorized, forbidden, verification_rate, not_found,
  duplicate_email, duplicate_username, last_admin,
}
use golang_clean_architectur.Sql.{Session, Db}
use golang_clean_architectur.User.{User, is_admin, email_verified}
use golang_clean_architectur.User.Service.{get_by_id}
use golang_clean_architectur.Identity.{Tables}
use golang_clean_architectur.Auth.{Claims, Tokens}

-- `dto.UserResponse`
pub record UserResponse : Type 0 where
  pub id : ℕ
  pub username : String
  pub email : String
  pub role : String
  pub email_verified : Bool
  pub pending_email : String

-- `dto.UserSummary`
pub record UserSummary : Type 0 where
  pub id : ℕ
  pub username : String
  pub email : String
  pub role : String

-- `toUserResponse`
unfoldable pub to_user_response : User → UserResponse
to_user_response account = record {
  id = account.id;
  username = account.username;
  email = account.email;
  role = account.role;
  email_verified = email_verified account;
  pending_email = account.pending_email;
}

-- What `GetUsers` lists of an account.
unfoldable pub to_user_summary : User → UserSummary
to_user_summary account = record {
  id = account.id;
  username = account.username;
  email = account.email;
  role = account.role;
}

-- What is written as JSON.
pub data Body : Type 0 where
  empty : Body
  error_text message_text : String → Body
  user_body : UserResponse → Body
  users_body : List UserSummary → ℕ → ℕ → ℕ → Body
  -- `toAuthResponse`; the two times are written in a fixed layout
  tokens_body : Tokens → Body
  -- the identifier, the username, the email and a message
  registered_body : ℕ → String → String → String → Body

pub record Response : Type 0 where
  pub status : ℕ
  pub body : Body

-- What `c.JSON` returns, and `err.Error()`.
pub record Fiber : Type 0 where
  pub json : Body → Option Error
  pub text : Error → String

-- What a handler returns, and the response.
abbrev pub Reply : Type 0
Reply = Option Error × Response

abbrev pub Handler : Type 0 → Type 0
Handler W = Response → Session Tables W → Reply × Session Tables W

-- `bindJSON`: whether the content type is JSON, what the decoder makes of the body (none for an error
-- or an unknown field), and whether nothing follows.
unfoldable pub bind_json : {A : Type 0} → Bool → Option A → Bool → Result A
bind_json is_json decoded ends =
    if not is_json then err (sentinel unsupported_media_type) else elim decoded [
      | none ↦ err (sentinel bad_request)
      | some a ↦ if ends then ok a else err (sentinel bad_request)
    ]

-- The account that the token still stands for: `err == nil`, its version, and its verification.
abbrev pub resolves : Claims → Result User → Option User
resolves claims (err e) = none
resolves claims (ok account) =
    if account.token_version == claims.token_version && email_verified account
    then some account
    else none

module _ (fiber : Fiber) where
  -- `c.JSON(body)`, and `c.Status(status).JSON(body)`
  abbrev pub json : Body → Response → Reply
  json body r = (fiber.json body, record r { body = body })

  abbrev pub reply : ℕ → Body → Response → Reply
  reply status body r = (fiber.json body, record { status = status; body = body })

  unfoldable pub write_bind_error : Error → Response → Reply
  write_bind_error e r =
      if is e unsupported_media_type
      then reply 415 (error_text "content type must be application/json") r
      else reply 400 (error_text "invalid request body") r

  unfoldable pub write_domain_error : Error → Response → Reply
  write_domain_error e r =
      if is e invalid_input || is e invalid_role
      then reply 400 (error_text (fiber.text e)) r
      else if is e invalid_password || is e unauthorized
      then reply 401 (error_text "unauthorized") r
      else if is e forbidden
      then reply 403 (error_text "forbidden") r
      else if is e verification_rate
      then reply 429 (error_text "verification requested too recently") r
      else if is e not_found
      then reply 404 (error_text "user not found") r
      else if is e duplicate_email || is e duplicate_username || is e last_admin
      then reply 409 (error_text (fiber.text e)) r
      else reply 500 (error_text "internal server error") r

  module _ {W : Type 0} where
    -- After the token was validated.
    abbrev pub authenticate : Claims → (Option User → Handler W) → Handler W
    authenticate claims next r s =
        let (found, s') = get_by_id (pos claims.user_id) s in
        elim (resolves claims found) [
          | none ↦ (reply 401 (error_text "unauthorized") r, s')
          | some account ↦ next (some account) r s'
        ]

    -- The two fields of the header.
    abbrev pub authorize :
        (String → Result Claims) → String → String → (Option User → Handler W) → Handler W
    authorize validate scheme token next r s =
        if not (str_eq scheme "Bearer") || str_eq token ""
        then (reply 401 (error_text "invalid authorization header") r, s)
        else elim (validate token) [
          | err e ↦ (reply 401 (error_text "invalid or expired token") r, s)
          | ok claims ↦ authenticate claims next r s
        ]

    -- `JWTAuth`, for the fields of the header; `next` finds the account in `c.Locals`.
    unfoldable pub jwt_auth :
        (String → Result Claims) → List String → (Option User → Handler W) → Handler W
    jwt_auth validate (scheme ∷ token ∷ []) next r s = authorize validate scheme token next r s
    jwt_auth validate _ next r s = (reply 401 (error_text "invalid authorization header") r, s)

    -- `currentUser`, and the answer where there is none.
    abbrev pub signed_in : Option User → (User → Handler W) → Handler W
    signed_in none next r s = (reply 401 (error_text "unauthorized") r, s)
    signed_in (some account) next r s = next account r s

    -- For what is in `c.Locals`.
    unfoldable pub admin_only : (Option User → Handler W) → Option User → Handler W
    admin_only next none r s = (reply 403 (error_text "forbidden") r, s)
    admin_only next (some account) r s =
        if not (is_admin account)
        then (reply 403 (error_text "forbidden") r, s)
        else next (some account) r s
