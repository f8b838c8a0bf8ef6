-- ===== src/Http/UserHandler.antt =====
-- internal/adapter/http/handler/user_handler.go, over internal/user/service.go and the service that
-- sends verifications. What is only logged is dropped; the token's random bytes and the readings of
-- the clock are arguments.
use golang_clean_architectur.Common.{map, ℕ, Option, none, some, String, ltb, if◌then◌else◌}
use golang_clean_architectur.Common.Int.{ℤ, pos, is_positive, to_ℕ}
use golang_clean_architectur.Errors.{Error, Result, ok, err}
use golang_clean_architectur.Sql.{Session, Db}
use golang_clean_architectur.User.{Texts, User, default_page, default_limit, max_limit}
use golang_clean_architectur.User.Service
use golang_clean_architectur.User.Service.{
  PasswordService, list, get_by_id, delete, delete_self, create,
}
use golang_clean_architectur.Identity.{Tables, Driver}
use golang_clean_architectur.Auth.{Ports, send_verification_for_user}
use golang_clean_architectur.Http.{
  error_text, message_text, user_body, users_body, to_user_response, to_user_summary, Fiber,
  Response, Reply, Handler, json, reply, write_bind_error, write_domain_error, signed_in,
}

pub record UpdateUserRequest : Type 0 where
  pub username : Option String
  pub email : Option String

-- `profileValues`
unfoldable pub profile_values : UpdateUserRequest → User → String × String
profile_values req account = (
  elim req.username [ none ↦ account.username | some username ↦ username ],
  elim req.email [ none ↦ account.email | some email ↦ email ],
)

-- `c.SendStatus(204)`
abbrev pub no_content : Response → Reply
no_content r = (none, record r { status = 204 })

-- A value, where the helper that refuses has already written a response: its error is what `c.JSON`
-- returned, and its value 0 where that is nil.
abbrev pub refused_with : Option Error → Result ℕ
refused_with none = ok 0
refused_with (some e) = err e

module _ (fiber : Fiber) where
  -- `parseID`, for what `strconv.Atoi` makes of the parameter.
  unfoldable pub parse_id : Option ℤ → Response → Result ℕ × Response
  parse_id none r =
      let (e, r') = reply fiber 400 (error_text "invalid user id") r in (refused_with e, r')
  parse_id (some id) r =
      if is_positive id
      then (ok (to_ℕ id), r)
      else let (e, r') = reply fiber 400 (error_text "invalid user id") r in (refused_with e, r')

  abbrev positive : String → ℤ → Response → Result ℕ × Response
  positive refusal value r =
      if is_positive value
      then (ok (to_ℕ value), r)
      else let (e, r') = reply fiber 400 (error_text refusal) r in (refused_with e, r')

  -- `parsePositiveQuery`: none for an empty parameter, then none for a text that is no number.
  unfoldable pub parse_positive_query :
      Option (Option ℤ) → String → ℕ → Response → Result ℕ × Response
  parse_positive_query none refusal fallback r = (ok fallback, r)
  parse_positive_query (some none) refusal fallback r =
      let (e, r') = reply fiber 400 (error_text refusal) r in (refused_with e, r')
  parse_positive_query (some (some value)) refusal fallback r = positive refusal value r

  module _ {W A : Type 0} where
    -- `if err != nil { return err }`, for a helper that writes to the response.
    abbrev pub then_with :
        Result A × Response → (A → Handler W) → Session Tables W → Reply × Session Tables W
    then_with parsed next s = elim parsed.0 [
      | err e ↦ ((some e, parsed.1), s)
      | ok a ↦ next a parsed.1 s
    ]

    -- `if err := bindJSON(c, &req); err != nil { return writeBindError(c, err) }`
    abbrev pub bound : Result A → (A → Handler W) → Handler W
    bound request next r s = elim request [
      | err e ↦ (write_bind_error fiber e r, s)
      | ok a ↦ next a r s
    ]

    -- A call of a service: an error is written, an answer goes on.
    abbrev pub called : Db Tables W A → (A → Handler W) → Handler W
    called action next r s =
        let (answer, s') = action s in
        elim answer [ err e ↦ (write_domain_error fiber e r, s') | ok a ↦ next a r s' ]

    -- A call whose error is only logged.
    abbrev pub logged : Db Tables W A → Handler W → Handler W
    logged action next r s = next r (action s).1

  module _ {W : Type 0} where
    unfoldable pub get_users : Option (Option ℤ) → Option (Option ℤ) → Handler W
    get_users page_query limit_query r s =
        then_with (parse_positive_query page_query "page must be a positive integer" default_page r)
          (λ page r'.
            then_with
              (parse_positive_query limit_query "limit must be a positive integer" default_limit r')
              (λ limit r'' s''.
                if ltb max_limit limit
                then (reply fiber 400 (error_text "limit must not exceed 100") r'', s'')
                else called (list (pos page) (pos limit))
                    (λ found z s'''. (
                      json fiber (users_body (map to_user_summary found.0) page limit found.1) z,
                      s''',
                    ))
                    r'' s''))
          s

    unfoldable pub get_user_by_id : Option ℤ → Handler W
    get_user_by_id param r s =
        then_with (parse_id param r)
          (λ id.
            called (get_by_id (pos id))
              (λ account z s'. (json fiber (user_body (to_user_response account)) z, s')))
          s

    unfoldable pub delete_user : Option User → Option ℤ → Handler W
    delete_user local param = signed_in fiber local λ actor r s.
        then_with (parse_id param r)
          (λ id. called (delete actor.id id) (λ done z s'. (no_content z, s'))) s

  module _ (texts : Texts) {W : Type 0} where
    unfoldable pub change_role : Option User → Option ℤ → Result String → ℕ → Handler W
    change_role local param request now = signed_in fiber local λ actor r s.
        then_with (parse_id param r)
          (λ id. bound request (λ role.
            called (Service.change_role texts actor.id id role now)
              (λ done z s'. (json fiber (message_text "role changed") z, s'))))
          s

  module _ (password : PasswordService) {W : Type 0} where
    unfoldable pub change_password : Option User → Result (String × String) → ℕ → Handler W
    change_password local request now = signed_in fiber local λ account. bound request (λ req.
        called (Service.change_password password account.id req.0 req.1 now)
          (λ done z s. (json fiber (message_text "password changed; sign in again") z, s)))

    unfoldable pub delete_own : Option User → Result String → Handler W
    delete_own local request = signed_in fiber local λ account. bound request (λ current.
        called (delete_self password account.id current) (λ done z s. (no_content z, s)))

  module _ (texts : Texts) {W : Type 0} (ports : Ports W) (driver : Driver) where
    -- `CreateUser`, for the username, the email and the password of the request.
    unfoldable pub create_user :
        Result (String × String × String) → Result String → ℕ → ℕ → ℕ → Handler W
    create_user request random issued_now expires_now stamp = bound request (λ req.
        called
          (create texts ports.password driver (record {
            id = 0;
            username = req.0;
            email = req.1;
            password = req.2;
            role = "";
            email_verified_at = none;
            pending_email = "";
            token_version = 0;
          }))
          (λ account.
            logged
              (send_verification_for_user ports driver account.id random issued_now expires_now
                stamp)
              (λ z s. (reply fiber 201 (user_body (to_user_response account)) z, s))))

    -- What `UpdateUser` and `UpdateSelf` do for an account.
    abbrev pub update_account : ℕ → User → UpdateUserRequest → Result String → ℕ → ℕ → ℕ → Handler W
    update_account id current req random issued_now expires_now stamp =
        let (username, email) = profile_values req current in
        called (Service.update_profile texts driver id username email) (λ done.
          logged (send_verification_for_user ports driver id random issued_now expires_now stamp) (
            called (get_by_id (pos id))
              (λ updated z s. (json fiber (user_body (to_user_response updated)) z, s))))

    unfoldable pub update_user :
        Option ℤ → Result UpdateUserRequest → Result String → ℕ → ℕ → ℕ → Handler W
    update_user param request random issued_now expires_now stamp r s =
        then_with (parse_id param r)
          (λ id. bound request (λ req.
            called (get_by_id (pos id))
              (λ current. update_account id current req random issued_now expires_now stamp)))
          s

    unfoldable pub update_self :
        Option User → Result UpdateUserRequest → Result String → ℕ → ℕ → ℕ → Handler W
    update_self local request random issued_now expires_now stamp = signed_in fiber local λ account.
        bound request
          (λ req. update_account account.id account req random issued_now expires_now stamp)
