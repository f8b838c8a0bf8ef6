-- ===== src/Http/Inputs.antt =====
-- What the handlers of internal/adapter/http/handler/user_handler.go make of inputs that are refused or
-- left out.
use golang_clean_architectur.Common.{◌≡◌, false, Option, none, some, arith, str_eq_refl}
use golang_clean_architectur.Common.Int.{ℤ, is_positive}
use golang_clean_architectur.Errors.{ok}
use golang_clean_architectur.Sql.{Session}
use golang_clean_architectur.User.{
  Texts, User, normalize_email, update_profile, normalize_and_validate,
}
use golang_clean_architectur.User.Service.{get_by_id}
use golang_clean_architectur.Identity.{Tables}
use golang_clean_architectur.Http.{Body, error_text, Fiber, Response, write_domain_error}
use golang_clean_architectur.Http.UserHandler.{
  UpdateUserRequest, profile_values, parse_id, get_user_by_id,
}

-- A parameter that is no positive number.
abbrev pub IsInvalid : Option ℤ → Type 0
IsInvalid none = Unit
IsInvalid (some id) = is_positive id ≡ false

-- A request for a User whose identifier is no positive number is answered with 404, where writing JSON
-- does not fail: the 400 that was written first is overwritten. No statement is run.
pub get_user_by_id-invalid :
    (fiber : Fiber) {W : Type 0} (param : Option ℤ) (r : Response) (s : Session Tables W)
    → ((b : Body) → fiber.json b ≡ none)
    → IsInvalid param
    → get_user_by_id fiber param r s
      ≡ ((none, record { status = 404; body = error_text "user not found" }), s)
unfolding get_user_by_id parse_id get_by_id write_domain_error
get_user_by_id-invalid fiber none r s nil bad =
    ground (arith, nil (error_text "invalid user id"), nil (error_text "user not found"))
get_user_by_id-invalid fiber (some id) r s nil bad =
    ground (arith, nil (error_text "invalid user id"), nil (error_text "user not found"))

-- A change of the profile that gives no email takes the present email for the new one: an account that
-- waits for another email, and whose email is as it was normalised, waits for none afterwards.
pub profile_values-cancels :
    (texts : Texts) (req : UpdateUserRequest) (account v : User)
    → req.email ≡ none
    → normalize_email texts account.email ≡ account.email
    → update_profile texts account (profile_values req account).0 (profile_values req account).1
      ≡ ok v
    → v.pending_email ≡ ""
unfolding profile_values update_profile normalize_and_validate
profile_values-cancels texts req account v omitted normal e =
    ground (arith, str_eq_refl account.email)
