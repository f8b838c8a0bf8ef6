-- ===== src/Tests/Web.antt =====
-- internal/adapter/http at concrete inputs.
use golang_clean_architectur.Common.{
  count_where, ◌≡◌, ◌⊎◌, refl, Option, none, some, String, List, [], ◌∷◌, str_eq, true,
}
use golang_clean_architectur.Common.Int.{pos}
use golang_clean_architectur.Errors.{
  is, forbidden, verification_rate, not_found, err, Result, ok, sentinel, gorm_duplicated_key,
}
use golang_clean_architectur.Sql.{Session, next_fault, later_faults}
use golang_clean_architectur.User.{
  User, role_admin, normalize_email, update_profile, normalize_and_validate, is_username,
  is_address, contains,
}
use golang_clean_architectur.User.Service.{get_by_id}
use golang_clean_architectur.Identity.{unique_user, from_user, Tables, to_user}
use golang_clean_architectur.Identity.Users.{get_user_by_id}
use golang_clean_architectur.Auth.{Claims}
use golang_clean_architectur.Http.{
  empty, error_text, user_body, to_user_response, Fiber, Response, Handler, write_domain_error,
  jwt_auth, admin_only,
}
use golang_clean_architectur.Http.AuthHandler.{resend_verification, me}
use golang_clean_architectur.Http.UserHandler
use golang_clean_architectur.Http.UserHandler.{UpdateUserRequest, profile_values}
use golang_clean_architectur.Http.Guards.{
  Authenticated, is_invalid, is_conflict, is_unauthorized, is_internal, admin_only-guards,
  write_domain_error-discloses, resend_verification-uniform,
}
use golang_clean_architectur.Identity.Users.{create_user}
use golang_clean_architectur.Http.Conflicts.{create_user-untold}
use golang_clean_architectur.Http.Inputs.{get_user_by_id-invalid, profile_values-cancels}
use golang_clean_architectur.Tests.Data.{texts, driver, ports, session, faulty, ada, bob}

abbrev fiber : Fiber
fiber = record { json = λ b. none; text = λ e. "words" }

abbrev fresh : Response
fresh = record { status = 200; body = empty }

abbrev validate : String → Result Claims
validate token = ok (record { user_id = 1; token_version = 1 })

abbrev next : Option User → Handler (Unit {0})
next = me fiber

abbrev fields : List String
fields = "Bearer" ∷ "a1" ∷ []

jwt_auth_runs :
    (jwt_auth fiber validate fields next fresh session).0
    ≡ (none, record { status = 200; body = user_body (to_user_response (to_user ada)) })
unfolding jwt_auth me get_by_id get_user_by_id next_fault later_faults str_eq to_user
jwt_auth_runs = refl

admin_only-guards_example :
    let answer = jwt_auth fiber validate fields (admin_only fiber next) fresh session in
    ((z : Session Tables (Unit {0})) × (account : User) × (z.tables ≡ session.tables)
      × (answer ≡ next (some account) fresh z)
      × (account.role ≡ role_admin)
      × Authenticated validate fields account session.tables)
    ⊎ (((answer.0.1.status ≡ 401) ⊎ (answer.0.1.status ≡ 403)) × (answer.1.tables ≡ session.tables))
admin_only-guards_example = admin_only-guards fiber validate next fields fresh session

write_domain_error-discloses_example :
    let e = sentinel gorm_duplicated_key in
    let answer = (write_domain_error fiber e fresh).1 in
    ((is_invalid e ≡ true) × (answer.status ≡ 400) × (answer.body ≡ error_text "words"))
    ⊎ ((is_conflict e ≡ true) × (answer.status ≡ 409) × (answer.body ≡ error_text "words"))
    ⊎ ((is_unauthorized e ≡ true)
        × (answer.status ≡ 401)
        × (answer.body ≡ error_text "unauthorized"))
    ⊎ ((is e forbidden ≡ true) × (answer.status ≡ 403) × (answer.body ≡ error_text "forbidden"))
    ⊎ ((is e verification_rate ≡ true)
        × (answer.status ≡ 429)
        × (answer.body ≡ error_text "verification requested too recently"))
    ⊎ ((is e not_found ≡ true)
        × (answer.status ≡ 404)
        × (answer.body ≡ error_text "user not found"))
    ⊎ ((is_internal e ≡ true)
        × (answer.status ≡ 500)
        × (answer.body ≡ error_text "internal server error"))
write_domain_error-discloses_example =
    write_domain_error-discloses fiber (sentinel gorm_duplicated_key) fresh

resend_verification-uniform_example :
    (resend_verification fiber texts ports driver (ok "cyd@x") (ok "r") 1 2 3 fresh session).0
    ≡ (resend_verification fiber texts ports driver (ok "nobody@x") (ok "r") 1 2 3 fresh faulty).0
resend_verification-uniform_example =
    resend_verification-uniform fiber texts ports driver "cyd@x" "nobody@x" (ok "r") (ok "r") 1 2 3
      1 2 3 fresh session faulty

get_user_by_id-invalid_example :
    UserHandler.get_user_by_id fiber (some (pos 0)) fresh session
    ≡ ((none, record { status = 404; body = error_text "user not found" }), session)
get_user_by_id-invalid_example =
    get_user_by_id-invalid fiber (some (pos 0)) fresh session (λ b. refl) refl

-- Only a username.
abbrev rename : UpdateUserRequest
rename = record { username = some "bobby"; email = none }

abbrev waiting : User
waiting = record (to_user bob) { pending_email = "new@x" }

abbrev renamed : User
renamed = record (to_user bob) { username = "bobby" }

renames :
    update_profile texts waiting (profile_values rename waiting).0 (profile_values rename waiting).1
    ≡ ok renamed
unfolding profile_values update_profile normalize_and_validate is_username is_address contains
    normalize_email to_user str_eq
renames = refl

normal : normalize_email texts waiting.email ≡ waiting.email
unfolding normalize_email
normal = refl

profile_values-cancels_example : renamed.pending_email ≡ ""
profile_values-cancels_example =
    profile_values-cancels texts rename waiting renamed refl normal renames

-- The username of another account.
abbrev second_ada : User
second_ada = record (to_user ada) { id = 0; email = "new@x" }

is_taken :
    unique_user driver
      (record (from_user second_ada) { id = session.tables.next_user })
      session.tables.users
    ≡ err (sentinel gorm_duplicated_key)
unfolding unique_user from_user to_user str_eq
is_taken = refl

nobody_waits : count_where (λ x. str_eq x.pending_email second_ada.email) session.tables.users ≡ 0
unfolding str_eq
nobody_waits = refl

create_user-untold_example :
    ((create_user driver second_ada session).0 ≡ err (sentinel gorm_duplicated_key))
    × ((write_domain_error fiber (sentinel gorm_duplicated_key) fresh).1
        ≡ record { status = 500; body = error_text "internal server error" })
create_user-untold_example =
    create_user-untold fiber driver (λ value key. refl) second_ada fresh session
      (sentinel gorm_duplicated_key) refl nobody_waits is_taken
