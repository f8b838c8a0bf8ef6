-- ===== src/Tests/Validation.antt =====
-- The validation of internal/user at concrete inputs.
use golang_clean_architectur.Common.{◌≡◌, refl, str_eq, false}
use golang_clean_architectur.Errors.{ok, on_ok}
use golang_clean_architectur.User.{
  normalize_and_validate, update_profile, is_username, is_address, contains, normalize_email,
}
use golang_clean_architectur.User.Validation.{normalize_and_validate_lem, IsAcceptable}
use golang_clean_architectur.Identity.{to_user}
use golang_clean_architectur.Tests.Data.{texts, bob}

accepts : (normalize_and_validate texts (to_user bob) false).0 ≡ ok tt
unfolding normalize_and_validate is_username is_address contains normalize_email to_user str_eq
accepts = refl

normalize_and_validate_lem_example :
    IsAcceptable texts false (normalize_and_validate texts (to_user bob) false).1
normalize_and_validate_lem_example =
    on_ok (normalize_and_validate_lem texts (to_user bob) false).1 tt accepts

changes :
    update_profile texts (to_user bob) "bobby" "bobby@x"
    ≡ ok (record (to_user bob) { username = "bobby"; pending_email = "bobby@x" })
unfolding update_profile normalize_and_validate is_username is_address contains normalize_email
    to_user str_eq
changes = refl
