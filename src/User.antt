-- ===== src/User.antt =====
-- internal/user/entity.go and the validation half of internal/user/service.go: the User entity.
-- `strings.TrimSpace`, `strings.ToLower` (Unicode tables) and `mail.ParseAddress` are parameters.
-- Identifiers and token versions are naturals: the columns start at 1 and only grow.
pub mod Validation
pub mod Service
use Prim.Native.Char.{Char, code}
use Prim.Native.String.{len, count}
use text.Mathlib.Text.{find?}
use golang_clean_architectur.Common.{
  ℕ, zero, suc, ◌+◌, Bool, true, false, not, ◌&&◌, ◌||◌, Option, none, some, String, ltb, leb, ◌==◌,
  str_eq, is_some, if◌then◌else◌,
}
use golang_clean_architectur.Common.Int.{ℤ, pos, negsuc}
use golang_clean_architectur.Errors.{
  Error, Result, ok, err, sentinel, wrap, forbidden, invalid_input, invalid_role,
}

-- The parts of Go's library that read or rewrite texts.
pub record Texts : Type 0 where
  pub trim_space : String → String
  pub to_lower : String → String
  -- `mail.ParseAddress`: the `Address` field of what it parses.
  pub parse_address : String → Option String

-- A Go string of that many bytes; `strings.Contains`.
unfoldable pub contains : String → String → Bool
contains s t = is_some (find? s t)

-- `type Role string`
abbrev pub Role : Type 0
Role = String

abbrev pub role_user : Role
role_user = "user"

abbrev pub role_admin : Role
role_admin = "admin"

pub record User : Type 0 where
  pub id : ℕ
  pub username : String
  pub email : String
  pub password : String
  pub role : Role
  pub email_verified_at : Option ℕ
  pub pending_email : String
  pub token_version : ℕ

abbrev pub is_admin : User → Bool
is_admin u = str_eq u.role role_admin

abbrev pub email_verified : User → Bool
email_verified u = is_some u.email_verified_at

unfoldable pub parse_role : String → Result Role
parse_role value =
    if str_eq value role_user
    then ok role_user
    else if str_eq value role_admin
    then ok role_admin
    else err (sentinel invalid_role)

abbrev pub can_promote : User → Bool
can_promote u = email_verified u

-- `usernamePattern`, ^[A-Za-z0-9_-]{3,50}$
is_username_char : ℕ → Bool
is_username_char c =
    (leb b'A' c && leb c b'Z')
    || (leb b'a' c && leb c b'z')
    || (leb b'0' c && leb c b'9')
    || (c == b'_')
    || (c == b'-')

all_username_chars : String → Bool
all_username_chars String.[] = true
all_username_chars (String.◌∷◌ c s) = is_username_char (code c) && all_username_chars s

unfoldable pub is_username : String → Bool
unfolding is_username_char all_username_chars
is_username s = all_username_chars s && leb 3 (count s) && leb (count s) 50

unfoldable pub validate_password : String → Result (Unit {0})
validate_password password =
    if ltb (len password) 12 || ltb 72 (len password)
    then err (wrap "password must be 12-72 bytes" (sentinel invalid_input))
    else ok tt

module _ (texts : Texts) where
  open texts use {trim_space, to_lower, parse_address}

  unfoldable pub normalize_email : String → String
  normalize_email email = to_lower (trim_space email)

  -- `err != nil || address.Address != account.Email || !strings.Contains(account.Email, "@")`
  unfoldable pub is_address : String → Bool
  is_address email = elim (parse_address email) [
    | none ↦ false
    | some address ↦ str_eq address email && contains email "@"
  ]

  -- The caller's account keeps the trimmed username and the normalised email also on an error.
  unfoldable pub normalize_and_validate : User → Bool → Result (Unit {0}) × User
  normalize_and_validate account require_password =
      let username = trim_space account.username in
      let email = normalize_email account.email in
      let account' = record account { username = username; email = email } in
      (
        if not (is_username username)
            then err (
                wrap "username must be 3-50 letters, digits, underscores, or hyphens"
                  (sentinel invalid_input))
            else if not (is_address email)
            then err (wrap "invalid email" (sentinel invalid_input))
            else if require_password
            then validate_password account.password
            else ok tt,
        account',
      )

  abbrev candidate_of : String → String → User
  candidate_of username email = record {
    id = 0;
    username = username;
    email = email;
    password = "";
    role = "";
    email_verified_at = none;
    pending_email = "";
    token_version = 0;
  }

  -- `(*User).UpdateProfile`: on an error the account is unchanged.
  unfoldable pub update_profile : User → String → String → Result User
  update_profile u username email =
      let (checked, candidate) = normalize_and_validate (candidate_of username email) false in
      elim checked [
        | err e ↦ err e
        | ok _ ↦ ok (record u {
          username = candidate.username;
          pending_email = if str_eq candidate.email u.email then "" else candidate.email;
        })
      ]

unfoldable pub assign_role : User → Role → Result User
assign_role u role =
    if str_eq role role_admin && not (can_promote u)
    then err (sentinel forbidden)
    else ok (record u { role = role })

-- `(*User).VerifyEmail`: the account afterwards, and whether this was its first verification.
unfoldable pub verify_email : User → ℕ → User × Bool
verify_email u at = (
  record u {
    email = if str_eq u.pending_email "" then u.email else u.pending_email;
    pending_email = "";
    email_verified_at = some at;
    token_version = u.token_version + 1;
  },
  not (email_verified u),
)

unfoldable pub change_password_hash : User → String → User
change_password_hash u hash = record u { password = hash; token_version = u.token_version + 1 }

abbrev pub default_page : ℕ
default_page = 1

abbrev pub default_limit : ℕ
default_limit = 20

abbrev pub max_limit : ℕ
max_limit = 100

positive_or : ℕ → ℤ → ℕ
positive_or default (pos zero) = default
positive_or default (pos (suc n)) = suc n
positive_or default (negsuc n) = default

unfoldable pub normalize_pagination : ℤ → ℤ → ℕ × ℕ
unfolding positive_or
normalize_pagination page limit =
    let wanted = positive_or default_limit limit in
    (positive_or default_page page, if ltb max_limit wanted then max_limit else wanted)
