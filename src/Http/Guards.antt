-- ===== src/Http/Guards.antt =====
-- What internal/adapter/http lets through and gives away.
use golang_clean_architectur.Common.{
  ℕ, ◌≡◌, refl, ◌∙◌, ap, Bool, true, false, not, ◌||◌, Option, some, String, List, [], ◌∷◌, arith,
  ◌==◌, str_eq, str_eq_iff, ◌⊎◌, inl, inr, find_where, is_some, Option-cases, Bool-cases,
}
use golang_clean_architectur.Common.Int.{pos}
use golang_clean_architectur.Errors.{
  Error, Result, ok, is, invalid_input, invalid_role, duplicate_email, duplicate_username,
  last_admin, invalid_password, unauthorized, forbidden, verification_rate, not_found, Result-cases,
}
use golang_clean_architectur.Sql.{Session}
use golang_clean_architectur.User.{Texts, User, role_admin, is_admin}
use golang_clean_architectur.User.Service.{get_by_id}
use golang_clean_architectur.Identity.{Tables, Driver, UserModel, to_user}
use golang_clean_architectur.Identity.Users.{get_user_by_id}
use golang_clean_architectur.Auth.{Ports, Claims}
use golang_clean_architectur.Http.{
  error_text, Fiber, Response, Reply, Handler, write_domain_error, jwt_auth, admin_only, authorize,
  resolves,
}
use golang_clean_architectur.Http.AuthHandler.{resend_verification}

-- The kinds of errors that the handlers tell apart.
abbrev pub is_invalid : Error → Bool
is_invalid e = is e invalid_input || is e invalid_role

abbrev pub is_conflict : Error → Bool
is_conflict e = is e duplicate_email || is e duplicate_username || is e last_admin

abbrev pub is_unauthorized : Error → Bool
is_unauthorized e = is e invalid_password || is e unauthorized

-- None of the kinds: something failed inside the server.
abbrev pub is_internal : Error → Bool
is_internal e = not (
    is_invalid e
    || is_conflict e
    || is_unauthorized e
    || is e forbidden
    || is e verification_rate
    || is e not_found)

-- Every error of the domain is answered by its kind: 400 for invalid input or an invalid role, and 409
-- for a taken email or username or the last admin, both in the error's own words; 401 for a wrong
-- password or a missing sign-in, 403 for a forbidden act, 429 for verification asked for too soon, and
-- 404 for a missing User, in fixed words; and 500 in fixed words for any other error, so that what
-- failed inside the server is not told.
pub write_domain_error-discloses :
    (fiber : Fiber) (e : Error) (r : Response)
    → let answer = (write_domain_error fiber e r).1 in
      ((is_invalid e ≡ true) × (answer.status ≡ 400) × (answer.body ≡ error_text (fiber.text e)))
      ⊎ ((is_conflict e ≡ true) × (answer.status ≡ 409) × (answer.body ≡ error_text (fiber.text e)))
      ⊎ ((is_unauthorized e ≡ true)
          × (answer.status ≡ 401)
          × (answer.body ≡ error_text "unauthorized"))
      ⊎ ((is e forbidden ≡ true) × (answer.status ≡ 403) × (answer.body ≡ error_text "forbidden"))
      ⊎ ((is e verification_rate ≡ true)
          × (answer.status ≡ 429)
          × (answer.body ≡ error_text "verification requested too recently"))
      ⊎ ((is e not_found ≡ true)
          × (answer.status ≡ 404)
          × (answer.body ≡ error_text "user not found"))
      ⊎ ((is_internal e ≡ true)
          × (answer.status ≡ 500)
          × (answer.body ≡ error_text "internal server error"))
unfolding write_domain_error
write_domain_error-discloses fiber e r = ground arith

-- What `JWTAuth` found: the token of the header, its claims, and their verified account.
pub record Authenticated (validate : String → Result Claims) (fields : List String) (account : User)
    (t : Tables) : Type 0 where
  pub token : String
  pub claims : Claims
  pub row : UserModel
  pub header : fields ≡ "Bearer" ∷ token ∷ []
  pub valid : validate token ≡ ok claims
  pub found : find_where (λ x. x.id == claims.user_id) t.users ≡ some row
  pub is_row : account ≡ to_user row
  pub same_version : row.token_version ≡ claims.token_version
  pub verified : is_some row.email_verified_at ≡ true

to_user-fields :
    (row : UserModel)
    → ((to_user row).token_version ≡ row.token_version)
      × ((to_user row).email_verified_at ≡ row.email_verified_at)
unfolding to_user
to_user-fields row = (refl, refl)

-- A handler was run for an account from the rows of the request, or the request was refused with 401
-- and no row changed.
abbrev pub Guarded :
    {W : Type 0}
    → (String → Result Claims)
    → List String
    → (Option User → Handler W)
    → Response
    → Session Tables W
    → Reply × Session Tables W
    → Type 0
Guarded {W} validate fields next r s answer =
    ((z : Session Tables W) × (account : User) × (z.tables ≡ s.tables)
      × (answer ≡ next (some account) r z)
      × Authenticated validate fields account s.tables)
    ⊎ ((answer.0.1.status ≡ 401) × (answer.1.tables ≡ s.tables))

module _ (fiber : Fiber) {W : Type 0} (validate : String → Result Claims)
    (next : Option User → Handler W) (r : Response) (s : Session Tables W) where
  authorize-Guarded :
      (scheme token : String)
      → Guarded validate
          (scheme ∷ token ∷ [])
          next
          r
          s
          (authorize fiber validate scheme token next r s)
  unfolding get_by_id get_user_by_id
  authorize-Guarded scheme token =
      elim (Bool-cases (not (str_eq scheme "Bearer") || str_eq token "")) [
        | inl other ↦ inr (ground arith)
        | inr bearer ↦ elim (Result-cases (validate token)) [
          | inr (e, h) ↦ inr (ground arith)
          | inl (claims, h) ↦
              let looked = get_by_id (pos claims.user_id) s in
              elim (Option-cases (resolves claims looked.0)) [
                | inl missing ↦ inr (ground arith)
                | inr (account, there) ↦
                    elim (Option-cases (find_where (λ x. x.id == claims.user_id) s.tables.users)) [
                      | inl missing ↦ absurd (ground arith)
                      | inr (row, found) ↦ inl (
                        looked.1,
                        account,
                        ground arith,
                        ground arith,
                        record {
                          token = token;
                          claims = claims;
                          row = row;
                          header =
                              ap (λ x. x ∷ token ∷ [])
                                (let e : scheme ≡ "Bearer" =
                                    ground (arith, str_eq_iff scheme "Bearer") in
                                  e);
                          valid = h;
                          found = found;
                          is_row = ground arith;
                          same_version = ground (arith, to_user-fields row);
                          verified = ground (arith, to_user-fields row);
                        },
                      )
                    ]
              ]
        ]
      ]

  -- `JWTAuth` runs what it guards only for the account of a valid token: the header is Bearer and a
  -- token that validates, its User exists, has the token's version and is verified, and that account is
  -- handed on with the rows as they were. Every other request is answered with 401 and changes no row.
  pub jwt_auth-guards :
      (fields : List String)
      → Guarded validate fields next r s (jwt_auth fiber validate fields next r s)
  unfolding jwt_auth
  jwt_auth-guards [] = inr (refl, refl)
  jwt_auth-guards (a ∷ []) = inr (refl, refl)
  jwt_auth-guards (scheme ∷ token ∷ []) = authorize-Guarded scheme token
  jwt_auth-guards (a ∷ b ∷ c ∷ rest) = inr (refl, refl)

module _ (fiber : Fiber) {W : Type 0} (next : Option User → Handler W) (account : User)
    (r : Response) (z : Session Tables W) where
  admin_only-passes :
      is_admin account ≡ true → admin_only fiber next (some account) r z ≡ next (some account) r z
  unfolding admin_only
  admin_only-passes granted = rw granted refl

  admin_only-refuses :
      is_admin account ≡ false
      → ((admin_only fiber next (some account) r z).0.1.status ≡ 403)
        × ((admin_only fiber next (some account) r z).1.tables ≡ z.tables)
  unfolding admin_only
  admin_only-refuses denied = ground arith

-- A route of admins runs its handler only for an authenticated account whose role is admin. Every other
-- request is answered with 401 or 403 and changes no row.
pub admin_only-guards :
    (fiber : Fiber) {W : Type 0} (validate : String → Result Claims)
    (next : Option User → Handler W) (fields : List String) (r : Response) (s : Session Tables W)
    → let answer = jwt_auth fiber validate fields (admin_only fiber next) r s in
      ((z : Session Tables W) × (account : User) × (z.tables ≡ s.tables)
        × (answer ≡ next (some account) r z)
        × (account.role ≡ role_admin)
        × Authenticated validate fields account s.tables)
      ⊎ (((answer.0.1.status ≡ 401) ⊎ (answer.0.1.status ≡ 403)) × (answer.1.tables ≡ s.tables))
admin_only-guards fiber validate next fields r s =
    elim (jwt_auth-guards fiber validate (admin_only fiber next) r s fields) [
      | inr (refusal, same) ↦ inr (inl refusal, same)
      | inl (z, account, same, ran, who) ↦ elim (Bool-cases (is_admin account)) [
        | inl granted ↦ inl (
          z,
          account,
          same,
          ran ∙ admin_only-passes fiber next account r z granted,
          (str_eq_iff account.role role_admin).0 granted,
          who,
        )
        | inr denied ↦
            let (status, rows) = admin_only-refuses fiber next account r z denied in
            inr (inr (ap (λ x. x.0.1.status) ran ∙ status), ap (λ x. x.1.tables) ran ∙ rows ∙ same)
      ]
    ]

-- The answer to a request for another verification mail that could be read is the same for every
-- address and every state of the database: it does not tell which accounts there are.
pub resend_verification-uniform :
    (fiber : Fiber) (texts : Texts) {W : Type 0} (ports : Ports W) (driver : Driver)
    (email email' : String) (random random' : Result String)
    (issued expires stamp issued' expires' stamp' : ℕ) (r : Response) (s s' : Session Tables W)
    → (resend_verification fiber texts ports driver (ok email) random issued expires stamp r s).0
      ≡ (resend_verification fiber texts ports driver
          (ok email')
          random'
          issued'
          expires'
          stamp'
          r
          s').0
unfolding resend_verification
resend_verification-uniform fiber texts ports driver email email' random random' issued expires
      stamp issued' expires' stamp' r s s' =
    refl
