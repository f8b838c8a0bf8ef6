-- ===== src/Tests/Signing.antt =====
-- internal/adapter/jwt at concrete inputs, with a codec that satisfies what is asked of one: it doubles
-- each character and knows one header and one record of claims.
use Prim.Native.Char.{Char, code}
use Prim.Native.Nat.{compare, Ordering}
use text.Mathlib.TextEquality.{codes_equal}
use golang_clean_architectur.Common.{
  ◌*◌, ◌≡◌, ◌≢◌, refl, sym, ap, Bool, true, ◌&&◌, String, some, none, arith, str_eq, str_eq_iff,
  ◌==◌, if◌then◌else◌, Option, Bool-cases, inl, inr,
}
use golang_clean_architectur.Common.Int.{ℤ, pos, negsuc, at_most}
use golang_clean_architectur.Errors.{ok, err, sentinel, message, invalid_token, on_ok}
use golang_clean_architectur.Queue.{second}
use golang_clean_architectur.Auth.{Draws, Claims, refresh}
use golang_clean_architectur.Jwt.{
  Codec, Service, TokenClaims, jwt_header, sign, generate, validate, validate_split, validate_parts,
  split, accept, dotted,
}
use golang_clean_architectur.Jwt.Validation.{Accepted, validate_outcome}
use golang_clean_architectur.Jwt.RoundTrip.{Lawful, is_plain, generate-validate}
use golang_clean_architectur.Jwt.Sessions.{signing, access_token-renews_nothing}
use golang_clean_architectur.Tests.Data.{ports, driver, session}

abbrev double : String → String
double String.[] = String.[]
double (String.◌∷◌ c s) =
    if code c == b'.'
    then String.◌∷◌ "d" (String.◌∷◌ "d" (double s))
    else String.◌∷◌ "k" (String.◌∷◌ c (double s))

abbrev consed : Char → Option String → Option String
consed c none = none
consed c (some s) = some (String.◌∷◌ c s)

abbrev halve : String → Option String
halve String.[] = some String.[]
halve (String.◌∷◌ c String.[]) = none
halve (String.◌∷◌ c (String.◌∷◌ d s)) =
    let rest = halve s in if code c == b'd' then consed "." rest else consed d rest

abbrev same : ℤ → ℤ → Bool
same x y = at_most x y && at_most y x

abbrev sample : TokenClaims
sample = record {
  issuer = "app";
  audience = "app";
  user_id = pos 7;
  token_version = pos 1;
  jti = "j";
  token_type = "access";
  expires_at = pos 160;
  issued_at = pos 100;
}

abbrev is_sample : TokenClaims → Bool
is_sample c =
    str_eq c.issuer "app"
    && str_eq c.audience "app"
    && same c.user_id (pos 7)
    && same c.token_version (pos 1)
    && str_eq c.jti "j"
    && str_eq c.token_type "access"
    && same c.expires_at (pos 160)
    && same c.issued_at (pos 100)

abbrev codec : Codec
codec = record {
  encode = double;
  decode = halve;
  marshal_header = λ h.
      if str_eq h.algorithm "HS256" && str_eq h.type "JWT" then ok "h" else err (message "header");
  unmarshal_header = λ b. some jwt_header;
  marshal_claims = λ c. if is_sample c then ok "c" else err (message "claims");
  unmarshal_claims = λ b. some sample;
  hmac = λ secret text. secret;
}

abbrev service : Service
service = record {
  access_secret = "s";
  refresh_secret = "s";
  access_ttl = 60 * second;
  refresh_ttl = 600 * second;
  issuer = "app";
  audience = "app";
}

same_eq : (x y : ℤ) → same x y ≡ true → x ≡ y
same_eq (pos m) (pos n) h = ap pos (let e : m ≡ n = ground arith in e)
same_eq (pos m) (negsuc n) h = cc
same_eq (negsuc m) (pos n) h = cc
same_eq (negsuc m) (negsuc n) h = ap negsuc (let e : m ≡ n = ground arith in e)

is_dot : (c : Char) → (code c == b'.') ≡ true → c ≡ "."
is_dot c h = codes_equal c "." (let e : compare (code c) b'.' ≡ Ordering.eq = ground arith in e)

halve-double : (s : String) → halve (double s) ≡ some s
halve-double String.[] = refl
halve-double (String.◌∷◌ c s) = elim (Bool-cases (code c == b'.')) [
  | inl e ↦ rw (e, halve-double s) (ap (λ x. some (String.◌∷◌ x s)) (sym (is_dot c e)))
  | inr e ↦ rw (e, halve-double s) refl
]

double-plain : (s : String) → is_plain (double s) ≡ true
double-plain String.[] = refl
double-plain (String.◌∷◌ c s) = ground (arith, double-plain s)

codec-Lawful : Lawful codec
codec-Lawful = record {
  decodes = halve-double;
  plain = double-plain;
  reads_header = λ h b e. ground (arith, str_eq_iff h.algorithm "HS256", str_eq_iff h.type "JWT");
  reads_claims = λ c b e. ground (
    arith,
    str_eq_iff c.issuer "app",
    str_eq_iff c.audience "app",
    str_eq_iff c.jti "j",
    str_eq_iff c.token_type "access",
    same_eq c.user_id (pos 7),
    same_eq c.token_version (pos 1),
    same_eq c.expires_at (pos 160),
    same_eq c.issued_at (pos 100),
  );
}

j_named : ◌≢◌ {A = String} "j" ""
unfolding str_eq
j_named = ground (arith, str_eq_iff "j" "")

types_differ : ◌≢◌ {A = String} "access" "refresh"
unfolding str_eq
types_differ = ground (arith, str_eq_iff "access" "refresh")

abbrev made : String
made = dotted (dotted (double "h") (double "c")) (double "s")

makes :
    generate codec service 7 1 "access" (60 * second) "s" (100 * second) (ok "j")
    ≡ ok (made, 160 * second)
unfolding generate sign str_eq
makes = refl

abbrev claims : Claims
claims = record { user_id = 7; token_version = 1 }

generate-validate_example :
    validate codec service made "access" "s" (120 * second) (130 * second) ≡ ok claims
generate-validate_example =
    (generate-validate codec codec-Lawful service 7 1 "access" (60 * second) "s" (100 * second) "j"
        made (160 * second) (120 * second) (130 * second) makes (omega arith) (omega arith) j_named
        (omega arith) (omega arith) (omega arith)).0
      (omega arith)

accepts_made : validate codec service made "access" "s" (120 * second) (130 * second) ≡ ok claims
unfolding validate validate_split validate_parts split accept str_eq
accepts_made = refl

validate_outcome_example :
    Accepted codec service made "access" "s" (120 * second) (130 * second) claims
validate_outcome_example =
    on_ok (validate_outcome codec service made "access" "s" (120 * second) (130 * second)) claims
      accepts_made

abbrev drawn : Draws
drawn = record {
  checks = record { issued_check = 120 * second; now = 121 * second };
  access = record { now = 122 * second; random = ok "k" };
  refresh = record { now = 123 * second; random = ok "l" };
}

access_token-renews_nothing_example :
    refresh (signing codec codec-Lawful service ports) driver drawn made 5 5 session
    ≡ (err (sentinel invalid_token), session)
access_token-renews_nothing_example =
    access_token-renews_nothing codec codec-Lawful service ports driver 7 1 (100 * second) "j" made
      (160 * second) makes drawn 5 5 session
