-- ===== src/Jwt/RoundTrip.antt =====
-- Tokens that `generate` of internal/adapter/jwt/service.go made, and what `validate` says of them.
use Prim.Native.Char.{code}
use Prim.Native.String.{◌++◌ as str_append}
use Prim.Native.String.append
use text.Mathlib.TextLemmas.{append_assoc}
use golang_clean_architectur.Common.{
  ℕ, ◌<◌, ◌≤◌, ◌/◌, ◌+◌, ◌≡◌, ◌≢◌, refl, ◌∙◌, ap, Bool, true, not, ◌&&◌, String, [], ◌∷◌, some,
  arith, str_eq, str_eq_iff, str_eq_refl, ◌==◌, ◌⊎◌, inl, inr, Bool-cases,
}
use golang_clean_architectur.Common.Int.{pos}
use golang_clean_architectur.Errors.{ok, err, sentinel, invalid_token, expired_token, Result-cases}
use golang_clean_architectur.Queue.{second, minute}
use golang_clean_architectur.Jwt.{
  Codec, Service, TokenHeader, TokenClaims, split, push, dotted, jwt_header, sign, signing_input,
  accept, validate_parts, validate_split, validate, generate,
}

-- No character of the text is a dot.
abbrev pub is_plain : String → Bool
is_plain String.[] = true
is_plain (String.◌∷◌ c s) = not (code c == b'.') && is_plain s

-- Documented of base64 and JSON: what was encoded is decoded again, and the URL alphabet has no dot.
pub record Lawful (codec : Codec) : Type 0 where
  pub decodes : (s : String) → codec.decode (codec.encode s) ≡ some s
  pub plain : (s : String) → is_plain (codec.encode s) ≡ true
  pub reads_header :
      (h : TokenHeader) (b : String)
      → codec.marshal_header h ≡ ok b
      → codec.unmarshal_header b ≡ some h
  pub reads_claims :
      (c : TokenClaims) (b : String)
      → codec.marshal_claims c ≡ ok b
      → codec.unmarshal_claims b ≡ some c

split-plain : (a : String) → is_plain a ≡ true → split a ≡ a ∷ []
unfolding split push
split-plain String.[] h = refl
split-plain (String.◌∷◌ c s) h = ground (arith, split-plain s)

split-dotted : (a b : String) → is_plain a ≡ true → split (dotted a b) ≡ a ∷ split b
unfolding split push
split-dotted String.[] b h = ap split (
    append.nil (str_append "." b)
    ∙ append.cons "." "" b
    ∙ ap (λ x. String.◌∷◌ "." x) (append.nil b))
split-dotted (String.◌∷◌ c s) b h =
    ap split (append.cons c s (str_append "." b)) ∙ ground (arith, split-dotted s b)

split-token :
    (a b c : String)
    → is_plain a ≡ true
    → is_plain b ≡ true
    → is_plain c ≡ true
    → split (dotted (dotted a b) c) ≡ a ∷ b ∷ c ∷ []
split-token a b c pa pb pc =
    ap split (
      append_assoc a (str_append "." b) (str_append "." c)
      ∙ ap (str_append a) (append_assoc "." b (str_append "." c)))
    ∙ split-dotted a (dotted b c) pa
    ∙ ap (λ xs. a ∷ xs) (split-dotted b c pb ∙ ap (λ xs. b ∷ xs) (split-plain c pc))

module _ (codec : Codec) (lawful : Lawful codec) (service : Service) where
  -- A signed token is read as its claims under the same secret.
  signed-accept :
      (claims : TokenClaims) (secret token : String)
      → sign codec claims secret ≡ ok token
      → (expected_type : String) (issued_check now : ℕ)
      → validate codec service token expected_type secret issued_check now
        ≡ accept service claims expected_type issued_check now
  unfolding sign validate validate_split validate_parts
  signed-accept claims secret token e expected_type issued_check now =
      elim (Result-cases (codec.marshal_header jwt_header)) [
        | inr (x, h) ↦ absurd (ground arith)
        | inl (header, h) ↦ elim (Result-cases (codec.marshal_claims claims)) [
          | inr (x, h') ↦ absurd (ground arith)
          | inl (payload, h') ↦
              let input = signing_input codec header payload in
              let digest = codec.hmac secret input in
              let parts =
                split-token (codec.encode header) (codec.encode payload) (codec.encode digest)
                  (lawful.plain header) (lawful.plain payload) (lawful.plain digest) in
              ground (
                arith,
                parts,
                lawful.decodes header,
                lawful.decodes payload,
                lawful.decodes digest,
                lawful.reads_header jwt_header header h,
                lawful.reads_claims claims payload h',
                str_eq_refl digest,
                str_eq_refl "HS256",
                str_eq_refl "JWT",
              )
        ]
      ]

  -- Under any other secret it is read as its claims or refused.
  pub signed-read :
      (claims : TokenClaims) (secret token : String)
      → sign codec claims secret ≡ ok token
      → (expected_type other : String) (issued_check now : ℕ)
      → (validate codec service token expected_type other issued_check now
          ≡ accept service claims expected_type issued_check now)
        ⊎ (validate codec service token expected_type other issued_check now
            ≡ err (sentinel invalid_token))
  unfolding sign validate validate_split validate_parts
  signed-read claims secret token e expected_type other issued_check now =
      elim (Result-cases (codec.marshal_header jwt_header)) [
        | inr (x, h) ↦ absurd (ground arith)
        | inl (header, h) ↦ elim (Result-cases (codec.marshal_claims claims)) [
          | inr (x, h') ↦ absurd (ground arith)
          | inl (payload, h') ↦
              let input = signing_input codec header payload in
              let digest = codec.hmac secret input in
              let parts =
                split-token (codec.encode header) (codec.encode payload) (codec.encode digest)
                  (lawful.plain header) (lawful.plain payload) (lawful.plain digest) in
              elim (Bool-cases (str_eq digest (codec.hmac other input))) [
                | inl same ↦ inl (
                    ground (
                      arith,
                      parts,
                      lawful.decodes header,
                      lawful.decodes payload,
                      lawful.decodes digest,
                      lawful.reads_header jwt_header header h,
                      lawful.reads_claims claims payload h',
                      str_eq_refl "HS256",
                      str_eq_refl "JWT",
                    ))
                | inr differs ↦ inr (ground (arith, parts, lawful.decodes digest))
              ]
        ]
      ]

  -- What `generate` signs.
  abbrev pub claims_for : ℕ → ℕ → String → ℕ → ℕ → String → TokenClaims
  claims_for user_id version type ttl now jti = record {
    issuer = service.issuer;
    audience = service.audience;
    user_id = pos user_id;
    token_version = pos version;
    jti = jti;
    token_type = type;
    expires_at = pos ((now + ttl) / second);
    issued_at = pos (now / second);
  }

  pub generate-signs :
      (user_id version : ℕ) (type : String) (ttl : ℕ) (secret : String) (now : ℕ)
      (jti token : String) (expiry : ℕ)
      → generate codec service user_id version type ttl secret now (ok jti) ≡ ok (token, expiry)
      → (sign codec (claims_for user_id version type ttl now jti) secret ≡ ok token)
        × (expiry ≡ now + ttl)
  unfolding generate
  generate-signs user_id version type ttl secret now jti token expiry e =
      elim (Result-cases (sign codec (claims_for user_id version type ttl now jti) secret)) [
        | inr (x, h) ↦ absurd (ground arith)
        | inl (t, h) ↦ ground arith
      ]

  -- A token that was made for a User is accepted, as that User and version, until the second of its
  -- expiry, and is expired from then on. The User, the version and the lifetime are positive, the
  -- identifier is not empty, and the clock does not run back.
  pub generate-validate :
      (user_id version : ℕ) (type : String) (ttl : ℕ) (secret : String) (now : ℕ)
      (jti token : String) (expiry issued_check later : ℕ)
      → generate codec service user_id version type ttl secret now (ok jti) ≡ ok (token, expiry)
      → 0 < user_id
      → 0 < version
      → jti ≢ ""
      → second ≤ now
      → second ≤ ttl
      → now ≤ issued_check
      → (later / second < expiry / second
          → validate codec service token type secret issued_check later
            ≡ ok (record { user_id = user_id; token_version = version }))
        × (expiry / second ≤ later / second
            → validate codec service token type secret issued_check later
              ≡ err (sentinel expired_token))
  unfolding accept
  generate-validate user_id version type ttl secret now jti token expiry issued_check later e
        some_user some_version some_jti started long order =
      let claims = claims_for user_id version type ttl now jti in
      let (signed, ends) = generate-signs user_id version type ttl secret now jti token expiry e in
      let read = signed-accept claims secret token signed type issued_check later in
      let born : 1 ≤ now / second = omega arith in
      let lives : now / second + 1 ≤ (now + ttl) / second = omega arith in
      let seen : now / second ≤ (issued_check + minute) / second = omega arith in
      (
        λ lt.
            read
            ∙ ground (
              arith,
              str_eq_refl type,
              str_eq_refl service.issuer,
              str_eq_refl service.audience,
              str_eq_iff jti "",
            ),
        λ le.
            read
            ∙ ground (
              arith,
              str_eq_refl type,
              str_eq_refl service.issuer,
              str_eq_refl service.audience,
              str_eq_iff jti "",
            ),
      )

  -- A token of one type is refused as invalid where another type is expected, under the secret that
  -- signed it and at any time.
  pub generate-other_type :
      (user_id version : ℕ) (type : String) (ttl : ℕ) (secret : String) (now : ℕ)
      (jti token : String) (expiry : ℕ)
      → generate codec service user_id version type ttl secret now (ok jti) ≡ ok (token, expiry)
      → (other : String) → type ≢ other
      → (issued_check later : ℕ)
      → validate codec service token other secret issued_check later ≡ err (sentinel invalid_token)
  unfolding accept
  generate-other_type user_id version type ttl secret now jti token expiry e other differs
        issued_check later =
      signed-accept (claims_for user_id version type ttl now jti) secret token
        (generate-signs user_id version type ttl secret now jti token expiry e).0 other issued_check
        later
      ∙ ground (arith, str_eq_iff type other)
