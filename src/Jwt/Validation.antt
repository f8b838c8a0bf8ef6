-- ===== src/Jwt/Validation.antt =====
-- What `validate` of internal/adapter/jwt/service.go lets through.
use golang_clean_architectur.Common.{
  ℕ, ◌<◌, ◌/◌, ◌+◌, ◌≡◌, refl, true, false, String, List, [], ◌∷◌, some, arith, str_eq_iff, ◌⊎◌,
  inl, inr, Option-cases,
}
use golang_clean_architectur.Common.Int.{ℤ, pos, is_positive, to_ℕ, at_most}
use golang_clean_architectur.Errors.{
  Error, ok, err, sentinel, invalid_token, expired_token, Answers, refused, answers,
}
use golang_clean_architectur.Queue.{second, minute}
use golang_clean_architectur.Auth.{Claims}
use golang_clean_architectur.Jwt.{
  Codec, Service, TokenClaims, split, is_header, is_signature, claims_of, accept, validate_parts,
  validate_split, validate,
}

module _ (codec : Codec) (service : Service) (token expected_type secret : String)
    (issued_check now : ℕ) where
  -- A token that was accepted, and what it says.
  pub record Accepted (c : Claims) : Type 0 where
    pub header : String
    pub payload : String
    pub signature : String
    pub claims : TokenClaims
    pub parts : split token ≡ header ∷ payload ∷ signature ∷ []
    pub signed_header : is_header codec header ≡ true
    pub signed : is_signature codec secret header payload signature ≡ true
    pub read : claims_of codec payload ≡ some claims
    pub of_type : claims.token_type ≡ expected_type
    pub by_issuer : claims.issuer ≡ service.issuer
    pub for_audience : claims.audience ≡ service.audience
    pub issued : at_most claims.issued_at (pos ((issued_check + minute) / second)) ≡ true
    pub unexpired : at_most claims.expires_at (pos (now / second)) ≡ false
    pub user : claims.user_id ≡ pos c.user_id
    pub version : claims.token_version ≡ pos c.token_version
    pub positive : (0 < c.user_id) × (0 < c.token_version)

  positive_pos : (z : ℤ) → is_positive z ≡ true → (z ≡ pos (to_ℕ z)) × (0 < to_ℕ z)
  positive_pos z h = ground arith

  parts-Accepted :
      (header payload signature : String) (c : Claims)
      → split token ≡ header ∷ payload ∷ signature ∷ []
      → validate_parts codec service header payload signature expected_type secret issued_check now
        ≡ ok c
      → Accepted c
  unfolding validate_parts accept
  parts-Accepted header payload signature c parts e =
      elim (Option-cases (claims_of codec payload)) [
        | inl nothing ↦ absurd (ground arith)
        | inr (claims, read) ↦ record {
          header = header;
          payload = payload;
          signature = signature;
          claims = claims;
          parts = parts;
          signed_header = ground arith;
          signed = ground arith;
          read = read;
          of_type = ground (arith, str_eq_iff claims.token_type expected_type);
          by_issuer = ground (arith, str_eq_iff claims.issuer service.issuer);
          for_audience = ground (arith, str_eq_iff claims.audience service.audience);
          issued = ground arith;
          unexpired = ground arith;
          user = ground (arith, positive_pos claims.user_id);
          version = ground (arith, positive_pos claims.token_version);
          positive = ground (arith, positive_pos claims.user_id, positive_pos claims.token_version);
        }
      ]

  parts_refused :
      (header payload signature : String) (e : Error)
      → validate_parts codec service header payload signature expected_type secret issued_check now
        ≡ err e
      → (e ≡ sentinel invalid_token) ⊎ (e ≡ sentinel expired_token)
  unfolding validate_parts accept
  parts_refused header payload signature e h = elim (Option-cases (claims_of codec payload)) [
    | inl nothing ↦ ground arith
    | inr (claims, read) ↦ ground arith
  ]

  split-Accepted :
      (ps : List String)
      → split token ≡ ps
      → Answers Accepted
          (λ e. (e ≡ sentinel invalid_token) ⊎ (e ≡ sentinel expired_token))
          (validate_split codec service ps expected_type secret issued_check now)
  unfolding validate_split
  split-Accepted [] parts = refused (inl refl)
  split-Accepted (a ∷ []) parts = refused (inl refl)
  split-Accepted (a ∷ b ∷ []) parts = refused (inl refl)
  split-Accepted (a ∷ b ∷ c ∷ []) parts =
      answers _ (λ r e. parts-Accepted a b c r parts e) (λ x h. parts_refused a b c x h)
  split-Accepted (a ∷ b ∷ c ∷ d ∷ rest) parts = refused (inl refl)

  -- A token is accepted only if it has three parts, its header says HS256 and JWT, its signature is the
  -- digest of the first two parts under the secret, and its claims have the type that is expected, the
  -- issuer and the audience, a User and a version above 0, an issue at most a minute ahead and an
  -- expiry to come; the answer is that User and that version. Otherwise the answer is ErrInvalidToken
  -- or ErrExpiredToken.
  pub validate_outcome :
      Answers Accepted
        (λ e. (e ≡ sentinel invalid_token) ⊎ (e ≡ sentinel expired_token))
        (validate codec service token expected_type secret issued_check now)
  unfolding validate
  validate_outcome = split-Accepted (split token) refl
