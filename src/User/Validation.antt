-- ===== src/User/Validation.antt =====
-- What the validation of a User promises (internal/user/service.go and entity.go).
use Prim.Native.String.{len}
use golang_clean_architectur.Common.{
  ◌≤◌, ◌≡◌, refl, Bool, true, false, String, str_eq, arith, ◌⊎◌, if◌then◌else◌, min,
}
use golang_clean_architectur.Common.Int.{ℤ, is_positive, to_ℕ}
use golang_clean_architectur.Errors.{is, invalid_input, Answers, answers}
use golang_clean_architectur.User.{
  Texts, User, is_username, is_address, validate_password, normalize_email, normalize_and_validate,
  normalize_pagination, update_profile,
}

-- The page is the one that was asked for, or 1 where that is not positive; the limit is the one that
-- was asked for, cut at 100, or 20 where that is not positive. So the page is at least 1 and the
-- limit lies between 1 and 100.
pub normalize_pagination_bounds :
    (page limit : ℤ)
    → let (p, l) = normalize_pagination page limit in
      (p ≡ (if is_positive page then to_ℕ page else 1))
      × (l ≡ (if is_positive limit then min (to_ℕ limit) 100 else 20))
      × (1 ≤ p)
      × (1 ≤ l)
      × (l ≤ 100)
unfolding normalize_pagination
normalize_pagination_bounds page limit = ground arith

module _ (texts : Texts) where
  -- What a normalised account must satisfy, with or without a password.
  abbrev pub IsAcceptable : Bool → User → Type 0
  IsAcceptable required v =
      (is_username v.username ≡ true)
      × (is_address texts v.email ≡ true)
      × ((required ≡ false) ⊎ ((12 ≤ len v.password) × (len v.password ≤ 72)))

  -- The validation returns nil exactly if the account with its trimmed username and its normalised
  -- email is acceptable: a username that fits the pattern, an address, and, where one is required, a
  -- password of 12 to 72 bytes; otherwise it returns ErrInvalidInput, wrapped.
  pub normalize_and_validate_lem :
      (u : User) (required : Bool)
      → let (r, v) = normalize_and_validate texts u required in
        (v ≡ record u {
          username = texts.trim_space u.username;
          email = texts.to_lower (texts.trim_space u.email);
        })
        × Answers
            (λ x. IsAcceptable required v)
            (λ e. (is e invalid_input ≡ true) × ¬ IsAcceptable required v)
            r
  unfolding normalize_and_validate validate_password normalize_email
  normalize_and_validate_lem u required = (
    refl,
    answers _ (λ x h. (ground arith, ground arith, ground arith))
        (λ e h. (ground arith, λ c. ground (arith, c.0, c.1, c.2))),
  )

  -- A changed profile has the trimmed username, which fits the pattern, and the new email, an
  -- address, as the pending one, or none where it is the present email; nothing else changes. A
  -- refused change is ErrInvalidInput, wrapped.
  pub update_profile_lem :
      (u : User) (username email : String)
      → let next = normalize_email texts email in
        Answers
          (λ v.
            (is_username v.username ≡ true)
            × (is_address texts next ≡ true)
            × (v ≡ record u {
              username = texts.trim_space username;
              pending_email = if str_eq next u.email then "" else next;
            }))
          (λ e. is e invalid_input ≡ true)
          (update_profile texts u username email)
  unfolding update_profile normalize_and_validate
  update_profile_lem u username email =
      answers _ (λ v h. (ground arith, ground arith, ground arith)) (λ e h. ground arith)
