-- ===== src/Errors.antt =====
-- Go's `error` values, as the program makes and inspects them: the sentinels that its packages
-- declare (internal/user/errors.go, internal/auth/errors.go, internal/queue/queue.go,
-- internal/adapter/mysql/identity/mappers.go) and those of gorm that it tests for, the driver's
-- numbered error, `errors.New`, and `fmt.Errorf` with `%w`.
use mathlib.Core.Path.{subst}
use golang_clean_architectur.Common.{
  ℕ, Bool, true, false, Option, none, some, String, ◌==◌, ◌≡◌, refl, ◌⊎◌, inl, inr,
}

pub data Sentinel : Type 0 where
  not_found duplicate_email duplicate_username invalid_input forbidden : Sentinel
  last_admin invalid_role invalid_password : Sentinel
  invalid_credentials unauthorized invalid_token expired_token email_unverified : Sentinel
  verification_rate duplicate_job record_missing : Sentinel
  -- gorm.ErrRecordNotFound, gorm.ErrDuplicatedKey, context.Canceled, context.DeadlineExceeded
  gorm_record_not_found gorm_duplicated_key canceled deadline_exceeded : Sentinel
  -- fiber.ErrUnsupportedMediaType, fiber.ErrBadRequest
  unsupported_media_type bad_request : Sentinel
  -- os.ErrNotExist, viper.ConfigFileNotFoundError
  file_missing config_missing : Sentinel
  -- asynq.ErrDuplicateTask, asynq.ErrTaskIDConflict
  duplicate_task task_id_conflict : Sentinel

abbrev tag : Sentinel → ℕ
tag not_found = 0
tag duplicate_email = 1
tag duplicate_username = 2
tag invalid_input = 3
tag forbidden = 4
tag last_admin = 5
tag invalid_role = 6
tag invalid_password = 7
tag invalid_credentials = 8
tag unauthorized = 9
tag invalid_token = 10
tag expired_token = 11
tag email_unverified = 12
tag verification_rate = 13
tag duplicate_job = 14
tag record_missing = 15
tag gorm_record_not_found = 16
tag gorm_duplicated_key = 17
tag canceled = 18
tag deadline_exceeded = 19
tag unsupported_media_type = 20
tag bad_request = 21
tag file_missing = 22
tag config_missing = 23
tag duplicate_task = 24
tag task_id_conflict = 25

pub data Error : Type 0 where
  sentinel : Sentinel → Error
  -- `*mysql.MySQLError`: its number and message.
  mysql : ℕ → String → Error
  message : String → Error
  wrap : String → Error → Error

-- `errors.Is`
abbrev pub is : Error → Sentinel → Bool
is (sentinel a) b = tag a == tag b
is (mysql n m) b = false
is (message m) b = false
is (wrap m e) b = is e b

-- `errors.As` at `*mysql.MySQLError`.
abbrev pub as_mysql : Error → Option (ℕ × String)
as_mysql (sentinel a) = none
as_mysql (mysql n m) = some (n, m)
as_mysql (message m) = none
as_mysql (wrap m e) = as_mysql e

pub data Result {ℓ} (A : Type ℓ) : Type ℓ where
  ok : A → Result A
  err : Error → Result A

abbrev pub is_ok {ℓ} : {A : Type ℓ} → Result A → Bool
is_ok (ok a) = true
is_ok (err e) = false

-- `if err != nil { return err }`
infixl 5 ◌>>=◌ ◌>>◌
abbrev pub ◌>>=◌ : {A B : Type 0} → Result A → (A → Result B) → Result B
r >>= f = elim r [ ok a ↦ f a | err e ↦ err e ]

abbrev pub ◌>>◌ : {A B : Type 0} → Result A → Result B → Result B
r >> k = r >>= λ _. k

-- `if test { return e }`
abbrev pub refuse : Bool → Error → Result (Unit {0})
refuse true e = err e
refuse false e = ok tt

pub Result-cases {ℓ} :
    {A : Type ℓ} (r : Result A) → ((a : A) × (r ≡ ok a)) ⊎ ((e : Error) × (r ≡ err e))
Result-cases (ok a) = inl (a, refl)
Result-cases (err e) = inr (e, refl)

-- What an answer promises: one thing of a value, another of an error.
pub data Answers {A : Type 0} (P : A → Type 0) (Q : Error → Type 0) : Result A → Type 0 where
  returned : {a : A} → P a → Answers P Q (ok a)
  refused : {e : Error} → Q e → Answers P Q (err e)

module _ {A : Type 0} {P : A → Type 0} {Q : Error → Type 0} where
  pub answers :
      (r : Result A) → ((a : A) → r ≡ ok a → P a) → ((e : Error) → r ≡ err e → Q e) → Answers P Q r
  answers (ok a) p q = returned (p a refl)
  answers (err e) p q = refused (q e refl)

  pub on_ok : {r : Result A} → Answers P Q r → (a : A) → r ≡ ok a → P a
  on_ok (returned {a = b} p) a e = let same : b ≡ a = cc in subst P same p
  on_ok (refused q) a e = cc

  pub on_err : {r : Result A} → Answers P Q r → (e : Error) → r ≡ err e → Q e
  on_err (returned p) e h = cc
  on_err (refused {e = d} q) e h = let same : d ≡ e = cc in subst Q same q
