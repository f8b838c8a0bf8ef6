-- ===== src/Queue/Dispatch/Uniqueness.antt =====
-- Locks of the database queue: a job that was dispatched as unique is
-- not dispatched again while its lock holds.
use golang_clean_architectur.Common.{
  ℕ, ◌+◌, ◌<◌, ◌≡◌, ◌≢◌, refl, sym, ◌∙◌, true, String, arith, str_eq, str_eq_refl, any, inl, inr,
}
use mathlib.Core.Path.{subst}
use golang_clean_architectur.Common.Int.{is_positive, to_ℕ}
use golang_clean_architectur.Errors.{Error, ok, err, Result-cases}
use golang_clean_architectur.Sql.{Session, transaction, later_faults}
use golang_clean_architectur.Sql.Laws.{transaction-commits}
use golang_clean_architectur.Queue.{Job, DispatchOptions, JobInfo, JobTables}
use golang_clean_architectur.Queue.Dispatch.{
  dispatch_body, hash_lock_key, unique_value, dispatch_locks, dispatch, new_job,
}
use golang_clean_architectur.Queue.Dispatch.Locks.{
  holds_key, IsLocked, dispatch_body-IsLocked, dispatch_body-refused,
}

unique_key : (String → String) → Job → DispatchOptions → String → String
unique_key sha256 job options payload =
    hash_lock_key sha256 "unique"
      (unique_value sha256 (new_job job payload options "" 0 0).queue job.type payload)

unique_lock :
    (sha256 : String → String) (job : Job) (options : DispatchOptions) (payload id : String)
    (at now : ℕ)
    → is_positive options.unique_for ≡ true
    → now < at + to_ℕ options.unique_for
    → any (holds_key (unique_key sha256 job options payload) now) (
        dispatch_locks sha256 id
          (new_job job payload options "" 0 0).queue
          job.type
          payload
          options
          at)
      ≡ true
unfolding unique_key dispatch_locks
unique_lock sha256 job options payload id at now positive lt =
    ground (arith, str_eq_refl (unique_key sha256 job options payload))

unique_wanted :
    (sha256 : String → String) (job : Job) (options : DispatchOptions) (payload id : String)
    (at : ℕ)
    → is_positive options.unique_for ≡ true
    → any
        (λ l. str_eq l.lock_key (unique_key sha256 job options payload))
        (dispatch_locks sha256 id
          (new_job job payload options "" 0 0).queue
          job.type
          payload
          options
          at)
      ≡ true
unfolding unique_key dispatch_locks
unique_wanted sha256 job options payload id at positive =
    ground (arith, str_eq_refl (unique_key sha256 job options payload))

same_key :
    (sha256 : String → String) (job : Job) (options options' : DispatchOptions) (payload : String)
    → options'.queue ≡ options.queue
    → unique_key sha256 job options' payload ≡ unique_key sha256 job options payload
unfolding unique_key new_job
same_key sha256 job options options' payload q = rw q refl

module _ (sha256 : String → String) {W : Type 0} where
  -- The transaction of a dispatch that succeeded.
  pub dispatch-commits :
      (job : Job) (options : DispatchOptions) (payload uuid : String)
      (available created at swept : ℕ) (s : Session JobTables W) (info : JobInfo)
      → job.payload ≡ ok payload
      → (dispatch sha256 job options uuid available created at swept s).0 ≡ ok info
      → let row = new_job job payload options uuid available created in
        let locks = dispatch_locks sha256 row.id row.queue job.type payload options at in
        let z : Session JobTables W = record s { faults = later_faults s.faults } in
        (a : Unit {0}) × ((dispatch_body row locks swept z).0 ≡ ok a)
        × ((dispatch sha256 job options uuid available created at swept s).1.tables
            ≡ (dispatch_body row locks swept z).1.tables)
  unfolding dispatch
  dispatch-commits job options payload uuid available created at swept s info p e =
      let row = new_job job payload options uuid available created in
      let locks = dispatch_locks sha256 row.id row.queue job.type payload options at in
      elim (Result-cases (transaction (dispatch_body {W = W} row locks swept) s).0) [
        | inr (x, broken) ↦ absurd (ground arith)
        | inl (a, fine) ↦
            let (done, rows) =
              transaction-commits (dispatch_body {W = W} row locks swept) s a fine in
            (a, done, ground arith)
      ]

  pub dispatch-rolls_back :
      (job : Job) (options : DispatchOptions) (uuid : String) (available created at swept : ℕ)
      (s : Session JobTables W) (e : Error)
      → (dispatch sha256 job options uuid available created at swept s).0 ≡ err e
      → (dispatch sha256 job options uuid available created at swept s).1.tables ≡ s.tables
  unfolding dispatch
  dispatch-rolls_back job options uuid available created at swept s e h = ground arith

  -- A job that was marshalled and dispatched with `UniqueFor` is not dispatched again as unique in its
  -- queue before
  -- that time is over: from the rows that the first dispatch left, the second returns an error,
  -- whatever its other options, identifiers and readings of the clock, and changes no row.
  pub dispatch_unique :
      (job : Job) (options : DispatchOptions) (payload uuid : String)
      (available created at swept : ℕ) (s : Session JobTables W) (info : JobInfo)
      → job.payload ≡ ok payload
      → is_positive options.unique_for ≡ true
      → (dispatch sha256 job options uuid available created at swept s).0 ≡ ok info
      → (options' : DispatchOptions) (uuid' : String) (available' created' at' now : ℕ)
        (z : Session JobTables W)
      → options'.queue ≡ options.queue
      → is_positive options'.unique_for ≡ true
      → now < at + to_ℕ options.unique_for
      → z.tables ≡ (dispatch sha256 job options uuid available created at swept s).1.tables
      → ((info' : JobInfo)
          → (dispatch sha256 job options' uuid' available' created' at' now z).0 ≢ ok info')
        × ((dispatch sha256 job options' uuid' available' created' at' now z).1.tables ≡ z.tables)
  unfolding new_job
  dispatch_unique job options payload uuid available created at swept s info p positive e options'
        uuid' available' created' at' now z q positive' lt same =
      let key = unique_key sha256 job options payload in
      let row = new_job job payload options uuid available created in
      let row' = new_job job payload options' uuid' available' created' in
      let locks = dispatch_locks sha256 row.id row.queue job.type payload options at in
      let locks' = dispatch_locks sha256 row'.id row'.queue job.type payload options' at' in
      let (a, done, rows) =
        dispatch-commits job options payload uuid available created at swept s info p e in
      let locked : IsLocked key now z.tables = subst (IsLocked key now) (sym (same ∙ rows)) (
        dispatch_body-IsLocked key now row locks swept (record s { faults = later_faults s.faults })
          a (unique_lock sha256 job options payload row.id at now positive lt) done) in
      let wanted : any (λ l. str_eq l.lock_key key) locks' ≡ true =
        subst (λ k. any (λ l. str_eq l.lock_key k) locks' ≡ true)
          (same_key sha256 job options options' payload q)
          (unique_wanted sha256 job options' payload row'.id at' positive') in
      let never : (info' : JobInfo)
          → (dispatch sha256 job options' uuid' available' created' at' now z).0 ≢ ok info' =
        λ info' again.
          let (a', done', rows') =
            dispatch-commits job options' payload uuid' available' created' at' now z info' p
              again in
          dispatch_body-refused key now row' locks' (record z { faults = later_faults z.faults }) a'
            wanted locked done' in
      (
        never,
        elim (Result-cases (dispatch sha256 job options' uuid' available' created' at' now z).0) [
          | inl (info', again) ↦ absurd (never info' again)
          | inr (x, broken) ↦
              dispatch-rolls_back job options' uuid' available' created' at' now z x broken
        ],
      )
