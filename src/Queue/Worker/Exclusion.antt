-- ===== src/Queue/Worker/Exclusion.antt =====
-- While a lease runs, no other worker takes or ends its job, and a worker whose lease was taken over
-- writes nothing.
use golang_clean_architectur.Common.{
  ℕ, ◌+◌, ◌≤◌, ◌<◌, ◌≡◌, ◌≢◌, refl, sym, Bool, true, false, not, ◌&&◌, ◌||◌, some, none, String,
  List, [], ◌∷◌, arith, str_eq, str_eq_iff, str_eq_refl, leb, update_where, All, Bool-cases, inl,
  inr,
}
use mathlib.Core.Path.{subst}
use golang_clean_architectur.Sql.Rows.{All-update}
use golang_clean_architectur.Queue.{DatabaseJob, JobTables, active, status_eq}
use golang_clean_architectur.Queue.Worker.{is_reservable, lease, holds_token}
use golang_clean_architectur.Queue.Worker.Lease.{Reserved, first_by_order-least, All-picked}

-- The row, if it is the job's, is active under that token at least until that time.
unfoldable pub is_leased : String → String → ℕ → DatabaseJob → Bool
is_leased id token until r =
    not (str_eq r.id id)
    || (status_eq r.status active
        && holds_token (some token) r.lease_token
        && elim r.leased_until [ none ↦ false | some end ↦ leb until end ])

-- The job's rows are leased under that token until that time.
abbrev pub IsLeased : String → String → ℕ → JobTables → Type 0
IsLeased id token until t = All (λ r. is_leased id token until r ≡ true) t.jobs

module _ (id token : String) (until : ℕ) where
  -- A leased row is not reservable before the lease ends.
  not_reservable :
      (queue : String) (now : ℕ) (r : DatabaseJob)
      → is_leased id token until r ≡ true
      → now < until
      → is_reservable queue now r ≡ true
      → str_eq r.id id ≡ false
  unfolding is_leased
  not_reservable queue now r h lt e = ground arith

  -- An UPDATE that passes over the job's rows.
  pub others-IsLeased :
      (p : DatabaseJob → Bool) (f : DatabaseJob → DatabaseJob) (jobs : List DatabaseJob)
      → ((r : DatabaseJob) → (f r).id ≡ r.id)
      → ((r : DatabaseJob)
          → is_leased id token until r ≡ true
          → p r ≡ true
          → str_eq r.id id ≡ false)
      → All (λ r. is_leased id token until r ≡ true) jobs
      → All (λ r. is_leased id token until r ≡ true) (update_where p f jobs)
  unfolding is_leased
  others-IsLeased p f jobs keeps passes h =
      All-update (λ r. is_leased id token until r ≡ true) p f jobs
        (λ r fits leased. ground (arith, passes r leased fits, keeps r)) h

  leased_rows :
      (end : ℕ) (jobs : List DatabaseJob)
      → until ≤ end
      → All
          (λ r. is_leased id token until r ≡ true)
          (update_where (λ r. str_eq r.id id) (lease token end) jobs)
  unfolding is_leased
  leased_rows end [] h = tt
  leased_rows end (x ∷ xs) h = elim (Bool-cases (str_eq x.id id)) [
    | inl e ↦ rw e (ground (arith, str_eq_refl token), leased_rows end xs h)
    | inr e ↦ rw e (ground arith, leased_rows end xs h)
  ]

  -- The rows of a reservation are leased under its token until its end.
  pub Reserved-IsLeased :
      (locked : String → Bool) (queue : String) (now reservation : ℕ) (t t' : JobTables)
      (job : DatabaseJob)
      → until ≤ now + reservation
      → job.id ≡ id
      → Reserved locked queue now reservation token t t' job
      → IsLeased id token until t'
  Reserved-IsLeased locked queue now reservation t t' job fits same d =
      let key : d.row.id ≡ id = ground (arith, d.leased) in
      subst (IsLeased id token until) (sym d.rows) (
        subst
          (λ k.
            All (λ r. is_leased id token until r ≡ true)
              (update_where (λ r. str_eq r.id k) (lease token (now + reservation)) t.jobs))
          (sym key) (leased_rows (now + reservation) t.jobs fits))

  -- Before the lease ends, another reservation takes another job.
  pub Reserved-other :
      (locked : String → Bool) (queue : String) (now reservation : ℕ) (other : String)
      (t t' : JobTables) (job : DatabaseJob)
      → now < until
      → IsLeased id token until t
      → Reserved locked queue now reservation other t t' job
      → (job.id ≢ id) × IsLeased id token until t'
  Reserved-other locked queue now reservation other t t' job lt h d =
      let fits =
        first_by_order-least (λ r. is_reservable queue now r && not (locked r.id)) t.jobs d.row
          d.chosen in
      let free : is_reservable queue now d.row ≡ true = ground (arith, fits) in
      let apart : str_eq d.row.id id ≡ false =
        not_reservable queue now d.row
          (All-picked (λ r. is_leased id token until r ≡ true)
            (λ r. is_reservable queue now r && not (locked r.id)) t.jobs d.row d.chosen h)
          lt free in
      (
        (λ e. ground (arith, d.leased, str_eq_iff d.row.id id)),
        subst (IsLeased id token until) (sym d.rows) (
            others-IsLeased (λ r. str_eq r.id d.row.id) (lease other (now + reservation)) t.jobs
              (λ r. refl) (λ r leased same. rw ((str_eq_iff r.id d.row.id).0 same) apart) h),
      )
