-- ===== src/Queue/Worker/Holds.antt =====
-- A leased job's row: it is there, and an UPDATE, DELETE, completion or clean-up by anyone else leaves
-- it as it is (internal/adapter/queue/database.go).
use golang_clean_architectur.Common.{
  ℕ, zero, suc, ◌+◌, ◌<◌, ◌≡◌, refl, sym, ◌∙◌, Bool, true, false, some, none, String, List, [], ◌∷◌,
  arith, map, any, select_where, delete_where, take, str_eq, str_eq_iff, update_where, All, inl,
  inr, Option-cases, Bool-cases, ◌==◌, Option,
}
use mathlib.Core.Path.{subst}
use golang_clean_architectur.Sql.Rows.{All-delete, All-map}
use golang_clean_architectur.Queue.{DatabaseJob, JobTables}
use golang_clean_architectur.Queue.Worker.{
  is_held, holds_token, complete_rows, finished, is_in, is_expired, lease,
}
use golang_clean_architectur.Queue.Worker.Lease.{Took}
use golang_clean_architectur.Queue.Worker.Exclusion.{is_leased, Reserved-other, others-IsLeased}

-- The job's row is there, and leased under that token until that time.
pub record Holds (id token : String) (until : ℕ) (jobs : List DatabaseJob) : Type 0 where
  pub leased : All (λ r. is_leased id token until r ≡ true) jobs
  pub present : any (λ r. str_eq r.id id) jobs ≡ true

-- A rival's job is no row of a leased job.
pub foreign :
    (id token : String) (until : ℕ) (job r : DatabaseJob)
    → holds_token job.lease_token (some token) ≡ false
    → is_leased id token until r ≡ true
    → is_held job r ≡ true
    → str_eq r.id id ≡ false
unfolding is_leased
foreign id token until job r own leased held = elim (Option-cases r.lease_token) [
  | inl nothing ↦ ground arith
  | inr (theirs, e) ↦ elim (Option-cases job.lease_token) [
    | inl nothing ↦ ground arith
    | inr (mine, e') ↦ ground (arith, str_eq_iff theirs token)
  ]
]

pub any-update_same :
    (id : String) (p : DatabaseJob → Bool) (f : DatabaseJob → DatabaseJob) (jobs : List DatabaseJob)
    → ((r : DatabaseJob) → (f r).id ≡ r.id)
    → any (λ r. str_eq r.id id) (update_where p f jobs) ≡ any (λ r. str_eq r.id id) jobs
any-update_same id p f [] keeps = refl
any-update_same id p f (x ∷ xs) keeps = ground (arith, keeps x, any-update_same id p f xs keeps)

any-delete_others :
    (id : String) (p : DatabaseJob → Bool) (jobs : List DatabaseJob)
    → All (λ r. p r ≡ true → str_eq r.id id ≡ false) jobs
    → any (λ r. str_eq r.id id) (delete_where p jobs) ≡ any (λ r. str_eq r.id id) jobs
any-delete_others id p [] h = refl
any-delete_others id p (x ∷ xs) h = elim (Bool-cases (p x)) [
  | inl e ↦ rw (e, h.0 e) (any-delete_others id p xs h.1)
  | inr e ↦ rw e (ground (arith, any-delete_others id p xs h.1))
]

module _ (id token : String) (until : ℕ) where
  pub update-Holds :
      (p : DatabaseJob → Bool) (f : DatabaseJob → DatabaseJob) (jobs : List DatabaseJob)
      → ((r : DatabaseJob) → (f r).id ≡ r.id)
      → ((r : DatabaseJob)
          → is_leased id token until r ≡ true
          → p r ≡ true
          → str_eq r.id id ≡ false)
      → Holds id token until jobs
      → Holds id token until (update_where p f jobs)
  update-Holds p f jobs keeps passes h = record {
    leased = others-IsLeased id token until p f jobs keeps passes h.leased;
    present = any-update_same id p f jobs keeps ∙ h.present;
  }

  delete-Holds :
      (p : DatabaseJob → Bool) (jobs : List DatabaseJob)
      → ((r : DatabaseJob)
          → is_leased id token until r ≡ true
          → p r ≡ true
          → str_eq r.id id ≡ false)
      → Holds id token until jobs
      → Holds id token until (delete_where p jobs)
  delete-Holds p jobs passes h = record {
    leased = All-delete _ p jobs h.leased;
    present =
        any-delete_others id p jobs (
          All-map (λ r. is_leased id token until r ≡ true)
            (λ r. p r ≡ true → str_eq r.id id ≡ false) jobs passes h.leased)
        ∙ h.present;
  }

  pub complete_rows-Holds :
      (job : DatabaseJob) (now : ℕ) (jobs : List DatabaseJob)
      → holds_token job.lease_token (some token) ≡ false
      → Holds id token until jobs
      → Holds id token until (complete_rows job now jobs)
  unfolding complete_rows
  complete_rows-Holds job now jobs own h = elim (Bool-cases (job.retention_secs == 0)) [
    | inl e ↦ rw e (
        delete-Holds (is_held job) jobs
          (λ r leased held. foreign id token until job r own leased held) h)
    | inr e ↦ rw e (
        update-Holds (is_held job) (finished now job.retention_secs) jobs (λ r. refl)
          (λ r leased held. foreign id token until job r own leased held) h)
  ]

  -- The rows that a clean-up picks are completed, so none is the leased job's.
  expired-others :
      (now : ℕ) (jobs : List DatabaseJob)
      → All (λ r. is_leased id token until r ≡ true) jobs
      → All (λ r. str_eq r.id id ≡ false) (select_where (is_expired now) jobs)
  unfolding is_leased
  expired-others now [] h = tt
  expired-others now (x ∷ xs) h = elim (Bool-cases (is_expired now x)) [
    | inl e ↦ rw e (ground arith, expired-others now xs h.1)
    | inr e ↦ rw e (expired-others now xs h.1)
  ]

  not-in :
      (n : ℕ) (rows : List DatabaseJob)
      → All (λ r. str_eq r.id id ≡ false) rows
      → is_in (map (λ r. r.id) (take n rows)) id ≡ false
  not-in zero rows h = refl
  not-in (suc n) [] h = refl
  not-in (suc n) (x ∷ rows) h = ground (arith, h.0, not-in n rows h.1)

  pub cleaned-Holds :
      (now : ℕ) (jobs : List DatabaseJob)
      → Holds id token until jobs
      → let ids = map (λ r. r.id) (take 100 (select_where (is_expired now) jobs)) in
        Holds id token until (delete_where (λ r. is_in ids r.id) jobs)
  cleaned-Holds now jobs h =
      let ids = map (λ r. r.id) (take 100 (select_where (is_expired now) jobs)) in
      let free : is_in ids id ≡ false =
        not-in 100 (select_where (is_expired now) jobs) (expired-others now jobs h.leased) in
      delete-Holds (λ r. is_in ids r.id) jobs
        (λ r leased chosen. elim (Bool-cases (str_eq r.id id)) [
          | inl same ↦ absurd (ground (arith, free, chosen, (str_eq_iff r.id id).0 same))
          | inr other ↦ other
        ])
        h

  pub reserved-Holds :
      (locked : String → Bool) (queue : String) (now reservation : ℕ) (other : String)
      (t t' : JobTables) (o : Option DatabaseJob)
      → now < until
      → Took locked queue now reservation other t t' o
      → Holds id token until t.jobs
      → Holds id token until t'.jobs
  reserved-Holds locked queue now reservation other t t' none lt same h =
      subst (λ x. Holds id token until x.jobs) (sym same) h
  reserved-Holds locked queue now reservation other t t' (some job) lt d h = record {
    leased =
        (Reserved-other id token until locked queue now reservation other t t' job lt h.leased d).1;
    present =
        subst (λ x. any (λ r. str_eq r.id id) x.jobs ≡ true) (sym d.rows)
          (any-update_same id (λ r. str_eq r.id d.row.id) (lease other (now + reservation)) t.jobs
              (λ r. refl)
            ∙ h.present);
  }
