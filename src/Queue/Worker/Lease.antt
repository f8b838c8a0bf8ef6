-- ===== src/Queue/Worker/Lease.antt =====
-- Leases of the database queue: what a reservation takes, and that no other worker takes or ends a
-- job while its lease runs.
use golang_clean_architectur.Common.{
  any, str_eq_refl, Option, none, ℕ, ◌+◌, ◌≤◌, ◌≡◌, sym, Bool, true, false, not, ◌&&◌, some, none,
  String, List, [], ◌∷◌, arith, str_eq, update_where, All, Bool-cases, Option-cases, inl, inr, ◌⊎◌,
}
use mathlib.Core.Path.{subst}
use golang_clean_architectur.Errors.{ok, Result-cases, Answers, answers}
use golang_clean_architectur.Sql.{Session, later_faults, transaction}
use golang_clean_architectur.Sql.Laws.{transaction-commits, transaction-rolls_back}
use golang_clean_architectur.Sql.Rows.{All-map}
use golang_clean_architectur.Queue.{DatabaseJob, JobTables}
use golang_clean_architectur.Queue.Worker.{
  is_reservable, precedes, first_by_order, lease, reserve_body, reserve_database_job,
}

first_by_order-none :
    (p : DatabaseJob → Bool) (jobs : List DatabaseJob)
    → first_by_order p jobs ≡ none
    → All (λ r. p r ≡ false) jobs
unfolding first_by_order
first_by_order-none p [] e = tt
first_by_order-none p (x ∷ xs) e = elim (Bool-cases (p x)) [
  | inl q ↦ absurd (ground arith)
  | inr q ↦ (q, first_by_order-none p xs (ground arith))
]

-- What the ORDER BY picks fits, and no row that fits is available earlier.
pub first_by_order-least :
    (p : DatabaseJob → Bool) (jobs : List DatabaseJob) (best : DatabaseJob)
    → first_by_order p jobs ≡ some best
    → (p best ≡ true) × All (λ r. p r ≡ true → best.available_at ≤ r.available_at) jobs
unfolding first_by_order precedes
first_by_order-least p [] best e = cc
first_by_order-least p (x ∷ xs) best e = elim (Option-cases (first_by_order p xs)) [
  | inl nothing ↦ (
    ground arith,
    (
      ground arith,
      All-map (λ r. p r ≡ false) (λ r. p r ≡ true → best.available_at ≤ r.available_at) xs
          (λ r no_fit fits. absurd (ground arith)) (first_by_order-none p xs nothing),
    ),
  )
  | inr (y, later) ↦
      let (fits, least) = first_by_order-least p xs y later in
      let below : best.available_at ≤ y.available_at = ground arith in
      (
        ground arith,
        (
          ground arith,
          All-map (λ r. p r ≡ true → y.available_at ≤ r.available_at)
              (λ r. p r ≡ true → best.available_at ≤ r.available_at) xs
              (λ r h q. omega (arith, h q)) least,
        ),
      )
]

-- What holds of every row holds of the one that is picked.
pub All-picked {κ} :
    (P : DatabaseJob → Type κ) (p : DatabaseJob → Bool) (jobs : List DatabaseJob)
    (best : DatabaseJob)
    → first_by_order p jobs ≡ some best
    → All P jobs
    → P best
unfolding first_by_order
All-picked P p [] best e h = cc
All-picked P p (x ∷ xs) best e h = elim (Option-cases (first_by_order p xs)) [
  | inl nothing ↦ subst P (ground arith) h.0
  | inr (y, later) ↦
      let either : (x ≡ best) ⊎ (y ≡ best) = ground arith in
      elim either [
        | inl same ↦ subst P same h.0
        | inr same ↦ subst P same (All-picked P p xs y later h.1)
      ]
]

-- The row that is picked is one of the rows.
pub picked-any :
    (p : DatabaseJob → Bool) (jobs : List DatabaseJob) (best : DatabaseJob)
    → first_by_order p jobs ≡ some best
    → any (λ r. str_eq r.id best.id) jobs ≡ true
unfolding first_by_order
picked-any p [] best e = cc
picked-any p (x ∷ xs) best e = elim (Option-cases (first_by_order p xs)) [
  | inl nothing ↦ ground (arith, str_eq_refl best.id)
  | inr (y, later) ↦
      let either : (x ≡ best) ⊎ (y ≡ best) = ground arith in
      elim either [
        | inl same ↦ ground (arith, str_eq_refl best.id)
        | inr same ↦ ground (arith, picked-any p xs y later)
      ]
]

-- What a reservation did, where it returned a job.
pub record Reserved (locked : String → Bool) (queue : String) (now reservation : ℕ) (token : String)
    (t t' : JobTables) (job : DatabaseJob) : Type 0 where
  pub row : DatabaseJob
  pub chosen :
      first_by_order (λ r. is_reservable queue now r && not (locked r.id)) t.jobs ≡ some row
  pub leased : job ≡ lease token (now + reservation) row
  pub rows : t' ≡ record t {
    jobs = update_where (λ r. str_eq r.id row.id) (lease token (now + reservation)) t.jobs;
  }

-- What a reservation did, for its answer.
abbrev pub Took :
    (String → Bool) → String → ℕ → ℕ → String → JobTables → JobTables → Option DatabaseJob → Type 0
Took locked queue now reservation token t t' none = t' ≡ t
Took locked queue now reservation token t t' (some job) =
    Reserved locked queue now reservation token t t' job

module _ {W : Type 0} (locked : String → Bool) (queue : String) (now reservation : ℕ)
    (token : String) where
  reserve_body-Reserved :
      (s : Session JobTables W) (job : DatabaseJob)
      → (reserve_body locked queue now reservation token s).0 ≡ ok job
      → Reserved locked queue now reservation token s.tables
          (reserve_body locked queue now reservation token s).1.tables
          job
  unfolding reserve_body
  reserve_body-Reserved s job e =
      elim (Option-cases
        (first_by_order (λ r. is_reservable queue now r && not (locked r.id)) s.tables.jobs)) [
          | inl nothing ↦ absurd (ground arith)
          | inr (row, chosen) ↦ record {
            row = row;
            chosen = chosen;
            leased = ground arith;
            rows = ground arith;
          }
        ]

  -- A reservation that returns a job has leased its row and touched no other table; where it returns
  -- no job, or an error, no row changes.
  pub reserve_outcome :
      (s : Session JobTables W)
      → let (r, s') = reserve_database_job locked queue now reservation token s in
        Answers
          (Took locked queue now reservation token s.tables s'.tables)
          (λ e. s'.tables ≡ s.tables)
          r
  unfolding reserve_database_job
  reserve_outcome s =
      let body = reserve_body {W = W} locked queue now reservation token in
      let end = (transaction body s).1.tables in
      elim (Result-cases (transaction body s).0) [
        | inl (job, done) ↦
            let (ran, rows) = transaction-commits body s job done in
            let reserved =
              subst (λ t. Reserved locked queue now reservation token s.tables t job) (sym rows)
                (reserve_body-Reserved (record s { faults = later_faults s.faults }) job ran) in
            answers _
              (λ o e.
                subst (Took locked queue now reservation token s.tables end)
                  (let same : some job ≡ o = ground arith in same) reserved)
              (λ x e. absurd (ground arith))
        | inr (x, broken) ↦
            let same = transaction-rolls_back body s x broken in
            answers _
              (λ o e.
                subst (Took locked queue now reservation token s.tables end)
                  (let idle : none ≡ o = ground arith in idle) same)
              (λ y e. same)
      ]
