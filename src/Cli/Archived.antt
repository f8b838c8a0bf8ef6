-- ===== src/Cli/Archived.antt =====
-- What `queue retry all` does to the database queue (cmd/app/queue.go over
-- internal/adapter/queue/database.go).
use golang_clean_architectur.Common.{
  ℕ, ◌+◌, ◌≡◌, ◌≢◌, refl, sym, ap, ◌∙◌, Bool, true, String, List, [], ◌∷◌, arith, str_eq,
  str_eq_iff, str_eq_refl, count_where, update_where, All, inl, inr, Bool-cases,
}
use mathlib.Core.Path.{subst}
use golang_clean_architectur.Errors.{ok, Result-cases}
use golang_clean_architectur.Sql.{Session}
use golang_clean_architectur.Sql.Rows.{All-map}
use golang_clean_architectur.Queue.{DatabaseJob, JobTables, failed, status_eq}
use golang_clean_architectur.Queue.Worker.{is_in}
use golang_clean_architectur.Queue.Inspector.{is_chosen, requeued, retry_jobs}
use golang_clean_architectur.Cli.{Step, operate_each}

abbrev pub is_failed : DatabaseJob → Bool
is_failed r = status_eq r.status failed

-- The failed jobs of a queue, and of all.
abbrev pub failed_in : String → List DatabaseJob → ℕ
failed_in queue rows = count_where (is_chosen queue "all") rows

abbrev pub failed_count : List DatabaseJob → ℕ
failed_count rows = count_where is_failed rows

-- Every row stands in one of the queues.
abbrev pub Within : List String → List DatabaseJob → Type 0
Within names rows = All (λ r. is_in names r.queue ≡ true) rows

module _ (queue : String) (now : ℕ) where
  abbrev after : List DatabaseJob → List DatabaseJob
  after rows = update_where (is_chosen queue "all") (requeued now) rows

  failed_count-after :
      (rows : List DatabaseJob)
      → failed_in queue rows + failed_count (after rows) ≡ failed_count rows
  failed_count-after [] = refl
  failed_count-after (r ∷ rows) = ground (arith, failed_count-after rows)

  failed_in-after : (rows : List DatabaseJob) → failed_in queue (after rows) ≡ 0
  failed_in-after [] = refl
  failed_in-after (r ∷ rows) = ground (arith, failed_in-after rows)

  failed_in-after_zero :
      (other : String) (rows : List DatabaseJob)
      → failed_in other rows ≡ 0
      → failed_in other (after rows) ≡ 0
  failed_in-after_zero other [] h = refl
  failed_in-after_zero other (r ∷ rows) h = ground (arith, failed_in-after_zero other rows)

  Within-after :
      (names : List String) (rows : List DatabaseJob)
      → Within names rows
      → Within names (after rows)
  Within-after names [] h = tt
  Within-after names (r ∷ rows) h = (ground (arith, h.0), Within-after names rows h.1)

-- A row that is failed is failed in its queue.
failed_in-pos :
    (r : DatabaseJob) (rows : List DatabaseJob)
    → is_failed r ≡ true
    → failed_in r.queue (r ∷ rows) ≢ 0
unfolding str_eq
failed_in-pos r rows h e = ground (arith, str_eq_refl r.queue)

named-zero :
    (names : List String) (queue : String) (rows : List DatabaseJob)
    → is_in names queue ≡ true
    → All (λ name. failed_in name rows ≡ 0) names
    → failed_in queue rows ≡ 0
named-zero [] queue rows h zero = ground arith
named-zero (name ∷ names) queue rows h zero = elim (Bool-cases (str_eq name queue)) [
  | inl e ↦ subst (λ q. failed_in q rows ≡ 0) ((str_eq_iff name queue).0 e) zero.0
  | inr e ↦ named-zero names queue rows (ground arith) zero.1
]

pub none_left :
    (names : List String) (rows : List DatabaseJob)
    → Within names rows
    → All (λ name. failed_in name rows ≡ 0) names
    → failed_count rows ≡ 0
none_left names [] within zero = refl
none_left names (r ∷ rows) within zero =
    let here = named-zero names r.queue (r ∷ rows) within.0 zero in
    let later : All (λ name. failed_in name rows ≡ 0) names =
      All-map (λ name. failed_in name (r ∷ rows) ≡ 0) (λ name. failed_in name rows ≡ 0) names
        (λ name h. ground arith) zero in
    elim (Bool-cases (is_failed r)) [
      | inl e ↦ absurd (failed_in-pos r rows e here)
      | inr e ↦ ground (arith, none_left names rows within.1 later)
    ]

-- What the loop over the queues leaves, for the sum it answers.
pub record Drained (names : List String) (total n : ℕ) (rows rows' : List DatabaseJob)
    : Type 0 where
  pub counted : n + failed_count rows' ≡ total + failed_count rows
  pub drained : All (λ name. failed_in name rows' ≡ 0) names
  pub still : (other : String) → failed_in other rows ≡ 0 → failed_in other rows' ≡ 0
  pub within : (all : List String) → Within all rows → Within all rows'

Drained-cons :
    (name : String) (now : ℕ) (names : List String) (total n : ℕ) (rows rows' : List DatabaseJob)
    → Drained names (total + failed_in name rows) n (after name now rows) rows'
    → Drained (name ∷ names) total n rows rows'
Drained-cons name now names total n rows rows' d = record {
  counted = omega (arith, d.counted, failed_count-after name now rows);
  drained = (d.still name (failed_in-after name now rows), d.drained);
  still = λ other z. d.still other (failed_in-after_zero name now other rows z);
  within = λ all w. d.within all (Within-after name now all rows w);
}

module _ {W : Type 0} (clock : String → ℕ) where
  retry-after :
      (queue : String) (s : Session JobTables W) (n : ℕ)
      → (retry_jobs queue "all" (clock queue) s).0 ≡ ok n
      → let s' = (retry_jobs queue "all" (clock queue) s).1 in
        (n ≡ failed_in queue s.tables.jobs)
        × (s'.tables.jobs ≡ after queue (clock queue) s.tables.jobs)
        × (s'.world ≡ s.world)
  unfolding retry_jobs
  retry-after queue s n h = ground arith

  abbrev pub retrying : String → Step (Session JobTables W) ℕ
  retrying name s = retry_jobs name "all" (clock name) s

  pub operate_each-Drained :
      (names : List String) (total n : ℕ) (s : Session JobTables W)
      → (operate_each retrying names total s).0 ≡ ok n
      → Drained names total n s.tables.jobs (operate_each retrying names total s).1.tables.jobs
        × ((operate_each retrying names total s).1.world ≡ s.world)
  unfolding operate_each
  operate_each-Drained [] total n s h = (
    record { counted = ground arith; drained = tt; still = λ other z. z; within = λ all w. w },
    refl,
  )
  operate_each-Drained (name ∷ names) total n s h = elim (Result-cases (retrying name s).0) [
    | inr (x, e) ↦ absurd (ground arith)
    | inl (count, e) ↦
        let z = (retrying name s).1 in
        let (is_count, rows, world) = retry-after name s count e in
        let (rest, kept) = operate_each-Drained names (total + count) n z (ground arith) in
        let same : (operate_each retrying (name ∷ names) total s).1
            ≡ (operate_each retrying names (total + count) z).1 =
          ground arith in
        let step : Drained names (total + failed_in name s.tables.jobs) n
            (after name (clock name) s.tables.jobs)
            (operate_each retrying names (total + count) z).1.tables.jobs =
          rw (sym is_count, sym rows) rest in
        (
          rw same (Drained-cons name (clock name) names total n s.tables.jobs _ step),
          ap (λ x. x.world) same ∙ kept ∙ world,
        )
  ]
