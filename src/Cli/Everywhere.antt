-- ===== src/Cli/Everywhere.antt =====
-- `queue retry all` and `queue delete` without `--queue` (cmd/app/queue.go): the queues that the
-- inspector of the database names hold every row.
use golang_clean_architectur.Common.{
  ℕ, ◌≡◌, ap, ◌⊎◌, true, String, List, [], ◌∷◌, ◌++◌, map, arith, str_eq, str_eq_iff, str_eq_refl,
  inl, inr, Bool-cases,
}
use golang_clean_architectur.Errors.{Result, ok, Result-cases}
use golang_clean_architectur.Sql.{Session}
use golang_clean_architectur.Sql.Rows.{All-map}
use golang_clean_architectur.Queue.{DatabaseJob, JobTables, JobInspector}
use golang_clean_architectur.Queue.Worker.{is_in}
use golang_clean_architectur.Queue.Inspector.{queues, sort_names, insert_name, database_inspector}
use golang_clean_architectur.Cli.{
  Line, affected_jobs, Step, with_inspector, operate_each, operate_archived, retry_command,
}
use golang_clean_architectur.Cli.Archived.{
  Within, failed_count, none_left, retrying, operate_each-Drained,
}

is_in-insert :
    (name a : String) (xs : List String)
    → (str_eq name a ≡ true) ⊎ (is_in xs a ≡ true)
    → is_in (insert_name name xs) a ≡ true
unfolding insert_name
is_in-insert name a [] h = ground arith
is_in-insert name a (x ∷ xs) h = elim (Bool-cases (str_eq name x)) [
  | inl e ↦ let same = (str_eq_iff name x).0 e in ground (arith, ap (λ n. str_eq n a) same)
  | inr e ↦ ground (arith, is_in-insert name a xs)
]

is_in-sort : (a : String) (xs : List String) → is_in xs a ≡ true → is_in (sort_names xs) a ≡ true
unfolding sort_names
is_in-sort a [] h = h
is_in-sort a (x ∷ xs) h = elim (Bool-cases (str_eq x a)) [
  | inl e ↦ is_in-insert x a (sort_names xs) (inl e)
  | inr e ↦ is_in-insert x a (sort_names xs) (inr (is_in-sort a xs (ground arith)))
]

is_in-left : (a : String) (xs ys : List String) → is_in xs a ≡ true → is_in (xs ++ ys) a ≡ true
is_in-left a [] ys h = ground arith
is_in-left a (x ∷ xs) ys h = ground (arith, is_in-left a xs ys)

is_in-right : (a : String) (xs ys : List String) → is_in ys a ≡ true → is_in (xs ++ ys) a ≡ true
is_in-right a [] ys h = h
is_in-right a (x ∷ xs) ys h = ground (arith, is_in-right a xs ys)

Within-own : (rows : List DatabaseJob) → Within (map (λ r. r.queue) rows) rows
Within-own [] = tt
Within-own (r ∷ rows) = (
  ground (arith, str_eq_refl r.queue),
  All-map (λ x. is_in (map (λ r. r.queue) rows) x.queue ≡ true)
      (λ x. is_in (r.queue ∷ map (λ r. r.queue) rows) x.queue ≡ true) rows (λ x h. ground arith)
      (Within-own rows),
)

Within-queues :
    (configured counted : List String) (rows : List DatabaseJob)
    → Within (sort_names (configured ++ map (λ r. r.queue) rows ++ counted)) rows
Within-queues configured counted rows =
    let stored = map (λ r. r.queue) rows in
    All-map (λ x. is_in stored x.queue ≡ true)
      (λ x. is_in (sort_names (configured ++ stored ++ counted)) x.queue ≡ true) rows
      (λ x h. is_in-sort x.queue (configured ++ stored ++ counted) (
        is_in-left x.queue (configured ++ stored) counted
          (is_in-right x.queue configured stored h)))
      (Within-own rows)

module _ {W : Type 0} (configured : List String) (clock : String → ℕ) where
  abbrev inspector : JobInspector (Session JobTables W)
  inspector = database_inspector configured clock

  queues-Within :
      (s : Session JobTables W) (names : List String)
      → (queues configured s).0 ≡ ok names
      → Within names s.tables.jobs
        × ((queues configured s).1.tables ≡ s.tables)
        × ((queues configured s).1.world ≡ s.world)
  unfolding queues
  queues-Within s names h =
      let stored = map (λ r. r.queue) s.tables.jobs in
      let counted = map (λ x. x.queue) s.tables.stats in
      let named : names ≡ sort_names (configured ++ stored ++ counted) = ground arith in
      (rw named (Within-queues configured counted s.tables.jobs), ground arith, ground arith)

  module _ (print : Line → W → Result (Unit {0}) × W) where
    -- The output does not touch the tables.
    abbrev pub printing : Line → Step (Session JobTables W) (Unit {0})
    printing line s = let (r, w) = print line s.world in (r, record s { world = w })

    -- `queue retry all` without `--queue`, where it returns nil, has requeued every failed job of
    -- every queue of the database, whatever queues are configured: none is failed afterwards, and
    -- the number that it prints is the number of the jobs that were failed.
    pub retry_all :
        (s : Session JobTables W) (a : Unit {0})
        → (retry_command printing (λ z. (ok inspector, z)) "" "all" s).0 ≡ ok a
        → let s' = (retry_command printing (λ z. (ok inspector, z)) "" "all" s).1 in
          (failed_count s'.tables.jobs ≡ 0)
          × (s'.world ≡ (print (affected_jobs (failed_count s.tables.jobs)) s.world).1)
    unfolding retry_command operate_archived with_inspector str_eq
    retry_all s a h = elim (Result-cases (queues configured s).0) [
      | inr (x, e) ↦ absurd (ground arith)
      | inl (names, e) ↦
          let z = (queues {W = W} configured s).1 in
          let (within, tables, world) = queues-Within s names e in
          elim (Result-cases (operate_each (retrying {W = W} clock) names 0 z).0) [
            | inr (x, e') ↦ absurd (ground arith)
            | inl (n, e') ↦
                let (d, kept) = operate_each-Drained clock names 0 n z e' in
                let z' = (operate_each (retrying {W = W} clock) names 0 z).1 in
                let covered : Within names z.tables.jobs = rw tables within in
                let empty = none_left names z'.tables.jobs (d.within names covered) d.drained in
                let counted : n ≡ failed_count s.tables.jobs = ground (arith, d.counted, empty) in
                ground (arith, empty, counted, kept, world)
          ]
    ]
