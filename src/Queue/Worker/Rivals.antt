-- ===== src/Queue/Worker/Rivals.antt =====
-- The calls of other workers, in any order, leave a leased job to its holder
-- (internal/adapter/queue/database.go).
use golang_clean_architectur.Common.{
  ◌⊎◌, ◌&&◌, not, ℕ, ◌+◌, ◌<◌, ◌≡◌, ◌≢◌, refl, sym, ◌∙◌, Bool, true, false, some, String, List, [],
  ◌∷◌, arith, map, any, select_where, delete_where, take, str_eq, update_where, All, inl, inr, ap,
}
use mathlib.Core.Path.{subst}
use golang_clean_architectur.Errors.{
  ok, Error, Result-cases, err, Result, Answers, returned, answers, on_ok, on_err,
}
use golang_clean_architectur.Sql.{Session}
use golang_clean_architectur.Sql.Laws.{transaction-Keeps, execute-Keeps}
use golang_clean_architectur.Queue.{DatabaseJob, JobTables}
use golang_clean_architectur.Queue.Worker.{
  reserve_database_job, is_held, holds_token, complete, complete_body, complete_rows, fail_job,
  failure, heartbeat, cleanup, cleanup_jobs, sweep_past, expired_ids, remove_completed, is_in,
  is_expired, lease, is_reservable,
}
use golang_clean_architectur.Queue.Worker.Lease.{reserve_outcome, picked-any}
use golang_clean_architectur.Queue.Worker.Exclusion.{Reserved-other, Reserved-IsLeased}
use golang_clean_architectur.Queue.Worker.Holds.{
  Holds, foreign, any-update_same, update-Holds, complete_rows-Holds, cleaned-Holds, reserved-Holds,
}

-- What another worker may do in the meantime.
pub data Rival : Type 0 where
  reserves : (String → Bool) → String → ℕ → ℕ → String → Rival
  completes : DatabaseJob → ℕ → Rival
  fails : DatabaseJob → Error → (Error → String) → ℕ → Rival
  beats : DatabaseJob → ℕ → ℕ → Rival
  cleans : ℕ → Rival

unfoldable pub act : {W : Type 0} → Rival → Session JobTables W → Session JobTables W
act (reserves locked queue now reservation token) s =
    (reserve_database_job locked queue now reservation token s).1
act (completes job now) s = (complete job now s).1
act (fails job e text now) s = (fail_job job e text now s).1
act (beats job reservation now) s = (heartbeat job reservation now s).1
act (cleans now) s = (cleanup now s).1

unfoldable pub act_all : {W : Type 0} → List Rival → Session JobTables W → Session JobTables W
act_all [] s = s
act_all (c ∷ cs) s = act_all cs (act c s)

-- It reserves before the lease ends, and works on jobs that it holds under tokens of its own.
abbrev pub IsRival : String → ℕ → Rival → Type 0
IsRival token until (reserves locked queue now reservation other) = now < until
IsRival token until (completes job now) = holds_token job.lease_token (some token) ≡ false
IsRival token until (fails job e text now) = holds_token job.lease_token (some token) ≡ false
IsRival token until (beats job reservation now) = holds_token job.lease_token (some token) ≡ false
IsRival token until (cleans now) = Unit

module _ {W : Type 0} (id token : String) (until : ℕ) where
  complete_body-jobs :
      (job : DatabaseJob) (now : ℕ) (s : Session JobTables W) (a : Unit {0})
      → (complete_body job now s).0 ≡ ok a
      → (complete_body job now s).1.tables.jobs ≡ complete_rows job now s.tables.jobs
  unfolding complete_body
  complete_body-jobs job now s a e = ground arith

  cleanup_jobs-jobs :
      (ids : List String) (s : Session JobTables W)
      → ((cleanup_jobs ids s).1.tables.jobs ≡ s.tables.jobs)
        ⊎ ((cleanup_jobs ids s).1.tables.jobs ≡ delete_where (λ r. is_in ids r.id) s.tables.jobs)
  unfolding cleanup_jobs
  cleanup_jobs-jobs ids s = ground arith

  remove_completed-jobs :
      (ids : List String) (r : Result (List String)) (s : Session JobTables W)
      → Answers (λ found. found ≡ ids) (λ e. Unit {0}) r
      → ((remove_completed r s).1.tables.jobs ≡ s.tables.jobs)
        ⊎ ((remove_completed r s).1.tables.jobs ≡ delete_where (λ x. is_in ids x.id) s.tables.jobs)
  unfolding remove_completed
  remove_completed-jobs ids (err e) s h = inl refl
  remove_completed-jobs ids (ok []) s h = inl refl
  remove_completed-jobs ids (ok (id' ∷ rest)) s (returned same) =
      subst
        (λ k.
          ((cleanup_jobs (id' ∷ rest) s).1.tables.jobs ≡ s.tables.jobs)
          ⊎ ((cleanup_jobs (id' ∷ rest) s).1.tables.jobs
              ≡ delete_where (λ x. is_in k x.id) s.tables.jobs))
        same (cleanup_jobs-jobs (id' ∷ rest) s)

  sweep_past-jobs :
      (now : ℕ) (s : Session JobTables W) → (sweep_past now s).1.tables.jobs ≡ s.tables.jobs
  unfolding sweep_past
  sweep_past-jobs now s = ground arith

  expired_ids-rows :
      (now : ℕ) (s : Session JobTables W)
      → Answers
          (λ found.
            found ≡ map (λ r. r.id) (take 100 (select_where (is_expired now) s.tables.jobs)))
          (λ e. Unit {0})
          (expired_ids now s).0
        × ((expired_ids now s).1.tables ≡ s.tables)
  unfolding expired_ids
  expired_ids-rows now s = (answers _ (λ found e. ground arith) (λ e h. tt), ground arith)

  cleanup-jobs :
      (now : ℕ) (s : Session JobTables W)
      → let ids = map (λ r. r.id) (take 100 (select_where (is_expired now) s.tables.jobs)) in
        ((cleanup now s).1.tables.jobs ≡ s.tables.jobs)
        ⊎ ((cleanup now s).1.tables.jobs ≡ delete_where (λ r. is_in ids r.id) s.tables.jobs)
  unfolding cleanup
  cleanup-jobs now s =
      let a = (sweep_past {W = W} now s).1 in
      let b = expired_ids {W = W} now a in
      let (found, same) = expired_ids-rows now a in
      let ids = λ (jobs : List DatabaseJob).
        map (λ r. r.id) (take 100 (select_where (is_expired now) jobs)) in
      let final = (cleanup now s).1.tables.jobs in
      subst
        (λ jobs. (final ≡ jobs) ⊎ (final ≡ delete_where (λ r. is_in (ids s.tables.jobs) r.id) jobs))
        (ap (λ (t : JobTables). t.jobs) same ∙ sweep_past-jobs now s)
        (subst
          (λ jobs.
            (final ≡ b.1.tables.jobs)
            ⊎ (final ≡ delete_where (λ r. is_in (ids jobs) r.id) b.1.tables.jobs))
          (sweep_past-jobs now s) (remove_completed-jobs (ids a.tables.jobs) b.0 b.1 found))

  cleanup-Holds :
      (now : ℕ) (s : Session JobTables W)
      → Holds id token until s.tables.jobs
      → Holds id token until (cleanup now s).1.tables.jobs
  cleanup-Holds now s h = elim (cleanup-jobs now s) [
    | inl same ↦ subst (Holds id token until) (sym same) h
    | inr less ↦
        subst (Holds id token until) (sym less) (cleaned-Holds id token until now s.tables.jobs h)
  ]

  reserve-Holds :
      (locked : String → Bool) (queue : String) (now reservation : ℕ) (other : String)
      (s : Session JobTables W)
      → now < until
      → Holds id token until s.tables.jobs
      → Holds id token until
          (reserve_database_job locked queue now reservation other s).1.tables.jobs
  reserve-Holds locked queue now reservation other s lt h =
      let outcome = reserve_outcome locked queue now reservation other s in
      elim (Result-cases (reserve_database_job locked queue now reservation other s).0) [
        | inr (e, r) ↦ subst (λ x. Holds id token until x.jobs) (sym (on_err outcome e r)) h
        | inl (o, r) ↦
            reserved-Holds id token until locked queue now reservation other s.tables _ o lt
              (on_ok outcome o r) h
      ]

  -- One call of another worker.
  act-Holds :
      (c : Rival) (s : Session JobTables W)
      → IsRival token until c
      → Holds id token until s.tables.jobs
      → Holds id token until (act c s).tables.jobs
  unfolding act complete fail_job heartbeat failure
  act-Holds (reserves locked queue now reservation other) s lt h =
      reserve-Holds locked queue now reservation other s lt h
  act-Holds (completes job now) s own h =
      transaction-Keeps (λ t. Holds id token until t.jobs) (complete_body job now)
        (λ z a k e.
          subst (Holds id token until) (sym (complete_body-jobs job now z a e))
            (complete_rows-Holds id token until job now z.tables.jobs own k))
        s h
  act-Holds (fails job e text now) s own h =
      execute-Keeps (λ t. Holds id token until t.jobs) (λ t. tt {0})
        (λ t. record t { jobs = update_where (is_held job) (failure job e text now) t.jobs }) s h
        (update-Holds id token until (is_held job) (failure job e text now) s.tables.jobs
          (λ r. refl) (λ r leased held. foreign id token until job r own leased held) h)
  act-Holds (beats job reservation now) s own h =
      let beat = λ (r : DatabaseJob). record r { leased_until = some (now + reservation) } in
      execute-Keeps (λ t. Holds id token until t.jobs) (λ t. tt {0})
        (λ t. record t { jobs = update_where (is_held job) beat t.jobs }) s h
        (update-Holds id token until (is_held job) beat s.tables.jobs (λ r. refl)
          (λ r leased held. foreign id token until job r own leased held) h)
  act-Holds (cleans now) s own h = cleanup-Holds now s h

  act_all-Holds :
      (cs : List Rival) (s : Session JobTables W)
      → All (IsRival token until) cs
      → Holds id token until s.tables.jobs
      → Holds id token until (act_all cs s).tables.jobs
  unfolding act_all
  act_all-Holds [] s own h = h
  act_all-Holds (c ∷ cs) s own h = act_all-Holds cs (act c s) own.1 (act-Holds c s own.0 h)

module _ {W : Type 0} (locked : String → Bool) (queue : String) (now reservation : ℕ)
    (token : String) (s : Session JobTables W) (job : DatabaseJob)
    (taken : (reserve_database_job locked queue now reservation token s).0 ≡ ok (some job))
    (rivals : List Rival) (own : All (IsRival token (now + reservation)) rivals) where
  -- A reserved job stays its worker's until the lease ends: after any calls of other workers, with any
  -- faults, its row is there and active under the worker's token. The others reserve before that end,
  -- and complete, fail and renew jobs that they hold under tokens of their own.
  pub lease_survives :
      Holds job.id token
        (now + reservation)
        (act_all rivals (reserve_database_job locked queue now reservation token s).1).tables.jobs
  lease_survives =
      let until = now + reservation in
      let first = reserve_database_job locked queue now reservation token s in
      let d = on_ok (reserve_outcome locked queue now reservation token s) (some job) taken in
      let key : job.id ≡ d.row.id = ground (arith, d.leased) in
      act_all-Holds job.id token until rivals first.1 own (record {
        leased =
            Reserved-IsLeased job.id token until locked queue now reservation s.tables
              first.1.tables job (omega arith) refl d;
        present =
            subst (λ x. any (λ r. str_eq r.id job.id) x.jobs ≡ true) (sym d.rows)
              (any-update_same job.id (λ r. str_eq r.id d.row.id) (lease token until) s.tables.jobs
                  (λ r. refl)
                ∙ rw key (
                    picked-any (λ r. is_reservable queue now r && not (locked r.id)) s.tables.jobs
                      d.row d.chosen));
      })

  -- No reservation before the lease ends returns a job that another worker has reserved, after any
  -- calls of other workers and with any faults. The others reserve before that end, and complete, fail
  -- and renew jobs that they hold under tokens of their own.
  pub reserve_excludes :
      (locked' : String → Bool) (queue' : String) (later reservation' : ℕ) (other : String)
      (job' : DatabaseJob)
      → later < now + reservation
      → (reserve_database_job locked' queue' later reservation' other
          (act_all rivals (reserve_database_job locked queue now reservation token s).1)).0
        ≡ ok (some job')
      → job'.id ≢ job.id
  reserve_excludes locked' queue' later reservation' other job' lt again =
      let z = act_all rivals (reserve_database_job locked queue now reservation token s).1 in
      let theirs =
        on_ok (reserve_outcome locked' queue' later reservation' other z) (some job') again in
      (Reserved-other job.id token (now + reservation) locked' queue' later reservation' other _ _
        job' lt lease_survives.leased theirs).0
