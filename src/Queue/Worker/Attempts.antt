-- ===== src/Queue/Worker/Attempts.antt =====
-- Leases that were lost, and how often a job is tried: `complete`, `fail`, `heartbeat` and the
-- schedule of retries.
use golang_clean_architectur.Common.{
  ℕ, zero, suc, ◌+◌, ◌-◌, ◌*◌, ◌^◌, min, ◌≤◌, ◌≡◌, refl, some, String, arith, ltb, count_where, inl,
  inr, Bool-cases,
}
use golang_clean_architectur.Errors.{Error}
use golang_clean_architectur.Sql.{Session}
use golang_clean_architectur.Sql.Rows.{update-none, delete-none, any-of_count}
use golang_clean_architectur.Queue.{DatabaseJob, JobTables, second, hour, retry_delay}
use golang_clean_architectur.Queue.Worker.{
  is_held, complete, complete_body, complete_rows, fail_job, failure, heartbeat, finished,
}

module _ {W : Type 0} where
  -- A worker whose lease was taken over or ended changes nothing: where no row is active under the
  -- job's token, completing the job, failing it and renewing its lease leave every table as it was.
  pub lost_lease_writes_nothing :
      (job : DatabaseJob) (s : Session JobTables W)
      → count_where (is_held job) s.tables.jobs ≡ 0
      → ((now : ℕ) → (complete job now s).1.tables ≡ s.tables)
        × ((e : Error) (text : Error → String) (now : ℕ)
            → (fail_job job e text now s).1.tables ≡ s.tables)
        × ((reservation now : ℕ) → (heartbeat job reservation now s).1.tables ≡ s.tables)
  unfolding complete complete_body complete_rows fail_job heartbeat
  lost_lease_writes_nothing job s h =
      let nobody = any-of_count (is_held job) s.tables.jobs h in
      (
        λ now. ground (
          arith,
          delete-none (is_held job) s.tables.jobs nobody,
          update-none (is_held job) (finished now job.retention_secs) s.tables.jobs nobody,
        ),
        λ e text now.
            ground (arith, update-none (is_held job) (failure job e text now) s.tables.jobs nobody),
        λ reservation now. ground (
          arith,
          update-none (is_held job) (λ r. record r { leased_until = some (now + reservation) })
              s.tables.jobs nobody,
        ),
      )

two_pow_pos : (k : ℕ) → 1 ≤ 2 ^ k
two_pow_pos zero = omega arith
two_pow_pos (suc k) = omega (arith, two_pow_pos k)

-- The schedule of retries doubles from a second up to an hour: it starts at a second, never shrinks,
-- and is the doubled delay before it or an hour.
pub retry_delay_doubles :
    (attempt : ℕ)
    → (retry_delay 0 ≡ second)
      × (retry_delay 1 ≡ second)
      × (second ≤ retry_delay attempt)
      × (retry_delay attempt ≤ hour)
      × (retry_delay (attempt + 2) ≡ min (2 * retry_delay (attempt + 1)) hour)
unfolding retry_delay
retry_delay_doubles attempt = (
  refl,
  refl,
  omega (arith, two_pow_pos (min (attempt - 1) 12)),
  omega arith,
  elim (Bool-cases (ltb attempt 12)) [
    | inl e ↦
        let low : min (attempt + 2 - 1) 12 ≡ suc attempt = ground arith in
        let here : min (attempt + 1 - 1) 12 ≡ attempt = ground arith in rw (low, here) (omega arith)
    | inr e ↦
        let low : min (attempt + 2 - 1) 12 ≡ 12 = ground arith in
        let here : min (attempt + 1 - 1) 12 ≡ 12 = ground arith in rw (low, here) refl
  ],
)
