-- ===== src/Queue/Worker/Failing.antt =====
-- A worker whose handlers always fail (internal/adapter/queue/database.go): it reserves a job and
-- fails it, and the failures it writes are bounded.
use golang_clean_architectur.Common.{
  ℕ, suc, ◌+◌, ◌≤◌, ◌≡◌, refl, ap, Bool, true, false, not, ◌&&◌, ◌||◌, Option, none, some, String,
  List, [], ◌∷◌, arith, update_where, if◌then◌else◌, Bool-cases, inl, inr,
}
use golang_clean_architectur.Errors.{Error, Result, ok, err, is_ok, on_ok, on_err}
use golang_clean_architectur.Sql.{Session}
use golang_clean_architectur.Queue.{DatabaseJob, JobTables, status_eq, failed, completed}
use golang_clean_architectur.Queue.Worker.{
  is_reservable, lease, is_held, failure, fail_job, reserve_database_job,
}
use golang_clean_architectur.Queue.Worker.Lease.{
  Reserved, Took, reserve_outcome, first_by_order-least, All-picked, picked-any,
}
use golang_clean_architectur.Queue.Worker.Ends.{
  tries_left, IsKeyed, IsKeyed-update, IsKeyed-Only, Only, taken, tries_left-ended,
}

-- A turn of a worker: what it reserves with, the error of the handler, and when it is written.
pub record Try : Type 0 where
  pub locked : String → Bool
  pub queue : String
  pub now : ℕ
  pub reservation : ℕ
  pub token : String
  pub error : Error
  pub text : Error → String
  pub failed_at : ℕ

abbrev Spent : Bool → JobTables → JobTables → Type 0
Spent done t t' =
    IsKeyed t'.jobs × ((if done then 1 else 0) + tries_left t'.jobs ≤ tries_left t.jobs)

reservable_going :
    (queue : String) (now : ℕ) (row : DatabaseJob)
    → is_reservable queue now row ≡ true
    → (status_eq row.status failed || status_eq row.status completed) ≡ false
reservable_going queue now row h = ground arith

failure_id :
    (job : DatabaseJob) (t : Try) (r : DatabaseJob)
    → (failure job t.error t.text t.failed_at r).id ≡ r.id
unfolding failure
failure_id job t r = refl

module _ {W : Type 0} where
  abbrev pub fail_reserved :
      Try → Result (Option DatabaseJob) → Session JobTables W → Bool × Session JobTables W
  fail_reserved t (err e) s = (false, s)
  fail_reserved t (ok none) s = (false, s)
  fail_reserved t (ok (some job)) s =
      let (r, s') = fail_job job t.error t.text t.failed_at s in (is_ok r, s')

  -- Whether a job was reserved and its failure was written.
  unfoldable pub try_once : Try → Session JobTables W → Bool × Session JobTables W
  try_once t s =
      let (r, s') = reserve_database_job t.locked t.queue t.now t.reservation t.token s in
      fail_reserved t r s'

  -- How many failures were written.
  unfoldable pub try_all : List Try → Session JobTables W → ℕ × Session JobTables W
  try_all [] s = (0, s)
  try_all (t ∷ tries) s =
      let (done, s') = try_once t s in
      let (n, s'') = try_all tries s' in ((if done then suc n else n), s'')

  fail_job-rows :
      (job : DatabaseJob) (e : Error) (text : Error → String) (now : ℕ) (s : Session JobTables W)
      → let (r, s') = fail_job job e text now s in
        s'.tables.jobs ≡ (
          if is_ok r
          then update_where (is_held job) (failure job e text now) s.tables.jobs
          else s.tables.jobs)
  unfolding fail_job
  fail_job-rows job e text now s = ground arith

  Reserved-Spent :
      (t : Try) (old : JobTables) (z : Session JobTables W) (job : DatabaseJob)
      → Reserved t.locked t.queue t.now t.reservation t.token old z.tables job
      → IsKeyed old.jobs
      → let (done, s') = fail_reserved t (ok (some job)) z in Spent done old s'.tables
  Reserved-Spent t old z job r k =
      let until = t.now + t.reservation in
      let fits = λ (x : DatabaseJob). is_reservable t.queue t.now x && not (t.locked x.id) in
      let (picked, least) = first_by_order-least fits old.jobs r.row r.chosen in
      let only =
        All-picked (Only old.jobs) fits old.jobs r.row r.chosen (IsKeyed-Only old.jobs k) in
      let has = picked-any fits old.jobs r.row r.chosen in
      let (late, early) =
        tries_left-ended t.token until t.failed_at t.error t.text r.row old.jobs k only has
          (reservable_going t.queue t.now r.row (ground arith)) in
      let rows : z.tables.jobs ≡ taken t.token until t.failed_at t.error t.text r.row old.jobs =
        ap (λ x. x.jobs) r.rows in
      let keyed : IsKeyed z.tables.jobs =
        rw rows (IsKeyed-update _ (lease t.token until) old.jobs (λ x. refl) k) in
      let keyed' : IsKeyed
          (update_where (is_held job) (failure job t.error t.text t.failed_at) z.tables.jobs) =
        IsKeyed-update _ (failure job t.error t.text t.failed_at) z.tables.jobs (failure_id job t)
          keyed in
      let written = fail_job-rows job t.error t.text t.failed_at z in
      elim (Bool-cases (is_ok (fail_job job t.error t.text t.failed_at z).0)) [
        | inl fine ↦
            let rows' : (fail_job job t.error t.text t.failed_at z).1.tables.jobs
                ≡ update_where (is_held job) (failure job t.error t.text t.failed_at)
                    z.tables.jobs =
              rw fine at written in
            let bound : suc (
                  tries_left (
                    update_where (is_held job) (failure job t.error t.text t.failed_at)
                      z.tables.jobs))
                ≤ tries_left old.jobs =
              rw (rows, r.leased) late in
            (rw rows' keyed', rw (fine, rows') (omega (arith, bound)))
        | inr broken ↦
            let rows' : (fail_job job t.error t.text t.failed_at z).1.tables.jobs ≡ z.tables.jobs =
              rw broken at written in
            (rw rows' keyed, rw (broken, rows', rows) (omega (arith, early)))
      ]

  fail_reserved-Spent :
      (t : Try) (old : JobTables) (r : Result (Option DatabaseJob)) (z : Session JobTables W)
      → ((o : Option DatabaseJob)
          → r ≡ ok o
          → Took t.locked t.queue t.now t.reservation t.token old z.tables o)
      → ((e : Error) → r ≡ err e → z.tables ≡ old)
      → IsKeyed old.jobs
      → let (done, s') = fail_reserved t r z in Spent done old s'.tables
  fail_reserved-Spent t old (err e) z took same k = rw (same e refl) (k, omega arith)
  fail_reserved-Spent t old (ok none) z took same k = rw (took none refl) (k, omega arith)
  fail_reserved-Spent t old (ok (some job)) z took same k =
      Reserved-Spent t old z job (took (some job) refl) k

  try_once-Spent :
      (t : Try) (s : Session JobTables W)
      → IsKeyed s.tables.jobs
      → let (done, s') = try_once t s in Spent done s.tables s'.tables
  unfolding try_once
  try_once-Spent t s k =
      let outcome = reserve_outcome t.locked t.queue t.now t.reservation t.token s in
      fail_reserved-Spent t s.tables _ _ (on_ok outcome) (on_err outcome) k

  -- Where no two jobs have one identifier, the failures that are written are bounded: in any sequence of
  -- reservations, each followed by the failure of what it reserved, at any times, in any queues and with
  -- any statements failing, the number of failures written and the tries that are left after it
  -- together are at most the tries that were left before: one more than the retries for each job that
  -- has not failed or completed. A reservation whose failure was not written does not count.
  pub failures_end :
      (tries : List Try) (s : Session JobTables W)
      → IsKeyed s.tables.jobs
      → let (n, s') = try_all tries s in n + tries_left s'.tables.jobs ≤ tries_left s.tables.jobs
  unfolding try_all
  failures_end [] s k = omega arith
  failures_end (t ∷ tries) s k =
      let (keyed, spent) = try_once-Spent t s k in
      let rest = failures_end tries (try_once t s).1 keyed in ground (arith, rest, spent)
