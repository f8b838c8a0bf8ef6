-- ===== src/Scheduler/Once.antt =====
-- A schedule is dispatched once in a minute, by however many runs (internal/scheduler/scheduler.go).
use Prim.Native.String.{◌++◌ as str_append}
use Prim.Native.String.append
use golang_clean_architectur.Common.{
  ℕ, ◌≡◌, ◌≢◌, sym, ◌∙◌, ap, true, false, String, List, [], ◌∷◌, All, inl, inr,
}
use mathlib.Core.Path.{subst}
use golang_clean_architectur.Errors.{is_ok, Result-cases}
use golang_clean_architectur.Sql.{Session}
use golang_clean_architectur.Sql.Rows.{All-map}
use golang_clean_architectur.Queue.{JobTables}
use golang_clean_architectur.Queue.Dispatch.{dispatch}
use golang_clean_architectur.Queue.Dispatch.Tasks.{
  IsTaken, task_key, dispatch-takes, dispatch-IsTaken, dispatch-refuses,
}
use golang_clean_architectur.Scheduler.{
  Calendar, Scheduled, Registry, Readings, minute_of, task_id, run_options, due, dispatch_each,
  outcomes, run,
}

-- A run of some process.
pub record Tick : Type 0 where
  pub registry : Registry
  pub at : ℕ
  pub readings : Scheduled → Readings

module _ (calendar : Calendar) (sha256 : String → String) where
  pub task_id-named : (name : String) (at : ℕ) → task_id calendar name at ≢ ""
  unfolding task_id
  task_id-named name at e =
      let text = str_append name (str_append ":" (calendar.format at)) in
      let chars = sym (append.cons "s" "chedule:" text) ∙ e in cc

  module _ {W : Type 0} where
    unfoldable pub run_all : List Tick → Session JobTables W → Session JobTables W
    run_all [] s = s
    run_all (t ∷ ts) s = run_all ts (run calendar sha256 t.registry t.at t.readings s).1

    dispatch_each-IsTaken :
        (key : String) (at : ℕ) (readings : Scheduled → Readings) (ds : List Scheduled)
        (s : Session JobTables W)
        → IsTaken key s.tables
        → IsTaken key (dispatch_each calendar sha256 at readings ds s).1.tables
    unfolding dispatch_each
    dispatch_each-IsTaken key at readings [] s h = h
    dispatch_each-IsTaken key at readings (d ∷ ds) s h =
        let read = readings d in
        dispatch_each-IsTaken key at readings ds
          (dispatch sha256 d.job (run_options calendar d at) read.uuid read.available read.created
            read.locks read.sweep s).1
          (dispatch-IsTaken sha256 d.job (run_options calendar d at) read.uuid read.available
            read.created read.locks read.sweep s key h)

    run_all-IsTaken :
        (key : String) (ts : List Tick) (s : Session JobTables W)
        → IsTaken key s.tables
        → IsTaken key (run_all ts s).tables
    unfolding run_all run
    run_all-IsTaken key [] s h = h
    run_all-IsTaken key (t ∷ ts) s h = run_all-IsTaken key ts _ (
        dispatch_each-IsTaken key (minute_of t.at) t.readings (due t.registry (minute_of t.at)) s h)

    -- Whatever was dispatched has taken its task identifier.
    dispatch_each-takes :
        (at : ℕ) (readings : Scheduled → Readings) (ds : List Scheduled) (s : Session JobTables W)
        → All
            (λ p.
              is_ok p.1 ≡ true
              → IsTaken
                  (task_key sha256 (task_id calendar p.0.name at))
                  (dispatch_each calendar sha256 at readings ds s).1.tables)
            (dispatch_each calendar sha256 at readings ds s).0
    unfolding dispatch_each
    dispatch_each-takes at readings [] s = tt
    dispatch_each-takes at readings (d ∷ ds) s =
        let read = readings d in
        let first =
          dispatch sha256 d.job (run_options calendar d at) read.uuid read.available read.created
            read.locks read.sweep s in
        (
          λ done. dispatch_each-IsTaken _ at readings ds first.1 (elim (Result-cases first.0) [
            | inr (x, broken) ↦ absurd (let e : is_ok first.0 ≡ false = ap is_ok broken in cc)
            | inl (info, fine) ↦
                dispatch-takes sha256 d.job (run_options calendar d at) read.uuid read.available
                  read.created read.locks read.sweep s info (task_id-named d.name at) fine
          ]),
          dispatch_each-takes at readings ds first.1,
        )

    -- Whatever is taken is not dispatched.
    dispatch_each-refuses :
        (name : String) (at : ℕ) (readings : Scheduled → Readings) (ds : List Scheduled)
        (s : Session JobTables W)
        → IsTaken (task_key sha256 (task_id calendar name at)) s.tables
        → All
            (λ p. p.0.name ≡ name → is_ok p.1 ≡ false)
            (dispatch_each calendar sha256 at readings ds s).0
    unfolding dispatch_each
    dispatch_each-refuses name at readings [] s h = tt
    dispatch_each-refuses name at readings (d ∷ ds) s h =
        let read = readings d in
        let key = task_key sha256 (task_id calendar name at) in
        let first =
          dispatch sha256 d.job (run_options calendar d at) read.uuid read.available read.created
            read.locks read.sweep s in
        (
          λ same. elim (Result-cases first.0) [
            | inr (x, broken) ↦ ap is_ok broken
            | inl (info, fine) ↦ absurd (
                (dispatch-refuses sha256 d.job (run_options calendar d at) read.uuid read.available
                    read.created read.locks read.sweep s (task_id-named d.name at)
                    (subst (λ n. IsTaken (task_key sha256 (task_id calendar n at)) s.tables)
                      (sym same) h)).0
                  info fine)
          ],
          dispatch_each-refuses name at readings ds first.1 (
              dispatch-IsTaken sha256 d.job (run_options calendar d at) read.uuid read.available
                read.created read.locks read.sweep s key h),
        )

    -- A schedule is dispatched once in a minute: of what one run dispatched, no later run in the same
    -- minute dispatches a schedule of the same name, whatever its registry, its readings of the clock
    -- and its faults, and whatever other runs, in any minutes, come between. Only runs come between: no
    -- job is completed or deleted.
    pub run_once :
        (first second : Tick) (between : List Tick) (s z : Session JobTables W)
        → minute_of first.at ≡ minute_of second.at
        → z.tables
          ≡ (run_all between
              (run calendar sha256 first.registry first.at first.readings s).1).tables
        → All
            (λ p.
              is_ok p.1 ≡ true
              → All
                  (λ p'. p'.0.name ≡ p.0.name → is_ok p'.1 ≡ false)
                  (outcomes calendar sha256 second.registry second.at second.readings z).0)
            (outcomes calendar sha256 first.registry first.at first.readings s).0
    unfolding run
    run_once first second between s z same rows =
        All-map _ _ (outcomes calendar sha256 first.registry first.at first.readings s).0
          (λ p taken done.
            let key = task_key sha256 (task_id calendar p.0.name (minute_of first.at)) in
            let still : IsTaken key z.tables =
              subst (IsTaken key) (sym rows) (run_all-IsTaken key between _ (taken done)) in
            dispatch_each-refuses p.0.name (minute_of second.at) second.readings
              (due second.registry (minute_of second.at)) z
              (subst (λ m. IsTaken (task_key sha256 (task_id calendar p.0.name m)) z.tables) same
                still))
          (dispatch_each-takes (minute_of first.at) first.readings
            (due first.registry (minute_of first.at)) s)
