-- ===== src/Scheduler.antt =====
-- internal/scheduler/scheduler.go: `Registry` and `Runner`, over the dispatcher of the database queue.
-- Time zones, the parser of cron expressions and `time.Format` are fields of `Calendar`. A time is a
-- number of nanoseconds from an epoch that starts a minute.
pub mod Registration
pub mod Once
use Prim.Native.String.{◌++◌ as str_append, compare as compare_text}
use text.Mathlib.Text.{is_le}
use golang_clean_architectur.Common.{
  ℕ, ◌-◌, ◌*◌, ◌/◌, Bool, true, false, not, ◌||◌, Option, none, some, String, List, [], ◌∷◌, ◌==◌,
  str_eq, if◌then◌else◌, any, select_where,
}
use golang_clean_architectur.Common.Int.{ℤ, pos, at_most}
use golang_clean_architectur.Errors.{Error, Result, ok, err, message, wrap, is, duplicate_job}
use golang_clean_architectur.Sql.{Session}
use golang_clean_architectur.Queue.{Job, DispatchOptions, JobInfo, JobTables, minute}
use golang_clean_architectur.Queue.Dispatch.{dispatch, Readings}

pub record Calendar : Type 0 where
  -- `time.LoadLocation`: the name of the location.
  pub load_location : String → Result String
  -- `Parser.Parse` for an expression and a location: `Schedule.Next`.
  pub parse : String → String → Result (ℕ → ℕ)
  -- `Format("20060102T1504")`
  pub format : ℕ → String

-- `Definition`, as it is handed to `Register`: its job is none for a nil factory.
pub record Definition : Type 0 where
  pub name : String
  pub cron : String
  pub timezone : String
  pub job : Option Job
  pub dispatch_options : DispatchOptions

-- `Definition` in the registry: with its location, its parsed schedule, and the job that it makes.
pub record Scheduled : Type 0 where
  pub name : String
  pub cron : String
  pub timezone : String
  pub job : Job
  pub dispatch_options : DispatchOptions
  pub schedule : ℕ → ℕ

pub record Registry : Type 0 where
  pub default_location : String
  pub definitions : List Scheduled

-- `sort.Slice` by name, for a new last element.
unfoldable pub insert_by_name : Scheduled → List Scheduled → List Scheduled
insert_by_name d [] = d ∷ []
insert_by_name d (x ∷ xs) =
    let later = x ∷ insert_by_name d xs in
    if is_le (compare_text d.name x.name) then d ∷ x ∷ xs else later

abbrev pub minute_of : ℕ → ℕ
minute_of at = at / minute * minute

module _ (calendar : Calendar) where
  abbrev pub location_of : String → String → Result String
  location_of default_location timezone =
      if str_eq timezone "" then ok default_location else calendar.load_location timezone

  -- After the checks on what was given.
  abbrev pub add : Registry → Definition → Job → Result Registry
  add registry d job = elim (location_of registry.default_location d.timezone) [
    | err e ↦ err (wrap "load timezone for schedule" e)
    | ok location ↦ elim (calendar.parse d.cron location) [
      | err e ↦ err (wrap "parse schedule" e)
      | ok schedule ↦ ok (record registry {
        definitions =
            insert_by_name
              (record {
                name = d.name;
                cron = d.cron;
                timezone = location;
                job = job;
                dispatch_options = d.dispatch_options;
                schedule = schedule;
              })
              registry.definitions;
      })
    ]
  ]

  -- `Register`
  unfoldable pub register : Registry → Definition → Result Registry
  register registry d = elim d.job [
    | none ↦ err (message "schedule name, cron, and job are required")
    | some job ↦
        if str_eq d.name "" || str_eq d.cron ""
        then err (message "schedule name, cron, and job are required")
        else if any (λ x. str_eq x.name d.name) registry.definitions
        then err (message "schedule already registered")
        else add registry d job
  ]

  -- `TaskID`
  unfoldable pub task_id : String → ℕ → String
  task_id name at = str_append "schedule:" (str_append name (str_append ":" (calendar.format at)))

  -- The options of a run.
  abbrev pub run_options : Scheduled → ℕ → DispatchOptions
  run_options d at = record d.dispatch_options {
    task_id = task_id d.name at;
    retention =
        if at_most (pos (2 * minute)) d.dispatch_options.retention
        then d.dispatch_options.retention
        else pos (2 * minute);
  }

-- `Due`
unfoldable pub due : Registry → ℕ → List Scheduled
due registry at =
    select_where (λ d. d.schedule (minute_of at - minute) == minute_of at) registry.definitions

module _ (calendar : Calendar) (sha256 : String → String) {W : Type 0} where
  -- The loop of `Run`: what each dispatch returned.
  unfoldable pub dispatch_each :
      ℕ
      → (Scheduled → Readings)
      → List Scheduled
      → Session JobTables W
      → List (Scheduled × Result JobInfo) × Session JobTables W
  dispatch_each at readings [] s = ([], s)
  dispatch_each at readings (d ∷ ds) s =
      let read = readings d in
      let (answer, s') =
        dispatch sha256 d.job (run_options calendar d at) read.uuid read.available read.created
          read.locks read.sweep s in
      let (rest, s'') = dispatch_each at readings ds s' in ((d, answer) ∷ rest, s'')

  -- What is due, and what became of it.
  abbrev pub outcomes :
      Registry
      → ℕ
      → (Scheduled → Readings)
      → Session JobTables W
      → List (Scheduled × Result JobInfo) × Session JobTables W
  outcomes registry at readings =
      dispatch_each (minute_of at) readings (due registry (minute_of at))

-- The errors that `Run` joins.
unfoldable pub dispatch_errors : List (Scheduled × Result JobInfo) → List Error
dispatch_errors [] = []
dispatch_errors ((d, ok info) ∷ rest) = dispatch_errors rest
dispatch_errors ((d, err e) ∷ rest) =
    let later = dispatch_errors rest in
    if is e duplicate_job then later else wrap "dispatch schedule" e ∷ later

-- `Run`: nil for no error.
unfoldable pub run :
    Calendar
    → (String → String)
    → {W : Type 0} → Registry
    → ℕ
    → (Scheduled → Readings)
    → Session JobTables W
    → List Error × Session JobTables W
run calendar sha256 registry at readings s =
    let (answers, s') = outcomes calendar sha256 registry at readings s in
    (dispatch_errors answers, s')
