-- ===== src/Cli.antt =====
-- cmd/app/queue.go: the commands that inspect and operate the queues, over any inspector. A line of
-- output is a value; `print` is `fmt.Fprint` to the command's output.
pub mod Archived
pub mod Everywhere
use golang_clean_architectur.Common.{
  ℕ, ◌+◌, Bool, true, false, not, ◌&&◌, Option, none, some, String, List, [], ◌∷◌, str_eq,
  if◌then◌else◌,
}
use golang_clean_architectur.Common.Int.{ℤ, pos}
use golang_clean_architectur.Errors.{Error, Result, ok, err, message}
use golang_clean_architectur.Queue.{
  JobInfo, DispatchOptions, Dispatcher, JobInspector, QueueStats, FailedJob,
}
use golang_clean_architectur.Mail.Jobs.{Payloads, demo_log}

pub data Line : Type 0 where
  status_header failed_header : Line
  status_row : String → QueueStats → Line
  failed_row : FailedJob → Line
  affected_jobs : ℕ → Line
  dispatched : JobInfo → Line

-- A step of a command, on the state of the queue and the output.
abbrev pub Step : Type 0 → Type 0 → Type 0
Step S A = S → Result A × S

module _ {S : Type 0} where
  abbrev pub done : {A : Type 0} → A → Step S A
  done a s = (ok a, s)

  infixl 5 ◌>>=◌ ◌>>◌
  abbrev pub ◌>>=◌ : {A B : Type 0} → Step S A → (A → Step S B) → Step S B
  ◌>>=◌ m f s = let (r, s') = m s in elim r [ ok a ↦ f a s' | err e ↦ (err e, s') ]

  abbrev pub ◌>>◌ : {A B : Type 0} → Step S A → Step S B → Step S B
  m >> k = m >>= λ x. k

  -- The factory, the body, and the deferred `Close`, whose error is dropped.
  unfoldable pub with_inspector :
      {A : Type 0} → Step S (JobInspector S) → (JobInspector S → Step S A) → Step S A
  with_inspector factory body s =
      let (r, s') = factory s in
      elim r [
        | err e ↦ (err e, s')
        | ok inspector ↦ let (answer, s'') = body inspector s' in (answer, (inspector.close s'').1)
      ]

  module _ (print : Line → Step S (Unit {0})) where
    unfoldable pub status_rows : JobInspector S → List String → Step S (Unit {0})
    status_rows inspector [] = done tt
    status_rows inspector (name ∷ names) = do
      info ← inspector.stats name
      print (status_row name info)
      status_rows inspector names

    -- `queue status`
    unfoldable pub status_command : Step S (JobInspector S) → Step S (Unit {0})
    status_command factory =
        with_inspector factory
          λ inspector. do names ← inspector.queues; print status_header; status_rows inspector names

    failed_rows : List FailedJob → Step S (Unit {0})
    failed_rows [] = done tt
    failed_rows (task ∷ tasks) = do print (failed_row task); failed_rows tasks

    unfoldable pub failed_of_queues : JobInspector S → List String → Step S (Unit {0})
    unfolding failed_rows
    failed_of_queues inspector [] = done tt
    failed_of_queues inspector (name ∷ names) = do
      tasks ← inspector.failed_jobs name 100
      failed_rows tasks
      failed_of_queues inspector names

    -- `queue failed`
    unfoldable pub failed_command : Step S (JobInspector S) → Step S (Unit {0})
    failed_command factory = with_inspector factory λ inspector. do
      names ← inspector.queues
      print failed_header
      failed_of_queues inspector names

  -- The loop of `operateArchivedCommand`.
  unfoldable pub operate_each : (String → Step S ℕ) → List String → ℕ → Step S ℕ
  operate_each operation [] total = done total
  operate_each operation (name ∷ names) total =
      operation name >>= λ count. operate_each operation names (total + count)

  -- The queues that an operation walks.
  abbrev pub chosen_queues : JobInspector S → String → String → Step S (List String)
  chosen_queues inspector queue_name id =
      if str_eq id "all" && str_eq queue_name "" then inspector.queues else done (queue_name ∷ [])

  module _ (print : Line → Step S (Unit {0})) where
    -- `operateArchivedCommand`
    unfoldable pub operate_archived :
        Step S (JobInspector S)
        → (JobInspector S → String → String → Step S ℕ)
        → String
        → String
        → Step S (Unit {0})
    operate_archived factory operation queue_name id = with_inspector factory λ inspector.
        if not (str_eq id "all") && str_eq queue_name ""
        then (λ s. (err (message "--queue is required when operating on one job"), s))
        else (do
          names ← chosen_queues inspector queue_name id
          total ← operate_each (λ name. operation inspector name id) names 0
          print (affected_jobs total))

    -- `queue retry` and `queue delete`, with the flag `--queue`
    unfoldable pub retry_command : Step S (JobInspector S) → String → String → Step S (Unit {0})
    retry_command factory = operate_archived factory (λ inspector. inspector.retry_jobs)

    unfoldable pub delete_command : Step S (JobInspector S) → String → String → Step S (Unit {0})
    delete_command factory = operate_archived factory (λ inspector. inspector.delete_jobs)

    -- `queue dispatch-demo`, with the flag `--message`, from the dispatcher on.
    unfoldable pub dispatch_demo : Payloads → Dispatcher S → String → Step S (Unit {0})
    dispatch_demo payloads dispatcher text = do
      info ← dispatcher.dispatch (demo_log payloads (record { message = text })) (record {
        queue = "default";
        process_at = none;
        max_retry = pos 3;
        timeout = pos 0;
        unique_for = pos 0;
        retention = pos 0;
        task_id = "";
      })
      print (dispatched info)
