-- ===== src/Jobs/Runner.antt =====
-- backend/reversing_lab/jobs/runner.py: the worker that `submit_job` starts, one repository call (one
-- session) to a step, and `cancel_job`. A step list is a schedule of the worker thread and of the
-- requests that cancel. A schedule is about one job; other rows of the table belong to other jobs.
use reversing_lab.Prelude.{
  ℕ, String, Bool, true, false, Option, none, some, List, [], ◌∷◌, if◌then◌else◌,
}
use reversing_lab.Prelude.Int.{ℤ, pos}
use reversing_lab.Jobs.Record.{Job, running, completed, failed, cancelled, Changes, no_changes}
use reversing_lab.Jobs.Repository.{Table, get, update, request_cancel, local_scope}

-- What a task does with its `JobContext`, and how it ends: `ask` is a call of `cancelled()`, with
-- what the task does after each answer.
pub data Task : Type 0 where
  ret : Option String → Task
  raise : String → Task
  update_progress : ℤ → String → Task → Task
  check_cancelled : Task → Task
  ask : Task → Task → Task

-- Where the function `run` of `submit_job` stands.
pub data Worker : Type 0 where
  -- in the executor's queue
  submitted : Worker
  -- before the first `check_cancelled`
  begun : Worker
  -- before the update to "running"
  starting : Worker
  working : Task → Worker
  -- within `JobContext.update`, after its test
  updating : ℤ → String → Task → Worker
  -- before the last `check_cancelled`
  returned : Option String → Worker
  -- before the update to "completed"
  completing : Option String → Worker
  -- in `except JobCancelled`
  cancelling : Worker
  -- in `except Exception`
  failing : String → Worker
  done : Worker

-- The text that a `BinaryNotFoundError` of the repository leaves behind, its identifier left out.
abbrev pub not_found : String
not_found = "BinaryNotFoundError: No analysis job with id"

abbrev pub to_running : Changes
to_running = record no_changes {
  state = some running;
  progress = some (pos 1);
  message = some "Analysis started";
}

abbrev pub to_completed : Option String → Changes
to_completed result_ref = record {
  state = some completed;
  progress = some (pos 100);
  message = some "Analysis complete";
  error = none;
  result_ref = result_ref;
}

abbrev pub to_cancelled : Changes
to_cancelled = record no_changes {
  state = some cancelled;
  message = some "Cancellation acknowledged";
}

abbrev pub to_failed : String → Changes
to_failed error = record no_changes {
  state = some failed;
  message = some "Analysis failed";
  error = some error;
}

abbrev pub to_progress : ℤ → String → Changes
to_progress progress message = record no_changes {
  progress = some progress;
  message = some message;
}

-- `cancelled()` and what follows it: an error of the repository ends in `except Exception`.
abbrev pub after_test : Option Job → Worker → Worker → Worker
after_test none stop go = failing not_found
after_test (some job) stop go = if job.cancel_requested then stop else go

-- A commit, or the error of the repository.
abbrev pub after_update : Table → Option Table → Worker → Worker → Table × Worker
after_update jobs none error next = (jobs, error)
after_update jobs (some jobs') error next = (jobs', next)

module _ (job_id : String) (task : Task) where
  abbrev test : Table → Worker → Worker → Table × Worker
  test jobs stop go = (jobs, after_test (get local_scope job_id jobs) stop go)

  abbrev save : ℕ → Changes → Table → Worker → Worker → Table × Worker
  save now c jobs error next = after_update jobs (update local_scope now job_id c jobs) error next

  -- One step of the worker thread. An error in a handler leaves `run`.
  unfoldable pub worker_step : ℕ → Table → Worker → Table × Worker
  worker_step now jobs submitted = (jobs, begun)
  worker_step now jobs begun = test jobs cancelling starting
  worker_step now jobs starting = save now to_running jobs (failing not_found) (working task)
  worker_step now jobs (working (ret result_ref)) = (jobs, returned result_ref)
  worker_step now jobs (working (raise error)) = (jobs, failing error)
  worker_step now jobs (working (update_progress p m rest)) =
      test jobs cancelling (updating p m rest)
  worker_step now jobs (working (check_cancelled rest)) = test jobs cancelling (working rest)
  worker_step now jobs (working (ask yes_rest no_rest)) =
      test jobs (working yes_rest) (working no_rest)
  worker_step now jobs (updating p m rest) =
      save now (to_progress p m) jobs (failing not_found) (working rest)
  worker_step now jobs (returned result_ref) = test jobs cancelling (completing result_ref)
  worker_step now jobs (completing result_ref) =
      save now (to_completed result_ref) jobs (failing not_found) done
  worker_step now jobs cancelling = save now to_cancelled jobs done done
  worker_step now jobs (failing error) = save now (to_failed error) jobs done done
  worker_step now jobs done = (jobs, done)

-- The database, the worker thread, and whether a call of `cancel_job` that found the row "cancelled"
-- is about to call `future.cancel()`.
pub record System : Type 0 where
  pub jobs : Table
  pub worker : Worker
  pub cancelling_future : Bool

pub data Event : Type 0 where
  -- a step of the worker thread
  work : ℕ → Event
  -- `request_cancel` within `cancel_job`
  cancel : ℕ → Event
  -- `future.cancel()` within `cancel_job`
  cancel_future : Event

-- `record.state == "cancelled"`
abbrev pub is_cancelled : Option Job → Bool
is_cancelled none = false
is_cancelled (some job) = elim job.state [ cancelled ↦ true | _ ↦ false ]

-- A future that runs, or has run, is not cancelled.
abbrev pub cancel_worker : Worker → Worker
cancel_worker submitted = done
cancel_worker w = w

module _ (job_id : String) (task : Task) where
  abbrev after_cancel : System → Option Table → System
  after_cancel sys none = sys
  after_cancel sys (some jobs') = record sys {
    jobs = jobs';
    cancelling_future = is_cancelled (get local_scope job_id jobs');
  }

  unfoldable pub step : Event → System → System
  unfolding worker_step
  step (work now) sys =
      let (jobs', w) = worker_step job_id task now sys.jobs sys.worker in
      record sys { jobs = jobs'; worker = w }
  step (cancel now) sys = after_cancel sys (request_cancel local_scope now job_id sys.jobs)
  step cancel_future sys =
      if sys.cancelling_future
      then (record sys { worker = cancel_worker sys.worker; cancelling_future = false })
      else sys

  unfoldable pub run : List Event → System → System
  run [] sys = sys
  run (e ∷ events) sys = run events (step e sys)

-- The row that `create` added, and its task in the executor's queue (`submit_job`).
abbrev pub submit_job : Table → System
submit_job jobs = record { jobs = jobs; worker = submitted; cancelling_future = false }
