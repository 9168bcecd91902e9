-- ===== src/Jobs/Tests.antt =====
-- Runs of the model, and each theorem at an input.

use reversing_lab.Prelude.{
  ℕ, String, Option, ◌≡◌, ◌≢◌, refl, true, false, none, some, List, [], ◌∷◌, arith, All,
}
use reversing_lab.Prelude.Int.{pos}
use reversing_lab.Jobs.Record.{
  JobState, Job, queued, running, completed, cancelled, is_terminal, apply_changes,
}
use reversing_lab.Jobs.Repository.{Table, local_scope, get, create, change, update}
use reversing_lab.Jobs.Runner.{
  Task, ret, update_progress, starting, done, System, submit_job, Event, work, cancel, step, run,
}
use reversing_lab.Jobs.Bounds.{IsBounded, run-IsBounded}
use reversing_lab.Jobs.Cancel.{final, cancel_wins, cancelled_resumes}
use reversing_lab.Jobs.Liveness.{submitted_ends}

abbrev job : Job
job = record {
  id = "j1";
  owner_id = "local";
  kind = "cfg";
  target_id = "t1";
  state = queued;
  progress = 0;
  message = "Queued";
  error = none;
  result_ref = none;
  cancel_requested = false;
  started_at = none;
  finished_at = none;
}

abbrev jobs : Table
jobs = job ∷ []

created : create local_scope "j1" "cfg" "t1" [] ≡ jobs
unfolding create
created = refl

found : get local_scope "j1" jobs ≡ some job
unfolding get
found = refl

abbrev task : Task
task = update_progress (pos 250) "half way" (ret (some "ref"))

abbrev undisturbed : List Event
undisturbed = work 1 ∷ work 2 ∷ work 3 ∷ work 4 ∷ work 5 ∷ work 6 ∷ work 7 ∷ work 8 ∷ work 9 ∷ []

abbrev summary : Option Job → Option (JobState × ℕ × Option String)
summary none = none
summary (some x) = some (x.state, x.progress, x.result_ref)

completes :
    summary (final "j1" task undisturbed (submit_job jobs)) ≡ some (completed, 100, some "ref")
unfolding run get change update step apply_changes
completes = refl

submitted_ends_example :
    (x : Job) × (final "j1" task undisturbed (submit_job jobs) ≡ some x)
    × (is_terminal x.state ≡ true)
    × ((run "j1" task undisturbed (submit_job jobs)).worker ≡ done)
submitted_ends_example = submitted_ends "j1" task undisturbed jobs job found (omega arith)

run-IsBounded_example : All IsBounded (run "j1" task undisturbed (submit_job jobs)).jobs
run-IsBounded_example = run-IsBounded "j1" task undisturbed (submit_job jobs) (omega arith)

-- A running job whose cancellation is on record.
abbrev asked : Job
asked = record job { state = running; cancel_requested = true }

cancel_wins_example :
    (x : Job) × (final "j1" task undisturbed (submit_job (asked ∷ [])) ≡ some x)
    × (x.cancel_requested ≡ true)
    × (x.state ≢ completed)
unfolding get
cancel_wins_example =
    cancel_wins "j1" task undisturbed (submit_job (asked ∷ [])) asked refl refl (λ e. cc) refl

abbrev at_start : System
at_start = record { jobs = jobs; worker = starting; cancelling_future = false }

cancelled_resumes_example :
    (x : Job) × (y : Job) × (final "j1" task (cancel 3 ∷ []) at_start ≡ some x)
    × (x.state ≡ cancelled)
    × (final "j1" task (cancel 3 ∷ work 4 ∷ []) at_start ≡ some y)
    × (y.state ≡ running)
    × (y.finished_at ≡ some 3)
cancelled_resumes_example = cancelled_resumes "j1" task 3 4 jobs job false found refl
