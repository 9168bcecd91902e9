-- ===== src/Jobs/Bounds.antt =====
-- The columns that `JobRepository.update` bounds stay within their bounds.
use reversing_lab.Prelude.{
  ℕ, ◌≤◌, String, Option, none, some, List, [], ◌∷◌, arith, All, Bool-cases, Option-cases, inl, inr,
}
use reversing_lab.Prelude.Int.{ℤ, pos, negsuc}
use reversing_lab.Prelude.Text.{text_length, text_length-text_take-le}
use reversing_lab.Jobs.Record.{
  Job, JobState, queued, running, Changes, clamp_progress, set_state, set_progress, set_message,
  set_error, set_result_ref, cancel_by_state, apply_changes, apply_cancel,
}
use reversing_lab.Jobs.Repository.{
  Table, Scope, local_scope, is_hit, change, update, request_cancel, or_unchanged,
}
use reversing_lab.Jobs.Runner.{
  Task, Worker, submitted, begun, starting, working, updating, returned, completing, cancelling,
  failing, done, ret, raise, update_progress, check_cancelled, ask, worker_step, System, Event,
  work, cancel, cancel_future, step, run, after_update,
}

abbrev pub error_length : Option String → ℕ
error_length none = 0
error_length (some e) = text_length e

pub record IsBounded (job : Job) : Type 0 where
  pub progress : job.progress ≤ 100
  pub message : text_length job.message ≤ 512
  pub error : error_length job.error ≤ 16384

clamp_progress-le : (p : ℤ) → clamp_progress p ≤ 100
clamp_progress-le (pos n) = omega arith
clamp_progress-le (negsuc n) = omega arith

module _ (job : Job) (b : IsBounded job) where
  set_state-IsBounded : (now : ℕ) (o : Option JobState) → IsBounded (set_state now o job)
  unfolding set_state
  set_state-IsBounded now none = b
  set_state-IsBounded now (some s) = record {
    progress = b.progress;
    message = b.message;
    error = b.error;
  }

  set_progress-IsBounded : (o : Option ℤ) → IsBounded (set_progress o job)
  unfolding set_progress
  set_progress-IsBounded none = b
  set_progress-IsBounded (some p) = record {
    progress = clamp_progress-le p;
    message = b.message;
    error = b.error;
  }

  set_message-IsBounded : (o : Option String) → IsBounded (set_message o job)
  unfolding set_message
  set_message-IsBounded none = b
  set_message-IsBounded (some m) = record {
    progress = b.progress;
    message = text_length-text_take-le 512 m;
    error = b.error;
  }

  set_error-IsBounded : (o : Option String) → IsBounded (set_error o job)
  unfolding set_error
  set_error-IsBounded none = b
  set_error-IsBounded (some e) = record {
    progress = b.progress;
    message = b.message;
    error = text_length-text_take-le 16384 e;
  }

  set_result_ref-IsBounded : (o : Option String) → IsBounded (set_result_ref o job)
  unfolding set_result_ref
  set_result_ref-IsBounded none = b
  set_result_ref-IsBounded (some r) = record {
    progress = b.progress;
    message = b.message;
    error = b.error;
  }

  cancel_by_state-IsBounded : (now : ℕ) (s : JobState) → IsBounded (cancel_by_state now s job)
  unfolding cancel_by_state
  cancel_by_state-IsBounded now queued = record {
    progress = b.progress;
    message = omega arith;
    error = b.error;
  }
  cancel_by_state-IsBounded now running = record {
    progress = b.progress;
    message = b.message;
    error = b.error;
  }
  cancel_by_state-IsBounded now _ = b

-- Whatever the arguments, an update keeps the bounds.
pub apply_changes-IsBounded :
    (now : ℕ) (c : Changes) (job : Job) → IsBounded job → IsBounded (apply_changes now c job)
unfolding apply_changes
apply_changes-IsBounded now c job b =
    let b1 = set_state-IsBounded job b now c.state in
    let b2 = set_progress-IsBounded _ b1 c.progress in
    let b3 = set_message-IsBounded _ b2 c.message in
    let b4 = set_error-IsBounded _ b3 c.error in set_result_ref-IsBounded _ b4 c.result_ref

pub apply_cancel-IsBounded :
    (now : ℕ) (job : Job) → IsBounded job → IsBounded (apply_cancel now job)
unfolding apply_cancel
apply_cancel-IsBounded now job b = cancel_by_state-IsBounded job b now job.state

module _ (scope : Scope) (job_id : String) (f : Job → Job) where
  change-IsBounded :
      ((job : Job) → IsBounded job → IsBounded (f job))
      → (jobs : Table) → All IsBounded jobs
      → All IsBounded (or_unchanged jobs (change scope job_id f jobs))
  unfolding change
  change-IsBounded keeps [] all = all
  change-IsBounded keeps (job ∷ jobs) all =
      let rest = change-IsBounded keeps jobs all.1 in
      elim (Bool-cases (is_hit scope job_id job)) [
        | inl hit ↦ rw hit (keeps job all.0, all.1)
        | inr miss ↦ elim (Option-cases (change scope job_id f jobs)) [
          | inl gone ↦ rw (miss, gone) all
          | inr changed ↦ rw (miss, changed.1) (all.0, (rw changed.1 at rest))
        ]
      ]

module _ (job_id : String) (task : Task) where
  save-IsBounded :
      (now : ℕ) (c : Changes) (jobs : Table) (error next : Worker)
      → All IsBounded jobs
      → All IsBounded (after_update jobs (update local_scope now job_id c jobs) error next).0
  unfolding update
  save-IsBounded now c jobs error next all =
      let after =
        change-IsBounded local_scope job_id (apply_changes now c) (apply_changes-IsBounded now c)
          jobs all in
      elim (Option-cases (change local_scope job_id (apply_changes now c) jobs)) [
        | inl gone ↦ rw gone all
        | inr changed ↦ rw changed.1 (rw changed.1 at after)
      ]

  worker_step-IsBounded :
      (now : ℕ) (jobs : Table) (w : Worker)
      → All IsBounded jobs
      → All IsBounded (worker_step job_id task now jobs w).0
  unfolding worker_step
  worker_step-IsBounded now jobs submitted all = all
  worker_step-IsBounded now jobs begun all = all
  worker_step-IsBounded now jobs starting all = save-IsBounded now _ jobs _ _ all
  worker_step-IsBounded now jobs (working (ret _)) all = all
  worker_step-IsBounded now jobs (working (raise _)) all = all
  worker_step-IsBounded now jobs (working (update_progress _ _ _)) all = all
  worker_step-IsBounded now jobs (working (check_cancelled _)) all = all
  worker_step-IsBounded now jobs (working (ask _ _)) all = all
  worker_step-IsBounded now jobs (updating _ _ _) all = save-IsBounded now _ jobs _ _ all
  worker_step-IsBounded now jobs (returned _) all = all
  worker_step-IsBounded now jobs (completing _) all = save-IsBounded now _ jobs _ _ all
  worker_step-IsBounded now jobs cancelling all = save-IsBounded now _ jobs _ _ all
  worker_step-IsBounded now jobs (failing _) all = save-IsBounded now _ jobs _ _ all
  worker_step-IsBounded now jobs done all = all

  step-IsBounded :
      (e : Event) (sys : System)
      → All IsBounded sys.jobs
      → All IsBounded (step job_id task e sys).jobs
  unfolding step request_cancel
  step-IsBounded (work now) sys all = worker_step-IsBounded now sys.jobs sys.worker all
  step-IsBounded (cancel now) sys all =
      let after =
        change-IsBounded local_scope job_id (apply_cancel now) (apply_cancel-IsBounded now) sys.jobs
          all in
      elim (Option-cases (change local_scope job_id (apply_cancel now) sys.jobs)) [
        | inl gone ↦ rw gone all
        | inr changed ↦ rw changed.1 (rw changed.1 at after)
      ]
  step-IsBounded cancel_future sys all = elim (Bool-cases sys.cancelling_future) [
    | inl yes_ ↦ rw yes_ all
    | inr no_ ↦ rw no_ all
  ]

  -- Along every schedule of the worker and the requests, every row keeps its bounds: the progress at
  -- most 100, the message at most 512 characters, the error at most 16384.
  pub run-IsBounded :
      (events : List Event) (sys : System)
      → All IsBounded sys.jobs
      → All IsBounded (run job_id task events sys).jobs
  unfolding run
  run-IsBounded [] sys all = all
  run-IsBounded (e ∷ events) sys all =
      run-IsBounded events (step job_id task e sys) (step-IsBounded e sys all)
