-- ===== src/Jobs/Cancel.antt =====
-- What a request to cancel comes to, over every schedule of the worker and of further requests.
use reversing_lab.Prelude.{
  ℕ, String, ◌≡◌, ◌≢◌, ◌⊎◌, refl, ap, Bool, true, false, Option, none, some, List, [], ◌∷◌, arith,
}
use reversing_lab.Jobs.Record.{
  Job, JobState, queued, running, completed, cancelled, apply_changes, apply_cancel,
}
use reversing_lab.Jobs.Repository.{Table, get, local_scope}
use reversing_lab.Jobs.Runner.{
  Task, to_running, Worker, submitted, begun, starting, completing, cancelling, done, System, Event,
  work, cancel, cancel_future, run,
}
use reversing_lab.Jobs.System.{View, view, view_step, view_run, view-run}

-- Past the last test of `cancel_requested`.
abbrev pub is_completing : Worker → Bool
is_completing (completing _) = true
is_completing _ = false

abbrev is_completed : JobState → Bool
is_completed completed = true
is_completed _ = false

-- The task has not started, and will not.
abbrev pub is_idle : Worker → Bool
is_idle submitted = true
is_idle begun = true
is_idle cancelling = true
is_idle done = true
is_idle _ = false

abbrev Doomed : Option Job → Worker → Type 0
Doomed none w = ⊥
Doomed (some job) w =
    (job.cancel_requested ≡ true) × (is_completed job.state ≡ false) × (is_completing w ≡ false)

abbrev Stopped : Option Job → Worker → Type 0
Stopped none w = ⊥
Stopped (some job) w =
    (job.cancel_requested ≡ true)
    × (job.state ≡ cancelled)
    × (job.started_at ≡ none)
    × (is_idle w ≡ true)

module _ (task : Task) where
  view_step-Doomed :
      (e : Event) (v : View)
      → Doomed v.row v.worker
      → Doomed (view_step task e v).row (view_step task e v).worker
  unfolding view_step apply_changes apply_cancel
  view_step-Doomed (work now) v h = ground arith
  view_step-Doomed (cancel now) v h = ground arith
  view_step-Doomed cancel_future v h = ground arith

  view_step-Stopped :
      (e : Event) (v : View)
      → Stopped v.row v.worker
      → Stopped (view_step task e v).row (view_step task e v).worker
  unfolding view_step apply_changes apply_cancel
  view_step-Stopped (work now) v h = ground arith
  view_step-Stopped (cancel now) v h = ground arith
  view_step-Stopped cancel_future v h = ground arith

  view_run-Doomed :
      (events : List Event) (v : View)
      → Doomed v.row v.worker
      → Doomed (view_run task events v).row (view_run task events v).worker
  unfolding view_run
  view_run-Doomed [] v h = h
  view_run-Doomed (e ∷ events) v h =
      view_run-Doomed events (view_step task e v) (view_step-Doomed e v h)

  view_run-Stopped :
      (events : List Event) (v : View)
      → Stopped v.row v.worker
      → Stopped (view_run task events v).row (view_run task events v).worker
  unfolding view_run
  view_run-Stopped [] v h = h
  view_run-Stopped (e ∷ events) v h =
      view_run-Stopped events (view_step task e v) (view_step-Stopped e v h)

-- The row that a schedule leaves, and where it leaves the worker.
abbrev pub final : String → Task → List Event → System → Option Job
final job_id task events sys = get local_scope job_id (run job_id task events sys).jobs

module _ (job_id : String) (task : Task) where
  pub final-view_run :
      (events : List Event) (sys : System)
      → (final job_id task events sys ≡ (view_run task events (view job_id sys)).row)
        × ((run job_id task events sys).worker ≡ (view_run task events (view job_id sys)).worker)
  final-view_run events sys = (
    ap (λ (v : View). v.row) (view-run job_id task events sys),
    ap (λ (v : View). v.worker) (view-run job_id task events sys),
  )

  row_of_doom :
      (row : Option Job) (w : Worker)
      → Doomed row w
      → (job : Job) × (row ≡ some job) × (job.cancel_requested ≡ true) × (job.state ≢ completed)
  row_of_doom none w h = absurd h
  row_of_doom (some job) w h = (job, refl, h.0, λ e. ground arith)

  row_of_stop :
      (row : Option Job) (w : Worker)
      → Stopped row w
      → (job : Job) × (row ≡ some job)
        × (job.state ≡ cancelled)
        × (job.started_at ≡ none)
        × (is_idle w ≡ true)
  row_of_stop none w h = absurd h
  row_of_stop (some job) w h = (job, refl, h.1, h.2, h.3)

  -- Once a cancellation is recorded on a row that is not completed, and the worker is not past its
  -- last test, no schedule makes the row completed, and the request stays recorded.
  pub cancel_wins :
      (events : List Event) (sys : System) (job : Job)
      → get local_scope job_id sys.jobs ≡ some job
      → job.cancel_requested ≡ true
      → job.state ≢ completed
      → is_completing sys.worker ≡ false
      → (job' : Job) × (final job_id task events sys ≡ some job')
        × (job'.cancel_requested ≡ true)
        × (job'.state ≢ completed)
  cancel_wins events sys job e c s w =
      let start : Doomed (get local_scope job_id sys.jobs) sys.worker = rw e (c, ground arith, w) in
      let end = view_run-Doomed task events (view job_id sys) start in
      rw ((final-view_run events sys).0) (row_of_doom _ _ end)

  -- A queued job that is cancelled before the worker's first test is cancelled for good: under every
  -- schedule the row stays cancelled, has no start time, and the worker does not start the task.
  pub cancelled_before_start :
      (now : ℕ) (events : List Event) (sys : System) (job : Job)
      → get local_scope job_id sys.jobs ≡ some job
      → job.state ≡ queued
      → job.started_at ≡ none
      → (sys.worker ≡ submitted) ⊎ (sys.worker ≡ begun)
      → (job' : Job) × (final job_id task (cancel now ∷ events) sys ≡ some job')
        × (job'.state ≡ cancelled)
        × (job'.started_at ≡ none)
        × (is_idle (run job_id task (cancel now ∷ events) sys).worker ≡ true)
  unfolding view_run
  cancelled_before_start now events sys job e s t w =
      let v = view_step task (cancel now) (view job_id sys) in
      let start : Stopped v.row v.worker = unfold view_step apply_cancel in rw e (ground arith) in
      let end = view_run-Stopped task events v start in
      let ends = final-view_run (cancel now ∷ events) sys in
      rw (ends.0, ends.1) (row_of_stop _ _ end)

  -- Between the worker's first test and its update to "running" a queued job can be cancelled, and
  -- then leaves that terminal state again: it is "running" with a finish time.
  pub cancelled_resumes :
      (t u : ℕ) (jobs : Table) (job : Job) (pending : Bool)
      → get local_scope job_id jobs ≡ some job
      → job.state ≡ queued
      → let sys : System = record { jobs = jobs; worker = starting; cancelling_future = pending } in
        (job' : Job) × (job'' : Job) × (final job_id task (cancel t ∷ []) sys ≡ some job')
        × (job'.state ≡ cancelled)
        × (final job_id task (cancel t ∷ work u ∷ []) sys ≡ some job'')
        × (job''.state ≡ running)
        × (job''.finished_at ≡ some t)
  cancelled_resumes t u jobs job pending e s =
      let sys : System = record { jobs = jobs; worker = starting; cancelling_future = pending } in
      let once = (final-view_run (cancel t ∷ []) sys).0 in
      let twice = (final-view_run (cancel t ∷ work u ∷ []) sys).0 in
      unfold view_run view_step apply_cancel apply_changes in
      (
        apply_cancel t job,
        apply_changes u to_running (apply_cancel t job),
        rw (once, view, e),
        ground arith,
        rw (twice, view, e),
        ground arith,
        ground arith,
      )
