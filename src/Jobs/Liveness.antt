-- ===== src/Jobs/Liveness.antt =====
-- Every schedule that gives the worker enough steps ends its job in a terminal state.
use reversing_lab.Prelude.{
  ℕ, suc, ◌+◌, ◌-◌, ◌≤◌, String, ◌≡◌, refl, Bool, true, false, Option, none, some, List, [], ◌∷◌,
  arith,
}
use reversing_lab.Jobs.Record.{Job, cancelled, is_terminal, apply_changes, apply_cancel}
use reversing_lab.Jobs.Repository.{Table, get, local_scope}
use reversing_lab.Jobs.Runner.{
  Task, Worker, submitted, begun, starting, working, updating, returned, completing, cancelling,
  failing, done, ret, raise, update_progress, check_cancelled, ask, Event, work, cancel,
  cancel_future, run, submit_job,
}
use reversing_lab.Jobs.System.{View, view, view_step, view_run}
use reversing_lab.Jobs.Cancel.{final, final-view_run}

-- A bound on the steps of a task.
abbrev pub size : Task → ℕ
size (ret _) = 1
size (raise _) = 1
size (update_progress _ _ rest) = 2 + size rest
size (check_cancelled rest) = 1 + size rest
size (ask a b) = 1 + size a + size b

-- A bound on the steps that are left to the worker.
abbrev left : Task → Worker → ℕ
left task submitted = 6 + size task
left task begun = 5 + size task
left task starting = 4 + size task
left task (working t) = 3 + size t
left task (updating _ _ t) = 4 + size t
left task (returned _) = 3
left task (completing _) = 2
left task cancelling = 1
left task (failing _) = 1
left task done = 0

abbrev pub works : List Event → ℕ
works [] = 0
works (work _ ∷ events) = suc (works events)
works (cancel _ ∷ events) = works events
works (cancel_future ∷ events) = works events

abbrev is_submitted : Worker → Bool
is_submitted submitted = true
is_submitted _ = false

abbrev is_done : Worker → Bool
is_done done = true
is_done _ = false

-- What every schedule keeps: the row is there, a worker that is done leaves it terminal, and a future
-- is about to be cancelled in the queue only where the row is cancelled.
abbrev Settles : Option Job → Worker → Bool → Type 0
Settles none w pending = ⊥
Settles (some job) w pending =
    (is_done w ≡ true → is_terminal job.state ≡ true)
    × (is_submitted w ≡ true → pending ≡ true → job.state ≡ cancelled)

module _ (task : Task) where
  view_step-Settles :
      (e : Event) (v : View)
      → Settles v.row v.worker v.cancelling_future
      → let v' = view_step task e v in Settles v'.row v'.worker v'.cancelling_future
  unfolding view_step apply_changes apply_cancel
  view_step-Settles (work now) v h = ground arith
  view_step-Settles (cancel now) v h = ground arith
  view_step-Settles cancel_future v h = ground arith

  view_run-Settles :
      (events : List Event) (v : View)
      → Settles v.row v.worker v.cancelling_future
      → let v' = view_run task events v in Settles v'.row v'.worker v'.cancelling_future
  unfolding view_run
  view_run-Settles [] v h = h
  view_run-Settles (e ∷ events) v h =
      view_run-Settles events (view_step task e v) (view_step-Settles e v h)

  left-view_step :
      (e : Event) (v : View)
      → left task (view_step task e v).worker ≤ left task v.worker - works (e ∷ [])
  unfolding view_step
  left-view_step (work now) v = ground arith
  left-view_step (cancel now) v = ground arith
  left-view_step cancel_future v = ground arith

  left-view_run :
      (events : List Event) (v : View)
      → left task (view_run task events v).worker ≤ left task v.worker - works events
  unfolding view_run
  left-view_run [] v = omega arith
  left-view_run (work now ∷ events) v =
      omega (arith, left-view_step (work now) v, left-view_run events (view_step task (work now) v))
  left-view_run (cancel now ∷ events) v =
      omega
        (arith, left-view_step (cancel now) v, left-view_run events (view_step task (cancel now) v))
  left-view_run (cancel_future ∷ events) v =
      omega (
        arith,
        left-view_step cancel_future v,
        left-view_run events (view_step task cancel_future v),
      )

  left_zero : (w : Worker) → left task w ≤ 0 → w ≡ done
  left_zero w h = ground arith

settled_row :
    (row : Option Job) (w : Worker) (pending : Bool)
    → Settles row w pending
    → w ≡ done
    → (job : Job) × (row ≡ some job) × (is_terminal job.state ≡ true) × (w ≡ done)
settled_row none w pending h e = absurd h
settled_row (some job) w pending h e = (job, refl, h.0 (rw e), e)

-- A submitted job, with a row that is there, is done once the worker has had `6 + size task` steps,
-- whatever requests to cancel come between, and its row is then completed, failed or cancelled.
pub submitted_ends :
    (job_id : String) (task : Task) (events : List Event) (jobs : Table) (job : Job)
    → get local_scope job_id jobs ≡ some job
    → 6 + size task ≤ works events
    → (job' : Job) × (final job_id task events (submit_job jobs) ≡ some job')
      × (is_terminal job'.state ≡ true)
      × ((run job_id task events (submit_job jobs)).worker ≡ done)
submitted_ends job_id task events jobs job e enough =
    let v = view job_id (submit_job jobs) in
    let start : Settles (get local_scope job_id jobs) submitted false = rw e (λ p. cc, λ p q. cc) in
    let end = view_run-Settles task events v start in
    let over = left_zero task _ (omega (arith, left-view_run task events v)) in
    let ends = final-view_run job_id task events (submit_job jobs) in
    rw (ends.0, ends.1) (settled_row _ _ _ end over)
