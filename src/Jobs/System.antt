-- ===== src/Jobs/System.antt =====
-- The schedule of backend/reversing_lab/jobs/runner.py seen at the one row that it is about: what the
-- other modules of this folder compute with.
use reversing_lab.Prelude.{
  ℕ, String, ◌≡◌, refl, ap, Bool, false, Option, none, some, List, [], ◌∷◌, arith, if◌then◌else◌,
}
use reversing_lab.Jobs.Record.{Job, Changes, apply_changes, apply_cancel}
use reversing_lab.Jobs.Repository.{
  Table, KeepsKey, local_scope, get, update, request_cancel, missing, found, change_cases,
}
use reversing_lab.Jobs.Runner.{
  Task, Worker, submitted, begun, starting, working, updating, returned, completing, cancelling,
  failing, done, ret, raise, update_progress, check_cancelled, ask, not_found, to_running,
  to_completed, to_cancelled, to_failed, to_progress, after_test, after_update, worker_step, System,
  Event, work, cancel, cancel_future, is_cancelled, cancel_worker, step, run,
}

pub record View : Type 0 where
  pub row : Option Job
  pub worker : Worker
  pub cancelling_future : Bool

abbrev pub view : String → System → View
view job_id sys = record {
  row = get local_scope job_id sys.jobs;
  worker = sys.worker;
  cancelling_future = sys.cancelling_future;
}

abbrev save : ℕ → Changes → Option Job → Worker → Worker → Option Job × Worker
save now c none error next = (none, error)
save now c (some job) error next = (some (apply_changes now c job), next)

abbrev test : Option Job → Worker → Worker → Option Job × Worker
test row stop go = (row, after_test row stop go)

unfoldable pub row_step : Task → ℕ → Option Job → Worker → Option Job × Worker
row_step task now row submitted = (row, begun)
row_step task now row begun = test row cancelling starting
row_step task now row starting = save now to_running row (failing not_found) (working task)
row_step task now row (working (ret result_ref)) = (row, returned result_ref)
row_step task now row (working (raise error)) = (row, failing error)
row_step task now row (working (update_progress p m rest)) = test row cancelling (updating p m rest)
row_step task now row (working (check_cancelled rest)) = test row cancelling (working rest)
row_step task now row (working (ask yes_rest no_rest)) =
    test row (working yes_rest) (working no_rest)
row_step task now row (updating p m rest) =
    save now (to_progress p m) row (failing not_found) (working rest)
row_step task now row (returned result_ref) = test row cancelling (completing result_ref)
row_step task now row (completing result_ref) =
    save now (to_completed result_ref) row (failing not_found) done
row_step task now row cancelling = save now to_cancelled row done done
row_step task now row (failing error) = save now (to_failed error) row done done
row_step task now row done = (row, done)

abbrev after_cancel : ℕ → View → Option Job → View
after_cancel now v none = v
after_cancel now v (some job) = record v {
  row = some (apply_cancel now job);
  cancelling_future = is_cancelled (some (apply_cancel now job));
}

unfoldable pub view_step : Task → Event → View → View
unfolding row_step
view_step task (work now) v =
    let (row', w) = row_step task now v.row v.worker in record v { row = row'; worker = w }
view_step task (cancel now) v = after_cancel now v v.row
view_step task cancel_future v =
    if v.cancelling_future
    then (record v { worker = cancel_worker v.worker; cancelling_future = false })
    else v

unfoldable pub view_run : Task → List Event → View → View
view_run task [] v = v
view_run task (e ∷ events) v = view_run task events (view_step task e v)

apply_changes-KeepsKey : (now : ℕ) (c : Changes) → KeepsKey (apply_changes now c)
unfolding apply_changes
apply_changes-KeepsKey now c = record { id = λ job. ground arith; owner_id = λ job. ground arith }

apply_cancel-KeepsKey : (now : ℕ) → KeepsKey (apply_cancel now)
unfolding apply_cancel
apply_cancel-KeepsKey now = record { id = λ job. ground arith; owner_id = λ job. ground arith }

module _ (job_id : String) (task : Task) where
  save_lem :
      (now : ℕ) (c : Changes) (jobs : Table) (error next : Worker)
      → let (jobs', w) = after_update jobs (update local_scope now job_id c jobs) error next in
        (get local_scope job_id jobs', w) ≡ save now c (get local_scope job_id jobs) error next
  unfolding update
  save_lem now c jobs error next =
      elim (change_cases local_scope job_id (apply_changes now c) (apply_changes-KeepsKey now c)
        jobs) [ missing g e ↦ rw (e, g) | found job jobs' g e after ↦ rw (e, g, after) ]

  -- The worker's step at the table is its step at the row.
  work_lem :
      (now : ℕ) (jobs : Table) (w : Worker)
      → let (jobs', w') = worker_step job_id task now jobs w in
        (get local_scope job_id jobs', w') ≡ row_step task now (get local_scope job_id jobs) w
  unfolding worker_step row_step
  work_lem now jobs submitted = refl
  work_lem now jobs begun = refl
  work_lem now jobs starting = save_lem now to_running jobs (failing not_found) (working task)
  work_lem now jobs (working (ret r)) = refl
  work_lem now jobs (working (raise e)) = refl
  work_lem now jobs (working (update_progress p m rest)) = refl
  work_lem now jobs (working (check_cancelled rest)) = refl
  work_lem now jobs (working (ask yes_rest no_rest)) = refl
  work_lem now jobs (updating p m rest) =
      save_lem now (to_progress p m) jobs (failing not_found) (working rest)
  work_lem now jobs (returned r) = refl
  work_lem now jobs (completing r) = save_lem now (to_completed r) jobs (failing not_found) done
  work_lem now jobs cancelling = save_lem now to_cancelled jobs done done
  work_lem now jobs (failing e) = save_lem now (to_failed e) jobs done done
  work_lem now jobs done = refl

  view-step :
      (e : Event) (sys : System)
      → view job_id (step job_id task e sys) ≡ view_step task e (view job_id sys)
  unfolding step view_step request_cancel
  view-step (work now) sys =
      ap
        (λ (r : Option Job × Worker). record {
          row = r.0;
          worker = r.1;
          cancelling_future = sys.cancelling_future;
        })
        (work_lem now sys.jobs sys.worker)
  view-step (cancel now) sys =
      elim (change_cases local_scope job_id (apply_cancel now) (apply_cancel-KeepsKey now)
        sys.jobs) [ missing g e ↦ rw (e, g) | found job jobs' g e after ↦ rw (e, g, after) ]
  view-step cancel_future sys = ground arith

  -- A schedule seen at its row is a schedule of the row.
  pub view-run :
      (events : List Event) (sys : System)
      → view job_id (run job_id task events sys) ≡ view_run task events (view job_id sys)
  unfolding run view_run
  view-run [] sys = refl
  view-run (e ∷ events) sys = rw (← view-step e sys) (view-run events (step job_id task e sys))
