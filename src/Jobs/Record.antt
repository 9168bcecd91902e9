-- ===== src/Jobs/Record.antt =====
-- The job row (`AnalysisJobRecord` of backend/reversing_lab/database/models.py) and the two changes
-- that `JobRepository` of backend/reversing_lab/database/repository.py makes to one. Times are
-- numbers that only grow; they stand for `datetime.now(timezone.utc)`.
use reversing_lab.Prelude.{
  ℕ, min, String, Bool, true, false, ◌&&◌, Option, none, some, if◌then◌else◌,
}
use reversing_lab.Prelude.Int.{ℤ, pos, negsuc}
use reversing_lab.Prelude.Text.{text_take}

-- The strings that the program writes into the column `state`.
pub data JobState : Type 0 where
  queued running completed failed cancelled : JobState

pub record Job : Type 0 where
  pub id : String
  pub owner_id : String
  pub kind : String
  pub target_id : String
  pub state : JobState
  pub progress : ℕ
  pub message : String
  pub error : Option String
  pub result_ref : Option String
  pub cancel_requested : Bool
  pub started_at : Option ℕ
  pub finished_at : Option ℕ

-- The keyword arguments of `JobRepository.update`; `none` leaves a column as it is.
pub record Changes : Type 0 where
  pub state : Option JobState
  pub progress : Option ℤ
  pub message : Option String
  pub error : Option String
  pub result_ref : Option String

abbrev pub no_changes : Changes
no_changes = record {
  state = none;
  progress = none;
  message = none;
  error = none;
  result_ref = none;
}

-- state in {"completed", "failed", "cancelled"}
abbrev pub is_terminal : JobState → Bool
is_terminal queued = false
is_terminal running = false
is_terminal completed = true
is_terminal failed = true
is_terminal cancelled = true

abbrev is_running : JobState → Bool
is_running running = true
is_running _ = false

abbrev is_none : Option ℕ → Bool
is_none none = true
is_none (some _) = false

-- max(0, min(100, progress))
abbrev pub clamp_progress : ℤ → ℕ
clamp_progress (pos n) = min 100 n
clamp_progress (negsuc n) = 0

unfoldable pub set_state : ℕ → Option JobState → Job → Job
set_state now none job = job
set_state now (some s) job = record job {
  state = s;
  started_at = if is_running s && is_none job.started_at then some now else job.started_at;
  finished_at = if is_terminal s then some now else job.finished_at;
}

unfoldable pub set_progress : Option ℤ → Job → Job
set_progress none job = job
set_progress (some p) job = record job { progress = clamp_progress p }

unfoldable pub set_message : Option String → Job → Job
set_message none job = job
set_message (some m) job = record job { message = text_take 512 m }

unfoldable pub set_error : Option String → Job → Job
set_error none job = job
set_error (some e) job = record job { error = some (text_take 16384 e) }

unfoldable pub set_result_ref : Option String → Job → Job
set_result_ref none job = job
set_result_ref (some r) job = record job { result_ref = some r }

-- What `JobRepository.update` does to the row that it found.
unfoldable pub apply_changes : ℕ → Changes → Job → Job
unfolding set_state set_progress set_message set_error set_result_ref
apply_changes now c job = set_result_ref c.result_ref (
    set_error c.error (set_message c.message (set_progress c.progress (set_state now c.state job))))

unfoldable pub cancel_by_state : ℕ → JobState → Job → Job
cancel_by_state now queued job = record job {
  cancel_requested = true;
  state = cancelled;
  message = "Cancelled before execution";
  finished_at = some now;
}
cancel_by_state now running job = record job { cancel_requested = true }
cancel_by_state now completed job = job
cancel_by_state now failed job = job
cancel_by_state now cancelled job = job

-- What `JobRepository.request_cancel` does to the row that it found.
unfoldable pub apply_cancel : ℕ → Job → Job
unfolding cancel_by_state
apply_cancel now job = cancel_by_state now job.state job

-- The row that `JobRepository.create` adds.
unfoldable pub new_job : String → String → String → String → Job
new_job id owner_id kind target_id = record {
  id = id;
  owner_id = owner_id;
  kind = kind;
  target_id = target_id;
  state = queued;
  progress = 0;
  message = "Queued";
  error = none;
  result_ref = none;
  cancel_requested = false;
  started_at = none;
  finished_at = none;
}
