-- ===== src/Jobs/Repository.antt =====
-- `JobRepository` of backend/reversing_lab/database/repository.py over a table of rows, with the owner
-- scope of `_OwnedRepository`. `none` stands for `BinaryNotFoundError`. The identifier of a new row
-- (`uuid4`) and the time are arguments. Rows are in the order of insertion.
use reversing_lab.Prelude.{
  ℕ, String, Bool, true, ◌&&◌, ◌||◌, Option, none, some, List, [], ◌∷◌, ◌++◌, keep, take,
  if◌then◌else◌, str_eq, eq_iff, ◌≡◌, refl, arith, ◌≢◌, Bool-cases, Option-cases, inl, inr,
}
use mathlib.Core.Option
use mathlib.Core.List.{reverse}
use reversing_lab.Jobs.Record.{Job, Changes, apply_changes, apply_cancel, new_job}

abbrev pub Table : Type 0
Table = List Job

-- `_OwnedRepository`: whose rows a reader sees.
pub record Scope : Type 0 where
  pub owner_id : String
  pub unrestricted : Bool

-- DEFAULT_OWNER_ID with the constructor's defaults
abbrev pub local_scope : Scope
local_scope = record { owner_id = "local"; unrestricted = true }

-- `_read_scope`
abbrev pub in_scope : Scope → Job → Bool
in_scope scope job = scope.unrestricted || str_eq job.owner_id scope.owner_id

abbrev pub is_hit : Scope → String → Job → Bool
is_hit scope job_id job = str_eq job.id job_id && in_scope scope job

unfoldable pub get : Scope → String → Table → Option Job
get scope job_id [] = none
get scope job_id (job ∷ jobs) = if is_hit scope job_id job then some job else get scope job_id jobs

-- The rows, newest first; every row is as old as its place in the table says.
unfoldable pub list : Scope → ℕ → Table → Table
list scope limit jobs = take limit (reverse (keep (in_scope scope) jobs))

unfoldable pub create : Scope → String → String → String → Table → Table
unfolding new_job
create scope id kind target_id jobs = jobs ++ new_job id scope.owner_id kind target_id ∷ []

-- A commit after a change to the row that `get` found.
unfoldable pub change : Scope → String → (Job → Job) → Table → Option Table
change scope job_id f [] = none
change scope job_id f (job ∷ jobs) =
    if is_hit scope job_id job
    then some (f job ∷ jobs)
    else Option.map (λ rest. job ∷ rest) (change scope job_id f jobs)

unfoldable pub update : Scope → ℕ → String → Changes → Table → Option Table
update scope now job_id c = change scope job_id (apply_changes now c)

unfoldable pub request_cancel : Scope → ℕ → String → Table → Option Table
request_cancel scope now job_id = change scope job_id (apply_cancel now)

-- `f` writes neither key nor owner.
pub record KeepsKey (f : Job → Job) : Type 0 where
  pub id : (job : Job) → (f job).id ≡ job.id
  pub owner_id : (job : Job) → (f job).owner_id ≡ job.owner_id

-- What a change of the row `job_id` comes to: no row and no change, or one row before and after.
pub data Changed (scope : Scope) (job_id : String) (f : Job → Job) (jobs : Table) : Type 0 where
  missing :
      get scope job_id jobs ≡ none → change scope job_id f jobs ≡ none → Changed scope job_id f jobs
  found :
      (job : Job) (jobs' : Table)
      → get scope job_id jobs ≡ some job
      → change scope job_id f jobs ≡ some jobs'
      → get scope job_id jobs' ≡ some (f job)
      → Changed scope job_id f jobs

module _ (scope : Scope) (job_id : String) (f : Job → Job) (keeps : KeepsKey f) where
  hit_keeps : (job : Job) → is_hit scope job_id (f job) ≡ is_hit scope job_id job
  hit_keeps job = rw (keeps.id job, keeps.owner_id job)

  pub change_cases : (jobs : Table) → Changed scope job_id f jobs
  unfolding get change
  change_cases [] = missing refl refl
  change_cases (job ∷ jobs) = elim (Bool-cases (is_hit scope job_id job)) [
    | inl hit ↦ found job (f job ∷ jobs) (rw hit) (rw hit) (rw (hit_keeps job, hit))
    | inr miss ↦ elim (change_cases jobs) [
      | missing g c ↦ missing (rw miss g) (rw (miss, c))
      | found old jobs' g c after ↦
          found old (job ∷ jobs') (rw miss g) (rw (miss, c)) (rw miss after)
    ]
  ]

-- The table after a change: the old one, where no row was found.
abbrev pub or_unchanged : Table → Option Table → Table
or_unchanged jobs none = jobs
or_unchanged jobs (some jobs') = jobs'

-- A change of one row leaves what `get` finds under another identifier.
pub get-change_ne :
    (scope : Scope) (job_id other : String) (f : Job → Job)
    → KeepsKey f
    → other ≢ job_id
    → (jobs : Table)
    → get scope other (or_unchanged jobs (change scope job_id f jobs)) ≡ get scope other jobs
unfolding get change
get-change_ne scope job_id other f keeps ne [] = refl
get-change_ne scope job_id other f keeps ne (job ∷ jobs) =
    elim (Option-cases (change scope job_id f jobs)) [
      | inl gone ↦ ground (
        arith,
        gone,
        eq_iff job.id job_id,
        eq_iff job.id other,
        eq_iff (f job).id other,
        keeps.id job,
      )
      | inr after ↦ ground (
        arith,
        after.1,
        eq_iff job.id job_id,
        eq_iff job.id other,
        eq_iff (f job).id other,
        keeps.id job,
        get-change_ne scope job_id other f keeps ne jobs,
      )
    ]
