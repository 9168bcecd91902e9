-- ===== src/Retention/Database.antt =====
-- The tables that backend/reversing_lab/database/retention.py reads, with the counts of the rows that a
-- principal owns.
use reversing_lab.Prelude.{
  ℕ, ◌+◌, String, Bool, true, false, ◌&&◌, Option, none, some, List, [], ◌∷◌, keep, length,
  if◌then◌else◌, ◌==◌, str_eq,
}
use reversing_lab.Jobs.Record.{Job, JobState, queued, running}
use reversing_lab.Store.Table.{find_row, is_there}
use reversing_lab.Store.Binaries.{BinaryRecord, BinaryAccess, is_binary}
use reversing_lab.Store.Overlays.{Annotation, Bookmark}
use reversing_lab.Store.Projects.{Project, Membership}
use reversing_lab.Store.Regions.{MemoryDump, Region}
use reversing_lab.Store.Runs.{Artifact, Run, Attempt}
use reversing_lab.Store.Ctf.{Workspace, Note}

pub record Database : Type 0 where
  pub binaries : List BinaryRecord
  pub accesses : List BinaryAccess
  pub projects : List Project
  pub samples : List Membership
  pub annotations : List Annotation
  pub bookmarks : List Bookmark
  pub artifacts : List Artifact
  pub jobs : List Job
  pub dumps : List MemoryDump
  pub regions : List Region
  pub runs : List Run
  pub workspaces : List Workspace
  pub notes : List Note
  pub attempts : List Attempt

module _ {A : Type 0} where
  -- `_count`
  unfoldable pub count : (A → Bool) → List A → ℕ
  count test rows = length (keep test rows)

-- project_ids, as a test: the project is the principal's.
unfoldable pub in_projects : String → List Project → String → Bool
unfolding is_there
in_projects principal projects id =
    is_there (λ (p : Project). str_eq p.owner_id principal && str_eq p.id id) projects

-- workspace_ids
unfoldable pub in_workspaces : String → List Workspace → String → Bool
unfolding is_there
in_workspaces principal workspaces id =
    is_there (λ (w : Workspace). str_eq w.owner_id principal && str_eq w.id id) workspaces

pub record Counts : Type 0 where
  pub binary_access : ℕ
  pub projects : ℕ
  pub project_samples : ℕ
  pub annotations : ℕ
  pub bookmarks : ℕ
  pub artifacts : ℕ
  pub jobs : ℕ
  pub memory_dumps : ℕ
  pub memory_region_artifacts : ℕ
  pub dynamic_runs : ℕ
  pub ctf_workspaces : ℕ
  pub ctf_notes : ℕ
  pub challenge_attempts : ℕ

unfoldable pub owned_counts : String → Database → Counts
unfolding count in_projects in_workspaces
owned_counts principal db = record {
  binary_access = count (λ (r : BinaryAccess). str_eq r.owner_id principal) db.accesses;
  projects = count (λ (r : Project). str_eq r.owner_id principal) db.projects;
  project_samples =
      count (λ (r : Membership). in_projects principal db.projects r.project_id) db.samples;
  annotations = count (λ (r : Annotation). str_eq r.owner_id principal) db.annotations;
  bookmarks = count (λ (r : Bookmark). str_eq r.owner_id principal) db.bookmarks;
  artifacts = count (λ (r : Artifact). str_eq r.owner_id principal) db.artifacts;
  jobs = count (λ (r : Job). str_eq r.owner_id principal) db.jobs;
  memory_dumps = count (λ (r : MemoryDump). str_eq r.owner_id principal) db.dumps;
  memory_region_artifacts = count (λ (r : Region). str_eq r.owner_id principal) db.regions;
  dynamic_runs = count (λ (r : Run). str_eq r.owner_id principal) db.runs;
  ctf_workspaces = count (λ (r : Workspace). str_eq r.owner_id principal) db.workspaces;
  ctf_notes = count (λ (r : Note). in_workspaces principal db.workspaces r.workspace_id) db.notes;
  challenge_attempts = count (λ (r : Attempt). str_eq r.owner_id principal) db.attempts;
}

-- state in _ACTIVE_JOB_STATES
abbrev pub is_active : JobState → Bool
is_active queued = true
is_active running = true
is_active _ = false

unfoldable pub active_jobs : String → Database → ℕ
unfolding count
active_jobs principal db =
    count (λ (r : Job). str_eq r.owner_id principal && is_active r.state) db.jobs

-- The digests of the binaries that a principal has access to.
unfoldable pub owned_hashes : String → List BinaryAccess → List String
owned_hashes principal [] = []
owned_hashes principal (a ∷ accesses) =
    let rest = owned_hashes principal accesses in
    if str_eq a.owner_id principal then a.binary_sha256 ∷ rest else rest

abbrev pub add_size : Option BinaryRecord → ℕ × ℕ → ℕ × ℕ
add_size none total = total
add_size (some b) (n, size) = (n + 1, size + b.size)

-- The loop of `_orphanable_binaries`, from the last digest.
unfoldable pub orphanable : Database → List String → ℕ × ℕ
unfolding count find_row
orphanable db [] = (0, 0)
orphanable db (sha ∷ shas) =
    let rest = orphanable db shas in
    if count (λ (a : BinaryAccess). str_eq a.binary_sha256 sha) db.accesses == 1
    then add_size (find_row (is_binary sha) db.binaries) rest
    else rest

unfoldable pub orphanable_binaries : String → Database → ℕ × ℕ
unfolding owned_hashes orphanable
orphanable_binaries principal db = orphanable db (owned_hashes principal db.accesses)

pub record Preview : Type 0 where
  pub counts : Counts
  pub active_jobs : ℕ
  pub orphanable_binary_count : ℕ
  pub estimated_reclaimable_binary_bytes : ℕ

unfoldable pub preview : String → Bool → Database → Preview
unfolding owned_counts active_jobs orphanable_binaries
preview principal include_access db =
    let orphans = orphanable_binaries principal db in
    record {
      counts = owned_counts principal db;
      active_jobs = active_jobs principal db;
      orphanable_binary_count = if include_access then orphans.0 else 0;
      estimated_reclaimable_binary_bytes = if include_access then orphans.1 else 0;
    }
