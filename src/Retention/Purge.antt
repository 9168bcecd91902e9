-- ===== src/Retention/Purge.antt =====
-- `purge` of backend/reversing_lab/database/retention.py.
use reversing_lab.Prelude.{
  ℕ, suc, String, Bool, true, false, ◌||◌, Option, none, some, List, [], ◌∷◌, ◌++◌, if◌then◌else◌,
  ◌==◌, str_eq,
}
use reversing_lab.Jobs.Record.{Job}
use reversing_lab.Store.Table.{find_row, is_there, delete_rows}
use reversing_lab.Store.Binaries.{Bytes, BinaryRecord, BinaryAccess, is_binary}
use reversing_lab.Store.Overlays.{Annotation, Bookmark}
use reversing_lab.Store.Projects.{Project, Membership}
use reversing_lab.Store.Regions.{MemoryDump, Region}
use reversing_lab.Store.Runs.{Artifact, Run, Attempt}
use reversing_lab.Store.Ctf.{Workspace, Note}
use reversing_lab.Retention.Database.{
  Database, Counts, owned_counts, active_jobs, in_projects, in_workspaces, owned_hashes,
}
use reversing_lab.Retention.Files.{
  Kind, artifact, memory, memory_analysis, memory_region, dynamic, binary, is_path, removable,
  remove_files, Removal,
}

-- if item.analysis_path: …
abbrev pub named_path : Kind → Option String → List (Kind × String)
named_path kind none = []
named_path kind (some path) = if str_eq path "" then [] else (kind, path) ∷ []

unfoldable pub artifact_paths : String → List Artifact → List (Kind × String)
artifact_paths principal [] = []
artifact_paths principal (r ∷ rows) =
    let rest = artifact_paths principal rows in
    if str_eq r.owner_id principal then (artifact, r.storage_path) ∷ rest else rest

unfoldable pub region_paths : String → List Region → List (Kind × String)
region_paths principal [] = []
region_paths principal (r ∷ rows) =
    let rest = region_paths principal rows in
    if str_eq r.owner_id principal then (memory_region, r.storage_path) ∷ rest else rest

unfoldable pub dump_paths : String → List MemoryDump → List (Kind × String)
dump_paths principal [] = []
dump_paths principal (r ∷ rows) =
    let rest = dump_paths principal rows in
    if str_eq r.owner_id principal
    then (memory, r.storage_path) ∷ (named_path memory_analysis r.analysis_path ++ rest)
    else rest

unfoldable pub run_paths : String → List Run → List (Kind × String)
run_paths principal [] = []
run_paths principal (r ∷ rows) =
    let rest = run_paths principal rows in
    if str_eq r.owner_id principal then named_path dynamic r.result_path ++ rest else rest

-- `candidates`, before those of the binaries
unfoldable pub candidates : String → Database → List (Kind × String)
unfolding artifact_paths region_paths dump_paths run_paths
candidates principal db =
    artifact_paths principal db.artifacts
    ++ (region_paths principal db.regions
        ++ (dump_paths principal db.dumps ++ run_paths principal db.runs))

-- The deletions; those of `binary_access` where they are asked for.
unfoldable pub delete_owned : String → Bool → Database → Database
unfolding delete_rows in_projects in_workspaces
delete_owned principal include_access db = record {
  binaries = db.binaries;
  accesses =
      if include_access
      then delete_rows (λ (r : BinaryAccess). str_eq r.owner_id principal) db.accesses
      else db.accesses;
  projects = delete_rows (λ (r : Project). str_eq r.owner_id principal) db.projects;
  samples =
      delete_rows (λ (r : Membership). in_projects principal db.projects r.project_id) db.samples;
  annotations = delete_rows (λ (r : Annotation). str_eq r.owner_id principal) db.annotations;
  bookmarks = delete_rows (λ (r : Bookmark). str_eq r.owner_id principal) db.bookmarks;
  artifacts = delete_rows (λ (r : Artifact). str_eq r.owner_id principal) db.artifacts;
  jobs = delete_rows (λ (r : Job). str_eq r.owner_id principal) db.jobs;
  dumps = delete_rows (λ (r : MemoryDump). str_eq r.owner_id principal) db.dumps;
  regions = delete_rows (λ (r : Region). str_eq r.owner_id principal) db.regions;
  runs = delete_rows (λ (r : Run). str_eq r.owner_id principal) db.runs;
  workspaces = delete_rows (λ (r : Workspace). str_eq r.owner_id principal) db.workspaces;
  notes = delete_rows (λ (r : Note). in_workspaces principal db.workspaces r.workspace_id) db.notes;
  attempts = delete_rows (λ (r : Attempt). str_eq r.owner_id principal) db.attempts;
}

unfoldable pub binary_has_references : Database → String → Bool
unfolding is_there
binary_has_references db sha =
    is_there (λ (r : BinaryAccess). str_eq r.binary_sha256 sha) db.accesses
    || is_there (λ (r : Membership). str_eq r.binary_sha256 sha) db.samples
    || is_there (λ (r : Annotation). str_eq r.binary_sha256 sha) db.annotations
    || is_there (λ (r : Bookmark). str_eq r.binary_sha256 sha) db.bookmarks
    || is_there (λ (r : Artifact). str_eq r.binary_sha256 sha) db.artifacts
    || is_there (λ (r : Run). str_eq r.binary_sha256 sha) db.runs
    || is_there (λ (r : Workspace). is_path sha r.binary_sha256) db.workspaces

-- The binaries that are left, and the paths of those that were deleted.
abbrev pub Swept : Type 0
Swept = List BinaryRecord × List (Kind × String)

-- One digest of the loop over `owned_hashes`.
abbrev pub sweep_one : String → Bool → Option BinaryRecord → Swept → Swept
sweep_one sha referenced none swept = swept
sweep_one sha true (some b) swept = swept
sweep_one sha false (some b) (binaries, paths) =
    (delete_rows (is_binary sha) binaries, paths ++ (binary, b.storage_path) ∷ [])

unfoldable pub sweep : Database → List String → Swept → Swept
unfolding binary_has_references find_row delete_rows
sweep db [] swept = swept
sweep db (sha ∷ shas) swept =
    sweep db shas
      (sweep_one sha (binary_has_references db sha) (find_row (is_binary sha) swept.0) swept)

-- The binaries, after the deletions that `db` shows; the digests are those that were owned before.
unfoldable pub sweep_binaries : Bool → List String → Database → Swept
unfolding sweep
sweep_binaries include_access shas db =
    if include_access then sweep db shas (db.binaries, []) else (db.binaries, [])

pub record Report : Type 0 where
  pub deleted_counts : Counts
  pub binary_records_deleted : ℕ
  pub files_removed : ℕ
  pub bytes_reclaimed : ℕ
  pub warnings : ℕ

pub data Outcome : Type 0 where
  -- RetentionConflictError
  conflict : Outcome
  purged : Database → List (String × Bytes) → Report → Outcome

unfoldable pub deleted_counts : Bool → Counts → Counts
deleted_counts include_access before =
    if include_access then before else record before { binary_access = 0 }

-- The database after the commit.
unfoldable pub purged_database : String → Bool → Database → Database
unfolding delete_owned sweep_binaries owned_hashes
purged_database principal include_access db =
    let left = delete_owned principal include_access db in
    record left {
      binaries = (sweep_binaries include_access (owned_hashes principal db.accesses) left).0;
    }

-- The paths of the deleted binaries.
unfoldable pub binary_paths : String → Bool → Database → List (Kind × String)
unfolding delete_owned sweep_binaries owned_hashes
binary_paths principal include_access db =
    (sweep_binaries include_access (owned_hashes principal db.accesses)
      (delete_owned principal include_access db)).1

abbrev pub count_paths : List (Kind × String) → ℕ
count_paths [] = 0
count_paths (p ∷ paths) = suc (count_paths paths)

module _ (resolve : String → String) (is_allowed is_locked : String → Bool) where
  -- The files, after the commit.
  unfoldable pub purged_files : String → Bool → Database → List (String × Bytes) → Removal
  unfolding candidates binary_paths removable remove_files purged_database
  purged_files principal include_access db files =
      remove_files resolve is_allowed is_locked
        (removable (purged_database principal include_access db)
          (candidates principal db ++ binary_paths principal include_access db))
        files

  unfoldable pub purge : String → Bool → Database → List (String × Bytes) → Outcome
  unfolding active_jobs owned_counts purged_database purged_files binary_paths deleted_counts
  purge principal include_access db files =
      let removal = purged_files principal include_access db files in
      if active_jobs principal db == 0
      then purged (purged_database principal include_access db) removal.files (record {
        deleted_counts = deleted_counts include_access (owned_counts principal db);
        binary_records_deleted = count_paths (binary_paths principal include_access db);
        files_removed = removal.removed;
        bytes_reclaimed = removal.reclaimed;
        warnings = removal.warnings;
      })
      else conflict
