-- ===== src/Retention/Emptied.antt =====
-- What a purge in backend/reversing_lab/database/retention.py deletes, against what it reports.
use reversing_lab.Prelude.{
  ℕ, ◌+◌, ◌≡◌, String, Bool, true, false, ◌&&◌, length, if◌then◌else◌, str_eq, arith,
}
use native.Mathlib.Nat.{zero-add}
use reversing_lab.Store.Table.{delete_rows}
use reversing_lab.Store.Binaries.{BinaryAccess}
use reversing_lab.Store.Projects.{Project}
use reversing_lab.Store.Ctf.{Workspace}
use reversing_lab.Retention.Database.{
  Database, Counts, count, owned_counts, in_projects, in_workspaces,
}
use reversing_lab.Retention.Purge.{delete_owned, purged_database, deleted_counts}
use reversing_lab.Retention.Tables.{
  count-delete_rows, length-delete_rows, is_there-delete_rows_self, is_there_weaken, count_none,
}

-- How many rows each table has.
unfoldable pub sizes : Database → Counts
sizes db = record {
  binary_access = length db.accesses;
  projects = length db.projects;
  project_samples = length db.samples;
  annotations = length db.annotations;
  bookmarks = length db.bookmarks;
  artifacts = length db.artifacts;
  jobs = length db.jobs;
  memory_dumps = length db.dumps;
  memory_region_artifacts = length db.regions;
  dynamic_runs = length db.runs;
  ctf_workspaces = length db.workspaces;
  ctf_notes = length db.notes;
  challenge_attempts = length db.attempts;
}

abbrev pub add_counts : Counts → Counts → Counts
add_counts a b = record {
  binary_access = a.binary_access + b.binary_access;
  projects = a.projects + b.projects;
  project_samples = a.project_samples + b.project_samples;
  annotations = a.annotations + b.annotations;
  bookmarks = a.bookmarks + b.bookmarks;
  artifacts = a.artifacts + b.artifacts;
  jobs = a.jobs + b.jobs;
  memory_dumps = a.memory_dumps + b.memory_dumps;
  memory_region_artifacts = a.memory_region_artifacts + b.memory_region_artifacts;
  dynamic_runs = a.dynamic_runs + b.dynamic_runs;
  ctf_workspaces = a.ctf_workspaces + b.ctf_workspaces;
  ctf_notes = a.ctf_notes + b.ctf_notes;
  challenge_attempts = a.challenge_attempts + b.challenge_attempts;
}

-- Nothing, but for access rows.
abbrev pub only_access : ℕ → Counts
only_access n = record {
  binary_access = n;
  projects = 0;
  project_samples = 0;
  annotations = 0;
  bookmarks = 0;
  artifacts = 0;
  jobs = 0;
  memory_dumps = 0;
  memory_region_artifacts = 0;
  dynamic_runs = 0;
  ctf_workspaces = 0;
  ctf_notes = 0;
  challenge_attempts = 0;
}

module _ (p : String) (db : Database) where
  -- The tables shrink by the counts that are reported.
  sizes_with_access : add_counts (owned_counts p db) (sizes (purged_database p true db)) ≡ sizes db
  unfolding sizes owned_counts purged_database delete_owned
  sizes_with_access = λ i. record {
    binary_access = length-delete_rows (λ (r : BinaryAccess). str_eq r.owner_id p) db.accesses i;
    projects = length-delete_rows (λ r. str_eq r.owner_id p) db.projects i;
    project_samples = length-delete_rows (λ r. in_projects p db.projects r.project_id) db.samples i;
    annotations = length-delete_rows (λ r. str_eq r.owner_id p) db.annotations i;
    bookmarks = length-delete_rows (λ r. str_eq r.owner_id p) db.bookmarks i;
    artifacts = length-delete_rows (λ r. str_eq r.owner_id p) db.artifacts i;
    jobs = length-delete_rows (λ r. str_eq r.owner_id p) db.jobs i;
    memory_dumps = length-delete_rows (λ r. str_eq r.owner_id p) db.dumps i;
    memory_region_artifacts = length-delete_rows (λ r. str_eq r.owner_id p) db.regions i;
    dynamic_runs = length-delete_rows (λ r. str_eq r.owner_id p) db.runs i;
    ctf_workspaces = length-delete_rows (λ r. str_eq r.owner_id p) db.workspaces i;
    ctf_notes = length-delete_rows (λ r. in_workspaces p db.workspaces r.workspace_id) db.notes i;
    challenge_attempts = length-delete_rows (λ r. str_eq r.owner_id p) db.attempts i;
  }

  -- The tables shrink by the reported counts, whether access rows are deleted or not.
  pub sizes-purged_database :
      (include_access : Bool)
      → add_counts
          (deleted_counts include_access (owned_counts p db))
          (sizes (purged_database p include_access db))
        ≡ sizes db
  unfolding deleted_counts sizes owned_counts purged_database delete_owned
  sizes-purged_database true = sizes_with_access
  sizes-purged_database false =
      λ i. record (sizes_with_access i) { binary_access = zero-add (length db.accesses) i }

  -- The principal's projects are gone, and so are the memberships of them that there could be.
  no_projects : (id : String) → in_projects p (purged_database p true db).projects id ≡ false
  unfolding in_projects purged_database delete_owned
  no_projects id =
      is_there_weaken (λ (r : Project). str_eq r.owner_id p)
        (λ r. str_eq r.owner_id p && str_eq r.id id)
        (delete_rows (λ r. str_eq r.owner_id p) db.projects) (λ r hit. ground (arith, hit))
        (is_there-delete_rows_self (λ r. str_eq r.owner_id p) db.projects)

  no_workspaces : (id : String) → in_workspaces p (purged_database p true db).workspaces id ≡ false
  unfolding in_workspaces purged_database delete_owned
  no_workspaces id =
      is_there_weaken (λ (r : Workspace). str_eq r.owner_id p)
        (λ r. str_eq r.owner_id p && str_eq r.id id)
        (delete_rows (λ r. str_eq r.owner_id p) db.workspaces) (λ r hit. ground (arith, hit))
        (is_there-delete_rows_self (λ r. str_eq r.owner_id p) db.workspaces)

  owned_with_access : owned_counts p (purged_database p true db) ≡ only_access 0
  unfolding owned_counts purged_database delete_owned
  owned_with_access = λ i. record {
    binary_access = count-delete_rows (λ (r : BinaryAccess). str_eq r.owner_id p) db.accesses i;
    projects = count-delete_rows (λ r. str_eq r.owner_id p) db.projects i;
    project_samples =
        count_none _ (purged_database p true db).samples (λ r. no_projects r.project_id) i;
    annotations = count-delete_rows (λ r. str_eq r.owner_id p) db.annotations i;
    bookmarks = count-delete_rows (λ r. str_eq r.owner_id p) db.bookmarks i;
    artifacts = count-delete_rows (λ r. str_eq r.owner_id p) db.artifacts i;
    jobs = count-delete_rows (λ r. str_eq r.owner_id p) db.jobs i;
    memory_dumps = count-delete_rows (λ r. str_eq r.owner_id p) db.dumps i;
    memory_region_artifacts = count-delete_rows (λ r. str_eq r.owner_id p) db.regions i;
    dynamic_runs = count-delete_rows (λ r. str_eq r.owner_id p) db.runs i;
    ctf_workspaces = count-delete_rows (λ r. str_eq r.owner_id p) db.workspaces i;
    ctf_notes =
        count_none _ (purged_database p true db).notes (λ r. no_workspaces r.workspace_id) i;
    challenge_attempts = count-delete_rows (λ r. str_eq r.owner_id p) db.attempts i;
  }

  -- Nothing owned is left but access rows that were not asked for.
  pub owned-purged_database :
      (include_access : Bool)
      → owned_counts p (purged_database p include_access db)
        ≡ only_access (if include_access then 0 else (owned_counts p db).binary_access)
  unfolding owned_counts purged_database delete_owned
  owned-purged_database true = owned_with_access
  owned-purged_database false = λ i. record (owned_with_access i) {
    binary_access = count (λ (r : BinaryAccess). str_eq r.owner_id p) db.accesses;
  }
