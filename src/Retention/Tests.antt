-- ===== src/Retention/Tests.antt =====
-- Runs of the model, and each theorem at an input.
use reversing_lab.Prelude.{
  ◌≡◌, ◌≢◌, inl, inr, refl, String, Bool, true, false, List, [], ◌∷◌, str_eq, eq_iff, arith,
  Bool-cases,
}
use reversing_lab.Prelude.Dict.{lookup}
use reversing_lab.Store.Table.{find_row, is_there, delete_rows}
use reversing_lab.Store.Binaries.{Bytes, BinaryRecord, BinaryAccess}
use reversing_lab.Store.Runs.{Artifact}
use reversing_lab.Retention.Database.{
  Database, count, owned_counts, active_jobs, in_projects, in_workspaces, owned_hashes, preview,
  orphanable, orphanable_binaries,
}
use reversing_lab.Retention.Files.{
  Kind, path_has_reference, removable, remove_files, remove_all, remove_one, sorted_set, place,
  unlink,
}
use reversing_lab.Retention.Purge.{
  candidates, artifact_paths, region_paths, dump_paths, run_paths, binary_paths, purged_database,
  purged_files, purge, Report, delete_owned, sweep_binaries, sweep, binary_has_references,
  deleted_counts,
}
use reversing_lab.Retention.Survivors.{belongings, belongings-purged_database}
use reversing_lab.Retention.Reported.{RowsAccounted, FilesAccounted, purge_reports}
use reversing_lab.Retention.Referenced.{lookup-purged_files}

abbrev artifact_of : String → String → Artifact
artifact_of owner path = record {
  id = path;
  owner_id = owner;
  binary_sha256 = "s1";
  kind = "strings";
  content_sha256 = path;
  size = 1;
  storage_path = path;
  metadata_json = "{}";
}

abbrev binary_of : String → BinaryRecord
binary_of sha = record {
  sha256 = sha;
  filename = "x";
  binary_format = "elf";
  size = 9;
  storage_path = sha;
}

abbrev access_of : String → String → BinaryAccess
access_of owner sha = record { owner_id = owner; binary_sha256 = sha; filename = "x" }

-- Both use the binary "s1" and the artifact file "a1"; "s2" and "a2" are bob's only.
abbrev db : Database
db = record {
  binaries = binary_of "s1" ∷ binary_of "s2" ∷ [];
  accesses = access_of "bob" "s1" ∷ access_of "ann" "s1" ∷ access_of "bob" "s2" ∷ [];
  projects =
      record { id = "p1"; name = "case"; description = ""; owner_id = "bob" }
      ∷ record { id = "p2"; name = "case"; description = ""; owner_id = "ann" }
      ∷ [];
  samples = record { project_id = "p1"; binary_sha256 = "s2" } ∷ [];
  annotations = [];
  bookmarks = [];
  artifacts = artifact_of "bob" "a1" ∷ artifact_of "ann" "a1" ∷ artifact_of "bob" "a2" ∷ [];
  jobs = [];
  dumps = [];
  regions = [];
  runs = [];
  workspaces = [];
  notes = [];
  attempts = [];
}

abbrev files : List (String × Bytes)
files = ("a1", 1 ∷ []) ∷ ("a2", 2 ∷ []) ∷ ("s2", 3 ∷ 4 ∷ []) ∷ ("s1", 5 ∷ []) ∷ []

abbrev same : String → String
same path = path

abbrev always : String → Bool
always path = true

abbrev never : String → Bool
never path = false

files_left :
    (purged_files same always never "bob" true db files).files
    ≡ ("a1", 1 ∷ []) ∷ ("s1", 5 ∷ []) ∷ []
unfolding purged_files candidates artifact_paths region_paths dump_paths run_paths binary_paths
    sweep_binaries sweep binary_has_references is_there find_row delete_rows delete_owned removable
    path_has_reference remove_files remove_all remove_one sorted_set place unlink lookup
    purged_database owned_hashes in_projects in_workspaces
files_left = refl

previewed : (preview "bob" true db).orphanable_binary_count ≡ 1
unfolding preview orphanable_binaries orphanable owned_hashes count find_row
previewed = refl

bob_is_not_ann : ◌≢◌ {A = String} "bob" "ann"
bob_is_not_ann = λ e. ground (arith, e, eq_iff "bob" "ann")

-- The identifiers of bob's projects are not those of ann's.
projects_apart :
    (id : String)
    → in_projects "bob" db.projects id ≡ true
    → in_projects "ann" db.projects id ≡ false
unfolding in_projects is_there
projects_apart id h = ground (
  arith,
  h,
  eq_iff "p1" id,
  eq_iff "p2" id,
  eq_iff "p1" "p2",
  Bool-cases (str_eq "p1" id),
  Bool-cases (str_eq "p2" id),
)

workspaces_apart :
    (id : String)
    → in_workspaces "bob" db.workspaces id ≡ true
    → in_workspaces "ann" db.workspaces id ≡ false
unfolding in_workspaces is_there
workspaces_apart id h = refl

belongings-purged_database_example :
    belongings "ann" (purged_database "bob" true db) ≡ belongings "ann" db
belongings-purged_database_example =
    belongings-purged_database "bob" "ann" bob_is_not_ann true db projects_apart workspaces_apart

-- What the purge reports.
abbrev report : Report
report = record {
  deleted_counts = record {
    binary_access = 2;
    projects = 1;
    project_samples = 1;
    annotations = 0;
    bookmarks = 0;
    artifacts = 2;
    jobs = 0;
    memory_dumps = 0;
    memory_region_artifacts = 0;
    dynamic_runs = 0;
    ctf_workspaces = 0;
    ctf_notes = 0;
    challenge_attempts = 0;
  };
  binary_records_deleted = 1;
  files_removed = 2;
  bytes_reclaimed = 3;
  warnings = 0;
}

abbrev left : List (String × Bytes)
left = ("a1", 1 ∷ []) ∷ ("s1", 5 ∷ []) ∷ []

purge_reports_example :
    (active_jobs "bob" db ≡ 0)
    × RowsAccounted "bob" true db (purged_database "bob" true db) report
    × FilesAccounted same always never "bob" true db
        (purged_database "bob" true db)
        files
        left
        report
unfolding purge purged_files candidates artifact_paths region_paths dump_paths run_paths
    binary_paths sweep_binaries sweep binary_has_references is_there find_row delete_rows
    delete_owned removable path_has_reference remove_files remove_all remove_one sorted_set place
    unlink lookup purged_database owned_hashes in_projects in_workspaces active_jobs owned_counts
    deleted_counts count
purge_reports_example =
    purge_reports same always never "bob" true db (purged_database "bob" true db) files left report
      (refl, (refl, tt)) (refl, (refl, (refl, (refl, tt)))) refl

lookup-purged_files_example :
    lookup "a1" (purged_files same always never "bob" true db files).files ≡ lookup "a1" files
unfolding candidates artifact_paths region_paths dump_paths run_paths binary_paths sweep_binaries
    sweep binary_has_references is_there find_row delete_rows delete_owned path_has_reference
    purged_database owned_hashes in_projects in_workspaces
lookup-purged_files_example =
    lookup-purged_files same always never "bob" true db files Kind.artifact "a1" refl
      (inr (refl, refl), (inl refl, (inl refl, tt)))
