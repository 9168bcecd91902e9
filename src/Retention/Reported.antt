-- ===== src/Retention/Reported.antt =====
-- What a purge in backend/reversing_lab/database/retention.py reports, against what it does.
use mathlib.Core.Path.{subst}
use reversing_lab.Prelude.{
  ◌+◌, ◌≡◌, refl, sym, ap, String, Bool, true, false, not, ◌&&◌, none, List, ◌++◌, All, length,
  if◌then◌else◌, ◌==◌, arith,
}
use reversing_lab.Store.Table.{find_row, is_there}
use reversing_lab.Store.Binaries.{Bytes, is_binary, is_access}
use reversing_lab.Retention.Database.{Database, active_jobs, owned_counts, owned_hashes}
use reversing_lab.Retention.Files.{removable}
use reversing_lab.Retention.Purge.{
  Report, purged, conflict, purge, purged_database, purged_files, binary_paths, candidates,
  binary_has_references, delete_owned, deleted_counts, count_paths,
}
use reversing_lab.Retention.Emptied.{
  sizes, add_counts, only_access, sizes-purged_database, owned-purged_database,
}
use reversing_lab.Retention.Swept.{Keyed, count-sweep_binaries, find_row-sweep_binaries}
use reversing_lab.Retention.Reclaimed.{OnePerPath, total, remove_files_balanced}
use reversing_lab.Retention.Removed.{Settled, remove_files-Settled}

purged_parts :
    (idle : Bool) (db db' : Database) (files files' : List (String × Bytes))
    (report report' : Report)
    → (if idle then purged db files report else conflict) ≡ purged db' files' report'
    → (idle ≡ true) × (db ≡ db') × (files ≡ files') × (report ≡ report')
purged_parts true db db' files files' report report' h = (refl, cc, cc, cc)
purged_parts false db db' files files' report report' h = cc

-- The rows before and after, against the report.
abbrev pub RowsAccounted : String → Bool → Database → Database → Report → Type 0
RowsAccounted p include_access db db' report =
    (add_counts report.deleted_counts (sizes db') ≡ sizes db)
    × (owned_counts p db'
        ≡ only_access (if include_access then 0 else (owned_counts p db).binary_access))
    × (report.binary_records_deleted + length db'.binaries ≡ length db.binaries)
    × ((sha : String)
        → find_row (is_binary sha) db'.binaries ≡ (
            if include_access
              && is_there (is_access p sha) db.accesses
              && not (binary_has_references db' sha)
            then none
            else find_row (is_binary sha) db.binaries))

rows_accounted :
    (p : String) (include_access : Bool) (db : Database) (report : Report)
    → Keyed db.binaries
    → report.deleted_counts ≡ deleted_counts include_access (owned_counts p db)
    → report.binary_records_deleted ≡ count_paths (binary_paths p include_access db)
    → RowsAccounted p include_access db (purged_database p include_access db) report
unfolding purged_database binary_paths delete_owned binary_has_references
rows_accounted p include_access db report keyed counts deleted =
    let left = delete_owned p include_access db in
    (
      rw counts (sizes-purged_database p db include_access),
      owned-purged_database p db include_access,
      rw deleted (count-sweep_binaries include_access (owned_hashes p db.accesses) left keyed),
      λ sha. find_row-sweep_binaries include_access p sha db.accesses left,
    )

module _ (resolve : String → String) (is_allowed is_locked : String → Bool) where
  -- The files before and after, against the report.
  abbrev pub FilesAccounted :
      String
      → Bool
      → Database
      → Database
      → List (String × Bytes)
      → List (String × Bytes)
      → Report
      → Type 0
  FilesAccounted p include_access db db' files files' report =
      (report.files_removed + length files' ≡ length files)
      × (report.bytes_reclaimed + total files' ≡ total files)
      × All (Settled resolve is_allowed is_locked db' files')
          (candidates p db ++ binary_paths p include_access db)

  files_accounted :
      (p : String) (include_access : Bool) (db : Database) (files : List (String × Bytes))
      (report : Report)
      → OnePerPath files
      → report.files_removed
        ≡ (purged_files resolve is_allowed is_locked p include_access db files).removed
      → report.bytes_reclaimed
        ≡ (purged_files resolve is_allowed is_locked p include_access db files).reclaimed
      → FilesAccounted p include_access db
          (purged_database p include_access db)
          files
          (purged_files resolve is_allowed is_locked p include_access db files).files
          report
  unfolding purged_files
  files_accounted p include_access db files report one removed reclaimed =
      let paths = candidates p db ++ binary_paths p include_access db in
      let db' = purged_database p include_access db in
      let balanced =
        remove_files_balanced resolve is_allowed is_locked (removable db' paths) files one in
      (
        rw removed balanced.0,
        rw reclaimed balanced.1,
        remove_files-Settled resolve is_allowed is_locked db' paths files,
      )

  -- A purge that is not refused, of binaries whose digests are a key and files whose paths differ: each
  -- table, the binaries and the directory shrink by exactly what it reports; nothing that the principal
  -- owns is left but, where they were not asked for, all its access rows; a binary is deleted exactly
  -- when access rows are, the principal had one of it, and no row that is left refers to it; and each
  -- candidate path has a row of its kind that refers to it, leads out of the roots or to a file that
  -- cannot be removed, or leads to no file any more. It is refused while the principal has a job that is
  -- queued or running.
  pub purge_reports :
      (p : String) (include_access : Bool) (db db' : Database)
      (files files' : List (String × Bytes)) (report : Report)
      → Keyed db.binaries
      → OnePerPath files
      → purge resolve is_allowed is_locked p include_access db files ≡ purged db' files' report
      → (active_jobs p db ≡ 0)
        × RowsAccounted p include_access db db' report
        × FilesAccounted p include_access db db' files files' report
  unfolding purge
  purge_reports p include_access db db' files files' report keyed one h =
      let (idle, same_db, same_files, same_report) =
        purged_parts (active_jobs p db == 0) _ db' _ files' _ report h in
      let counts = ap (λ (r : Report). r.deleted_counts) (sym same_report) in
      let deleted = ap (λ (r : Report). r.binary_records_deleted) (sym same_report) in
      let removed = ap (λ (r : Report). r.files_removed) (sym same_report) in
      let reclaimed = ap (λ (r : Report). r.bytes_reclaimed) (sym same_report) in
      let removal = purged_files resolve is_allowed is_locked p include_access db files in
      (
        ground (arith, idle),
        subst (λ d. RowsAccounted p include_access db d report) same_db
            (rows_accounted p include_access db report keyed counts deleted),
        subst (λ fs. FilesAccounted p include_access db db' files fs report) same_files
            (subst (λ d. FilesAccounted p include_access db d files removal.files report) same_db
              (files_accounted p include_access db files report one removed reclaimed)),
      )
