-- ===== src/Retention/Files.antt =====
-- The files of backend/reversing_lab/database/retention.py: `_path_has_reference` and `_remove_files`.
use Prim.Native.Nat.{Ordering}
use Prim.Native.String.{compare}
use reversing_lab.Prelude.{
  ℕ, ◌+◌, String, Bool, true, false, Option, none, some, List, [], ◌∷◌, length, if◌then◌else◌,
  str_eq,
}
use reversing_lab.Prelude.Dict.{lookup}
use reversing_lab.Store.Table.{is_there}
use reversing_lab.Store.Binaries.{Bytes}
use reversing_lab.Store.Regions.{MemoryDump, Region}
use reversing_lab.Store.Runs.{Artifact, Run}
use reversing_lab.Retention.Database.{Database}

-- The kinds of files that a purge may remove.
pub data Kind : Type 0 where
  artifact memory memory_analysis memory_region dynamic binary : Kind

abbrev pub is_path : String → Option String → Bool
is_path path none = false
is_path path (some p) = str_eq p path

unfoldable pub path_has_reference : Database → Kind → String → Bool
unfolding is_there
path_has_reference db artifact path =
    is_there (λ (r : Artifact). str_eq r.storage_path path) db.artifacts
path_has_reference db memory path =
    is_there (λ (r : MemoryDump). str_eq r.storage_path path) db.dumps
path_has_reference db memory_analysis path =
    is_there (λ (r : MemoryDump). is_path path r.analysis_path) db.dumps
path_has_reference db memory_region path =
    is_there (λ (r : Region). str_eq r.storage_path path) db.regions
path_has_reference db dynamic path = is_there (λ (r : Run). is_path path r.result_path) db.runs
path_has_reference db binary path = false

-- The paths of the candidates that no row refers to.
unfoldable pub removable : Database → List (Kind × String) → List String
unfolding path_has_reference
removable db [] = []
removable db ((kind, path) ∷ candidates) =
    let rest = removable db candidates in
    if path_has_reference db kind path then rest else path ∷ rest

-- A text into a sorted set of texts.
unfoldable pub place : String → List String → List String
place path [] = path ∷ []
place path (p ∷ paths) = elim (compare path p) [
  | Ordering.lt ↦ path ∷ p ∷ paths
  | Ordering.eq ↦ p ∷ paths
  | Ordering.gt ↦ p ∷ place path paths
]

-- sorted(set(paths))
unfoldable pub sorted_set : List String → List String
unfolding place
sorted_set [] = []
sorted_set (path ∷ paths) = place path (sorted_set paths)

-- The files that are left, and what the report says.
pub record Removal : Type 0 where
  pub files : List (String × Bytes)
  pub removed : ℕ
  pub reclaimed : ℕ
  pub warnings : ℕ

-- path.unlink()
unfoldable pub unlink : String → List (String × Bytes) → List (String × Bytes)
unlink path [] = []
unlink path ((p, bytes) ∷ files) =
    let rest = unlink path files in if str_eq p path then rest else (p, bytes) ∷ rest

abbrev pub unlinked : String → Option Bytes → Bool → Removal → Removal
unlinked path none locked r = r
unlinked path (some bytes) true r = record r { warnings = r.warnings + 1 }
unlinked path (some bytes) false r = record r {
  files = unlink path r.files;
  removed = r.removed + 1;
  reclaimed = r.reclaimed + length bytes;
}

module _ (resolve : String → String) (is_allowed is_locked : String → Bool) where
  -- The body of the loop, for a resolved path.
  unfoldable pub remove_one : String → Removal → Removal
  unfolding lookup unlink
  remove_one path r =
      if is_allowed path
      then unlinked path (lookup path r.files) (is_locked path) r
      else record r { warnings = r.warnings + 1 }

  unfoldable pub remove_all : List String → Removal → Removal
  unfolding remove_one
  remove_all [] r = r
  remove_all (raw_path ∷ paths) r = remove_all paths (remove_one (resolve raw_path) r)

  unfoldable pub remove_files : List String → List (String × Bytes) → Removal
  unfolding remove_all sorted_set
  remove_files paths files =
      remove_all (sorted_set paths)
        (record { files = files; removed = 0; reclaimed = 0; warnings = 0 })
