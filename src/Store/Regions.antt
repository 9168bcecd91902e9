-- ===== src/Store/Regions.antt =====
-- `MemoryDumpRepository` of backend/reversing_lab/database/repository.py. The digest,
-- the paths of a directory and whether a path resolves to the file of a digest in its directory are
-- parameters; a directory is a dictionary from paths to bytes. Rows are in the order of insertion.
pub mod Integrity
use reversing_lab.Prelude.{
  ℕ, String, Bool, true, false, not, ◌&&◌, ◌||◌, Option, none, some, List, [], ◌∷◌, ◌++◌, keep,
  take, drop, length, if◌then◌else◌, ltb, leb, ◌==◌, str_eq,
}
use mathlib.Core.List.{reverse}
use reversing_lab.Prelude.Dict.{lookup, insert}
use reversing_lab.Jobs.Repository.{Scope}
use reversing_lab.Store.Table.{find_row, change_row, is_there}
use reversing_lab.Store.Binaries.{Bytes}

pub record MemoryDump : Type 0 where
  pub id : String
  pub owner_id : String
  pub sha256 : String
  pub filename : String
  pub size : ℕ
  pub dump_format : String
  pub storage_path : String
  pub analysis_path : Option String
  pub analysis_provider : Option String

pub record Region : Type 0 where
  pub id : String
  pub owner_id : String
  pub memory_dump_id : String
  pub pid : ℕ
  pub start_address : ℕ
  pub end_address : ℕ
  pub architecture : String
  pub provider : String
  pub content_sha256 : String
  pub size : ℕ
  pub storage_path : String

pub data Outcome (A : Type 0) : Type 0 where
  done : A → Outcome A
  -- BinaryNotFoundError
  not_found : Outcome A
  -- the `ValueError` for a size, a path, and a digest
  bad_size : Outcome A
  bad_path : Outcome A
  bad_content : Outcome A

abbrev pub is_own_dump : String → String → MemoryDump → Bool
is_own_dump owner sha dump = str_eq dump.owner_id owner && str_eq dump.sha256 sha

-- The rows and the directory after `save`, of a dump with this digest.
unfoldable pub save_dump :
    Scope
    → String
    → String
    → Bytes
    → String
    → String
    → String
    → List MemoryDump
    → List (String × Bytes)
    → List MemoryDump × List (String × Bytes)
unfolding is_there
save_dump scope id sha bytes path filename dump_format dumps files =
    if is_there (is_own_dump scope.owner_id sha) dumps then (dumps, files) else (
      dumps
          ++ record {
            id = id;
            owner_id = scope.owner_id;
            sha256 = sha;
            filename = filename;
            size = length bytes;
            dump_format = dump_format;
            storage_path = path;
            analysis_path = none;
            analysis_provider = none;
          }
            ∷ [],
      insert path bytes files,
    )

unfoldable pub get_dump : Scope → String → List MemoryDump → Option MemoryDump
unfolding find_row
get_dump scope dump_id dumps =
    find_row
      (λ (d : MemoryDump).
        str_eq d.id dump_id && (scope.unrestricted || str_eq d.owner_id scope.owner_id))
      dumps

-- The key of a region's row.
abbrev pub is_region : String → String → ℕ → ℕ → String → String → Region → Bool
is_region owner dump_id pid start architecture digest r =
    str_eq r.owner_id owner
    && str_eq r.memory_dump_id dump_id
    && (r.pid == pid)
    && (r.start_address == start)
    && str_eq r.architecture architecture
    && str_eq r.content_sha256 digest

-- if not path.exists(): path.write_bytes(data)
unfoldable pub write_new : String → Bytes → List (String × Bytes) → List (String × Bytes)
unfolding lookup
write_new path bytes files = elim (lookup path files) [
  | some there ↦ files
  | none ↦ insert path bytes files
]

-- not data or len(data) > limit
abbrev pub is_out_of_bounds : ℕ → Bytes → Bool
is_out_of_bounds limit bytes = (length bytes == 0) || ltb limit (length bytes)

abbrev pub analysis_set :
    Option MemoryDump
    → Bytes
    → String
    → String
    → List MemoryDump
    → List (String × Bytes)
    → Option (List MemoryDump × List (String × Bytes))
analysis_set none bytes path provider dumps files = none
analysis_set (some dump) bytes path provider dumps files = some (
  change_row (λ (d : MemoryDump). str_eq d.id dump.id)
      (λ d. record d { analysis_path = some path; analysis_provider = some provider }) dumps,
  write_new path bytes files,
)

-- With the path of the digest.
unfoldable pub set_analysis :
    Scope
    → String
    → Bytes
    → String
    → String
    → List MemoryDump
    → List (String × Bytes)
    → Option (List MemoryDump × List (String × Bytes))
unfolding get_dump change_row write_new
set_analysis scope dump_id bytes path provider dumps files =
    analysis_set (get_dump scope dump_id dumps) bytes path provider dumps files

-- What a caller asks for.
pub record Request : Type 0 where
  pub pid : ℕ
  pub start_address : ℕ
  pub end_address : ℕ
  pub architecture : String
  pub provider : String
  pub content : Bytes

module _ (sha256 : Bytes → String) (path_for : String → String) where
  abbrev pub new_region : String → MemoryDump → Request → Region
  new_region id dump q = record {
    id = id;
    owner_id = dump.owner_id;
    memory_dump_id = dump.id;
    pid = q.pid;
    start_address = q.start_address;
    end_address = q.end_address;
    architecture = q.architecture;
    provider = q.provider;
    content_sha256 = sha256 q.content;
    size = length q.content;
    storage_path = path_for (sha256 q.content);
  }

  -- The row returned, the rows and the directory.
  abbrev pub Saved : Type 0
  Saved = Region × List Region × List (String × Bytes)

  abbrev pub add_region :
      String → MemoryDump → Request → List Region → List (String × Bytes) → Option Region → Saved
  add_region id dump q regions files (some existing) = (existing, regions, files)
  add_region id dump q regions files none = (
    new_region id dump q,
    regions ++ new_region id dump q ∷ [],
    write_new (path_for (sha256 q.content)) q.content files,
  )

  abbrev pub save_for :
      ℕ → String → Option MemoryDump → Request → List Region → List (String × Bytes) → Outcome Saved
  save_for limit id none q regions files = not_found
  save_for limit id (some dump) q regions files =
      if is_out_of_bounds limit q.content
      then bad_size
      else done (
          add_region id dump q regions files (
            find_row
              (is_region dump.owner_id dump.id q.pid q.start_address q.architecture
                (sha256 q.content))
              regions))

  unfoldable pub save_region_artifact :
      Scope
      → ℕ
      → String
      → String
      → Request
      → List MemoryDump
      → List Region
      → List (String × Bytes)
      → Outcome Saved
  unfolding get_dump find_row write_new
  save_region_artifact scope limit id dump_id q dumps regions files =
      save_for limit id (get_dump scope dump_id dumps) q regions files

abbrev pub when_dump : Option MemoryDump → Option Region → Option Region
when_dump none o = none
when_dump (some dump) o = o

unfoldable pub get_region_artifact :
    Scope → String → String → List MemoryDump → List Region → Option Region
unfolding get_dump find_row
get_region_artifact scope dump_id artifact_id dumps regions =
    when_dump (get_dump scope dump_id dumps) (
      find_row
        (λ (r : Region).
          str_eq r.id artifact_id
          && str_eq r.memory_dump_id dump_id
          && (scope.unrestricted || str_eq r.owner_id scope.owner_id))
        regions)

abbrev pub page_of : Option MemoryDump → ℕ → ℕ → List Region → Option (List Region × ℕ)
page_of none limit offset rows = none
page_of (some dump) limit offset rows = some (take limit (drop offset (reverse rows)), length rows)

-- The page, newest first, and the total.
unfoldable pub list_region_artifacts :
    Scope → String → ℕ → ℕ → List MemoryDump → List Region → Option (List Region × ℕ)
unfolding get_dump
list_region_artifacts scope dump_id limit offset dumps regions =
    page_of (get_dump scope dump_id dumps) limit offset (
      keep
        (λ (r : Region).
          str_eq r.memory_dump_id dump_id
          && (scope.unrestricted || str_eq r.owner_id scope.owner_id))
        regions)

module _ (sha256 : Bytes → String) (is_file_of : String → String → Bool) where
  -- The checks on the bytes that were read.
  abbrev pub validated : ℕ → Region → Option Bytes → Outcome Bytes
  validated limit r none = bad_path
  validated limit r (some bytes) =
      if not (length bytes == r.size)
        || ltb limit (length bytes)
        || not (str_eq (sha256 bytes) r.content_sha256)
      then bad_content
      else done bytes

  unfoldable pub read_region_artifact : ℕ → Region → List (String × Bytes) → Outcome Bytes
  unfolding lookup
  read_region_artifact limit r files =
      if is_file_of r.storage_path r.content_sha256
      then validated limit r (lookup r.storage_path files)
      else bad_path
