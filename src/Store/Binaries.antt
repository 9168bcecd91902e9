-- ===== src/Store/Binaries.antt =====
-- `BinaryRepository` of backend/reversing_lab/database/repository.py, with the owner scope of
-- `_OwnedRepository`. `none` stands for `BinaryNotFoundError`. The digest, the path of a name in the
-- storage directory and whether a path resolves inside it are parameters. A directory is a dictionary
-- from paths to bytes. Rows are in the order of insertion, which is that of `created_at`.
pub mod Isolation
pub mod Content
use reversing_lab.Prelude.{
  ℕ, String, Bool, true, false, not, ◌&&◌, ◌||◌, Option, none, some, List, [], ◌∷◌, ◌++◌, keep,
  take, length, if◌then◌else◌, str_eq,
}
use mathlib.Core.Option
use mathlib.Core.List.{reverse}
use reversing_lab.Prelude.Dict.{lookup, insert}
use reversing_lab.Access.Keys.{is_digest}
use reversing_lab.Jobs.Repository.{Scope}
use reversing_lab.Store.Table.{find_row, change_row, is_there}

abbrev pub Bytes : Type 0
Bytes = List ℕ

pub record BinaryRecord : Type 0 where
  pub sha256 : String
  pub filename : String
  pub binary_format : String
  pub size : ℕ
  pub storage_path : String

pub record BinaryAccess : Type 0 where
  pub owner_id : String
  pub binary_sha256 : String
  pub filename : String

pub record Store : Type 0 where
  pub binaries : List BinaryRecord
  pub accesses : List BinaryAccess
  pub files : List (String × Bytes)

abbrev pub is_binary : String → BinaryRecord → Bool
is_binary sha b = str_eq b.sha256 sha

-- The primary key of an access row.
abbrev pub is_access : String → String → BinaryAccess → Bool
is_access owner sha a = str_eq a.owner_id owner && str_eq a.binary_sha256 sha

-- `_require_binary_access`: false where it raises.
unfoldable pub has_binary_access : Scope → String → Store → Bool
unfolding is_there
has_binary_access scope sha store =
    is_there (is_binary sha) store.binaries
    && (scope.unrestricted || is_there (is_access scope.owner_id sha) store.accesses)

abbrev pub new_access : Scope → String → String → BinaryAccess
new_access scope sha filename = record {
  owner_id = scope.owner_id;
  binary_sha256 = sha;
  filename = filename;
}

-- `_grant_access`
unfoldable pub grant_access : Scope → String → String → List BinaryAccess → List BinaryAccess
unfolding is_there change_row
grant_access scope sha filename accesses =
    if is_there (is_access scope.owner_id sha) accesses
    then change_row (is_access scope.owner_id sha) (λ a. record a { filename = filename }) accesses
    else accesses ++ new_access scope sha filename ∷ []

unfoldable pub get : Scope → String → Store → Option BinaryRecord
unfolding find_row is_there
get scope sha store =
    let record_there = find_row (is_binary sha) store.binaries in
    if is_digest sha
    then (if scope.unrestricted || is_there (is_access scope.owner_id sha) store.accesses
        then record_there
        else none)
    else none

unfoldable pub display_filename : Scope → String → Store → Option String
unfolding find_row get
display_filename scope sha store = elim (find_row (is_access scope.owner_id sha) store.accesses) [
  | some access ↦ some access.filename
  | none ↦ Option.map (λ (b : BinaryRecord). b.filename) (get scope sha store)
]

unfoldable pub list : Scope → ℕ → Store → List BinaryRecord
unfolding is_there
list scope limit store = take limit (
    reverse (
      keep (λ b. scope.unrestricted || is_there (is_access scope.owner_id b.sha256) store.accesses)
        store.binaries))

module _ (sha256 : Bytes → String) (path_for : String → String) (is_inside : String → Bool) where
  abbrev pub new_binary : Bytes → String → String → BinaryRecord
  new_binary bytes filename binary_format = record {
    sha256 = sha256 bytes;
    filename = filename;
    binary_format = binary_format;
    size = length bytes;
    storage_path = path_for (sha256 bytes);
  }

  -- The store after `save`; the record that it returns is that of the digest.
  unfoldable pub save : Scope → Bytes → String → String → Store → Store
  unfolding is_there grant_access
  save scope bytes filename binary_format store =
      let sha = sha256 bytes in
      if is_there (is_binary sha) store.binaries
      then record store { accesses = grant_access scope sha filename store.accesses }
      else record {
        binaries = store.binaries ++ new_binary bytes filename binary_format ∷ [];
        accesses = store.accesses ++ new_access scope sha filename ∷ [];
        files = insert (path_for sha) bytes store.files;
      }

  abbrev pub read_file : Store → Option BinaryRecord → String → Option Bytes
  read_file store none sha = none
  read_file store (some b) sha =
      if is_inside (path_for sha) then lookup (path_for sha) store.files else none

  unfoldable pub load_bytes : Scope → String → Store → Option Bytes
  unfolding get
  load_bytes scope sha store = read_file store (get scope sha store) sha
