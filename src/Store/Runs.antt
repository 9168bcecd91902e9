-- ===== src/Store/Runs.antt =====
-- `ArtifactRepository`, `DynamicRunRepository` and `ChallengeAttemptRepository` of
-- backend/reversing_lab/database/repository.py. Digests, paths and the texts of `json.dumps` are
-- arguments; rows are in the order of insertion.
pub mod Owned
use reversing_lab.Prelude.{
  ℕ, String, Bool, true, false, not, ◌&&◌, ◌||◌, Option, none, some, List, [], ◌∷◌, ◌++◌, keep, map,
  length, any, if◌then◌else◌, str_eq,
}
use mathlib.Core.List.{reverse}
use reversing_lab.Prelude.Dict.{lookup, insert}
use reversing_lab.Prelude.Text.{text_take}
use reversing_lab.Jobs.Repository.{Scope}
use reversing_lab.Store.Table.{find_row, change_row, is_there}
use reversing_lab.Store.Binaries.{Bytes, Store, has_binary_access}
use reversing_lab.Store.Regions.{write_new}

pub record Artifact : Type 0 where
  pub id : String
  pub owner_id : String
  pub binary_sha256 : String
  pub kind : String
  pub content_sha256 : String
  pub size : ℕ
  pub storage_path : String
  pub metadata_json : String

abbrev pub is_artifact : String → String → String → String → Artifact → Bool
is_artifact owner sha kind content a =
    str_eq a.owner_id owner
    && str_eq a.binary_sha256 sha
    && str_eq a.kind kind
    && str_eq a.content_sha256 content

-- What is to be stored, with its digest, the path of that and the dumped metadata.
pub record Derived : Type 0 where
  pub id : String
  pub binary_sha256 : String
  pub kind : String
  pub content : Bytes
  pub content_sha256 : String
  pub path : String
  pub metadata_json : String

abbrev pub new_artifact : Scope → Derived → Artifact
new_artifact scope d = record {
  id = d.id;
  owner_id = scope.owner_id;
  binary_sha256 = d.binary_sha256;
  kind = d.kind;
  content_sha256 = d.content_sha256;
  size = length d.content;
  storage_path = d.path;
  metadata_json = d.metadata_json;
}

-- The rows and the directory after `save`; `none` where it raises.
unfoldable pub save_artifact :
    Scope
    → Store
    → Derived
    → List Artifact
    → List (String × Bytes)
    → Option (List Artifact × List (String × Bytes))
unfolding has_binary_access is_there write_new
save_artifact scope store d artifacts files =
    if has_binary_access scope d.binary_sha256 store
    then some (
        if is_there (is_artifact scope.owner_id d.binary_sha256 d.kind d.content_sha256) artifacts
        then (artifacts, files)
        else (artifacts ++ new_artifact scope d ∷ [], write_new d.path d.content files))
    else none

-- Newest first.
unfoldable pub list_artifacts : Scope → String → List Artifact → List Artifact
list_artifacts scope sha artifacts = reverse (
    keep
      (λ (a : Artifact).
        str_eq a.binary_sha256 sha && (scope.unrestricted || str_eq a.owner_id scope.owner_id))
      artifacts)

pub record Run : Type 0 where
  pub id : String
  pub owner_id : String
  pub job_id : String
  pub binary_sha256 : String
  pub provider : String
  pub policy_json : String
  pub result_path : Option String

unfoldable pub create_run :
    Scope → Store → String → String → String → String → String → List Run → Option (List Run)
unfolding has_binary_access
create_run scope store run_id job_id sha provider policy_json runs =
    if has_binary_access scope sha store
    then some (
        runs
        ++ record {
          id = run_id;
          owner_id = scope.owner_id;
          job_id = job_id;
          binary_sha256 = sha;
          provider = provider;
          policy_json = policy_json;
          result_path = none;
        }
          ∷ [])
    else none

abbrev pub run_in_scope : Scope → Run → Bool
run_in_scope scope run = scope.unrestricted || str_eq run.owner_id scope.owner_id

abbrev pub by_id : Scope → String → Run → Bool
by_id scope run_id run = str_eq run.id run_id && run_in_scope scope run

abbrev pub by_job : Scope → String → Run → Bool
by_job scope job_id run = str_eq run.job_id job_id && run_in_scope scope run

abbrev pub or_else : Option Run → Option Run → Option Run
or_else none other = other
or_else (some run) other = some run

-- By the identifier of the run, and else by that of its job.
unfoldable pub get_run : Scope → String → List Run → Option Run
unfolding find_row
get_run scope run_id runs =
    or_else (find_row (by_id scope run_id) runs) (find_row (by_job scope run_id) runs)

unfoldable pub list_for_binary : Scope → String → List Run → List Run
list_for_binary scope sha runs =
    reverse (keep (λ (r : Run). str_eq r.binary_sha256 sha && run_in_scope scope r) runs)

abbrev pub result_set :
    Option Run
    → Bytes
    → String
    → List Run
    → List (String × Bytes)
    → Option (List Run × List (String × Bytes))
result_set none bytes path runs files = none
result_set (some found_run) bytes path runs files = some (
  change_row (λ (r : Run). str_eq r.id found_run.id) (λ r. record r { result_path = some path })
      runs,
  write_new path bytes files,
)

-- With the path of the digest.
unfoldable pub set_result :
    Scope
    → String
    → Bytes
    → String
    → List Run
    → List (String × Bytes)
    → Option (List Run × List (String × Bytes))
unfolding get_run change_row write_new
set_result scope run_id bytes path runs files =
    result_set (get_run scope run_id runs) bytes path runs files

pub record Attempt : Type 0 where
  pub owner_id : String
  pub challenge_slug : String
  pub submission : String
  pub correct : Bool

unfoldable pub record_attempt : Scope → String → String → Bool → List Attempt → List Attempt
record_attempt scope slug submission correct attempts =
    attempts
    ++ record {
      owner_id = scope.owner_id;
      challenge_slug = slug;
      submission = text_take 512 submission;
      correct = correct;
    }
      ∷ []

-- The set of slugs, as a list that can name one more than once.
unfoldable pub solved_slugs : Scope → List Attempt → List String
solved_slugs scope attempts =
    map (λ (a : Attempt). a.challenge_slug)
      (keep (λ (a : Attempt). a.correct && (scope.unrestricted || str_eq a.owner_id scope.owner_id))
        attempts)
