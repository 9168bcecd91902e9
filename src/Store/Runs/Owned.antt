-- ===== src/Store/Runs/Owned.antt =====
-- Owners and their runs, artifacts and attempts, in backend/reversing_lab/database/repository.py.
use reversing_lab.Prelude.{
  ◌≡◌, ◌⊎◌, inl, inr, String, Bool, true, ◌&&◌, some, List, [], ◌∷◌, ◌++◌, if◌then◌else◌, str_eq,
  eq_iff, arith, Bool-cases, Option-cases,
}
use reversing_lab.Jobs.Repository.{Scope}
use reversing_lab.Store.Table.{find_row, is_there, is_there-append}
use reversing_lab.Store.Binaries.{Bytes, Store, has_binary_access}
use reversing_lab.Store.Binaries.Isolation.{only}
use reversing_lab.Store.Regions.{write_new}
use reversing_lab.Store.Runs.{
  Artifact, Derived, is_artifact, new_artifact, save_artifact, Run, by_id, by_job, get_run, Attempt,
  record_attempt, solved_slugs,
}

find_row-holds {ℓ} :
    {A : Type ℓ} (test : A → Bool) (rows : List A) (row : A)
    → find_row test rows ≡ some row
    → test row ≡ true
unfolding find_row
find_row-holds test [] row h = cc
find_row-holds test (x ∷ rows) row h = elim (Bool-cases (test x)) [
  | inl holds ↦ let same : x ≡ row = ground (arith, h, holds) in rw (← same) holds
  | inr fails ↦ find_row-holds test rows row (ground (arith, h, fails))
]

-- A restricted reader gets only runs of its own, and only under the identifier of the run or of its job.
pub get_run_owned :
    (owner run_id : String) (runs : List Run) (run : Run)
    → get_run (only owner) run_id runs ≡ some run
    → (run.owner_id ≡ owner) × ((run.id ≡ run_id) ⊎ (run.job_id ≡ run_id))
unfolding get_run
get_run_owned owner run_id runs run h =
    elim (Option-cases (find_row (by_id (only owner) run_id) runs)) [
      | inl absent ↦
          let at_job : find_row (by_job (only owner) run_id) runs ≡ some run =
            ground (arith, h, absent) in
          let holds = find_row-holds (by_job (only owner) run_id) runs run at_job in
          (
            ground (arith, holds, eq_iff run.owner_id owner),
            inr (ground (arith, holds, eq_iff run.job_id run_id)),
          )
      | inr there ↦
          let at_id : find_row (by_id (only owner) run_id) runs ≡ some run =
            ground (arith, h, there.1) in
          let holds = find_row-holds (by_id (only owner) run_id) runs run at_id in
          (
            ground (arith, holds, eq_iff run.owner_id owner),
            inl (ground (arith, holds, eq_iff run.id run_id)),
          )
    ]

-- Saving the same artifact again changes neither rows nor files.
pub save_artifact_again :
    (scope : Scope) (store : Store) (d : Derived) (artifacts : List Artifact)
    (files : List (String × Bytes))
    → has_binary_access scope d.binary_sha256 store ≡ true
    → (artifacts' : List Artifact) × (files' : List (String × Bytes)) × (save_artifact scope store d
          artifacts files
        ≡ some (artifacts', files'))
      × (save_artifact scope store d artifacts' files' ≡ some (artifacts', files'))
unfolding save_artifact
save_artifact_again scope store d artifacts files access =
    let test = is_artifact scope.owner_id d.binary_sha256 d.kind d.content_sha256 in
    elim (Bool-cases (is_there test artifacts)) [
      | inl there ↦ (artifacts, files, ground (arith, access, there), ground (arith, access, there))
      | inr fresh ↦
          let rows = artifacts ++ new_artifact scope d ∷ [] in
          let now_there : is_there test rows ≡ true = ground (
            arith,
            is_there-append test artifacts (new_artifact scope d),
            fresh,
            eq_iff scope.owner_id scope.owner_id,
            eq_iff d.binary_sha256 d.binary_sha256,
            eq_iff d.kind d.kind,
            eq_iff d.content_sha256 d.content_sha256,
          ) in
          (
            rows,
            write_new d.path d.content files,
            ground (arith, access, fresh),
            ground (arith, access, now_there),
          )
    ]

-- For a restricted reader an attempt adds its slug to the solved ones exactly when it is correct and the
-- reader's own.
pub solved_slugs-record_attempt :
    (scope : Scope) (owner slug submission : String) (correct : Bool) (attempts : List Attempt)
    → solved_slugs (only owner) (record_attempt scope slug submission correct attempts)
      ≡ solved_slugs (only owner) attempts
        ++ (if correct && str_eq scope.owner_id owner then slug ∷ [] else [])
unfolding solved_slugs record_attempt
solved_slugs-record_attempt scope owner slug submission correct [] =
    ground (arith, Bool-cases (correct && str_eq scope.owner_id owner))
solved_slugs-record_attempt scope owner slug submission correct (a ∷ attempts) =
    let rest = solved_slugs-record_attempt scope owner slug submission correct attempts in
    ground (arith, Bool-cases (a.correct && str_eq a.owner_id owner), rest)
