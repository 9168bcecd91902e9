-- ===== src/Retention/Survivors.antt =====
-- What a purge in backend/reversing_lab/database/retention.py leaves to other owners.
use reversing_lab.Prelude.{
  ◌≡◌, ◌≢◌, inl, inr, refl, ap, ◌∙◌, String, Bool, true, false, ◌&&◌, Option, none, some, List, [],
  ◌∷◌, keep, str_eq, eq_iff, arith, Bool-cases, if_keeps,
}
use reversing_lab.Jobs.Record.{Job}
use reversing_lab.Store.Table.{find_row, is_there}
use reversing_lab.Store.Binaries.{BinaryRecord, BinaryAccess, is_binary, is_access}
use reversing_lab.Store.Overlays.{Annotation, Bookmark}
use reversing_lab.Store.Projects.{Project, Membership}
use reversing_lab.Store.Regions.{MemoryDump, Region}
use reversing_lab.Store.Runs.{Artifact, Run, Attempt}
use reversing_lab.Store.Ctf.{Workspace, Note}
use reversing_lab.Retention.Database.{Database, in_projects, in_workspaces, owned_hashes}
use reversing_lab.Retention.Purge.{
  delete_owned, binary_has_references, sweep_one, sweep, sweep_binaries, purged_database, Swept,
}
use reversing_lab.Retention.Tables.{
  owner_apart, keep-delete_rows, is_there-delete_rows, is_there_weaken, keep_same,
}

-- The rows that belong to an owner: its own, those of its projects and workspaces, and the binaries to
-- which it has access.
pub record Belongings : Type 0 where
  pub binaries : List BinaryRecord
  pub accesses : List BinaryAccess
  pub projects : List Project
  pub samples : List Membership
  pub annotations : List Annotation
  pub bookmarks : List Bookmark
  pub artifacts : List Artifact
  pub jobs : List Job
  pub dumps : List MemoryDump
  pub regions : List Region
  pub runs : List Run
  pub workspaces : List Workspace
  pub notes : List Note
  pub attempts : List Attempt

unfoldable pub belongings : String → Database → Belongings
unfolding in_projects in_workspaces is_there
belongings owner db = record {
  binaries = keep (λ b. is_there (is_access owner b.sha256) db.accesses) db.binaries;
  accesses = keep (λ r. str_eq r.owner_id owner) db.accesses;
  projects = keep (λ r. str_eq r.owner_id owner) db.projects;
  samples = keep (λ r. in_projects owner db.projects r.project_id) db.samples;
  annotations = keep (λ r. str_eq r.owner_id owner) db.annotations;
  bookmarks = keep (λ r. str_eq r.owner_id owner) db.bookmarks;
  artifacts = keep (λ r. str_eq r.owner_id owner) db.artifacts;
  jobs = keep (λ r. str_eq r.owner_id owner) db.jobs;
  dumps = keep (λ r. str_eq r.owner_id owner) db.dumps;
  regions = keep (λ r. str_eq r.owner_id owner) db.regions;
  runs = keep (λ r. str_eq r.owner_id owner) db.runs;
  workspaces = keep (λ r. str_eq r.owner_id owner) db.workspaces;
  notes = keep (λ r. in_workspaces owner db.workspaces r.workspace_id) db.notes;
  attempts = keep (λ r. str_eq r.owner_id owner) db.attempts;
}

-- A sweep keeps the binaries that are referred to.
keep-sweep_one :
    (test : BinaryRecord → Bool) (sha : String) (referenced : Bool) (o : Option BinaryRecord)
    (swept : Swept)
    → ((b : BinaryRecord) → is_binary sha b ≡ true → referenced ≡ false → test b ≡ false)
    → keep test (sweep_one sha referenced o swept).0 ≡ keep test swept.0
keep-sweep_one test sha referenced none swept h = refl
keep-sweep_one test sha true (some b) swept h = refl
keep-sweep_one test sha false (some b) (binaries, paths) h =
    keep-delete_rows (is_binary sha) test test binaries (λ x. refl) (λ x hit. h x hit refl)

keep-sweep :
    (test : BinaryRecord → Bool) (db : Database) (shas : List String) (swept : Swept)
    → ((b : BinaryRecord) → test b ≡ true → binary_has_references db b.sha256 ≡ true)
    → keep test (sweep db shas swept).0 ≡ keep test swept.0
unfolding sweep
keep-sweep test db [] swept h = refl
keep-sweep test db (sha ∷ shas) swept h =
    keep-sweep test db shas _ h
    ∙ keep-sweep_one test sha (binary_has_references db sha) (find_row (is_binary sha) swept.0)
        swept
        (λ b hit unreferenced.
          let same : b.sha256 ≡ sha = (eq_iff b.sha256 sha).0 hit in
          let there : binary_has_references db b.sha256 ≡ false =
            ap (binary_has_references db) same ∙ unreferenced in
          ground (arith, h b, there, Bool-cases (test b)))

module _ (p q : String) (apart : p ≢ q) (include_access : Bool) (db : Database) where
  accesses_kept :
      (sha : String)
      → is_there (is_access q sha) (delete_owned p include_access db).accesses
        ≡ is_there (is_access q sha) db.accesses
  unfolding delete_owned
  accesses_kept sha =
      if_keeps (λ rows. is_there (is_access q sha) rows ≡ is_there (is_access q sha) db.accesses)
        include_access _ db.accesses
        (λ c.
          is_there-delete_rows (λ (r : BinaryAccess). str_eq r.owner_id p) (is_access q sha)
            db.accesses (λ a hit. ground (arith, owner_apart p q a.owner_id apart hit)))
        (λ c. refl)

  own_accesses_kept :
      keep (λ (r : BinaryAccess). str_eq r.owner_id q) (delete_owned p include_access db).accesses
      ≡ keep (λ r. str_eq r.owner_id q) db.accesses
  unfolding delete_owned
  own_accesses_kept =
      if_keeps
        (λ rows.
          keep (λ (r : BinaryAccess). str_eq r.owner_id q) rows
          ≡ keep (λ r. str_eq r.owner_id q) db.accesses)
        include_access _ db.accesses
        (λ c.
          keep-delete_rows _ _ _ db.accesses (λ x. refl)
            (λ a hit. owner_apart p q a.owner_id apart hit))
        (λ c. refl)

  -- A binary to which `q` has access is referred to.
  access_refers :
      (b : BinaryRecord)
      → is_there (is_access q b.sha256) (delete_owned p include_access db).accesses ≡ true
      → binary_has_references (delete_owned p include_access db) b.sha256 ≡ true
  unfolding binary_has_references
  access_refers b there =
      let rows = (delete_owned p include_access db).accesses in
      elim (Bool-cases (is_there (λ (r : BinaryAccess). str_eq r.binary_sha256 b.sha256) rows)) [
        | inl found_row ↦ ground (arith, found_row)
        | inr absent ↦
            let none_there =
              is_there_weaken (λ (r : BinaryAccess). str_eq r.binary_sha256 b.sha256)
                (is_access q b.sha256) rows (λ a hit. ground (arith, hit)) absent in
            ground (arith, there, none_there)
      ]

  binaries_kept :
      keep
        (λ (b : BinaryRecord).
          is_there (is_access q b.sha256) (delete_owned p include_access db).accesses)
        (purged_database p include_access db).binaries
      ≡ keep (λ b. is_there (is_access q b.sha256) db.accesses) db.binaries
  unfolding purged_database sweep_binaries
  binaries_kept =
      let left = delete_owned p include_access db in
      let test = λ (b : BinaryRecord). is_there (is_access q b.sha256) left.accesses in
      if_keeps (λ (s : Swept). keep test s.0 ≡ keep test db.binaries) include_access
        (sweep left (owned_hashes p db.accesses) (left.binaries, [])) (left.binaries, [])
        (λ c. keep-sweep test left (owned_hashes p db.accesses) (left.binaries, []) access_refers)
        (λ c. refl)
      ∙ keep_same test _ db.binaries (λ b. accesses_kept b.sha256)

  projects_kept :
      (id : String)
      → in_projects q (delete_owned p include_access db).projects id ≡ in_projects q db.projects id
  unfolding delete_owned in_projects
  projects_kept id =
      is_there-delete_rows (λ (r : Project). str_eq r.owner_id p)
        (λ r. str_eq r.owner_id q && str_eq r.id id) db.projects
        (λ r hit. ground (arith, owner_apart p q r.owner_id apart hit))

  workspaces_kept :
      (id : String)
      → in_workspaces q (delete_owned p include_access db).workspaces id
        ≡ in_workspaces q db.workspaces id
  unfolding delete_owned in_workspaces
  workspaces_kept id =
      is_there-delete_rows (λ (r : Workspace). str_eq r.owner_id p)
        (λ r. str_eq r.owner_id q && str_eq r.id id) db.workspaces
        (λ r hit. ground (arith, owner_apart p q r.owner_id apart hit))

  -- A purge of one principal leaves all that belongs to another as it was, its binaries included, where no
  -- project and no workspace identifier is in use by both.
  pub belongings-purged_database :
      ((id : String) → in_projects p db.projects id ≡ true → in_projects q db.projects id ≡ false)
      → ((id : String)
          → in_workspaces p db.workspaces id ≡ true
          → in_workspaces q db.workspaces id ≡ false)
      → belongings q (purged_database p include_access db) ≡ belongings q db
  unfolding belongings purged_database delete_owned
  belongings-purged_database projects_apart workspaces_apart = λ i. record {
    binaries = binaries_kept i;
    accesses = own_accesses_kept i;
    projects =
        keep-delete_rows _ _ _ db.projects (λ r. refl)
          (λ r hit. owner_apart p q r.owner_id apart hit) i;
    samples =
        keep-delete_rows _ _ _ db.samples (λ r. projects_kept r.project_id)
          (λ r hit. projects_apart r.project_id hit) i;
    annotations =
        keep-delete_rows _ _ _ db.annotations (λ r. refl)
          (λ r hit. owner_apart p q r.owner_id apart hit) i;
    bookmarks =
        keep-delete_rows _ _ _ db.bookmarks (λ r. refl)
          (λ r hit. owner_apart p q r.owner_id apart hit) i;
    artifacts =
        keep-delete_rows _ _ _ db.artifacts (λ r. refl)
          (λ r hit. owner_apart p q r.owner_id apart hit) i;
    jobs =
        keep-delete_rows _ _ _ db.jobs (λ r. refl) (λ r hit. owner_apart p q r.owner_id apart hit)
          i;
    dumps =
        keep-delete_rows _ _ _ db.dumps (λ r. refl) (λ r hit. owner_apart p q r.owner_id apart hit)
          i;
    regions =
        keep-delete_rows _ _ _ db.regions (λ r. refl)
          (λ r hit. owner_apart p q r.owner_id apart hit) i;
    runs =
        keep-delete_rows _ _ _ db.runs (λ r. refl) (λ r hit. owner_apart p q r.owner_id apart hit)
          i;
    workspaces =
        keep-delete_rows _ _ _ db.workspaces (λ r. refl)
          (λ r hit. owner_apart p q r.owner_id apart hit) i;
    notes =
        keep-delete_rows _ _ _ db.notes (λ r. workspaces_kept r.workspace_id)
          (λ r hit. workspaces_apart r.workspace_id hit) i;
    attempts =
        keep-delete_rows _ _ _ db.attempts (λ r. refl)
          (λ r hit. owner_apart p q r.owner_id apart hit) i;
  }
