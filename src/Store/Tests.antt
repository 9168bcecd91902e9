-- ===== src/Store/Tests.antt =====
-- Runs of the binaries, overlays, projects and audit events, and each theorem at an input.
mod Evidence
use reversing_lab.Prelude.{
  ◌++◌, ◌≤◌, ◌≡◌, ◌≢◌, ◌⊎◌, refl, min, String, Bool, true, false, ◌&&◌, none, some, List, [], ◌∷◌,
  if◌then◌else◌, ◌==◌, str_eq, eq_iff, arith, All, length,
}
use reversing_lab.Prelude.Dict.{lookup}
use reversing_lab.Access.Keys.{is_digest, all_characters}
use reversing_lab.Store.Table.{find_row, change_row, is_there, upserted}
use reversing_lab.Store.Binaries.{
  Bytes, Store, is_binary, is_access, get, save, load_bytes, has_binary_access,
}
use reversing_lab.Store.Binaries.Content.{IsStored, save-IsStored, load_bytes-save}
use reversing_lab.Store.Binaries.Isolation.{only, get-save_other}
use reversing_lab.Store.Overlays.{
  Annotation, Bookmark, done, is_annotation, is_bookmark, new_annotation, new_bookmark,
  upsert_annotation, upsert_bookmark, delete_bookmark,
}
use reversing_lab.Store.Overlays.Keys.{
  find_row-upsert_bookmark, find_row-upsert_annotation, delete_bookmark_gone,
}
use reversing_lab.Store.Projects.{Project, Membership, add_sample, is_member, project_scope}
use reversing_lab.Store.Projects.{get as get_project}
use reversing_lab.Store.Projects.Members.{add_sample_authorized}
use reversing_lab.Store.Audit.{AuditEvent, Filters, iter_export, export_count, record_event}
use reversing_lab.Store.Audit.Scoped.{export_scoped}
use reversing_lab.Store.Runs.{
  Artifact, Derived, Run, get_run, save_artifact, record_attempt, solved_slugs,
}
use reversing_lab.Store.Runs.Owned.{get_run_owned, save_artifact_again, solved_slugs-record_attempt}
use reversing_lab.Store.Ctf.{Workspace, Values}
use reversing_lab.Store.Ctf.{
  get as get_workspace, update as update_workspace, set_values, set_field,
}
use reversing_lab.Store.Ctf.Access.{update_owned}
use reversing_lab.Store.Regions.{
  MemoryDump, Region, Request, done as read, get_dump, new_region, save_region_artifact,
  read_region_artifact,
}
use reversing_lab.Store.Regions.Integrity.{read_region_artifact_checked}

abbrev pub digest : String
digest = "0123456789abcdef0123456789abcdef0123456789abcdef0123456789abcdef"

abbrev pub empty_digest : String
empty_digest = "e3b0c44298fc1c149afbf4c8996fb92427ae41e4649b934ca495991b7852b855"

-- A digest for the tests.
abbrev pub sha256 : Bytes → String
sha256 [] = empty_digest
sha256 (x ∷ xs) = digest

abbrev pub path_for : String → String
path_for name = name

abbrev pub is_inside : String → Bool
is_inside path = true

abbrev pub upload : Bytes
upload = 127 ∷ 69 ∷ 76 ∷ 70 ∷ []

abbrev pub no_store : Store
no_store = record { binaries = []; accesses = []; files = [] }

-- A store in which bob has uploaded.
abbrev pub stored : Store
stored = save sha256 path_for is_inside (only "bob") upload "b.elf" "elf" no_store

digest-is_digest : is_digest digest ≡ true
unfolding is_digest all_characters
digest-is_digest = refl

load_bytes-save_example :
    (content : Bytes) × (load_bytes sha256 path_for is_inside
        (only "ann")
        (sha256 upload)
        (save sha256 path_for is_inside (only "ann") upload "a.elf" "elf" no_store)
      ≡ some content)
    × (sha256 content ≡ sha256 upload)
load_bytes-save_example =
    load_bytes-save sha256 path_for is_inside (λ a b e. e) (only "ann") upload "a.elf" "elf"
      no_store tt digest-is_digest refl

ann_is_not_bob : (only "ann").owner_id ≢ "bob"
ann_is_not_bob = λ e. ground (arith, e, eq_iff "ann" "bob")

get-save_other_example :
    get
      (only "bob")
      digest
      (save sha256 path_for is_inside (only "ann") upload "a.elf" "elf" no_store)
    ≡ get (only "bob") digest no_store
unfolding is_there
get-save_other_example =
    get-save_other sha256 path_for is_inside (only "ann") "bob" digest "a.elf" "elf" upload no_store
      ann_is_not_bob (λ owner sha h. h)

abbrev project : Project
project = record { id = "p1"; name = "case"; description = ""; owner_id = "bob" }

abbrev member : Membership
member = record { project_id = "p1"; binary_sha256 = digest }

add_sample_authorized_example :
    ((p : Project) × (get_project (only "ann") "p1" (some "bob") (project ∷ []) ≡ some p)
      × (p.owner_id ≡ "bob"))
    × (is_there (is_binary digest) stored.binaries ≡ true)
    × (is_there (is_access "bob" digest) stored.accesses ≡ true)
    × (is_there (is_member "p1" digest) (member ∷ []) ≡ true)
unfolding add_sample get_project project_scope is_there find_row save
add_sample_authorized_example =
    add_sample_authorized (only "ann") (some "bob") "bob" stored "p1" digest (project ∷ []) []
      (member ∷ []) refl refl

abbrev event : AuditEvent
event = record {
  id = "e1";
  request_id = "r1";
  principal_id = "bob";
  role = "analyst";
  action = "binary.upload";
  resource_type = "binary";
  resource_id = none;
  method = "POST";
  route = "/api/binaries";
  status_code = 201;
  outcome = "success";
  details_json = "{}";
  created_at = 7;
}

abbrev no_filters : Filters
no_filters = record {
  action = none;
  resource_type = none;
  outcome = none;
  created_after = some 5;
  created_before = none;
}
