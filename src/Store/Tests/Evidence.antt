-- ===== src/Store/Tests/Evidence.antt =====
-- Runs of the memory regions, runs, artifacts, attempts and workspaces, and each theorem at an input.
use reversing_lab.Prelude.{◌≡◌, ◌≢◌, ◌⊎◌, refl, String, true, none, some, [], ◌∷◌, eq_iff, arith}
use reversing_lab.Prelude.Dict.{lookup}
use reversing_lab.Store.Table.{find_row, change_row, is_there}
use reversing_lab.Store.Binaries.{save, has_binary_access}
use reversing_lab.Store.Binaries.Isolation.{only}
use reversing_lab.Store.Runs.{Derived, Run}
use reversing_lab.Store.Ctf.{Workspace, Values}
use reversing_lab.Store.Ctf.{
  get as get_workspace, update as update_workspace, set_values, set_field,
}
use reversing_lab.Store.Ctf.Access.{update_owned}
use reversing_lab.Store.Regions.{MemoryDump, Region, Request, done as read, new_region}
use reversing_lab.Store.Tests.{digest, empty_digest, sha256, path_for, upload, stored}

abbrev dump : MemoryDump
dump = record {
  id = "d1";
  owner_id = "bob";
  sha256 = empty_digest;
  filename = "ram.raw";
  size = 4096;
  dump_format = "raw";
  storage_path = "ram.raw";
  analysis_path = none;
  analysis_provider = none;
}

abbrev request : Request
request = record {
  pid = 4;
  start_address = 4096;
  end_address = 4100;
  architecture = "x86";
  provider = "volatility";
  content = upload;
}

abbrev region : Region
region = new_region sha256 path_for "r1" dump request

abbrev run : Run
run = record {
  id = "run1";
  owner_id = "bob";
  job_id = "job1";
  binary_sha256 = digest;
  provider = "mock";
  policy_json = "{}";
  result_path = none;
}

abbrev derived : Derived
derived = record {
  id = "a1";
  binary_sha256 = digest;
  kind = "strings";
  content = 1 ∷ [];
  content_sha256 = empty_digest;
  path = empty_digest;
  metadata_json = "{}";
}

abbrev workspace : Workspace
workspace = record {
  id = "w1";
  owner_id = "bob";
  title = "crackme";
  description = "";
  category = "reversing";
  difficulty = "easy";
  binary_sha256 = none;
  hypotheses_json = "[]";
  flag_candidates_json = "[]";
  checklist_json = "{}";
  writeup_steps_json = "[]";
}

abbrev values : Values
values = ("binary_sha256", some digest) ∷ []

abbrev linked : Workspace
linked = record workspace { binary_sha256 = some digest }

bob_is_not_ann : (only "bob").owner_id ≢ "ann"
bob_is_not_ann = λ e. ground (arith, e, eq_iff "bob" "ann")

update_owned_example :
    ((w : Workspace) × (get_workspace (only "bob") "w1" (workspace ∷ []) ≡ some w)
      × (get_workspace (only "bob") "w1" (linked ∷ []) ≡ some (set_values values w)))
    × (((sha : String) × (lookup "binary_sha256" values ≡ some (some sha))
          × (has_binary_access (only "bob") sha stored ≡ true))
        ⊎ ((lookup "binary_sha256" values ≡ none) ⊎ (lookup "binary_sha256" values ≡ some none)))
    × (get_workspace (only "ann") "w1" (linked ∷ [])
        ≡ get_workspace (only "ann") "w1" (workspace ∷ []))
unfolding update_workspace get_workspace set_values set_field change_row find_row lookup
    has_binary_access is_there save
update_owned_example =
    update_owned "bob" "ann" stored "w1" "w1" values (workspace ∷ []) (linked ∷ []) bob_is_not_ann
      refl
