-- ===== src/Store/Projects.antt =====
-- `ProjectRepository` of backend/reversing_lab/database/repository.py. `none` stands for
-- `BinaryNotFoundError`. The identifier of a new row is an argument; rows are in the order of insertion.
pub mod Members
use reversing_lab.Prelude.{
  String, Bool, true, false, not, ◌&&◌, ◌||◌, Option, none, some, List, [], ◌∷◌, ◌++◌, keep, map,
  if◌then◌else◌, str_eq,
}
use mathlib.Core.List.{reverse}
use reversing_lab.Jobs.Repository.{Scope}
use reversing_lab.Store.Table.{find_row, change_row, is_there}
use reversing_lab.Store.Binaries.{Store, is_binary, is_access}

pub record Project : Type 0 where
  pub id : String
  pub name : String
  pub description : String
  pub owner_id : String

-- A row of project_samples.
pub record Membership : Type 0 where
  pub project_id : String
  pub binary_sha256 : String

-- `_project_scope`
unfoldable pub project_scope : Scope → Option String → Option String
project_scope scope (some owner) = some owner
project_scope scope none = if scope.unrestricted then none else some scope.owner_id

-- owner_id or self._owner_id
abbrev pub owner_or : Scope → Option String → String
owner_or scope none = scope.owner_id
owner_or scope (some owner) = if str_eq owner "" then scope.owner_id else owner

unfoldable pub create :
    Scope → String → String → String → Option String → List Project → List Project
create scope id name description owner projects =
    projects
    ++ record { id = id; name = name; description = description; owner_id = owner_or scope owner }
      ∷ []

abbrev pub owned_by : Option String → Project → Bool
owned_by none project = true
owned_by (some owner) project = str_eq project.owner_id owner

abbrev pub owned_only : Option String → Option Project → Option Project
owned_only owner none = none
owned_only owner (some project) = if owned_by owner project then some project else none

abbrev pub is_project : String → Project → Bool
is_project id project = str_eq project.id id

unfoldable pub get : Scope → String → Option String → List Project → Option Project
unfolding project_scope find_row
get scope project_id owner projects =
    owned_only (project_scope scope owner) (find_row (is_project project_id) projects)

abbrev pub assign : Option String → Option String → Project → Project
assign none none project = project
assign (some name) none project = record project { name = name }
assign none (some description) project = record project { description = description }
assign (some name) (some description) project = record project {
  name = name;
  description = description;
}

abbrev pub changed :
    Option Project → String → Option String → Option String → List Project → Option (List Project)
changed none project_id name description projects = none
changed (some project) project_id name description projects =
    some (change_row (is_project project_id) (assign name description) projects)

unfoldable pub update :
    Scope
    → String
    → Option String
    → Option String
    → Option String
    → List Project
    → Option (List Project)
unfolding get change_row
update scope project_id name description owner projects =
    changed (get scope project_id owner projects) project_id name description projects

-- The binary is there, and an owner has access to it.
abbrev pub may_add : Option String → String → Store → Bool
may_add none sha store = is_there (is_binary sha) store.binaries
may_add (some owner) sha store =
    is_there (is_binary sha) store.binaries && is_there (is_access owner sha) store.accesses

abbrev pub is_member : String → String → Membership → Bool
is_member project_id sha m = str_eq m.project_id project_id && str_eq m.binary_sha256 sha

abbrev pub added :
    Option Project → Bool → String → String → List Membership → Option (List Membership)
added none may project_id sha members = none
added (some project) may project_id sha members =
    if may
    then some (
        if is_there (is_member project_id sha) members
        then members
        else members ++ record { project_id = project_id; binary_sha256 = sha } ∷ [])
    else none

-- The memberships after `add_sample`. Its inner `get` applies the project scope a second time.
unfoldable pub add_sample :
    Scope
    → Store
    → String
    → String
    → Option String
    → List Project
    → List Membership
    → Option (List Membership)
unfolding get project_scope is_there
add_sample scope store project_id sha owner projects members =
    let effective = project_scope scope owner in
    added (get scope project_id effective projects) (may_add effective sha store) project_id sha
      members

abbrev pub hashes_of : Option Project → String → List Membership → Option (List String)
hashes_of none project_id members = none
hashes_of (some project) project_id members = some (
    map (λ (m : Membership). m.binary_sha256)
      (reverse (keep (λ (m : Membership). str_eq m.project_id project_id) members)))

-- The hashes, the sample added last first.
unfoldable pub sample_hashes :
    Scope → String → Option String → List Project → List Membership → Option (List String)
unfolding get
sample_hashes scope project_id owner projects members =
    hashes_of (get scope project_id owner projects) project_id members
