-- ===== src/Store/Ctf.antt =====
-- `CtfWorkspaceRepository` of backend/reversing_lab/database/repository.py, without its listing. The texts
-- of `json.dumps` are arguments; rows are in the order of insertion. `none` stands for
-- `BinaryNotFoundError`.
pub mod Access
use reversing_lab.Prelude.{
  ℕ, String, Bool, true, false, not, ◌&&◌, ◌||◌, Option, none, some, List, [], ◌∷◌, ◌++◌, keep,
  if◌then◌else◌, str_eq,
}
use reversing_lab.Prelude.Dict.{lookup}
use reversing_lab.Jobs.Repository.{Scope}
use reversing_lab.Store.Table.{find_row, change_row}
use reversing_lab.Store.Binaries.{Store, has_binary_access}

pub record Workspace : Type 0 where
  pub id : String
  pub owner_id : String
  pub title : String
  pub description : String
  pub category : String
  pub difficulty : String
  pub binary_sha256 : Option String
  pub hypotheses_json : String
  pub flag_candidates_json : String
  pub checklist_json : String
  pub writeup_steps_json : String

pub record Note : Type 0 where
  pub id : String
  pub workspace_id : String
  pub kind : String
  pub content : String
  pub address : Option ℕ

-- The values of an update: `none` is None; `some text` is a text, or what `json.dumps` makes of the value
-- of one of `json_fields`.
abbrev pub Values : Type 0
Values = List (String × Option String)

-- if binary_sha256: self._require_binary_access(binary_sha256)
abbrev pub may_link : Scope → Store → Option String → Bool
may_link scope store none = true
may_link scope store (some sha) = str_eq sha "" || has_binary_access scope sha store

unfoldable pub create :
    Scope
    → Store
    → String
    → String
    → String
    → String
    → String
    → Option String
    → String
    → List Workspace
    → Option (List Workspace)
unfolding has_binary_access
create scope store id title description category difficulty sha checklist_json workspaces =
    if may_link scope store sha
    then some (
        workspaces
        ++ record {
          id = id;
          owner_id = scope.owner_id;
          title = title;
          description = description;
          category = category;
          difficulty = difficulty;
          binary_sha256 = sha;
          hypotheses_json = "[]";
          flag_candidates_json = "[]";
          checklist_json = checklist_json;
          writeup_steps_json = "[]";
        }
          ∷ [])
    else none

abbrev pub is_visible : Scope → String → Workspace → Bool
is_visible scope id w = str_eq w.id id && (scope.unrestricted || str_eq w.owner_id scope.owner_id)

unfoldable pub get : Scope → String → List Workspace → Option Workspace
unfolding find_row
get scope workspace_id workspaces = find_row (is_visible scope workspace_id) workspaces

-- setattr(record, …), for the names of `scalar_fields` and `json_fields`; other names are ignored.
unfoldable pub set_field : String → String → Workspace → Workspace
set_field key value w =
    if str_eq key "title"
    then record w { title = value }
    else if str_eq key "description"
    then record w { description = value }
    else if str_eq key "category"
    then record w { category = value }
    else if str_eq key "difficulty"
    then record w { difficulty = value }
    else if str_eq key "binary_sha256"
    then record w { binary_sha256 = some value }
    else if str_eq key "hypotheses"
    then record w { hypotheses_json = value }
    else if str_eq key "flag_candidates"
    then record w { flag_candidates_json = value }
    else if str_eq key "checklist"
    then record w { checklist_json = value }
    else if str_eq key "writeup_steps"
    then record w { writeup_steps_json = value }
    else w

abbrev pub set_value : String → Option String → Workspace → Workspace
set_value key none w = w
set_value key (some value) w = set_field key value w

-- The loop over the values.
unfoldable pub set_values : Values → Workspace → Workspace
unfolding set_field
set_values [] w = w
set_values ((key, value) ∷ values) w = set_values values (set_value key value w)

-- values.get("binary_sha256"), and the test of access where it is a text
abbrev pub may_relink : Scope → Store → Option (Option String) → Bool
may_relink scope store (some (some sha)) = has_binary_access scope sha store
may_relink scope store _ = true

abbrev pub when_seen : Option Workspace → Bool → List Workspace → Option (List Workspace)
when_seen none may workspaces = none
when_seen (some w) may workspaces = if may then some workspaces else none

unfoldable pub update : Scope → Store → String → Values → List Workspace → Option (List Workspace)
unfolding get set_values change_row lookup has_binary_access
update scope store workspace_id values workspaces =
    when_seen (get scope workspace_id workspaces)
      (may_relink scope store (lookup "binary_sha256" values))
      (change_row (is_visible scope workspace_id) (set_values values) workspaces)

abbrev pub if_seen {ℓ} : {A : Type ℓ} → Option Workspace → A → Option A
if_seen none x = none
if_seen (some w) x = some x

unfoldable pub add_note :
    Scope
    → String
    → String
    → String
    → String
    → Option ℕ
    → List Workspace
    → List Note
    → Option (List Note)
unfolding get
add_note scope id workspace_id kind content address workspaces notes =
    if_seen (get scope workspace_id workspaces) (
      notes
      ++ record {
        id = id;
        workspace_id = workspace_id;
        kind = kind;
        content = content;
        address = address;
      }
        ∷ [])

-- Oldest first.
unfoldable pub notes : Scope → String → List Workspace → List Note → Option (List Note)
unfolding get
notes scope workspace_id workspaces rows =
    if_seen (get scope workspace_id workspaces)
      (keep (λ (n : Note). str_eq n.workspace_id workspace_id) rows)
