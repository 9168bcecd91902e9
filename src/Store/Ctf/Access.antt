-- ===== src/Store/Ctf/Access.antt =====
-- Who may change a workspace, in backend/reversing_lab/database/repository.py.
use reversing_lab.Prelude.{
  ◌≡◌, ◌≢◌, ◌⊎◌, inl, inr, refl, sym, ap, ◌∙◌, String, Bool, true, false, ◌&&◌, ◌||◌, Option, none,
  some, List, [], ◌∷◌, str_eq, eq_iff, arith, Bool-cases,
}
use reversing_lab.Prelude.Dict.{lookup}
use reversing_lab.Jobs.Repository.{Scope}
use reversing_lab.Store.Table.{find_row, find_row-change_row_other, find_row-change_row}
use reversing_lab.Store.Binaries.{Store, has_binary_access}
use reversing_lab.Store.Binaries.Isolation.{only}
use reversing_lab.Store.Ctf.{
  Workspace, Values, get, is_visible, set_field, set_values, may_relink, when_seen, update,
}

-- The fields that decide who sees a workspace.
abbrev SameKey : Workspace → Workspace → Type 0
SameKey a b = (a.id ≡ b.id) × (a.owner_id ≡ b.owner_id)

set_field_lem : (key value : String) (w : Workspace) → SameKey (set_field key value w) w
unfolding set_field
set_field_lem key value w = ground (
  arith,
  Bool-cases (str_eq key "title"),
  Bool-cases (str_eq key "description"),
  Bool-cases (str_eq key "category"),
  Bool-cases (str_eq key "difficulty"),
  Bool-cases (str_eq key "binary_sha256"),
  Bool-cases (str_eq key "hypotheses"),
  Bool-cases (str_eq key "flag_candidates"),
  Bool-cases (str_eq key "checklist"),
  Bool-cases (str_eq key "writeup_steps"),
)

set_values_lem : (values : Values) (w : Workspace) → SameKey (set_values values w) w
unfolding set_values
set_values_lem [] w = (refl, refl)
set_values_lem ((key, none) ∷ values) w = set_values_lem values w
set_values_lem ((key, some value) ∷ values) w =
    let rest = set_values_lem values (set_field key value w) in
    let this = set_field_lem key value w in (rest.0 ∙ this.0, rest.1 ∙ this.1)

when_seen-some :
    (o : Option Workspace) (may : Bool) (workspaces workspaces' : List Workspace)
    → when_seen o may workspaces ≡ some workspaces'
    → ((w : Workspace) × (o ≡ some w)) × (may ≡ true) × (workspaces ≡ workspaces')
when_seen-some none may workspaces workspaces' h = cc
when_seen-some (some w) may workspaces workspaces' h = elim (Bool-cases may) [
  | inl allowed ↦ ((w, refl), allowed, ground (arith, h, allowed))
  | inr refused ↦ ground (arith, h, refused)
]

visible_apart :
    (owner id other other_id : String) (w : Workspace)
    → owner ≢ other
    → is_visible (only owner) id w ≡ true
    → is_visible (only other) other_id w ≡ false
visible_apart owner id other other_id w apart hit =
    ground (arith, apart, hit, eq_iff w.owner_id owner, eq_iff w.owner_id other)

visible_kept :
    (scope : Scope) (id : String) (values : Values) (w : Workspace)
    → is_visible scope id (set_values values w) ≡ is_visible scope id w
visible_kept scope id values w =
    let same = set_values_lem values w in
    (λ i. str_eq (same.0 i) id && (scope.unrestricted || str_eq (same.1 i) scope.owner_id))

-- What an accepted update shows of the binary that it may name.
relinked :
    (scope : Scope) (store : Store) (named : Option (Option String))
    → may_relink scope store named ≡ true
    → ((sha : String) × (named ≡ some (some sha)) × (has_binary_access scope sha store ≡ true))
      ⊎ ((named ≡ none) ⊎ (named ≡ some none))
relinked scope store none h = inr (inl refl)
relinked scope store (some none) h = inr (inr refl)
relinked scope store (some (some sha)) h = inl (sha, refl, h)

-- A restricted caller whose update of a workspace is accepted, whatever columns it names, gets the
-- workspace and gets it with the new values afterwards; it has access to the binary when the update
-- names one; and what another owner gets stays as it was, for any identifier.
pub update_owned :
    (owner other : String) (store : Store) (workspace_id other_id : String) (values : Values)
    (workspaces workspaces' : List Workspace)
    → owner ≢ other
    → update (only owner) store workspace_id values workspaces ≡ some workspaces'
    → ((w : Workspace) × (get (only owner) workspace_id workspaces ≡ some w)
        × (get (only owner) workspace_id workspaces' ≡ some (set_values values w)))
      × (((sha : String) × (lookup "binary_sha256" values ≡ some (some sha))
            × (has_binary_access (only owner) sha store ≡ true))
          ⊎ ((lookup "binary_sha256" values ≡ none) ⊎ (lookup "binary_sha256" values ≡ some none)))
      × (get (only other) other_id workspaces' ≡ get (only other) other_id workspaces)
unfolding update get
update_owned owner other store workspace_id other_id values workspaces workspaces' apart h =
    let mine = is_visible (only owner) workspace_id in
    let theirs = is_visible (only other) other_id in
    let shown = when_seen-some _ _ _ workspaces' h in
    let kept =
      find_row-change_row_other mine theirs (set_values values) workspaces
        (visible_kept (only other) other_id values)
        (λ w hit. visible_apart owner workspace_id other other_id w apart hit) in
    (
      (
        shown.0.0,
        shown.0.1,
        ap (find_row mine) (sym shown.2)
            ∙ find_row-change_row mine (set_values values) workspaces shown.0.0
                (visible_kept (only owner) workspace_id values) shown.0.1,
      ),
      relinked (only owner) store (lookup "binary_sha256" values) shown.1,
      ap (find_row theirs) (sym shown.2) ∙ kept,
    )
