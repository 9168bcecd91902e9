-- ===== src/Store/Projects/Members.antt =====
-- Who may put a sample into a project, in backend/reversing_lab/database/repository.py.
use reversing_lab.Prelude.{
  ◌≡◌, inl, inr, refl, sym, ap, ◌∙◌, String, Bool, true, Option, none, some, List, [], ◌∷◌, ◌++◌,
  if◌then◌else◌, str_eq, eq_iff, arith, Bool-cases, if_keeps,
}
use mathlib.Core.Path.{subst}
use reversing_lab.Jobs.Repository.{Scope}
use reversing_lab.Store.Table.{find_row, is_there, is_there-append}
use reversing_lab.Store.Binaries.{Store, is_binary, is_access}
use reversing_lab.Store.Projects.{
  Project, Membership, project_scope, owned_only, may_add, is_project, get, is_member, added,
  add_sample,
}

-- The memberships once a sample is in.
joined : String → String → List Membership → List Membership
joined project_id sha members =
    if is_there (is_member project_id sha) members
    then members
    else members ++ record { project_id = project_id; binary_sha256 = sha } ∷ []

joined-is_there :
    (project_id sha : String) (members : List Membership)
    → is_there (is_member project_id sha) (joined project_id sha members) ≡ true
unfolding joined
joined-is_there project_id sha members =
    if_keeps (λ rows. is_there (is_member project_id sha) rows ≡ true)
      (is_there (is_member project_id sha) members) _ _ (λ there. there)
      (λ absent. ground (
        arith,
        absent,
        eq_iff project_id project_id,
        eq_iff sha sha,
        is_there-append (is_member project_id sha) members
            (record { project_id = project_id; binary_sha256 = sha }),
      ))

-- What an addition that is not refused shows.
added-some :
    (project : Option Project) (may : Bool) (project_id sha : String)
    (members members' : List Membership)
    → added project may project_id sha members ≡ some members'
    → ((p : Project) × (project ≡ some p))
      × (may ≡ true)
      × (is_there (is_member project_id sha) members' ≡ true)
unfolding joined
added-some none may project_id sha members members' h = cc
added-some (some project) may project_id sha members members' h = elim (Bool-cases may) [
  | inr refused ↦ ground (arith, h, refused)
  | inl allowed ↦
      let e : joined project_id sha members ≡ members' = ground (arith, h, allowed) in
      (
        (project, refl),
        allowed,
        subst (λ rows. is_there (is_member project_id sha) rows ≡ true) e
            (joined-is_there project_id sha members),
      )
]

some_scope : (scope : Scope) (owner : String) → project_scope scope (some owner) ≡ some owner
unfolding project_scope
some_scope scope owner = refl

owned_only-some :
    (owner : String) (o : Option Project) (project : Project)
    → owned_only (some owner) o ≡ some project
    → project.owner_id ≡ owner
owned_only-some owner none project h = cc
owned_only-some owner (some p) project h = elim (Bool-cases (str_eq p.owner_id owner)) [
  | inl mine ↦
      let same : p ≡ project = ground (arith, h, mine) in
      rw (← same) ((eq_iff p.owner_id owner).0 mine)
  | inr other ↦ ground (arith, h, other)
]

-- The effective owner of a call is the one that it names, else its caller's own when the caller is
-- restricted. When there is one, and the addition of a sample is accepted, the call gets the project,
-- the effective owner owns it and has access to the binary, which is there; afterwards the sample is a
-- member of the project.
pub add_sample_authorized :
    (scope : Scope) (owner : Option String) (effective : String) (store : Store)
    (project_id sha : String) (projects : List Project) (members members' : List Membership)
    → project_scope scope owner ≡ some effective
    → add_sample scope store project_id sha owner projects members ≡ some members'
    → ((project : Project) × (get scope project_id owner projects ≡ some project)
        × (project.owner_id ≡ effective))
      × (is_there (is_binary sha) store.binaries ≡ true)
      × (is_there (is_access effective sha) store.accesses ≡ true)
      × (is_there (is_member project_id sha) members' ≡ true)
unfolding add_sample get
add_sample_authorized scope owner effective store project_id sha projects members members' e h =
    let shown = added-some _ _ project_id sha members members' h in
    let found = find_row (is_project project_id) projects in
    let again : project_scope scope (project_scope scope owner) ≡ some effective =
      ap (project_scope scope) e ∙ some_scope scope effective in
    let mine : owned_only (some effective) found ≡ some shown.0.0 =
      ap (λ s. owned_only s found) (sym again) ∙ shown.0.1 in
    let may : may_add (some effective) sha store ≡ true =
      ap (λ s. may_add s sha store) (sym e) ∙ shown.1 in
    (
      (
        shown.0.0,
        ap (λ s. owned_only s found) e ∙ mine,
        owned_only-some effective found shown.0.0 mine,
      ),
      ground (arith, may),
      ground (arith, may),
      shown.2,
    )
