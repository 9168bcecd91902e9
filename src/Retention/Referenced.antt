-- ===== src/Retention/Referenced.antt =====
-- Which files a purge in backend/reversing_lab/database/retention.py leaves as they are.
use Prim.Native.Nat.{Ordering}
use Prim.Native.String.{compare}
use reversing_lab.Prelude.{
  ◌≡◌, ◌⊎◌, inl, inr, refl, ap, ◌∙◌, String, Bool, true, false, Option, none, some, List, [], ◌∷◌,
  ◌++◌, All, str_eq, eq_iff, arith, Bool-cases, if_keeps,
}
use reversing_lab.Prelude.Dict.{lookup}
use reversing_lab.Store.Binaries.{Bytes}
use reversing_lab.Retention.Database.{Database}
use reversing_lab.Retention.Files.{
  Kind, path_has_reference, removable, place, sorted_set, Removal, unlink, unlinked, remove_one,
  remove_all, remove_files,
}
use reversing_lab.Retention.Purge.{candidates, binary_paths, purged_database, purged_files}

lookup-unlink :
    (path key : String) (files : List (String × Bytes))
    → str_eq path key ≡ false
    → lookup key (unlink path files) ≡ lookup key files
unfolding lookup unlink
lookup-unlink path key [] apart = refl
lookup-unlink path key ((p, bytes) ∷ files) apart = elim (Bool-cases (str_eq p path)) [
  | inl hit ↦ ground (
    arith,
    hit,
    apart,
    eq_iff p path,
    eq_iff p key,
    eq_iff path key,
    lookup-unlink path key files apart,
  )
  | inr miss ↦ ground (arith, miss, lookup-unlink path key files apart)
]

lookup-unlinked :
    (path key : String) (o : Option Bytes) (locked : Bool) (r : Removal)
    → str_eq path key ≡ false
    → lookup key (unlinked path o locked r).files ≡ lookup key r.files
lookup-unlinked path key none locked r apart = refl
lookup-unlinked path key (some bytes) true r apart = refl
lookup-unlinked path key (some bytes) false r apart = lookup-unlink path key r.files apart

All-place :
    (P : String → Type 0) (path : String) (paths : List String)
    → P path
    → All P paths
    → All P (place path paths)
unfolding place
All-place P path [] p all = (p, tt)
All-place P path (q ∷ paths) p all =
    elim (compare path q)
      as (λ o. All P (elim o [
        | Ordering.lt ↦ path ∷ q ∷ paths
        | Ordering.eq ↦ q ∷ paths
        | Ordering.gt ↦ q ∷ place path paths
      ])) [
        | Ordering.lt ↦ (p, all)
        | Ordering.eq ↦ all
        | Ordering.gt ↦ (all.0, All-place P path paths p all.1)
      ]

All-sorted_set :
    (P : String → Type 0) (paths : List String) → All P paths → All P (sorted_set paths)
unfolding sorted_set
All-sorted_set P [] all = tt
All-sorted_set P (path ∷ paths) all =
    All-place P path (sorted_set paths) all.0 (All-sorted_set P paths all.1)

module _ (resolve : String → String) (is_allowed is_locked : String → Bool) where
  -- The path leads to another file.
  abbrev pub Elsewhere : String → String → Type 0
  Elsewhere key path = str_eq (resolve path) key ≡ false

  lookup-remove_all :
      (key : String) (paths : List String) (r : Removal)
      → All (Elsewhere key) paths
      → lookup key (remove_all resolve is_allowed is_locked paths r).files ≡ lookup key r.files
  unfolding remove_all remove_one
  lookup-remove_all key [] r elsewhere = refl
  lookup-remove_all key (path ∷ paths) r elsewhere =
      lookup-remove_all key paths _ elsewhere.1
      ∙ if_keeps (λ (s : Removal). lookup key s.files ≡ lookup key r.files)
          (is_allowed (resolve path)) _ _
          (λ c. lookup-unlinked (resolve path) key _ _ r elsewhere.0) (λ c. refl)

  -- A candidate that leads to the file is a path that a row refers to.
  abbrev pub Guarded : Database → String → Kind × String → Type 0
  Guarded db key (kind, path) = Elsewhere key path ⊎ (path_has_reference db kind path ≡ true)

  All-removable :
      (db : Database) (key : String) (paths : List (Kind × String))
      → All (Guarded db key) paths
      → All (Elsewhere key) (removable db paths)
  unfolding removable
  All-removable db key [] guarded = tt
  All-removable db key ((kind, path) ∷ paths) guarded =
      let rest = All-removable db key paths guarded.1 in
      if_keeps (All (Elsewhere key)) (path_has_reference db kind path) _ _ (λ c. rest)
        (λ c.
          (elim guarded.0 [ inl elsewhere ↦ elsewhere | inr referenced ↦ ground (arith, c) ], rest))

  lookup-purged_files-Guarded :
      (p : String) (include_access : Bool) (db : Database) (files : List (String × Bytes))
      (key : String)
      → All
          (Guarded (purged_database p include_access db) key)
          (candidates p db ++ binary_paths p include_access db)
      → lookup key (purged_files resolve is_allowed is_locked p include_access db files).files
        ≡ lookup key files
  unfolding purged_files remove_files
  lookup-purged_files-Guarded p include_access db files key guarded = lookup-remove_all key _ _ (
      All-sorted_set (Elsewhere key) _
        (All-removable (purged_database p include_access db) key _ guarded))

  -- A candidate that leads to the file of a path has its kind and its spelling.
  abbrev pub Alone : Kind → String → Kind × String → Type 0
  Alone kind path (k, q) = Elsewhere (resolve path) q ⊎ ((k ≡ kind) × (q ≡ path))

  Guarded-of_Alone :
      (db : Database) (kind : Kind) (path : String) (paths : List (Kind × String))
      → path_has_reference db kind path ≡ true
      → All (Alone kind path) paths
      → All (Guarded db (resolve path)) paths
  Guarded-of_Alone db kind path [] referenced alone = tt
  Guarded-of_Alone db kind path ((k, q) ∷ paths) referenced (inl elsewhere, alone) =
      (inl elsewhere, Guarded-of_Alone db kind path paths referenced alone)
  Guarded-of_Alone db kind path ((k, q) ∷ paths) referenced (inr (same_kind, same_path), alone) = (
    inr (
        ap (λ x. path_has_reference db x q) same_kind
        ∙ ap (path_has_reference db kind) same_path
        ∙ referenced),
    Guarded-of_Alone db kind path paths referenced alone,
  )

  -- A purge leaves the file of a path as it is when a row that is left refers to the path, and the purge has
  -- no candidate of another kind, or of another spelling, that leads to the same file: references are
  -- looked up by kind and spelling.
  pub lookup-purged_files :
      (p : String) (include_access : Bool) (db : Database) (files : List (String × Bytes))
      (kind : Kind) (path : String)
      → path_has_reference (purged_database p include_access db) kind path ≡ true
      → All (Alone kind path) (candidates p db ++ binary_paths p include_access db)
      → lookup
          (resolve path)
          (purged_files resolve is_allowed is_locked p include_access db files).files
        ≡ lookup (resolve path) files
  lookup-purged_files p include_access db files kind path referenced alone =
      lookup-purged_files-Guarded p include_access db files (resolve path) (
        Guarded-of_Alone (purged_database p include_access db) kind path
          (candidates p db ++ binary_paths p include_access db) referenced alone)
