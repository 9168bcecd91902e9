-- ===== src/Retention/Removed.antt =====
-- Which files the removal in backend/reversing_lab/database/retention.py removes.
use Prim.Native.Nat.{Ordering}
use Prim.Native.String.{compare}
use reversing_lab.Prelude.{
  ◌≡◌, ◌⊎◌, inl, inr, refl, sym, String, Bool, true, false, Option, none, some, List, [], ◌∷◌, All,
  str_eq, eq_iff, arith, Bool-cases, if_keeps,
}
use mathlib.Core.Path.{subst}
use reversing_lab.Prelude.Dict.{lookup}
use reversing_lab.Store.Binaries.{Bytes}
use reversing_lab.Retention.Database.{Database}
use reversing_lab.Retention.Files.{
  Kind, Removal, path_has_reference, removable, place, sorted_set, unlink, unlinked, remove_one,
  remove_all, remove_files,
}
use reversing_lab.Retention.Reclaimed.{lookup-unlink_absent}

lookup-unlink_same :
    (path : String) (files : List (String × Bytes)) → lookup path (unlink path files) ≡ none
unfolding lookup unlink
lookup-unlink_same path [] = refl
lookup-unlink_same path ((p, bytes) ∷ files) =
    ground (arith, Bool-cases (str_eq p path), lookup-unlink_same path files)

lookup-unlinked_absent :
    (key path : String) (o : Option Bytes) (locked : Bool) (r : Removal)
    → lookup key r.files ≡ none
    → lookup key (unlinked path o locked r).files ≡ none
lookup-unlinked_absent key path none locked r absent = absent
lookup-unlinked_absent key path (some bytes) true r absent = absent
lookup-unlinked_absent key path (some bytes) false r absent =
    lookup-unlink_absent key path r.files absent

-- A file that may be removed, and can be, is gone.
abbrev Gone : Bool → Bool → String → List (String × Bytes) → Type 0
Gone allowed locked path files = (allowed ≡ false) ⊎ ((locked ≡ true) ⊎ (lookup path files ≡ none))

Gone-unlinked :
    (allowed : Bool) (path : String) (o : Option Bytes) (locked : Bool) (r : Removal)
    → lookup path r.files ≡ o
    → Gone allowed locked path (unlinked path o locked r).files
Gone-unlinked allowed path none locked r there = inr (inr there)
Gone-unlinked allowed path (some bytes) true r there = inr (inl refl)
Gone-unlinked allowed path (some bytes) false r there = inr (inr (lookup-unlink_same path r.files))

Gone-kept :
    (allowed locked : Bool) (path : String) (files files' : List (String × Bytes))
    → (lookup path files ≡ none → lookup path files' ≡ none)
    → Gone allowed locked path files
    → Gone allowed locked path files'
Gone-kept allowed locked path files files' keeps (inl outside) = inl outside
Gone-kept allowed locked path files files' keeps (inr (inl stuck)) = inr (inl stuck)
Gone-kept allowed locked path files files' keeps (inr (inr gone)) = inr (inr (keeps gone))

-- What holds of a sorted set holds of what it was made from.
All-of_branch :
    (P : String → Type 0) (path q : String) (paths : List String) (o : Ordering)
    → compare path q ≡ o
    → (All P (place path paths) → P path × All P paths)
    → All P (elim o [
      | Ordering.lt ↦ path ∷ q ∷ paths
      | Ordering.eq ↦ q ∷ paths
      | Ordering.gt ↦ q ∷ place path paths
    ])
    → P path × All P (q ∷ paths)
All-of_branch P path q paths Ordering.lt e rest all = all
All-of_branch P path q paths Ordering.eq e rest all =
    let same : path ≡ q = (eq_iff path q).0 (rw e refl) in (subst P (sym same) all.0, all)
All-of_branch P path q paths Ordering.gt e rest all =
    let (this, others) = rest all.1 in (this, (all.0, others))

All-of_place :
    (P : String → Type 0) (path : String) (paths : List String)
    → All P (place path paths)
    → P path × All P paths
unfolding place
All-of_place P path [] all = all
All-of_place P path (q ∷ paths) all =
    All-of_branch P path q paths (compare path q) refl (All-of_place P path paths) all

All-of_sorted_set :
    (P : String → Type 0) (paths : List String) → All P (sorted_set paths) → All P paths
unfolding sorted_set
All-of_sorted_set P [] all = tt
All-of_sorted_set P (path ∷ paths) all =
    let (this, rest) = All-of_place P path (sorted_set paths) all in
    (this, All-of_sorted_set P paths rest)

module _ (resolve : String → String) (is_allowed is_locked : String → Bool) where
  lookup-remove_all_absent :
      (key : String) (paths : List String) (r : Removal)
      → lookup key r.files ≡ none
      → lookup key (remove_all resolve is_allowed is_locked paths r).files ≡ none
  unfolding remove_all remove_one
  lookup-remove_all_absent key [] r absent = absent
  lookup-remove_all_absent key (path ∷ paths) r absent = lookup-remove_all_absent key paths _ (
      if_keeps (λ (s : Removal). lookup key s.files ≡ none) (is_allowed (resolve path)) _ _
        (λ c. lookup-unlinked_absent key (resolve path) _ _ r absent) (λ c. absent))

  abbrev GoneFrom : List (String × Bytes) → String → Type 0
  GoneFrom files path =
      Gone (is_allowed (resolve path)) (is_locked (resolve path)) (resolve path) files

  GoneFrom-remove_one :
      (path : String) (r : Removal)
      → GoneFrom (remove_one resolve is_allowed is_locked (resolve path) r).files path
  unfolding remove_one
  GoneFrom-remove_one path r =
      if_keeps (λ (s : Removal). GoneFrom s.files path) (is_allowed (resolve path)) _ _
        (λ c. Gone-unlinked _ (resolve path) (lookup (resolve path) r.files) _ r refl)
        (λ outside. inl outside)

  remove_all-GoneFrom :
      (paths : List String) (r : Removal)
      → All (GoneFrom (remove_all resolve is_allowed is_locked paths r).files) paths
  unfolding remove_all
  remove_all-GoneFrom [] r = tt
  remove_all-GoneFrom (path ∷ paths) r =
      let once = remove_one resolve is_allowed is_locked (resolve path) r in
      (
        Gone-kept _ _ (resolve path) once.files _
            (lookup-remove_all_absent (resolve path) paths once) (GoneFrom-remove_one path r),
        remove_all-GoneFrom paths once,
      )

  -- A candidate has a row of its kind that refers to it, leads out of the roots or to a file that cannot be
  -- removed, or leads to no file any more.
  abbrev pub Settled : Database → List (String × Bytes) → Kind × String → Type 0
  Settled db files (kind, path) =
      (path_has_reference db kind path ≡ true)
      ⊎ ((is_allowed (resolve path) ≡ false)
          ⊎ ((is_locked (resolve path) ≡ true) ⊎ (lookup (resolve path) files ≡ none)))

  All-of_removable :
      (db : Database) (files : List (String × Bytes)) (candidates : List (Kind × String))
      → All (GoneFrom files) (removable db candidates)
      → All (Settled db files) candidates
  unfolding removable
  All-of_removable db files [] all = tt
  All-of_removable db files ((kind, path) ∷ candidates) all =
      if_keeps
        (λ paths. All (GoneFrom files) paths → All (Settled db files) ((kind, path) ∷ candidates))
        (path_has_reference db kind path) (removable db candidates) (path ∷ removable db candidates)
        (λ referenced rest. (inl referenced, All-of_removable db files candidates rest))
        (λ c rest. (inr rest.0, All-of_removable db files candidates rest.1)) all

  pub remove_files-Settled :
      (db : Database) (candidates : List (Kind × String)) (files : List (String × Bytes))
      → All
          (Settled db
            (remove_files resolve is_allowed is_locked (removable db candidates) files).files)
          candidates
  unfolding remove_files
  remove_files-Settled db candidates files = All-of_removable db _ candidates (
      All-of_sorted_set (GoneFrom _) (removable db candidates)
        (remove_all-GoneFrom (sorted_set (removable db candidates)) _))
