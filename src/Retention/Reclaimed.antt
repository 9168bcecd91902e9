-- ===== src/Retention/Reclaimed.antt =====
-- What the removal of files in backend/reversing_lab/database/retention.py reports, against what it does.
use native.Mathlib.Nat.{zero-add}
use reversing_lab.Prelude.{
  ℕ, suc, ◌+◌, ◌≡◌, inl, inr, refl, ◌∙◌, String, Bool, true, false, Option, none, some, List, [],
  ◌∷◌, length, str_eq, eq_iff, arith, Bool-cases, if_keeps,
}
use reversing_lab.Prelude.Dict.{lookup}
use reversing_lab.Store.Binaries.{Bytes}
use reversing_lab.Retention.Files.{
  Removal, unlink, unlinked, remove_one, remove_all, remove_files, sorted_set,
}

-- A path leads to one file.
abbrev pub OnePerPath : List (String × Bytes) → Type 0
OnePerPath [] = Unit
OnePerPath ((path, bytes) ∷ files) = (lookup path files ≡ none) × OnePerPath files

-- The bytes of all files.
abbrev pub total : List (String × Bytes) → ℕ
total [] = 0
total ((path, bytes) ∷ files) = length bytes + total files

unlink_absent :
    (path : String) (files : List (String × Bytes))
    → lookup path files ≡ none
    → unlink path files ≡ files
unfolding lookup unlink
unlink_absent path [] absent = refl
unlink_absent path ((p, bytes) ∷ files) absent =
    ground (arith, absent, Bool-cases (str_eq p path), unlink_absent path files)

pub lookup-unlink_absent :
    (key path : String) (files : List (String × Bytes))
    → lookup key files ≡ none
    → lookup key (unlink path files) ≡ none
unfolding lookup unlink
lookup-unlink_absent key path [] absent = refl
lookup-unlink_absent key path ((p, bytes) ∷ files) absent = ground (
  arith,
  absent,
  Bool-cases (str_eq p path),
  Bool-cases (str_eq p key),
  lookup-unlink_absent key path files,
)

unlink-OnePerPath :
    (path : String) (files : List (String × Bytes))
    → OnePerPath files
    → OnePerPath (unlink path files)
unfolding unlink
unlink-OnePerPath path [] one = tt
unlink-OnePerPath path ((p, bytes) ∷ files) one =
    let rest = unlink-OnePerPath path files one.1 in
    if_keeps OnePerPath (str_eq p path) (unlink path files) ((p, bytes) ∷ unlink path files)
      (λ c. rest) (λ c. (lookup-unlink_absent p path files one.0, rest))

-- To unlink a file that is there takes one file, with its bytes.
unlink-total :
    (path : String) (files : List (String × Bytes)) (bytes : Bytes)
    → OnePerPath files
    → lookup path files ≡ some bytes
    → (suc (length (unlink path files)) ≡ length files)
      × (length bytes + total (unlink path files) ≡ total files)
unfolding lookup unlink
unlink-total path [] bytes one there = cc
unlink-total path ((p, b) ∷ files) bytes one there = elim (Bool-cases (str_eq p path)) [
  | inl hit ↦
      let same : p ≡ path = (eq_iff p path).0 hit in
      let absent : lookup path files ≡ none = rw same at one.0 in
      ground (arith, hit, there, unlink_absent path files absent)
  | inr miss ↦ ground (arith, miss, there, unlink-total path files bytes one.1)
]

-- What two states of a removal keep in common.
abbrev Balanced : Removal → Removal → Type 0
Balanced r s =
    OnePerPath s.files
    × (s.removed + length s.files ≡ r.removed + length r.files)
    × (s.reclaimed + total s.files ≡ r.reclaimed + total r.files)

unlinked-Balanced :
    (path : String) (o : Option Bytes) (locked : Bool) (r : Removal)
    → lookup path r.files ≡ o
    → OnePerPath r.files
    → Balanced r (unlinked path o locked r)
unlinked-Balanced path none locked r there one = (one, refl, refl)
unlinked-Balanced path (some bytes) true r there one = (one, refl, refl)
unlinked-Balanced path (some bytes) false r there one =
    let gone = unlink-total path r.files bytes one there in
    (unlink-OnePerPath path r.files one, omega (arith, gone.0), omega (arith, gone.1))

module _ (resolve : String → String) (is_allowed is_locked : String → Bool) where
  remove_one-Balanced :
      (path : String) (r : Removal)
      → OnePerPath r.files
      → Balanced r (remove_one resolve is_allowed is_locked path r)
  unfolding remove_one
  remove_one-Balanced path r one =
      if_keeps (Balanced r) (is_allowed path)
        (unlinked path (lookup path r.files) (is_locked path) r)
        (record r { warnings = r.warnings + 1 })
        (λ c. unlinked-Balanced path (lookup path r.files) (is_locked path) r refl one)
        (λ c. (one, refl, refl))

  remove_all-Balanced :
      (paths : List String) (r : Removal)
      → OnePerPath r.files
      → Balanced r (remove_all resolve is_allowed is_locked paths r)
  unfolding remove_all
  remove_all-Balanced [] r one = (one, refl, refl)
  remove_all-Balanced (path ∷ paths) r one =
      let this = remove_one-Balanced (resolve path) r one in
      let rest = remove_all-Balanced paths _ this.0 in (rest.0, rest.1 ∙ this.1, rest.2 ∙ this.2)

  -- The directory shrinks by the files and the bytes of the report.
  pub remove_files_balanced :
      (paths : List String) (files : List (String × Bytes))
      → OnePerPath files
      → let removal = remove_files resolve is_allowed is_locked paths files in
        (removal.removed + length removal.files ≡ length files)
        × (removal.reclaimed + total removal.files ≡ total files)
  unfolding remove_files
  remove_files_balanced paths files one =
      let whole =
        remove_all-Balanced (sorted_set paths)
          (record { files = files; removed = 0; reclaimed = 0; warnings = 0 }) one in
      (whole.1 ∙ zero-add _, whole.2 ∙ zero-add _)
