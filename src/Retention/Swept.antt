-- ===== src/Retention/Swept.antt =====
-- Which binaries the sweep of backend/reversing_lab/database/retention.py deletes.
use native.Mathlib.Nat.{zero-add}
use reversing_lab.Prelude.{
  suc, ◌+◌, ◌≡◌, inl, inr, refl, ap, ◌∙◌, String, Bool, true, false, not, ◌&&◌, ◌||◌, Option, none,
  some, List, [], ◌∷◌, ◌++◌, if◌then◌else◌, length, str_eq, eq_iff, arith, Bool-cases, Option-cases,
}
use reversing_lab.Store.Table.{
  find_row, is_there, delete_rows, find_row-delete_rows, find_row-delete_rows_other,
}
use reversing_lab.Store.Binaries.{BinaryRecord, BinaryAccess, is_binary, is_access}
use reversing_lab.Retention.Database.{Database, owned_hashes}
use reversing_lab.Retention.Files.{Kind}
use reversing_lab.Retention.Purge.{
  Swept, sweep_one, sweep, sweep_binaries, binary_has_references, count_paths,
}

module _ {A : Type 0} where
  delete_absent :
      (test : A → Bool) (rows : List A) → find_row test rows ≡ none → delete_rows test rows ≡ rows
  unfolding find_row delete_rows
  delete_absent test [] absent = refl
  delete_absent test (x ∷ rows) absent =
      ground (arith, Bool-cases (test x), absent, delete_absent test rows)

  still_absent :
      (test other : A → Bool) (rows : List A)
      → find_row other rows ≡ none
      → find_row other (delete_rows test rows) ≡ none
  unfolding find_row delete_rows
  still_absent test other [] absent = refl
  still_absent test other (x ∷ rows) absent =
      ground
        (arith, Bool-cases (test x), Bool-cases (other x), absent, still_absent test other rows)

-- The digest is the primary key of the binaries.
abbrev pub Keyed : List BinaryRecord → Type 0
Keyed [] = Unit
Keyed (b ∷ binaries) = (find_row (is_binary b.sha256) binaries ≡ none) × Keyed binaries

Keyed-delete_rows :
    (test : BinaryRecord → Bool) (binaries : List BinaryRecord)
    → Keyed binaries
    → Keyed (delete_rows test binaries)
unfolding delete_rows
Keyed-delete_rows test [] keyed = tt
Keyed-delete_rows test (b ∷ binaries) keyed =
    let rest = Keyed-delete_rows test binaries keyed.1 in
    elim (Bool-cases (test b)) [
      | inl hit ↦ ground (arith, hit, rest)
      | inr miss ↦
          let absent = still_absent test (is_binary b.sha256) binaries keyed.0 in
          ground (arith, miss, rest, absent)
    ]

-- A deletion by the key of a row that is there takes one row.
length-delete_binary :
    (sha : String) (binaries : List BinaryRecord) (found : BinaryRecord)
    → Keyed binaries
    → find_row (is_binary sha) binaries ≡ some found
    → suc (length (delete_rows (is_binary sha) binaries)) ≡ length binaries
unfolding find_row delete_rows
length-delete_binary sha [] found keyed there = cc
length-delete_binary sha (b ∷ binaries) found keyed there = elim (Bool-cases (is_binary sha b)) [
  | inl hit ↦
      let same : b.sha256 ≡ sha = (eq_iff b.sha256 sha).0 hit in
      let absent : find_row (is_binary sha) binaries ≡ none = rw same at keyed.0 in
      ground (arith, hit, delete_absent (is_binary sha) binaries absent)
  | inr miss ↦ ground (arith, miss, there, length-delete_binary sha binaries found keyed.1)
]

count_paths-snoc :
    (paths : List (Kind × String)) (p : Kind × String)
    → count_paths (paths ++ p ∷ []) ≡ count_paths paths + 1
count_paths-snoc [] p = omega arith
count_paths-snoc (q ∷ paths) p = omega (arith, count_paths-snoc paths p)

-- The deleted paths and the binaries that are left make up what there was.
abbrev Balanced : Swept → Swept → Type 0
Balanced s t = Keyed t.0 × (count_paths t.1 + length t.0 ≡ count_paths s.1 + length s.0)

sweep_one-Balanced :
    (sha : String) (referenced : Bool) (o : Option BinaryRecord) (s : Swept)
    → find_row (is_binary sha) s.0 ≡ o
    → Keyed s.0
    → Balanced s (sweep_one sha referenced o s)
sweep_one-Balanced sha referenced none s there keyed = (keyed, refl)
sweep_one-Balanced sha true (some b) s there keyed = (keyed, refl)
sweep_one-Balanced sha false (some b) (binaries, paths) there keyed = (
  Keyed-delete_rows (is_binary sha) binaries keyed,
  omega (
    arith,
    count_paths-snoc paths (Kind.binary, b.storage_path),
    length-delete_binary sha binaries b keyed there,
  ),
)

sweep-Balanced :
    (db : Database) (shas : List String) (s : Swept) → Keyed s.0 → Balanced s (sweep db shas s)
unfolding sweep
sweep-Balanced db [] s keyed = (keyed, refl)
sweep-Balanced db (sha ∷ shas) s keyed =
    let one = sweep_one-Balanced sha (binary_has_references db sha) _ s refl keyed in
    let rest = sweep-Balanced db shas _ one.0 in (rest.0, rest.1 ∙ one.1)

-- The deleted rows are as many as the table shrinks by.
pub count-sweep_binaries :
    (include_access : Bool) (shas : List String) (db : Database)
    → Keyed db.binaries
    → count_paths (sweep_binaries include_access shas db).1
        + length (sweep_binaries include_access shas db).0
      ≡ length db.binaries
unfolding sweep_binaries
count-sweep_binaries true shas db keyed =
    (sweep-Balanced db shas (db.binaries, []) keyed).1 ∙ zero-add _
count-sweep_binaries false shas db keyed = zero-add _

-- sha in shas
abbrev pub among : String → List String → Bool
among sha [] = false
among sha (s ∷ shas) = str_eq s sha || among sha shas

find_row-sweep_one :
    (key sha : String) (referenced : Bool) (s : Swept)
    → find_row (is_binary key) (sweep_one sha referenced (find_row (is_binary sha) s.0) s).0
      ≡ (if str_eq sha key && not referenced then none else find_row (is_binary key) s.0)
find_row-sweep_one key sha referenced (binaries, paths) = elim (Bool-cases (str_eq sha key)) [
  | inl same ↦
      let e : sha ≡ key = (eq_iff sha key).0 same in
      ground (
        arith,
        e,
        same,
        Bool-cases referenced,
        Option-cases (find_row (is_binary sha) binaries),
        find_row-delete_rows (is_binary sha) binaries,
      )
  | inr other ↦
      let kept =
        find_row-delete_rows_other (is_binary sha) (is_binary key) binaries
          (λ b hit. ground (arith, hit, other, eq_iff b.sha256 sha)) in
      ground (
        arith,
        other,
        Bool-cases referenced,
        Option-cases (find_row (is_binary sha) binaries),
        kept,
      )
]

find_row-sweep :
    (db : Database) (key : String) (shas : List String) (s : Swept)
    → find_row (is_binary key) (sweep db shas s).0 ≡ (
        if among key shas && not (binary_has_references db key)
        then none
        else find_row (is_binary key) s.0)
unfolding sweep
find_row-sweep db key [] s = refl
find_row-sweep db key (sha ∷ shas) s = ground (
  arith,
  eq_iff sha key,
  Bool-cases (str_eq sha key),
  Bool-cases (among key shas),
  Bool-cases (binary_has_references db key),
  find_row-sweep_one key sha (binary_has_references db sha) s,
  find_row-sweep db key shas
      (sweep_one sha (binary_has_references db sha) (find_row (is_binary sha) s.0) s),
)

among-owned_hashes :
    (p key : String) (accesses : List BinaryAccess)
    → among key (owned_hashes p accesses) ≡ is_there (is_access p key) accesses
unfolding owned_hashes is_there
among-owned_hashes p key [] = refl
among-owned_hashes p key (a ∷ accesses) = ground (
  arith,
  Bool-cases (str_eq a.owner_id p),
  Bool-cases (str_eq a.binary_sha256 key),
  among-owned_hashes p key accesses,
)

-- A binary is deleted exactly when access rows are, the principal had one of it, and no row that is left
-- refers to it.
pub find_row-sweep_binaries :
    (include_access : Bool) (p key : String) (accesses : List BinaryAccess) (db : Database)
    → find_row (is_binary key) (sweep_binaries include_access (owned_hashes p accesses) db).0 ≡ (
        if include_access
          && is_there (is_access p key) accesses
          && not (binary_has_references db key)
        then none
        else find_row (is_binary key) db.binaries)
unfolding sweep_binaries
find_row-sweep_binaries false p key accesses db = refl
find_row-sweep_binaries true p key accesses db =
    find_row-sweep db key (owned_hashes p accesses) (db.binaries, [])
    ∙ ap
        (λ owned.
          if owned && not (binary_has_references db key)
          then none
          else find_row (is_binary key) db.binaries)
        (among-owned_hashes p key accesses)
