-- ===== src/Store/Overlays/Keys.antt =====
-- The annotations and bookmarks of backend/reversing_lab/database/repository.py are maps from their keys.
use reversing_lab.Prelude.{
  ℕ, ◌≡◌, ◌⊎◌, inl, inr, refl, String, true, false, ◌&&◌, none, some, List, if◌then◌else◌, ◌==◌,
  str_eq, eq_iff, arith, Bool-cases,
}
use reversing_lab.Jobs.Repository.{Scope}
use reversing_lab.Store.Table.{
  find_row, is_there, upsert_row, upserted, find_row-upsert_row, find_row-delete_rows,
  delete_rows_none, is_there-find_row,
}
use reversing_lab.Store.Binaries.{Store, has_binary_access}
use reversing_lab.Store.Overlays.{
  Annotation, Bookmark, done, is_allowed_kind, is_annotation, new_annotation, upsert_annotation,
  is_bookmark, new_bookmark, upsert_bookmark, delete_bookmark,
}

-- Two keys that one row cannot have.
bookmark_apart :
    (owner sha : String) (address : ℕ) (other_owner other_sha : String) (other_address : ℕ)
    (b : Bookmark)
    → is_bookmark owner sha address b ≡ true
    → is_bookmark other_owner other_sha other_address b
      ≡ (str_eq owner other_owner && str_eq sha other_sha && (address == other_address))
bookmark_apart owner sha address other_owner other_sha other_address b hit = ground (
  arith,
  hit,
  eq_iff b.owner_id owner,
  eq_iff b.owner_id other_owner,
  eq_iff owner other_owner,
  eq_iff b.binary_sha256 sha,
  eq_iff b.binary_sha256 other_sha,
  eq_iff sha other_sha,
)

annotation_apart :
    (owner sha : String) (address : ℕ) (kind other_owner other_sha : String) (other_address : ℕ)
    (other_kind : String) (a : Annotation)
    → is_annotation owner sha address kind a ≡ true
    → is_annotation other_owner other_sha other_address other_kind a ≡ (
        str_eq owner other_owner
        && str_eq sha other_sha
        && (address == other_address)
        && str_eq kind other_kind)
annotation_apart owner sha address kind other_owner other_sha other_address other_kind a hit =
    ground (
      arith,
      hit,
      eq_iff a.owner_id owner,
      eq_iff a.owner_id other_owner,
      eq_iff owner other_owner,
      eq_iff a.binary_sha256 sha,
      eq_iff a.binary_sha256 other_sha,
      eq_iff sha other_sha,
      eq_iff a.kind kind,
      eq_iff a.kind other_kind,
      eq_iff kind other_kind,
    )

same_bookmark :
    (owner sha : String) (address : ℕ) (other_owner other_sha : String) (other_address : ℕ)
    (b : Bookmark)
    → (str_eq owner other_owner && str_eq sha other_sha && (address == other_address)) ≡ true
    → is_bookmark other_owner other_sha other_address b ≡ true
    → is_bookmark owner sha address b ≡ true
same_bookmark owner sha address other_owner other_sha other_address b same hit = ground (
  arith,
  same,
  hit,
  eq_iff b.owner_id owner,
  eq_iff b.owner_id other_owner,
  eq_iff owner other_owner,
  eq_iff b.binary_sha256 sha,
  eq_iff b.binary_sha256 other_sha,
  eq_iff sha other_sha,
)

same_annotation :
    (owner sha : String) (address : ℕ) (kind other_owner other_sha : String) (other_address : ℕ)
    (other_kind : String) (a : Annotation)
    → (str_eq owner other_owner
        && str_eq sha other_sha
        && (address == other_address)
        && str_eq kind other_kind)
      ≡ true
    → is_annotation other_owner other_sha other_address other_kind a ≡ true
    → is_annotation owner sha address kind a ≡ true
same_annotation owner sha address kind other_owner other_sha other_address other_kind a same hit =
    ground (
      arith,
      same,
      hit,
      eq_iff a.owner_id owner,
      eq_iff a.owner_id other_owner,
      eq_iff owner other_owner,
      eq_iff a.binary_sha256 sha,
      eq_iff a.binary_sha256 other_sha,
      eq_iff sha other_sha,
      eq_iff a.kind kind,
      eq_iff a.kind other_kind,
      eq_iff kind other_kind,
    )

-- A caller with access to the binary writes the bookmark of one owner, binary and address: under that
-- key the label and the note are those given, and the rows of all other keys are as before.
pub find_row-upsert_bookmark :
    (scope : Scope) (store : Store) (sha : String) (address : ℕ) (label note : String)
    (owner other_sha : String) (other_address : ℕ) (rows : List Bookmark)
    → has_binary_access scope sha store ≡ true
    → let test = is_bookmark owner other_sha other_address in
      let set = λ (b : Bookmark). record b { label = label; note = note } in
      (rows' : List Bookmark) × (upsert_bookmark scope store sha address label note rows
        ≡ done rows')
      × (find_row test rows' ≡ (
          if str_eq scope.owner_id owner && str_eq sha other_sha && (address == other_address)
          then some (upserted set (new_bookmark scope sha address label note) (find_row test rows))
          else find_row test rows))
unfolding upsert_bookmark
find_row-upsert_bookmark scope store sha address label note owner other_sha other_address rows
      access =
    (
      upsert_row (is_bookmark scope.owner_id sha address)
          (λ b. record b { label = label; note = note }) (new_bookmark scope sha address label note)
          rows,
      ground (arith, access),
      find_row-upsert_row (is_bookmark scope.owner_id sha address)
          (is_bookmark owner other_sha other_address) _ _
          (new_bookmark scope sha address label note) rows refl (λ b. refl)
          (bookmark_apart scope.owner_id sha address owner other_sha other_address)
          (same_bookmark scope.owner_id sha address owner other_sha other_address),
    )

-- A caller with access to the binary writes the annotation of one owner, binary, address and allowed
-- kind: under that key the value is the one given, and the rows of all other keys are as before.
pub find_row-upsert_annotation :
    (scope : Scope) (store : Store) (sha : String) (address : ℕ) (kind value : String)
    (owner other_sha : String) (other_address : ℕ) (other_kind : String) (rows : List Annotation)
    → has_binary_access scope sha store ≡ true
    → is_allowed_kind kind ≡ true
    → let test = is_annotation owner other_sha other_address other_kind in
      let set = λ (a : Annotation). record a { value = value } in
      (rows' : List Annotation) × (upsert_annotation scope store sha address kind value rows
        ≡ done rows')
      × (find_row test rows' ≡ (
          if str_eq scope.owner_id owner
            && str_eq sha other_sha
            && (address == other_address)
            && str_eq kind other_kind
          then some
              (upserted set (new_annotation scope sha address kind value) (find_row test rows))
          else find_row test rows))
unfolding upsert_annotation
find_row-upsert_annotation scope store sha address kind value owner other_sha other_address
      other_kind rows access allowed =
    (
      upsert_row (is_annotation scope.owner_id sha address kind) (λ a. record a { value = value })
          (new_annotation scope sha address kind value) rows,
      ground (arith, access, allowed),
      find_row-upsert_row (is_annotation scope.owner_id sha address kind)
          (is_annotation owner other_sha other_address other_kind) _ _
          (new_annotation scope sha address kind value) rows refl (λ a. refl)
          (annotation_apart scope.owner_id sha address kind owner other_sha other_address
            other_kind)
          (same_annotation scope.owner_id sha address kind owner other_sha other_address
            other_kind),
    )

-- After `delete` the caller has no bookmark at that binary and address; the answer says whether there was
-- one.
pub delete_bookmark_gone :
    (scope : Scope) (sha : String) (address : ℕ) (rows : List Bookmark)
    → let mine = is_bookmark scope.owner_id sha address in
      let (left, deleted) = delete_bookmark scope sha address rows in
      (find_row mine left ≡ none)
      × (((deleted ≡ true) × ((b : Bookmark) × (find_row mine rows ≡ some b)))
          ⊎ ((deleted ≡ false) × (left ≡ rows)))
unfolding delete_bookmark
delete_bookmark_gone scope sha address rows =
    let mine = is_bookmark scope.owner_id sha address in
    (
      find_row-delete_rows mine rows,
      elim (Bool-cases (is_there mine rows)) [
        | inl there ↦ inl (there, is_there-find_row mine rows there)
        | inr absent ↦ inr (absent, delete_rows_none mine rows absent)
      ],
    )
