-- ===== src/Store/Overlays.antt =====
-- `AnnotationRepository` and `BookmarkRepository` of backend/reversing_lab/database/repository.py. The
-- rows of a listing are sorted by address, among equal addresses by age.
pub mod Keys
use reversing_lab.Prelude.{
  ℕ, String, Bool, true, false, ◌&&◌, ◌||◌, Option, none, some, List, [], ◌∷◌, keep, if◌then◌else◌,
  ◌==◌, ltb, str_eq,
}
use reversing_lab.Jobs.Repository.{Scope}
use reversing_lab.Store.Table.{find_row, is_there, upsert_row, delete_rows}
use reversing_lab.Store.Binaries.{Store, has_binary_access}

pub record Annotation : Type 0 where
  pub owner_id : String
  pub binary_sha256 : String
  pub address : ℕ
  pub kind : String
  pub value : String

pub record Bookmark : Type 0 where
  pub owner_id : String
  pub binary_sha256 : String
  pub address : ℕ
  pub label : String
  pub note : String

-- A result, or the exception.
pub data Result (A : Type 0) : Type 0 where
  done : A → Result A
  unsupported_kind : Result A
  not_found : Result A

module _ {A : Type 0} (key : A → ℕ) where
  unfoldable pub place : A → List A → List A
  place x [] = x ∷ []
  place x (y ∷ ys) = let rest = place x ys in if ltb (key x) (key y) then x ∷ y ∷ ys else y ∷ rest

  -- order_by(key)
  unfoldable pub sort_by : List A → List A → List A
  unfolding place
  sort_by sorted [] = sorted
  sort_by sorted (x ∷ xs) = sort_by (place x sorted) xs

-- kind in _ALLOWED_KINDS
abbrev pub is_allowed_kind : String → Bool
is_allowed_kind kind = str_eq kind "function_name" || str_eq kind "comment"

abbrev pub is_annotation : String → String → ℕ → String → Annotation → Bool
is_annotation owner sha address kind a =
    str_eq a.owner_id owner
    && str_eq a.binary_sha256 sha
    && (a.address == address)
    && str_eq a.kind kind

abbrev pub new_annotation : Scope → String → ℕ → String → String → Annotation
new_annotation scope sha address kind value = record {
  owner_id = scope.owner_id;
  binary_sha256 = sha;
  address = address;
  kind = kind;
  value = value;
}

unfoldable pub upsert_annotation :
    Scope → Store → String → ℕ → String → String → List Annotation → Result (List Annotation)
unfolding upsert_row has_binary_access
upsert_annotation scope store sha address kind value rows =
    if is_allowed_kind kind
    then (if has_binary_access scope sha store
        then done (
            upsert_row (is_annotation scope.owner_id sha address kind)
              (λ a. record a { value = value }) (new_annotation scope sha address kind value) rows)
        else not_found)
    else unsupported_kind

abbrev pub at_address : Option ℕ → ℕ → Bool
at_address none address = true
at_address (some wanted) address = address == wanted

unfoldable pub list_annotations : Scope → String → Option ℕ → List Annotation → List Annotation
unfolding sort_by
list_annotations scope sha address rows =
    sort_by (λ (a : Annotation). a.address) []
      (keep
        (λ (a : Annotation).
          str_eq a.binary_sha256 sha
          && (scope.unrestricted || str_eq a.owner_id scope.owner_id)
          && at_address address a.address)
        rows)

abbrev pub is_bookmark : String → String → ℕ → Bookmark → Bool
is_bookmark owner sha address b =
    str_eq b.owner_id owner && str_eq b.binary_sha256 sha && (b.address == address)

abbrev pub new_bookmark : Scope → String → ℕ → String → String → Bookmark
new_bookmark scope sha address label note = record {
  owner_id = scope.owner_id;
  binary_sha256 = sha;
  address = address;
  label = label;
  note = note;
}

unfoldable pub upsert_bookmark :
    Scope → Store → String → ℕ → String → String → List Bookmark → Result (List Bookmark)
unfolding upsert_row has_binary_access
upsert_bookmark scope store sha address label note rows =
    if has_binary_access scope sha store
    then done (
        upsert_row (is_bookmark scope.owner_id sha address)
          (λ b. record b { label = label; note = note }) (new_bookmark scope sha address label note)
          rows)
    else not_found

unfoldable pub list_bookmarks : Scope → String → List Bookmark → List Bookmark
unfolding sort_by
list_bookmarks scope sha rows =
    sort_by (λ (b : Bookmark). b.address) []
      (keep
        (λ (b : Bookmark).
          str_eq b.binary_sha256 sha && (scope.unrestricted || str_eq b.owner_id scope.owner_id))
        rows)

-- The rows that are left, and whether there was one to delete.
unfoldable pub delete_bookmark : Scope → String → ℕ → List Bookmark → List Bookmark × Bool
unfolding delete_rows is_there
delete_bookmark scope sha address rows = (
  delete_rows (is_bookmark scope.owner_id sha address) rows,
  is_there (is_bookmark scope.owner_id sha address) rows,
)
