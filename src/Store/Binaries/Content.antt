-- ===== src/Store/Binaries/Content.antt =====
-- The storage of backend/reversing_lab/database/repository.py is addressed by content.
use reversing_lab.Prelude.{
  ◌≡◌, inl, inr, refl, ◌∙◌, String, Bool, true, some, List, [], ◌∷◌, ◌++◌, ap, str_eq, eq_iff,
  arith, All, Bool-cases, if_keeps,
}
use mathlib.Core.Path.{subst}
use reversing_lab.Prelude.Dict.{lookup, insert, lookup-insert}
use reversing_lab.Access.Keys.{is_digest}
use reversing_lab.Jobs.Repository.{Scope}
use reversing_lab.Store.Table.{
  find_row, is_there, find_row-All, All-snoc, is_there-append, is_there-find_row,
  is_there-change_row,
}
use reversing_lab.Store.Binaries.{
  Bytes, BinaryRecord, BinaryAccess, Store, is_binary, is_access, grant_access, get, save,
  load_bytes, new_access, new_binary, read_file,
}

-- The access row that is added last.
last_access :
    (scope : Scope) (sha filename : String) (accesses : List BinaryAccess)
    → is_there (is_access scope.owner_id sha) (accesses ++ new_access scope sha filename ∷ [])
      ≡ true
last_access scope sha filename accesses = ground (
  arith,
  is_there-append (is_access scope.owner_id sha) accesses (new_access scope sha filename),
  eq_iff scope.owner_id scope.owner_id,
  eq_iff sha sha,
  Bool-cases (is_there (is_access scope.owner_id sha) accesses),
)

-- After `_grant_access` the owner has access.
pub is_there-grant_access :
    (scope : Scope) (sha filename : String) (accesses : List BinaryAccess)
    → is_there (is_access scope.owner_id sha) (grant_access scope sha filename accesses) ≡ true
unfolding grant_access
is_there-grant_access scope sha filename accesses =
    if_keeps (λ rows. is_there (is_access scope.owner_id sha) rows ≡ true)
      (is_there (is_access scope.owner_id sha) accesses) _
      (accesses ++ new_access scope sha filename ∷ [])
      (λ there.
        is_there-change_row (is_access scope.owner_id sha) (is_access scope.owner_id sha) _ accesses
          (λ a. refl)
        ∙ there)
      (λ fresh. last_access scope sha filename accesses)

module _ (sha256 : Bytes → String) (path_for : String → String) (is_inside : String → Bool) where
  -- The file of a name holds bytes with that digest.
  abbrev pub HasFile : List (String × Bytes) → String → Type 0
  HasFile files sha =
      (content : Bytes) × (lookup (path_for sha) files ≡ some content) × (sha256 content ≡ sha)

  abbrev pub IsStored : Store → Type 0
  IsStored store = All (λ (b : BinaryRecord). HasFile store.files b.sha256) store.binaries

  insert-HasFile :
      ((a b : String) → path_for a ≡ path_for b → a ≡ b)
      → (bytes : Bytes) (files : List (String × Bytes)) (sha : String) → HasFile files sha
      → HasFile (insert (path_for (sha256 bytes)) bytes files) sha
  insert-HasFile distinct bytes files sha (content, there, digest) =
      let after = lookup-insert (path_for (sha256 bytes)) (path_for sha) bytes files in
      elim (Bool-cases (str_eq (path_for (sha256 bytes)) (path_for sha))) [
        | inl same ↦
            let e : path_for (sha256 bytes) ≡ path_for sha = (eq_iff _ _).0 same in
            (bytes, ground (arith, after, same), distinct (sha256 bytes) sha e)
        | inr other ↦ (content, ground (arith, after, other, there), digest)
      ]

  All-files :
      (files files' : List (String × Bytes))
      → ((sha : String) → HasFile files sha → HasFile files' sha)
      → (rows : List BinaryRecord) → All (λ (b : BinaryRecord). HasFile files b.sha256) rows
      → All (λ (b : BinaryRecord). HasFile files' b.sha256) rows
  All-files files files' h [] all = tt
  All-files files files' h (b ∷ rows) all = (h b.sha256 all.0, All-files files files' h rows all.1)

  -- Where different names have different paths, `save` keeps a file with the right digest for each row.
  pub save-IsStored :
      ((a b : String) → path_for a ≡ path_for b → a ≡ b)
      → (scope : Scope) (bytes : Bytes) (filename binary_format : String) (store : Store)
      → IsStored store
      → IsStored (save sha256 path_for is_inside scope bytes filename binary_format store)
  unfolding save
  save-IsStored distinct scope bytes filename binary_format store stored =
      if_keeps IsStored (is_there (is_binary (sha256 bytes)) store.binaries) _ _ (λ known. stored)
        (λ fresh.
          All-snoc _ store.binaries
            (new_binary sha256 path_for is_inside bytes filename binary_format)
            (All-files store.files _ (insert-HasFile distinct bytes store.files) store.binaries
              stored)
            (
              bytes,
              ground (
                arith,
                lookup-insert (path_for (sha256 bytes)) (path_for (sha256 bytes)) bytes store.files,
                eq_iff (path_for (sha256 bytes)) (path_for (sha256 bytes)),
              ),
              refl,
            ))

  -- The rows after `save` have the digest, and the owner's access to it.
  saved_there :
      (scope : Scope) (bytes : Bytes) (filename binary_format : String) (store : Store)
      → let store' = save sha256 path_for is_inside scope bytes filename binary_format store in
        (is_there (is_binary (sha256 bytes)) store'.binaries ≡ true)
        × (is_there (is_access scope.owner_id (sha256 bytes)) store'.accesses ≡ true)
  unfolding save
  saved_there scope bytes filename binary_format store =
      if_keeps
        (λ (s : Store).
          (is_there (is_binary (sha256 bytes)) s.binaries ≡ true)
          × (is_there (is_access scope.owner_id (sha256 bytes)) s.accesses ≡ true))
        (is_there (is_binary (sha256 bytes)) store.binaries) _ _
        (λ known. (known, is_there-grant_access scope (sha256 bytes) filename store.accesses))
        (λ fresh. (
          ground (
            arith,
            fresh,
            eq_iff (sha256 bytes) (sha256 bytes),
            is_there-append (is_binary (sha256 bytes)) store.binaries
                (new_binary sha256 path_for is_inside bytes filename binary_format),
          ),
          last_access scope (sha256 bytes) filename store.accesses,
        ))

  get_there :
      (scope : Scope) (sha : String) (store : Store)
      → is_digest sha ≡ true
      → is_there (is_binary sha) store.binaries ≡ true
      → is_there (is_access scope.owner_id sha) store.accesses ≡ true
      → (b : BinaryRecord) × (get scope sha store ≡ some b)
        × (find_row (is_binary sha) store.binaries ≡ some b)
  unfolding get
  get_there scope sha store digest there access =
      let (b, e) = is_there-find_row (is_binary sha) store.binaries there in
      (b, ground (arith, digest, access, e, Bool-cases scope.unrestricted), e)

  load_found :
      (scope : Scope) (sha : String) (store : Store) (b : BinaryRecord)
      → is_inside (path_for sha) ≡ true
      → get scope sha store ≡ some b
      → load_bytes sha256 path_for is_inside scope sha store ≡ lookup (path_for sha) store.files
  unfolding load_bytes
  load_found scope sha store b inside e =
      ap (λ o. read_file sha256 path_for is_inside store o sha) e ∙ ground (arith, inside)

  -- Bytes that were saved can be read again under their digest: in a store in which each row has its
  -- file, `load_bytes` after `save` of the same owner returns bytes with the digest of those saved. The
  -- digest has the form of a SHA-256 and its path lies in the storage.
  pub load_bytes-save :
      ((a b : String) → path_for a ≡ path_for b → a ≡ b)
      → (scope : Scope) (bytes : Bytes) (filename binary_format : String) (store : Store)
      → IsStored store
      → is_digest (sha256 bytes) ≡ true
      → is_inside (path_for (sha256 bytes)) ≡ true
      → (content : Bytes) × (load_bytes sha256 path_for is_inside scope
            (sha256 bytes)
            (save sha256 path_for is_inside scope bytes filename binary_format store)
          ≡ some content)
        × (sha256 content ≡ sha256 bytes)
  load_bytes-save distinct scope bytes filename binary_format store stored digest inside =
      let store' = save sha256 path_for is_inside scope bytes filename binary_format store in
      let after = save-IsStored distinct scope bytes filename binary_format store stored in
      let there = saved_there scope bytes filename binary_format store in
      let (b, found_by_get, row) = get_there scope (sha256 bytes) store' digest there.0 there.1 in
      let (file, named) =
        find_row-All (λ (r : BinaryRecord). HasFile store'.files r.sha256)
          (is_binary (sha256 bytes)) store'.binaries b after row in
      let same : b.sha256 ≡ sha256 bytes = (eq_iff _ _).0 named in
      let (content, read, digest_of) = subst (HasFile store'.files) same file in
      (content, load_found scope (sha256 bytes) store' b inside found_by_get ∙ read, digest_of)
