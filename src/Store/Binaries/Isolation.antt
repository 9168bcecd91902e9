-- ===== src/Store/Binaries/Isolation.antt =====
-- What an upload lets other owners see, in backend/reversing_lab/database/repository.py.
use reversing_lab.Prelude.{
  ◌≡◌, ◌≢◌, inl, inr, refl, sym, ◌∙◌, String, Bool, true, false, List, [], ◌∷◌, ◌++◌, eq_iff, arith,
  Bool-cases, if_keeps,
}
use reversing_lab.Jobs.Repository.{Scope}
use reversing_lab.Store.Table.{
  find_row, is_there, find_row-append_found, is_there-append, is_there-find_row,
  is_there-change_row,
}
use reversing_lab.Store.Binaries.{
  Bytes, BinaryAccess, Store, is_binary, is_access, grant_access, get, save, new_access, new_binary,
}

-- The foreign key of the access rows.
abbrev pub IsReferential : Store → Type 0
IsReferential store =
    (owner sha : String)
    → is_there (is_access owner sha) store.accesses ≡ true
    → is_there (is_binary sha) store.binaries ≡ true

new_access_other :
    (scope : Scope) (owner sha filename other_sha : String) (accesses : List BinaryAccess)
    → scope.owner_id ≢ owner
    → is_there (is_access owner other_sha) (accesses ++ new_access scope sha filename ∷ [])
      ≡ is_there (is_access owner other_sha) accesses
new_access_other scope owner sha filename other_sha accesses apart = ground (
  arith,
  apart,
  is_there-append (is_access owner other_sha) accesses (new_access scope sha filename),
  eq_iff scope.owner_id owner,
  Bool-cases (is_there (is_access owner other_sha) accesses),
)

-- A grant to one owner is none to another.
is_there-grant_access_other :
    (scope : Scope) (owner sha filename other_sha : String) (accesses : List BinaryAccess)
    → scope.owner_id ≢ owner
    → is_there (is_access owner other_sha) (grant_access scope sha filename accesses)
      ≡ is_there (is_access owner other_sha) accesses
unfolding grant_access
is_there-grant_access_other scope owner sha filename other_sha accesses apart =
    if_keeps
      (λ rows.
        is_there (is_access owner other_sha) rows ≡ is_there (is_access owner other_sha) accesses)
      (is_there (is_access scope.owner_id sha) accesses) _
      (accesses ++ new_access scope sha filename ∷ [])
      (λ there.
        is_there-change_row (is_access owner other_sha) (is_access scope.owner_id sha) _ accesses
          (λ a. refl))
      (λ fresh. new_access_other scope owner sha filename other_sha accesses apart)

abbrev pub only : String → Scope
only owner = record { owner_id = owner; unrestricted = false }

module _ (sha256 : Bytes → String) (path_for : String → String) (is_inside : String → Bool) where
  saved_accesses :
      (scope : Scope) (owner sha filename binary_format : String) (bytes : Bytes) (store : Store)
      → scope.owner_id ≢ owner
      → let store' = save sha256 path_for is_inside scope bytes filename binary_format store in
        is_there (is_access owner sha) store'.accesses
        ≡ is_there (is_access owner sha) store.accesses
  unfolding save
  saved_accesses scope owner sha filename binary_format bytes store apart =
      if_keeps
        (λ (s : Store).
          is_there (is_access owner sha) s.accesses ≡ is_there (is_access owner sha) store.accesses)
        (is_there (is_binary (sha256 bytes)) store.binaries) _ _
        (λ known.
          is_there-grant_access_other scope owner (sha256 bytes) filename sha store.accesses apart)
        (λ fresh. new_access_other scope owner (sha256 bytes) filename sha store.accesses apart)

  saved_binaries :
      (scope : Scope) (sha filename binary_format : String) (bytes : Bytes) (store : Store)
      → is_there (is_binary sha) store.binaries ≡ true
      → let store' = save sha256 path_for is_inside scope bytes filename binary_format store in
        find_row (is_binary sha) store'.binaries ≡ find_row (is_binary sha) store.binaries
  unfolding save
  saved_binaries scope sha filename binary_format bytes store there =
      let (b, e) = is_there-find_row (is_binary sha) store.binaries there in
      if_keeps
        (λ (s : Store).
          find_row (is_binary sha) s.binaries ≡ find_row (is_binary sha) store.binaries)
        (is_there (is_binary (sha256 bytes)) store.binaries) _ _ (λ known. refl)
        (λ fresh.
          find_row-append_found (is_binary sha) store.binaries
            (new_binary sha256 path_for is_inside bytes filename binary_format) b e
          ∙ sym e)

  -- An upload lets no other owner see anything: while access rows refer to binaries that are there, what a
  -- restricted reader with another owner gets under any identifier is the same after `save` as before.
  pub get-save_other :
      (scope : Scope) (owner sha filename binary_format : String) (bytes : Bytes) (store : Store)
      → scope.owner_id ≢ owner
      → IsReferential store
      → get
          (only owner)
          sha
          (save sha256 path_for is_inside scope bytes filename binary_format store)
        ≡ get (only owner) sha store
  unfolding get
  get-save_other scope owner sha filename binary_format bytes store apart referential =
      let accesses = saved_accesses scope owner sha filename binary_format bytes store apart in
      elim (Bool-cases (is_there (is_access owner sha) store.accesses)) [
        | inl granted ↦
            let binaries =
              saved_binaries scope sha filename binary_format bytes store
                (referential owner sha granted) in
            ground (arith, accesses, granted, binaries)
        | inr refused ↦ ground (arith, accesses, refused)
      ]
