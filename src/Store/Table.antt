-- ===== src/Store/Table.antt =====
-- Queries on a table of rows, for backend/reversing_lab/database/repository.py. Rows are in the order of
-- insertion.
use reversing_lab.Prelude.{
  ◌≡◌, inl, inr, refl, Bool, true, false, Option, none, some, List, [], ◌∷◌, ◌++◌, if◌then◌else◌,
  All, arith, Bool-cases,
}

module _ {ℓ} {A : Type ℓ} where
  -- The first row that the test holds of: `session.scalar(select(…).where(test))`.
  unfoldable pub find_row : (A → Bool) → List A → Option A
  find_row test [] = none
  find_row test (row ∷ rows) = let rest = find_row test rows in if test row then some row else rest

  -- An assignment to fields of the row that `find_row` found.
  unfoldable pub change_row : (A → Bool) → (A → A) → List A → List A
  change_row test f [] = []
  change_row test f (row ∷ rows) =
      let rest = change_row test f rows in if test row then f row ∷ rows else row ∷ rest

  unfoldable pub is_there : (A → Bool) → List A → Bool
  is_there test [] = false
  is_there test (row ∷ rows) = let rest = is_there test rows in if test row then true else rest

  pub find_row-append :
      (test : A → Bool) (rows : List A) (row : A)
      → find_row test rows ≡ none
      → find_row test (rows ++ row ∷ []) ≡ (if test row then some row else none)
  unfolding find_row
  find_row-append test [] row absent = refl
  find_row-append test (r ∷ rows) row absent = ground (arith, absent, find_row-append test rows row)

  -- A row behind the others changes nothing for a test that it fails.
  pub find_row-append_other :
      (test : A → Bool) (rows : List A) (row : A)
      → test row ≡ false
      → find_row test (rows ++ row ∷ []) ≡ find_row test rows
  unfolding find_row
  find_row-append_other test [] row fails = ground (arith, fails)
  find_row-append_other test (r ∷ rows) row fails =
      ground (arith, find_row-append_other test rows row fails)

  pub find_row-append_found :
      (test : A → Bool) (rows : List A) (row found_row : A)
      → find_row test rows ≡ some found_row
      → find_row test (rows ++ row ∷ []) ≡ some found_row
  unfolding find_row
  find_row-append_found test [] row r h = cc
  find_row-append_found test (x ∷ rows) row r h =
      ground (arith, h, find_row-append_found test rows row r)

  pub is_there-append :
      (test : A → Bool) (rows : List A) (row : A)
      → is_there test (rows ++ row ∷ []) ≡ (if is_there test rows then true else test row)
  unfolding is_there
  is_there-append test [] row = ground (arith, Bool-cases (test row))
  is_there-append test (x ∷ rows) row = ground (arith, is_there-append test rows row)

  -- What holds of all rows holds of one that was found.
  pub find_row-All :
      (P : A → Type 0) (test : A → Bool) (rows : List A) (row : A)
      → All P rows
      → find_row test rows ≡ some row
      → P row × (test row ≡ true)
  unfolding find_row
  find_row-All P test [] row all h = cc
  find_row-All P test (x ∷ rows) row all h = elim (Bool-cases (test x)) [
    | inl holds ↦ let same : x ≡ row = ground (arith, h, holds) in rw (← same) (all.0, holds)
    | inr fails ↦ find_row-All P test rows row all.1 (ground (arith, h, fails))
  ]

  pub All-snoc :
      (P : A → Type 0) (rows : List A) (row : A) → All P rows → P row → All P (rows ++ row ∷ [])
  All-snoc P [] row all p = (p, tt)
  All-snoc P (x ∷ rows) row all p = (all.0, All-snoc P rows row all.1 p)

  pub is_there-find_row :
      (test : A → Bool) (rows : List A)
      → is_there test rows ≡ true
      → (row : A) × (find_row test rows ≡ some row)
  unfolding find_row is_there
  is_there-find_row test [] h = cc
  is_there-find_row test (x ∷ rows) h = elim (Bool-cases (test x)) [
    | inl holds ↦ (x, ground (arith, holds))
    | inr fails ↦
        let (row, e) = is_there-find_row test rows (ground (arith, h, fails)) in
        (row, ground (arith, fails, e))
  ]

  -- An assignment to rows that keeps a test keeps the answers of that test.
  pub is_there-change_row :
      (test found_by : A → Bool) (f : A → A) (rows : List A)
      → ((row : A) → test (f row) ≡ test row)
      → is_there test (change_row found_by f rows) ≡ is_there test rows
  unfolding is_there change_row
  is_there-change_row test found_by f [] keeps = refl
  is_there-change_row test found_by f (x ∷ rows) keeps =
      ground (arith, keeps x, is_there-change_row test found_by f rows keeps)

  -- The write of a query for a row, an assignment to the row that it found, and else a new row.
  unfoldable pub upsert_row : (A → Bool) → (A → A) → A → List A → List A
  upsert_row test f row [] = row ∷ []
  upsert_row test f row (x ∷ rows) =
      let rest = upsert_row test f row rows in if test x then f x ∷ rows else x ∷ rest

  -- The row that an upsert leaves behind.
  abbrev pub upserted : (A → A) → A → Option A → A
  upserted f row none = row
  upserted f row (some x) = f x

  -- What an upsert under one key does to the row of another, which `same` says is the first.
  pub find_row-upsert_row :
      (test other : A → Bool) (same : Bool) (f : A → A) (row : A) (rows : List A)
      → other row ≡ same
      → ((x : A) → other (f x) ≡ other x)
      → ((x : A) → test x ≡ true → other x ≡ same)
      → ((x : A) → same ≡ true → other x ≡ true → test x ≡ true)
      → find_row other (upsert_row test f row rows)
        ≡ (if same then some (upserted f row (find_row other rows)) else find_row other rows)
  unfolding find_row upsert_row
  find_row-upsert_row test other same f row [] new keeps key back = ground (arith, new)
  find_row-upsert_row test other same f row (x ∷ rows) new keeps key back =
      let rest = find_row-upsert_row test other same f row rows new keeps key back in
      elim (Bool-cases (test x)) [
        | inl hit ↦ ground (arith, hit, keeps x, key x hit, Bool-cases same)
        | inr miss ↦ elim (Bool-cases (other x)) [
          | inl named ↦ elim (Bool-cases same) [
            | inl yes_same ↦ let clash = back x yes_same named in ground (arith, miss, clash)
            | inr not_same ↦ ground (arith, miss, named, not_same)
          ]
          | inr unnamed ↦ ground (arith, miss, unnamed, rest)
        ]
      ]

  -- The rows that a deletion leaves.
  unfoldable pub delete_rows : (A → Bool) → List A → List A
  delete_rows test [] = []
  delete_rows test (x ∷ rows) =
      let rest = delete_rows test rows in if test x then rest else x ∷ rest

  pub find_row-delete_rows :
      (test : A → Bool) (rows : List A) → find_row test (delete_rows test rows) ≡ none
  unfolding find_row delete_rows
  find_row-delete_rows test [] = refl
  find_row-delete_rows test (x ∷ rows) =
      ground (arith, Bool-cases (test x), find_row-delete_rows test rows)

  pub find_row-delete_rows_other :
      (test other : A → Bool) (rows : List A)
      → ((x : A) → test x ≡ true → other x ≡ false)
      → find_row other (delete_rows test rows) ≡ find_row other rows
  unfolding find_row delete_rows
  find_row-delete_rows_other test other [] apart = refl
  find_row-delete_rows_other test other (x ∷ rows) apart = elim (Bool-cases (test x)) [
    | inl hit ↦ ground (arith, hit, apart x hit, find_row-delete_rows_other test other rows apart)
    | inr miss ↦ ground (arith, miss, find_row-delete_rows_other test other rows apart)
  ]

  pub delete_rows_none :
      (test : A → Bool) (rows : List A) → is_there test rows ≡ false → delete_rows test rows ≡ rows
  unfolding is_there delete_rows
  delete_rows_none test [] absent = refl
  delete_rows_none test (x ∷ rows) absent = elim (Bool-cases (test x)) [
    | inl hit ↦ ground (arith, hit, absent)
    | inr miss ↦ ground (arith, miss, absent, delete_rows_none test rows)
  ]

  -- An assignment to a row changes no row that fails its test.
  pub find_row-change_row :
      (test : A → Bool) (f : A → A) (rows : List A) (x : A)
      → ((y : A) → test (f y) ≡ test y)
      → find_row test rows ≡ some x
      → find_row test (change_row test f rows) ≡ some (f x)
  unfolding find_row change_row
  find_row-change_row test f [] x keeps there = cc
  find_row-change_row test f (y ∷ rows) x keeps there = elim (Bool-cases (test y)) [
    | inl hit ↦ ground (arith, hit, keeps y, there)
    | inr miss ↦ ground (arith, miss, find_row-change_row test f rows x keeps)
  ]

  pub find_row-change_row_other :
      (test other : A → Bool) (f : A → A) (rows : List A)
      → ((x : A) → other (f x) ≡ other x)
      → ((x : A) → test x ≡ true → other x ≡ false)
      → find_row other (change_row test f rows) ≡ find_row other rows
  unfolding find_row change_row
  find_row-change_row_other test other f [] keeps apart = refl
  find_row-change_row_other test other f (x ∷ rows) keeps apart = elim (Bool-cases (test x)) [
    | inl hit ↦ ground (arith, hit, keeps x, apart x hit)
    | inr miss ↦ ground (arith, miss, find_row-change_row_other test other f rows keeps apart)
  ]
