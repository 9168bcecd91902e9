-- ===== src/Retention/Tables.antt =====
-- What a deletion leaves of a table, for backend/reversing_lab/database/retention.py.
use reversing_lab.Prelude.{
  ◌+◌, ◌≡◌, ◌≢◌, inl, inr, refl, String, Bool, true, false, List, [], ◌∷◌, keep, length, str_eq,
  eq_iff, arith, Bool-cases,
}
use reversing_lab.Store.Table.{is_there, delete_rows}
use reversing_lab.Retention.Database.{count}

-- A row has one owner.
pub owner_apart : (p q o : String) → p ≢ q → str_eq o p ≡ true → str_eq o q ≡ false
owner_apart p q o apart h = ground (arith, apart, h, eq_iff o p, eq_iff o q)

module _ {A : Type 0} where
  -- The rows of another test stay, in their order.
  pub keep-delete_rows :
      (test other other' : A → Bool) (rows : List A)
      → ((x : A) → other' x ≡ other x)
      → ((x : A) → test x ≡ true → other x ≡ false)
      → keep other' (delete_rows test rows) ≡ keep other rows
  unfolding delete_rows
  keep-delete_rows test other other' [] same apart = refl
  keep-delete_rows test other other' (x ∷ rows) same apart = elim (Bool-cases (test x)) [
    | inl hit ↦ ground (arith, hit, apart x hit, keep-delete_rows test other other' rows same apart)
    | inr miss ↦ ground (
      arith,
      miss,
      same x,
      Bool-cases (other x),
      keep-delete_rows test other other' rows same apart,
    )
  ]

  pub is_there-delete_rows :
      (test other : A → Bool) (rows : List A)
      → ((x : A) → test x ≡ true → other x ≡ false)
      → is_there other (delete_rows test rows) ≡ is_there other rows
  unfolding delete_rows is_there
  is_there-delete_rows test other [] apart = refl
  is_there-delete_rows test other (x ∷ rows) apart = elim (Bool-cases (test x)) [
    | inl hit ↦ ground (arith, hit, apart x hit, is_there-delete_rows test other rows apart)
    | inr miss ↦ ground (arith, miss, is_there-delete_rows test other rows apart)
  ]

  pub count-delete_rows : (test : A → Bool) (rows : List A) → count test (delete_rows test rows) ≡ 0
  unfolding count delete_rows
  count-delete_rows test [] = refl
  count-delete_rows test (x ∷ rows) =
      ground (arith, Bool-cases (test x), count-delete_rows test rows)

  pub length-delete_rows :
      (test : A → Bool) (rows : List A)
      → count test rows + length (delete_rows test rows) ≡ length rows
  unfolding count delete_rows
  length-delete_rows test [] = omega arith
  length-delete_rows test (x ∷ rows) =
      ground (arith, Bool-cases (test x), length-delete_rows test rows)

  -- A test that no row of the table passes.
  pub is_there-delete_rows_self :
      (test : A → Bool) (rows : List A) → is_there test (delete_rows test rows) ≡ false
  unfolding delete_rows is_there
  is_there-delete_rows_self test [] = refl
  is_there-delete_rows_self test (x ∷ rows) =
      ground (arith, Bool-cases (test x), is_there-delete_rows_self test rows)

  -- A test that implies one that no row passes.
  pub is_there_weaken :
      (test other : A → Bool) (rows : List A)
      → ((x : A) → other x ≡ true → test x ≡ true)
      → is_there test rows ≡ false
      → is_there other rows ≡ false
  unfolding is_there
  is_there_weaken test other [] h none_there = refl
  is_there_weaken test other (x ∷ rows) h none_there = elim (Bool-cases (other x)) [
    | inl hit ↦ ground (arith, hit, h x hit, none_there)
    | inr miss ↦
        ground (arith, miss, Bool-cases (test x), none_there, is_there_weaken test other rows h)
  ]

  pub count_none :
      (test : A → Bool) (rows : List A) → ((x : A) → test x ≡ false) → count test rows ≡ 0
  unfolding count
  count_none test [] h = refl
  count_none test (x ∷ rows) h = ground (arith, h x, count_none test rows h)

  pub keep_same :
      (test other : A → Bool) (rows : List A)
      → ((x : A) → test x ≡ other x)
      → keep test rows ≡ keep other rows
  keep_same test other [] same = refl
  keep_same test other (x ∷ rows) same =
      ground (arith, same x, Bool-cases (other x), keep_same test other rows same)
