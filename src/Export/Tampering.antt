-- ===== src/Export/Tampering.antt =====
-- Two audit exports, in the format of backend/reversing_lab/audit/export.py, that verify with the same head.
use Prim.Native.String.{count}
use text.Mathlib.TextLemmas.{append_inj, append_cancel_left}
use reversing_lab.Prelude.{
  ℕ, suc, ◌+◌, ◌≡◌, ◌≢◌, ◌⊎◌, inl, inr, refl, sym, ap, ◌∙◌, String, Bool, true, false, ◌&&◌, List,
  [], ◌∷◌, eq_iff, arith, str_eq, Bool-cases,
}
use reversing_lab.Export.Canonical.{Fields}
use reversing_lab.Export.Verifier.{
  get, text_field, number_of, content, contents, linked, footer_of, footer_verifies, event_verifies,
  chain_verifies, verifies, linked_texts, digested,
}

abbrev count_behind : List Fields → ℕ
count_behind (line ∷ next ∷ lines) = suc (count_behind (next ∷ lines))
count_behind _ = 0

both_hold : (a b : Bool) → (a && b) ≡ true → (a ≡ true) × (b ≡ true)
both_hold true b h = (refl, h)
both_hold false b h = ground (arith, h)

module _ (sha256 : String → String) where
  -- At some place the two lists hold different texts that have one digest.
  abbrev pub Collide : List String → List String → Type 0
  Collide (x ∷ xs) (y ∷ ys) = ((x ≢ y) × (sha256 x ≡ sha256 y)) ⊎ Collide xs ys
  Collide _ _ = ⊥

  link_cases :
      (a b : String) (x y : Fields)
      → count a ≡ count b
      → sha256 (linked sha256 a x) ≡ sha256 (linked sha256 b y)
      → ((linked sha256 a x ≢ linked sha256 b y)
          × (sha256 (linked sha256 a x) ≡ sha256 (linked sha256 b y)))
        ⊎ ((a ≡ b) × (content x ≡ content y))
  unfolding linked
  link_cases a b x y same h = elim (Bool-cases (str_eq (linked sha256 a x) (linked sha256 b y))) [
    | inl yes_ ↦
        let parts = append_inj ((eq_iff _ _).0 yes_) same in
        inr (parts.0, append_cancel_left "\n" (content x) (content y) parts.1)
    | inr no_ ↦ inl (ground (arith, no_, eq_iff (linked sha256 a x) (linked sha256 b y)), h)
  ]

  event_hash :
      (a : String) (x : Fields)
      → event_verifies sha256 a x ≡ true
      → text_field "record_hash" x ≡ sha256 (linked sha256 a x)
  unfolding event_verifies
  event_hash a x h =
      (eq_iff (text_field "record_hash" x) (sha256 (linked sha256 a x))).0
        (both_hold _ (str_eq (text_field "record_hash" x) (sha256 (linked sha256 a x))) h).1

  chain_parts :
      (m a : String) (n : ℕ) (x y : Fields) (xs : List Fields)
      → chain_verifies sha256 m a n (x ∷ y ∷ xs) ≡ true
      → (event_verifies sha256 a x ≡ true)
        × (chain_verifies sha256 m (text_field "record_hash" x) (suc n) (y ∷ xs) ≡ true)
  unfolding chain_verifies
  chain_parts m a n x y xs h =
      both_hold (event_verifies sha256 a x)
        (chain_verifies sha256 m (text_field "record_hash" x) (suc n) (y ∷ xs)) h

  verified_parts :
      (x : Fields) (xs : List Fields)
      → verifies sha256 (x ∷ xs) ≡ true
      → (text_field "manifest_hash" x ≡ sha256 (content x))
        × (chain_verifies sha256 (text_field "manifest_hash" x) (text_field "manifest_hash" x) 0 xs
            ≡ true)
  unfolding verifies
  verified_parts x xs h =
      let hash = text_field "manifest_hash" x in
      let parts =
        both_hold (str_eq hash (sha256 (content x))) (chain_verifies sha256 hash hash 0 xs) h in
      ((eq_iff hash (sha256 (content x))).0 parts.0, parts.1)

  -- The count of the footer is that of the lines.
  counted :
      (manifest_hash previous : String) (n : ℕ) (lines : List Fields)
      → chain_verifies sha256 manifest_hash previous n lines ≡ true
      → n + count_behind lines ≡ number_of (get "record_count" (footer_of lines))
  unfolding chain_verifies footer_verifies
  counted manifest_hash previous n [] h = ground arith
  counted manifest_hash previous n (line ∷ []) h = ground arith
  counted manifest_hash previous n (line ∷ next ∷ lines) h =
      ground (arith, counted manifest_hash (text_field "record_hash" line) (suc n) (next ∷ lines))

  module _ (digest_length : (s : String) → count (sha256 s) ≡ 64) where
    chain_agrees :
        (manifest manifest' a b : String) (n : ℕ) (xs ys : List Fields)
        → count a ≡ count b
        → chain_verifies sha256 manifest a n xs ≡ true
        → chain_verifies sha256 manifest' b n ys ≡ true
        → number_of (get "record_count" (footer_of xs))
          ≡ number_of (get "record_count" (footer_of ys))
        → text_field "chain_head" (footer_of xs) ≡ text_field "chain_head" (footer_of ys)
        → ((a ≡ b) × (contents xs ≡ contents ys))
          ⊎ Collide (linked_texts sha256 a xs) (linked_texts sha256 b ys)
    unfolding chain_verifies footer_verifies event_verifies contents linked_texts
    chain_agrees m m' a b n [] ys same vx vy counts heads = ground (arith, vx)
    chain_agrees m m' a b n (x ∷ xs) [] same vx vy counts heads = ground (arith, vy)
    chain_agrees m m' a b n (x ∷ []) (y ∷ []) same vx vy counts heads = inl (
      ground (
        arith,
        vx,
        vy,
        heads,
        eq_iff (text_field "chain_head" x) a,
        eq_iff (text_field "chain_head" y) b,
      ),
      refl,
    )
    chain_agrees m m' a b n (x ∷ []) (y ∷ y' ∷ ys) same vx vy counts heads =
        ground (arith, counted m a n (x ∷ []) vx, counted m' b n (y ∷ y' ∷ ys) vy, counts)
    chain_agrees m m' a b n (x ∷ x' ∷ xs) (y ∷ []) same vx vy counts heads =
        ground (arith, counted m a n (x ∷ x' ∷ xs) vx, counted m' b n (y ∷ []) vy, counts)
    chain_agrees m m' a b n (x ∷ x' ∷ xs) (y ∷ y' ∷ ys) same vx vy counts heads =
        let hx = chain_parts m a n x x' xs vx in
        let hy = chain_parts m' b n y y' ys vy in
        let ex = event_hash a x hx.0 in
        let ey = event_hash b y hy.0 in
        let lengths =
          ap count ex
          ∙ digest_length (linked sha256 a x)
          ∙ sym (ap count ey ∙ digest_length (linked sha256 b y)) in
        elim (chain_agrees m m' (text_field "record_hash" x) (text_field "record_hash" y) (suc n)
          (x' ∷ xs) (y' ∷ ys) lengths hx.1 hy.1 counts heads) [
            | inr later ↦ inr (inr later)
            | inl agreed ↦ elim (link_cases a b x y same (sym ex ∙ agreed.0 ∙ ey)) [
              | inl clash ↦ inr (inl clash)
              | inr now ↦ inl (now.0, λ i. now.1 i ∷ agreed.1 i)
            ]
          ]

    -- Two exports that verify and whose footers agree in the count and the head of the chain hold the
    -- same contents line by line, the manifest's included, or two different texts of theirs, at one
    -- place, have the same digest: a line cannot be changed, left out, added or moved otherwise.
    pub contents-verifies :
        (xs ys : List Fields)
        → verifies sha256 xs ≡ true
        → verifies sha256 ys ≡ true
        → number_of (get "record_count" (footer_of xs))
          ≡ number_of (get "record_count" (footer_of ys))
        → text_field "chain_head" (footer_of xs) ≡ text_field "chain_head" (footer_of ys)
        → (contents xs ≡ contents ys) ⊎ Collide (digested sha256 xs) (digested sha256 ys)
    unfolding verifies digested chain_verifies contents
    contents-verifies [] ys vx vy counts heads = ground (arith, vx)
    contents-verifies (x ∷ xs) [] vx vy counts heads = ground (arith, vy)
    contents-verifies (x ∷ []) (y ∷ ys) vx vy counts heads =
        ground (arith, (verified_parts x [] vx).1)
    contents-verifies (x ∷ x' ∷ xs) (y ∷ []) vx vy counts heads =
        ground (arith, (verified_parts y [] vy).1)
    contents-verifies (x ∷ x' ∷ xs) (y ∷ y' ∷ ys) vx vy counts heads =
        let hx = verified_parts x (x' ∷ xs) vx in
        let hy = verified_parts y (y' ∷ ys) vy in
        let lengths =
          ap count hx.0
          ∙ digest_length (content x)
          ∙ sym (ap count hy.0 ∙ digest_length (content y)) in
        elim (chain_agrees (text_field "manifest_hash" x) (text_field "manifest_hash" y)
          (text_field "manifest_hash" x) (text_field "manifest_hash" y) 0 (x' ∷ xs) (y' ∷ ys)
          lengths hx.1 hy.1 counts heads) [
            | inr later ↦ inr (inr later)
            | inl agreed ↦ elim (Bool-cases (str_eq (content x) (content y))) [
              | inl same ↦ inl (λ i. (eq_iff (content x) (content y)).0 same i ∷ agreed.1 i)
              | inr other ↦ inr (
                  inl (
                    ground (arith, other, eq_iff (content x) (content y)),
                    sym hx.0 ∙ agreed.0 ∙ hy.0,
                  ))
            ]
          ]
