-- ===== src/Malware/Iocs/Cut.antt =====
-- What the maximum of `extract_iocs` of backend/reversing_lab/malware/iocs.py cuts off.
use reversing_lab.Prelude.{
  ℕ, zero, suc, ◌≤◌, ◌≡◌, refl, sym, ap, ◌∙◌, String, true, false, some, List, [], ◌∷◌, ◌++◌, take,
  length, if_keeps, if_true, if_false, length-append, arith, Bool-cases, leb, inl, inr, leb→le,
}
use mathlib.Core.Option
use reversing_lab.Prelude.Int.{pos}
use reversing_lab.Malware.Model.{IndicatorOfCompromise, ExtractedString}
use reversing_lab.Malware.Iocs.{
  Sightings, nothing_seen, has_key, add, cover, scan_strings, scan_string, extract_iocs,
}
use reversing_lab.Malware.Iocs.Steps.{P-scan_strings, scan_none, scan_cons}

module _ {ℓ} {A : Type ℓ} where
  take-append_full : (n : ℕ) (xs ys : List A) → n ≤ length xs → take n (xs ++ ys) ≡ take n xs
  take-append_full zero xs ys h = refl
  take-append_full (suc n) [] ys h = ground arith
  take-append_full (suc n) (x ∷ xs) ys h = ap (λ t. x ∷ t) (take-append_full n xs ys (omega arith))

  take-take : (m n : ℕ) (xs : List A) → m ≤ n → take m (take n xs) ≡ take m xs
  take-take zero n xs h = refl
  take-take (suc m) zero xs h = ground arith
  take-take (suc m) (suc n) [] h = refl
  take-take (suc m) (suc n) (x ∷ xs) h = ap (λ t. x ∷ t) (take-take m n xs (omega arith))

-- The first `n` indicators are these, and stay.
abbrev Starts : ℕ → List IndicatorOfCompromise → Sightings → Type 0
Starts n xs s = (n ≤ length s.indicators) × (take n s.indicators ≡ xs)

Starts-add :
    (n : ℕ) (xs : List IndicatorOfCompromise) (kind value : String) (item : ExtractedString)
    (s : Sightings)
    → Starts n xs s
    → Starts n xs (add kind value item s)
unfolding add
Starts-add n xs kind value item s t =
    let new_ : IndicatorOfCompromise = record {
      kind = kind;
      value = value;
      offset = item.offset;
      encoding = item.encoding;
    } in
    if_keeps (Starts n xs) (has_key kind value s.seen) s _ (λ there. t)
      (λ fresh. (
        ground (arith, length-append s.indicators (new_ ∷ [])),
        take-append_full n s.indicators (new_ ∷ []) t.0 ∙ t.1,
      ))

module _ (find_all : String → String → List String) (without_scheme : String → String) where
  scan_full :
      (n : ℕ) (item : ExtractedString) (items : List ExtractedString) (s : Sightings)
      → leb n (length s.indicators) ≡ true
      → scan_strings find_all without_scheme n (item ∷ items) s ≡ s
  scan_full n item items s h = scan_cons find_all without_scheme n item items s ∙ if_true _ s _ h

  scan_open :
      (n : ℕ) (item : ExtractedString) (items : List ExtractedString) (s : Sightings)
      → leb n (length s.indicators) ≡ false
      → scan_strings find_all without_scheme n (item ∷ items) s
        ≡ scan_strings find_all without_scheme n items (scan_string find_all without_scheme item s)
  scan_open n item items s h = scan_cons find_all without_scheme n item items s ∙ if_false _ s _ h

  scan_cut :
      (m n : ℕ) (items : List ExtractedString) (s : Sightings)
      → m ≤ n
      → take m (scan_strings find_all without_scheme n items s).indicators
        ≡ take m (scan_strings find_all without_scheme m items s).indicators
  unfolding cover
  scan_cut m n [] s h =
      ap (λ (t : Sightings). take m t.indicators)
        (scan_none find_all without_scheme n s ∙ sym (scan_none find_all without_scheme m s))
  scan_cut m n (item ∷ items) s h = elim (Bool-cases (leb m (length s.indicators))) [
    | inl full ↦
        let kept =
          P-scan_strings find_all without_scheme (Starts m (take m s.indicators))
            (Starts-add m (take m s.indicators)) (λ host s t. t) n (item ∷ items) s
            (leb→le m (length s.indicators) full, refl) in
        kept.1 ∙ ap (λ (t : Sightings). take m t.indicators) (sym (scan_full m item items s full))
    | inr open_ ↦
        let wide : leb n (length s.indicators) ≡ false = ground (arith, open_, h) in
        let next = scan_string find_all without_scheme item s in
        ap (λ (t : Sightings). take m t.indicators) (scan_open n item items s wide)
        ∙ scan_cut m n items next h
        ∙ ap (λ (t : Sightings). take m t.indicators) (sym (scan_open m item items s open_))
  ]

-- With a smaller maximum the answer is the beginning of the answer with a larger one: the maximum
-- never changes which indicators come first.
pub extract_iocs-take :
    (find_all : String → String → List String) (without_scheme : String → String)
    (strings : List ExtractedString) (m n : ℕ)
    → m ≤ n
    → extract_iocs find_all without_scheme strings (pos m)
      ≡ Option.map (take m) (extract_iocs find_all without_scheme strings (pos n))
unfolding extract_iocs
extract_iocs-take find_all without_scheme strings m n h =
    let wide = (scan_strings find_all without_scheme n strings nothing_seen).indicators in
    ap some
      (sym (take-take m n wide h ∙ scan_cut find_all without_scheme m n strings nothing_seen h))
