-- ===== src/Malware/Iocs/Distinct.antt =====
-- The indicators that `extract_iocs` of backend/reversing_lab/malware/iocs.py returns are distinct.
use mathlib.Core.Path.{subst}
use reversing_lab.Prelude.{
  ℕ, zero, suc, ◌≤◌, ◌≡◌, refl, sym, ap, ◌∙◌, eq_iff, String, false, ◌&&◌, ◌||◌, some, List, [],
  ◌∷◌, ◌++◌, take, length, length-take, if_keeps, str_eq, arith, Bool-cases,
}
use reversing_lab.Prelude.Int.{pos}
use reversing_lab.Malware.Model.{IndicatorOfCompromise, ExtractedString}
use reversing_lab.Malware.Iocs.{Sightings, nothing_seen, has_key, add, scan_strings, extract_iocs}
use reversing_lab.Malware.Iocs.Steps.{P-scan_strings}

abbrev pub keys : List IndicatorOfCompromise → List (String × String)
keys [] = []
keys (i ∷ indicators) = (i.kind, i.value) ∷ keys indicators

abbrev pub Distinct : List (String × String) → Type 0
Distinct [] = Unit
Distinct ((kind, value) ∷ others) = (has_key kind value others ≡ false) × Distinct others

-- `seen` is what the indicators hold.
abbrev Tracked : Sightings → Type 0
Tracked s = (s.seen ≡ keys s.indicators) × Distinct s.seen

has_key-append :
    (k v k' v' : String) (xs : List (String × String))
    → has_key k v (xs ++ (k', v') ∷ []) ≡ (has_key k v xs || (str_eq k' k && str_eq v' v))
has_key-append k v k' v' [] = ground arith
has_key-append k v k' v' ((a, b) ∷ xs) =
    ground (arith, has_key-append k v k' v' xs, Bool-cases (str_eq a k), Bool-cases (str_eq b v))

keys-append :
    (xs : List IndicatorOfCompromise) (i : IndicatorOfCompromise)
    → keys (xs ++ i ∷ []) ≡ keys xs ++ (i.kind, i.value) ∷ []
keys-append [] i = refl
keys-append (x ∷ xs) i = λ j. (x.kind, x.value) ∷ keys-append xs i j

Distinct-append :
    (k v : String) (xs : List (String × String))
    → Distinct xs
    → has_key k v xs ≡ false
    → Distinct (xs ++ (k, v) ∷ [])
Distinct-append k v [] d h = (refl, tt)
Distinct-append k v ((a, b) ∷ xs) d h =
    let rest = Distinct-append k v xs d.1 (ground (arith, h)) in
    (
      ground (
        arith,
        has_key-append a b k v xs,
        eq_iff k a,
        eq_iff v b,
        eq_iff a k,
        eq_iff b v,
        Bool-cases (str_eq k a),
        Bool-cases (str_eq v b),
        Bool-cases (str_eq a k),
        Bool-cases (str_eq b v),
        d.0,
        h,
      ),
      rest,
    )

Tracked-add :
    (kind value : String) (item : ExtractedString) (s : Sightings)
    → Tracked s
    → Tracked (add kind value item s)
unfolding add
Tracked-add kind value item s t =
    if_keeps Tracked (has_key kind value s.seen) s _ (λ there. t)
      (λ fresh. (
        sym (
            keys-append s.indicators
              record { kind = kind; value = value; offset = item.offset; encoding = item.encoding }
            ∙ ap (λ l. l ++ (kind, value) ∷ []) (sym t.0)),
        Distinct-append kind value s.seen t.1 fresh,
      ))

has_key-take :
    (k v : String) (n : ℕ) (xs : List IndicatorOfCompromise)
    → has_key k v (keys xs) ≡ false
    → has_key k v (keys (take n xs)) ≡ false
has_key-take k v zero xs h = refl
has_key-take k v (suc n) [] h = refl
has_key-take k v (suc n) (x ∷ xs) h = ground (arith, has_key-take k v n xs)

Distinct-take :
    (n : ℕ) (xs : List IndicatorOfCompromise) → Distinct (keys xs) → Distinct (keys (take n xs))
Distinct-take zero xs d = tt
Distinct-take (suc n) [] d = tt
Distinct-take (suc n) (x ∷ xs) d = (has_key-take x.kind x.value n xs d.0, Distinct-take n xs d.1)

-- An answer holds no two indicators of one kind and value, and no more than the maximum; it is refused
-- only for a negative maximum.
pub extract_iocs-Distinct :
    (find_all : String → String → List String) (without_scheme : String → String)
    (strings : List ExtractedString) (max_indicators : ℕ)
    → (indicators : List IndicatorOfCompromise) × (extract_iocs find_all without_scheme strings
          (pos max_indicators)
        ≡ some indicators)
      × Distinct (keys indicators)
      × (length indicators ≤ max_indicators)
unfolding extract_iocs
extract_iocs-Distinct find_all without_scheme strings n =
    let found = (scan_strings find_all without_scheme n strings nothing_seen).indicators in
    let tracked =
      P-scan_strings find_all without_scheme Tracked Tracked-add (λ host s t. t) n strings
        nothing_seen (refl, tt) in
    (
      take n found,
      refl,
      Distinct-take n found (subst Distinct tracked.0 tracked.1),
      omega (arith, length-take n found),
    )
