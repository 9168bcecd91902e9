-- ===== src/Malware/Iocs/Domains.antt =====
-- Which names `_is_domain` of backend/reversing_lab/malware/iocs.py takes for domains.
use Prim.Native.Char.{Char, code}
use Prim.Native.String.{◌++◌ as ◌<>◌}
use text.Mathlib.TextLemmas.{cons-append, nil-append}
use reversing_lab.Prelude.{◌≡◌, ◌≢◌, refl, ap, ◌∙◌, String, false, [], ◌∷◌, arith}
use reversing_lab.Malware.Texts.{split, put_first, lower}
use reversing_lab.Malware.Iocs.{is_domain, is_domain_of}

abbrev pub NoDot : String → Type 0
NoDot String.[] = Unit
NoDot (String.◌∷◌ c s) = (code c ≢ 46) × NoDot s

split_tail : split b'.' ".com" ≡ "" ∷ "com" ∷ []
unfolding split
split_tail = refl

split_cons :
    (c : Char) (s : String) → code c ≢ 46 → split b'.' (String.◌∷◌ c s) ≡ put_first c (split b'.' s)
unfolding split
split_cons c s h = ground (arith, h)

split_label : (label : String) → NoDot label → split b'.' (label <> ".com") ≡ label ∷ "com" ∷ []
split_label String.[] h = ap (split b'.') (nil-append ".com") ∙ split_tail
split_label (String.◌∷◌ c s) h =
    ap (split b'.') (cons-append c s ".com")
    ∙ split_cons c (s <> ".com") h.0
    ∙ ap (put_first c) (split_label s h.1)

-- No name of two labels that ends in ".com" counts as a domain, for "com" is also in the table of file
-- extensions.
pub com_refused : (label : String) → NoDot label → is_domain (label <> ".com") ≡ false
unfolding is_domain is_domain_of lower
com_refused label h = ap is_domain_of (split_label label h) ∙ refl
