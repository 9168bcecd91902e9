-- ===== src/Malware/Tests.antt =====
-- Runs of the triage, and its theorems at inputs.
use reversing_lab.Prelude.{
  ◌≤◌, ◌≡◌, refl, String, true, false, none, some, List, [], ◌∷◌, take, length, map, ◌&&◌, str_eq,
  if◌then◌else◌, arith,
}
use mathlib.Core.Option
use reversing_lab.Prelude.Int.{pos}
use reversing_lab.Malware.Texts.{split, before, behind, lower, is_digits, to_int}
use reversing_lab.Malware.Model.{IndicatorOfCompromise, GhidraTriage, ExtractedString}
use reversing_lab.Malware.Iocs.{
  add, cover, add_urls, add_passing, add_emails, add_domains, scan_string, scan_strings,
  extract_iocs, is_domain, is_domain_of, valid_ipv4,
}
use reversing_lab.Malware.Iocs.Distinct.{keys, Distinct, extract_iocs-Distinct}
use reversing_lab.Malware.Iocs.Cut.{extract_iocs-take}
use reversing_lab.Malware.Iocs.Domains.{NoDot, com_refused}
use reversing_lab.Malware.Triage.{Packing, triage_of}
use reversing_lab.Malware.Triage.Monotone.{rank, triage_of-le}

-- What the patterns find in the two texts below.
abbrev finds : String → String → List String
finds kind text =
    if str_eq text "GET http://evil.net/x evil.net" && str_eq kind "url"
    then "http://evil.net/x" ∷ []
    else (if str_eq text "GET http://evil.net/x evil.net" && str_eq kind "domain"
        then "evil.net" ∷ []
        else (if str_eq text "10.0.0.1 a.b.org" && str_eq kind "ipv4"
            then "10.0.0.1" ∷ []
            else (if str_eq text "10.0.0.1 a.b.org" && str_eq kind "domain"
                then "a.b.org" ∷ "a.b.org" ∷ []
                else [])))

abbrev without_scheme : String → String
without_scheme url = if str_eq url "http://evil.net/x" then "evil.net/x" else url

abbrev strings : List ExtractedString
strings =
    record {
      value = "GET http://evil.net/x evil.net";
      offset = 16;
      encoding = "ascii";
      length = 30;
    }
    ∷ record { value = "10.0.0.1 a.b.org"; offset = 64; encoding = "ascii"; length = 16 }
    ∷ []

sightings :
    Option.map
      (map {B = String × String} (λ (i : IndicatorOfCompromise). (i.kind, i.value)))
      (extract_iocs finds without_scheme strings (pos 500))
    ≡ some (("url", "http://evil.net/x") ∷ ("ipv4", "10.0.0.1") ∷ ("domain", "a.b.org") ∷ [])
unfolding extract_iocs scan_strings scan_string add_urls add_passing add_emails add_domains add
    cover is_domain is_domain_of valid_ipv4 split before behind lower is_digits to_int
sightings = refl

extract_iocs-Distinct_example :
    (indicators : List IndicatorOfCompromise) × (extract_iocs finds without_scheme strings (pos 2)
      ≡ some indicators)
    × Distinct (keys indicators)
    × (length indicators ≤ 2)
extract_iocs-Distinct_example = extract_iocs-Distinct finds without_scheme strings 2

extract_iocs-take_example :
    extract_iocs finds without_scheme strings (pos 1)
    ≡ Option.map (take 1) (extract_iocs finds without_scheme strings (pos 500))
extract_iocs-take_example = extract_iocs-take finds without_scheme strings 1 500 (omega arith)

evil-NoDot : NoDot "evil"
evil-NoDot =
    let l : NoDot "l" = ((λ e. omega (arith, e)), tt) in
    let il : NoDot "il" = ((λ e. omega (arith, e)), l) in
    let vil : NoDot "vil" = ((λ e. omega (arith, e)), il) in ((λ e. omega (arith, e)), vil)

com_refused_example : is_domain "evil.com" ≡ false
com_refused_example = com_refused "evil" evil-NoDot

abbrev url : IndicatorOfCompromise
url = record { kind = "url"; value = "http://evil.net/x"; offset = 16; encoding = "ascii" }

abbrev three : List IndicatorOfCompromise
three = url ∷ url ∷ url ∷ []

abbrev packed : Packing
packed = record { likely_packed = true; score = 5; detected_packer = some "UPX" }

abbrev ghidra : GhidraTriage
ghidra = record {
  available = true;
  analyzed = false;
  function_count = 0;
  imported_symbol_count = 0;
  flagged_calls = [];
  detail = "";
  elapsed_ms = 0;
}

triage_of-le_example :
    ((triage_of "00" [] (url ∷ []) [] packed none).risk_score
      ≤ (triage_of "00" [] (url ∷ url ∷ []) [] packed (some ghidra)).risk_score)
    × ((triage_of "00" [] (url ∷ url ∷ []) [] packed (some ghidra)).risk_score ≤ 100)
    × (rank (triage_of "00" [] (url ∷ []) [] packed none).verdict
        ≤ rank (triage_of "00" [] (url ∷ url ∷ []) [] packed (some ghidra)).verdict)
triage_of-le_example =
    triage_of-le "00" [] [] (url ∷ []) (url ∷ []) [] [] packed false none (some ghidra)
