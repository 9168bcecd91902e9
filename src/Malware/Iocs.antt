-- ===== src/Malware/Iocs.antt =====
-- `extract_iocs` of backend/reversing_lab/malware/iocs.py. What the regular expressions find in a text
-- is a parameter, one function to a kind of indicator, and so is the text that `re.sub` leaves of a URL
-- without its scheme.
pub mod Steps
pub mod Distinct
pub mod Cut
pub mod Domains
use reversing_lab.Prelude.{
  ℕ, String, Bool, true, false, ◌&&◌, ◌||◌, not, Option, none, some, List, [], ◌∷◌, ◌++◌, take,
  length, if◌then◌else◌, leb, ltb, ◌==◌, str_eq,
}
use reversing_lab.Prelude.Int.{ℤ, pos, negsuc}
use reversing_lab.Malware.Texts.{
  split, last_label, before, behind, lower, is_member, is_digits, to_int,
}
use reversing_lab.Malware.Model.{IndicatorOfCompromise, ExtractedString}

abbrev pub tlds : List String
tlds =
    "com" ∷ "net" ∷ "org" ∷ "info" ∷ "biz" ∷ "io" ∷ "co" ∷ "gov" ∷ "edu" ∷ "mil" ∷ "ru" ∷ "cn"
    ∷ "kr" ∷ "jp" ∷ "de" ∷ "uk" ∷ "br" ∷ "in" ∷ "pl" ∷ "ua" ∷ "top" ∷ "xyz" ∷ "site" ∷ "online"
    ∷ "club" ∷ "pw" ∷ "cc" ∷ "su" ∷ "onion" ∷ "tk" ∷ "ml" ∷ "ga" ∷ "cf" ∷ "gq" ∷ "ir" ∷ "vn" ∷ "id"
    ∷ []

abbrev pub file_extensions : List String
file_extensions =
    "dll" ∷ "exe" ∷ "sys" ∷ "so" ∷ "dylib" ∷ "com" ∷ "bat" ∷ "cmd" ∷ "ps1" ∷ "vbs" ∷ "js" ∷ "json"
    ∷ "xml" ∷ "txt" ∷ "log" ∷ "ini" ∷ "cfg" ∷ "dat" ∷ "bin" ∷ "tmp" ∷ []

abbrev pub valid_octets : List String → Bool
valid_octets [] = true
valid_octets (part ∷ parts) = is_digits part && leb (to_int part) 255 && valid_octets parts

-- `_valid_ipv4`
unfoldable pub valid_ipv4 : String → Bool
unfolding split
valid_ipv4 value = valid_octets (split b'.' value)

unfoldable pub is_domain_of : List String → Bool
unfolding lower
is_domain_of labels =
    let tld = lower (last_label labels) in
    if not (is_member tld tlds)
    then false
    else (if (length labels == 2) && is_member tld file_extensions then false else true)

-- `_is_domain`
unfoldable pub is_domain : String → Bool
unfolding split is_domain_of
is_domain value = is_domain_of (split b'.' value)

-- What the loop keeps: `seen`, `indicators` and `covered_hosts`.
pub record Sightings : Type 0 where
  pub seen : List (String × String)
  pub indicators : List IndicatorOfCompromise
  pub covered_hosts : List String

abbrev pub nothing_seen : Sightings
nothing_seen = record { seen = []; indicators = []; covered_hosts = [] }

abbrev pub has_key : String → String → List (String × String) → Bool
has_key kind value [] = false
has_key kind value ((k, v) ∷ keys) = (str_eq k kind && str_eq v value) || has_key kind value keys

-- `add`
unfoldable pub add : String → String → ExtractedString → Sightings → Sightings
add kind value source s = if has_key kind value s.seen then s else record s {
  seen = s.seen ++ (kind, value) ∷ [];
  indicators =
      s.indicators
      ++ record { kind = kind; value = value; offset = source.offset; encoding = source.encoding }
        ∷ [];
}

unfoldable pub cover : String → Sightings → Sightings
cover host s = record s { covered_hosts = host ∷ s.covered_hosts }

module _ (find_all : String → String → List String) (without_scheme : String → String) where
  unfoldable pub add_urls : ExtractedString → List String → Sightings → Sightings
  unfolding add cover before lower
  add_urls item [] s = s
  add_urls item (url ∷ urls) s =
      let host = before b'/' (without_scheme url) in
      add_urls item urls (cover (lower (before b':' host)) (add "url" url item s))

  -- The finds of one kind that pass a test.
  unfoldable pub add_passing :
      String → (String → Bool) → ExtractedString → List String → Sightings → Sightings
  unfolding add
  add_passing kind test item [] s = s
  add_passing kind test item (value ∷ values) s =
      add_passing kind test item values (if test value then add kind value item s else s)

  unfoldable pub add_emails : ExtractedString → List String → Sightings → Sightings
  unfolding add cover lower behind
  add_emails item [] s = s
  add_emails item (email ∷ emails) s =
      let host = behind b'@' email in
      let added = add "email" email item s in
      add_emails item emails (if str_eq host "" then added else cover (lower host) added)

  unfoldable pub add_domains : ExtractedString → List String → Sightings → Sightings
  unfolding add is_domain lower
  add_domains item [] s = s
  add_domains item (domain ∷ domains) s = add_domains item domains (
      if is_domain domain && not (is_member (lower domain) s.covered_hosts)
      then add "domain" domain item s
      else s)

  -- The loop's body.
  unfoldable pub scan_string : ExtractedString → Sightings → Sightings
  unfolding add_urls add_passing add_emails add_domains valid_ipv4
  scan_string item s =
      let text = item.value in
      let s1 = add_urls item (find_all "url" text) s in
      let s2 = add_passing "ipv4" valid_ipv4 item (find_all "ipv4" text) s1 in
      let s3 = add_emails item (find_all "email" text) s2 in
      let s4 = add_passing "registry" (λ t. true) item (find_all "registry" text) s3 in
      let s5 = add_passing "filepath" (λ t. true) item (find_all "filepath" text) s4 in
      add_domains item (find_all "domain" text) s5

  unfoldable pub scan_strings : ℕ → List ExtractedString → Sightings → Sightings
  unfolding scan_string
  scan_strings max_indicators [] s = s
  scan_strings max_indicators (item ∷ items) s = elim (leb max_indicators (length s.indicators)) [
    | true ↦ s
    | false ↦ scan_strings max_indicators items (scan_string item s)
  ]

  -- None where the maximum is refused.
  unfoldable pub extract_iocs : List ExtractedString → ℤ → Option (List IndicatorOfCompromise)
  unfolding scan_strings
  extract_iocs strings (negsuc n) = none
  extract_iocs strings (pos max_indicators) =
      some (take max_indicators (scan_strings max_indicators strings nothing_seen).indicators)
