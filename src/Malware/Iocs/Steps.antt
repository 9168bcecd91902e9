-- ===== src/Malware/Iocs/Steps.antt =====
-- What `add` and the recording of a host keep, all of `extract_iocs` of
-- backend/reversing_lab/malware/iocs.py keeps.
use mathlib.Core.Path.{subst}
use reversing_lab.Prelude.{
  arith, sym, refl, ℕ, ◌≡◌, String, Bool, true, ◌&&◌, not, List, [], ◌∷◌, length, if◌then◌else◌,
  leb, if_keeps, str_eq,
}
use reversing_lab.Malware.Texts.{behind, lower, is_member}
use reversing_lab.Malware.Model.{ExtractedString}
use reversing_lab.Malware.Iocs.{
  Sightings, add, cover, is_domain, valid_ipv4, add_urls, add_passing, add_emails, add_domains,
  scan_string, scan_strings,
}

module _ (find_all : String → String → List String) (without_scheme : String → String) where
  pub scan_none : (n : ℕ) (s : Sightings) → scan_strings find_all without_scheme n [] s ≡ s
  unfolding scan_strings
  scan_none n s = refl

  pub scan_cons :
      (n : ℕ) (item : ExtractedString) (items : List ExtractedString) (s : Sightings)
      → scan_strings find_all without_scheme n (item ∷ items) s ≡ (
          if leb n (length s.indicators)
          then s
          else scan_strings find_all without_scheme n items
              (scan_string find_all without_scheme item s))
  unfolding scan_strings
  scan_cons n item items s = ground arith

module _ {ℓ} (find_all : String → String → List String) (without_scheme : String → String)
    (P : Sightings → Type ℓ)
    (P-add : (kind value : String) (item : ExtractedString) (s : Sightings)
      → P s
      → P (add kind value item s))
    (P-cover : (host : String) (s : Sightings) → P s → P (cover host s)) where
  P-add_urls :
      (item : ExtractedString) (urls : List String) (s : Sightings)
      → P s
      → P (add_urls find_all without_scheme item urls s)
  unfolding add_urls
  P-add_urls item [] s p = p
  P-add_urls item (url ∷ urls) s p = P-add_urls item urls _ (P-cover _ _ (P-add "url" url item s p))

  P-add_passing :
      (kind : String) (test : String → Bool) (item : ExtractedString) (values : List String)
      (s : Sightings)
      → P s
      → P (add_passing find_all without_scheme kind test item values s)
  unfolding add_passing
  P-add_passing kind test item [] s p = p
  P-add_passing kind test item (value ∷ values) s p =
      P-add_passing kind test item values _ (
        if_keeps P (test value) (add kind value item s) s (λ t. P-add kind value item s p) (λ f. p))

  P-add_emails :
      (item : ExtractedString) (emails : List String) (s : Sightings)
      → P s
      → P (add_emails find_all without_scheme item emails s)
  unfolding add_emails
  P-add_emails item [] s p = p
  P-add_emails item (email ∷ emails) s p =
      let added = add "email" email item s in
      let host = behind b'@' email in
      let p' = P-add "email" email item s p in
      P-add_emails item emails _ (
        if_keeps P (str_eq host "") added (cover (lower host) added) (λ t. p')
          (λ f. P-cover (lower host) added p'))

  P-add_domains :
      (item : ExtractedString) (domains : List String) (s : Sightings)
      → P s
      → P (add_domains find_all without_scheme item domains s)
  unfolding add_domains
  P-add_domains item [] s p = p
  P-add_domains item (domain ∷ domains) s p = P-add_domains item domains _ (
      if_keeps P (is_domain domain && not (is_member (lower domain) s.covered_hosts))
        (add "domain" domain item s) s (λ t. P-add "domain" domain item s p) (λ f. p))

  pub P-scan_string :
      (item : ExtractedString) (s : Sightings)
      → P s
      → P (scan_string find_all without_scheme item s)
  unfolding scan_string
  P-scan_string item s p =
      let text = item.value in
      let all : String → Bool = λ t. true in
      let s1 = add_urls find_all without_scheme item (find_all "url" text) s in
      let s2 =
        add_passing find_all without_scheme "ipv4" valid_ipv4 item (find_all "ipv4" text) s1 in
      let s3 = add_emails find_all without_scheme item (find_all "email" text) s2 in
      let s4 =
        add_passing find_all without_scheme "registry" all item (find_all "registry" text) s3 in
      let s5 =
        add_passing find_all without_scheme "filepath" all item (find_all "filepath" text) s4 in
      let p1 = P-add_urls item (find_all "url" text) s p in
      let p2 = P-add_passing "ipv4" valid_ipv4 item (find_all "ipv4" text) s1 p1 in
      let p3 = P-add_emails item (find_all "email" text) s2 p2 in
      let p4 = P-add_passing "registry" all item (find_all "registry" text) s3 p3 in
      let p5 = P-add_passing "filepath" all item (find_all "filepath" text) s4 p4 in
      P-add_domains item (find_all "domain" text) s5 p5

  pub P-scan_strings :
      (n : ℕ) (items : List ExtractedString) (s : Sightings)
      → P s
      → P (scan_strings find_all without_scheme n items s)
  P-scan_strings n [] s p = subst P (sym (scan_none find_all without_scheme n s)) p
  P-scan_strings n (item ∷ items) s p =
      let next = scan_string find_all without_scheme item s in
      let rest = scan_strings find_all without_scheme n items next in
      subst P (sym (scan_cons find_all without_scheme n item items s)) (
        if_keeps P (leb n (length s.indicators)) s rest (λ full. p)
          (λ open_. P-scan_strings n items next (P-scan_string item s p)))
