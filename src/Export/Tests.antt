-- ===== src/Export/Tests.antt =====
-- Runs of the export, and its theorems at inputs.
use Prim.Native.Char.{code}
use Prim.Native.String.{count}
use reversing_lab.Prelude.{
  ℕ, String, true, ◌≡◌, ◌⊎◌, refl, none, List, [], ◌∷◌, if◌then◌else◌, if_keeps, ◌==◌,
}
use reversing_lab.Store.Audit.{AuditEvent}
use reversing_lab.Export.{payloads, manifest_payload, event_of}
use reversing_lab.Export.Verifier.{verifies, contents, digested}
use reversing_lab.Export.Intact.{payloads-verifies}
use reversing_lab.Export.Tampering.{Collide}
use reversing_lab.Export.Detected.{contents-same_footer}
use reversing_lab.Prelude.Text.{decimal, decimal_before}
use reversing_lab.Export.Canonical.{
  text, number, null, object, no_fields, field, Fields, canonical, dumps, quoted, escape, escaped,
  place,
}

canonical_sorted :
    canonical (
      field "b"
        (number 204)
        (field "a" (text "x\"y\n") (field "c" (object (field "k" null no_fields)) no_fields)))
    ≡ "{\"a\":\"x\\\"y\\n\",\"b\":204,\"c\":{\"k\":null}}"
unfolding canonical dumps quoted escape escaped decimal decimal_before place
canonical_sorted = refl

abbrev first_digest : String
first_digest = "0123456789abcdef0123456789abcdef0123456789abcdef0123456789abcdef"

abbrev other_digest : String
other_digest = "e3b0c44298fc1c149afbf4c8996fb92427ae41e4649b934ca495991b7852b855"

-- A digest for the tests, by the first character.
abbrev sha256 : String → String
sha256 String.[] = other_digest
sha256 (String.◌∷◌ c s) = if code c == b'{' then first_digest else other_digest

sha256-count : (s : String) → count (sha256 s) ≡ 64
sha256-count String.[] = refl
sha256-count (String.◌∷◌ c s) =
    if_keeps (λ t. count t ≡ 64) (code c == b'{') first_digest other_digest (λ h. refl) (λ h. refl)

abbrev utc_iso : ℕ → String
utc_iso n = "2026-01-01T00:00:00Z"

abbrev deletion : AuditEvent
deletion = record {
  id = "1";
  request_id = "r";
  principal_id = "alice";
  role = "user";
  action = "DELETE /api/projects";
  resource_type = "projects";
  resource_id = none;
  method = "DELETE";
  route = "/api/projects/{id}";
  status_code = 204;
  outcome = "success";
  details_json = "{}";
  created_at = 5;
}

abbrev exported : List Fields
exported = payloads sha256 utc_iso 0 "principal:alice" no_fields (deletion ∷ [])

payloads-verifies_example :
    (verifies sha256 exported ≡ true)
    × (contents exported
        ≡ canonical (manifest_payload sha256 utc_iso 0 "principal:alice" no_fields)
          ∷ canonical (event_of sha256 utc_iso deletion)
          ∷ [])
payloads-verifies_example =
    payloads-verifies sha256 utc_iso 0 "principal:alice" no_fields (deletion ∷ [])

contents-same_footer_example :
    (contents exported
      ≡ canonical (manifest_payload sha256 utc_iso 0 "principal:alice" no_fields)
        ∷ canonical (event_of sha256 utc_iso deletion)
        ∷ [])
    ⊎ Collide sha256 (digested sha256 exported) (digested sha256 exported)
contents-same_footer_example =
    contents-same_footer sha256 utc_iso sha256-count 0 "principal:alice" no_fields (deletion ∷ [])
      exported payloads-verifies_example.0 refl refl
