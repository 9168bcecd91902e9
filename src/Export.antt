-- ===== src/Export.antt =====
-- The hash chain of an audit export: backend/reversing_lab/audit/export.py. The digest of a text's UTF-8
-- bytes and the ISO form of a time are parameters.
pub mod Canonical
pub mod Verifier
pub mod Intact
pub mod Tampering
pub mod Detected
mod Tests
use Prim.Native.String.{◌++◌ as ◌<>◌}
use reversing_lab.Prelude.{ℕ, suc, String, Option, none, some, true, List, [], ◌∷◌, map}
use reversing_lab.Store.Audit.{AuditEvent}
use reversing_lab.Export.Canonical.{
  Json, text, number, bool, object, null, Fields, no_fields, field, canonical,
}

-- {**first, **second}, where the two have no key in common
unfoldable pub merged : Fields → Fields → Fields
merged no_fields second = second
merged (field key value first) second = field key value (merged first second)

abbrev pub optional_text : Option String → Json
optional_text none = null
optional_text (some s) = text s

module _ (sha256 : String → String) (utc_iso : ℕ → String) where
  unfoldable pub manifest_payload : ℕ → String → Fields → Fields
  manifest_payload generated_at scope filters = field "type" (text "manifest") (
      field "schema" (text "reversing-lab.audit.v1") (
        field "generated_at" (text (utc_iso generated_at)) (
          field "scope" (text scope) (
            field "filters" (object filters) (
              field "hash_algorithm" (text "sha256") (
                field "chain_scheme" (text "sha256(previous_hash + LF + canonical_event)")
                  no_fields))))))

  -- The dictionary of one record.
  unfoldable pub event_of : AuditEvent → Fields
  event_of e = field "type" (text "event") (
      field "event_id" (text e.id) (
        field "request_id" (text e.request_id) (
          field "principal_id" (text e.principal_id) (
            field "role" (text e.role) (
              field "action" (text e.action) (
                field "resource_type" (text e.resource_type) (
                  field "resource_id" (optional_text e.resource_id) (
                    field "method" (text e.method) (
                      field "route" (text e.route) (
                        field "status_code" (number e.status_code) (
                          field "outcome" (text e.outcome)
                            (field "created_at" (text (utc_iso e.created_at)) no_fields))))))))))))

  unfoldable pub record_hash : String → Fields → String
  record_hash previous event = sha256 (previous <> "\n" <> canonical event)

  unfoldable pub event_line : String → Fields → Fields
  unfolding merged record_hash
  event_line previous event = merged event (
      field "previous_hash" (text previous)
        (field "record_hash" (text (record_hash previous event)) no_fields))

  unfoldable pub footer : ℕ → String → String → Fields
  footer record_count manifest_hash chain_head = field "type" (text "footer") (
      field "record_count" (number record_count) (
        field "manifest_hash" (text manifest_hash)
          (field "chain_head" (text chain_head) (field "complete" (bool true) no_fields))))

  -- The loop over the records, and the footer behind it.
  unfoldable pub chained : String → String → ℕ → List AuditEvent → List Fields
  unfolding event_line event_of footer record_hash
  chained manifest_hash previous record_count [] = footer record_count manifest_hash previous ∷ []
  chained manifest_hash previous record_count (record_ ∷ records) =
      event_line previous (event_of record_)
      ∷ chained manifest_hash (record_hash previous (event_of record_)) (suc record_count) records

  -- The dictionaries that `stream_hash_chained_jsonl` writes, in their order.
  unfoldable pub payloads : ℕ → String → Fields → List AuditEvent → List Fields
  unfolding merged manifest_payload chained
  payloads generated_at scope filters records =
      let manifest = manifest_payload generated_at scope filters in
      let manifest_hash = sha256 (canonical manifest) in
      merged manifest (field "manifest_hash" (text manifest_hash) no_fields)
      ∷ chained manifest_hash manifest_hash 0 records

  -- The lines, each a dictionary in its canonical form.
  unfoldable pub stream_hash_chained_jsonl : ℕ → String → Fields → List AuditEvent → List String
  unfolding payloads
  stream_hash_chained_jsonl generated_at scope filters records =
      map (λ (payload : Fields). canonical payload <> "\n")
        (payloads generated_at scope filters records)
