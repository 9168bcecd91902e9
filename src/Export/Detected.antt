-- ===== src/Export/Detected.antt =====
-- A change to an export of backend/reversing_lab/audit/export.py shows.
use Prim.Native.String.{count}
use reversing_lab.Prelude.{ℕ, ◌≡◌, ◌⊎◌, inl, inr, ◌∙◌, String, true, List, ◌∷◌, map}
use reversing_lab.Store.Audit.{AuditEvent}
use reversing_lab.Export.Canonical.{Fields, canonical}
use reversing_lab.Export.{manifest_payload, event_of, payloads}
use reversing_lab.Export.Verifier.{
  get, text_field, number_of, contents, footer_of, verifies, digested,
}
use reversing_lab.Export.Intact.{payloads-verifies}
use reversing_lab.Export.Tampering.{Collide, contents-verifies}

-- A file that verifies and whose footer has the count and the head of an export's holds, in its lines
-- before the footer, the canonical forms of that export's manifest and records and nothing else, unless
-- two different texts at one place have the same digest. Digests have 64 characters.
pub contents-same_footer :
    (sha256 : String → String) (utc_iso : ℕ → String)
    → ((s : String) → count (sha256 s) ≡ 64)
    → (generated_at : ℕ) (scope : String) (filters : Fields) (events : List AuditEvent)
    → (file : List Fields) → verifies sha256 file ≡ true
    → number_of (get "record_count" (footer_of file))
      ≡ number_of (
          get "record_count"
            (footer_of (payloads sha256 utc_iso generated_at scope filters events)))
    → text_field "chain_head" (footer_of file)
      ≡ text_field "chain_head"
          (footer_of (payloads sha256 utc_iso generated_at scope filters events))
    → (contents file
        ≡ canonical (manifest_payload sha256 utc_iso generated_at scope filters)
          ∷ map (λ e. canonical (event_of sha256 utc_iso e)) events)
      ⊎ Collide sha256
          (digested sha256 file)
          (digested sha256 (payloads sha256 utc_iso generated_at scope filters events))
contents-same_footer sha256 utc_iso length_64 generated_at scope filters events file v counts
      heads =
    let export_ = payloads-verifies sha256 utc_iso generated_at scope filters events in
    elim (contents-verifies sha256 length_64 file
      (payloads sha256 utc_iso generated_at scope filters events) v export_.0 counts heads) [
        | inl same ↦ inl (same ∙ export_.1)
        | inr clash ↦ inr clash
      ]
