-- ===== src/Export/Intact.antt =====
-- An export of backend/reversing_lab/audit/export.py verifies.
use reversing_lab.Prelude.{
  ℕ, suc, ◌≡◌, refl, ap, ◌∙◌, String, true, Bool, ◌&&◌, str_eq, List, [], ◌∷◌, arith, map,
}
use text.Mathlib.TextPositions.{eq_refl}
use reversing_lab.Store.Audit.{AuditEvent}
use reversing_lab.Export.Canonical.{Fields, canonical}
use reversing_lab.Export.{
  merged, manifest_payload, event_of, event_line, record_hash, footer, chained, payloads,
}
use reversing_lab.Export.Verifier.{
  content, contents, linked, footer_verifies, event_verifies, chain_verifies, verifies,
}

both : {a b : Bool} → a ≡ true → b ≡ true → (a && b) ≡ true
both p q = cc

of_refl : (s : String) → str_eq s s ≡ true
of_refl s = eq_refl s

module _ (sha256 : String → String) (utc_iso : ℕ → String) where
  content-event_line :
      (previous : String) (e : AuditEvent)
      → content (event_line sha256 utc_iso previous (event_of sha256 utc_iso e))
        ≡ canonical (event_of sha256 utc_iso e)
  unfolding content event_line merged event_of
  content-event_line previous e = refl

  event_line-verifies :
      (previous : String) (e : AuditEvent)
      → event_verifies sha256 previous
          (event_line sha256 utc_iso previous (event_of sha256 utc_iso e))
        ≡ true
  unfolding event_verifies linked event_line merged event_of record_hash
  event_line-verifies previous e =
      let hash = record_hash sha256 utc_iso previous (event_of sha256 utc_iso e) in
      rw (content-event_line previous e) (ground (arith, eq_refl previous, eq_refl hash))

  footer-verifies :
      (manifest_hash previous : String) (count : ℕ)
      → footer_verifies sha256 manifest_hash previous count
          (footer sha256 utc_iso count manifest_hash previous)
        ≡ true
  unfolding footer_verifies footer
  footer-verifies manifest_hash previous count =
      ground (arith, eq_refl manifest_hash, eq_refl previous)

  chained-verifies :
      (manifest_hash previous : String) (count : ℕ) (events : List AuditEvent)
      → chain_verifies sha256 manifest_hash previous count
          (chained sha256 utc_iso manifest_hash previous count events)
        ≡ true
  unfolding chained chain_verifies
  chained-verifies manifest_hash previous count [] = footer-verifies manifest_hash previous count
  chained-verifies manifest_hash previous count (e ∷ []) =
      let hash = record_hash sha256 utc_iso previous (event_of sha256 utc_iso e) in
      both (event_line-verifies previous e) (footer-verifies manifest_hash hash (suc count))
  chained-verifies manifest_hash previous count (e ∷ e' ∷ events) =
      let hash = record_hash sha256 utc_iso previous (event_of sha256 utc_iso e) in
      both (event_line-verifies previous e)
        (chained-verifies manifest_hash hash (suc count) (e' ∷ events))

  contents-chained :
      (manifest_hash previous : String) (count : ℕ) (events : List AuditEvent)
      → contents (chained sha256 utc_iso manifest_hash previous count events)
        ≡ map (λ e. canonical (event_of sha256 utc_iso e)) events
  unfolding chained contents
  contents-chained manifest_hash previous count [] = refl
  contents-chained manifest_hash previous count (e ∷ []) = λ i. content-event_line previous e i ∷ []
  contents-chained manifest_hash previous count (e ∷ e' ∷ events) = λ i.
      content-event_line previous e i
      ∷ contents-chained manifest_hash
          (record_hash sha256 utc_iso previous (event_of sha256 utc_iso e)) (suc count)
          (e' ∷ events) i

  contents_behind :
      (line : Fields) (manifest_hash previous : String) (count : ℕ) (events : List AuditEvent)
      → contents (line ∷ chained sha256 utc_iso manifest_hash previous count events)
        ≡ content line ∷ contents (chained sha256 utc_iso manifest_hash previous count events)
  unfolding chained contents
  contents_behind line manifest_hash previous count [] = refl
  contents_behind line manifest_hash previous count (e ∷ events) = refl

  -- An export verifies, and its lines between the manifest and the footer hold the canonical forms of
  -- the records, each once and in their order.
  pub payloads-verifies :
      (generated_at : ℕ) (scope : String) (filters : Fields) (events : List AuditEvent)
      → (verifies sha256 (payloads sha256 utc_iso generated_at scope filters events) ≡ true)
        × (contents (payloads sha256 utc_iso generated_at scope filters events)
            ≡ canonical (manifest_payload sha256 utc_iso generated_at scope filters)
              ∷ map (λ e. canonical (event_of sha256 utc_iso e)) events)
  unfolding verifies payloads content merged manifest_payload
  payloads-verifies generated_at scope filters events =
      let hash = sha256 (canonical (manifest_payload sha256 utc_iso generated_at scope filters)) in
      (
        both (of_refl hash) (chained-verifies hash hash 0 events),
        contents_behind _ hash hash 0 events
            ∙ ap (λ t. canonical (manifest_payload sha256 utc_iso generated_at scope filters) ∷ t)
                (contents-chained hash hash 0 events),
      )
