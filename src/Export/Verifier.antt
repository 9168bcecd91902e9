-- ===== src/Export/Verifier.antt =====
-- What a reader of an audit export checks: the digests of the lines of
-- backend/reversing_lab/audit/export.py, computed again from what the lines hold.
use Prim.Native.String.{◌++◌ as ◌<>◌}
use reversing_lab.Prelude.{
  ℕ, suc, String, Bool, false, ◌&&◌, List, [], ◌∷◌, if◌then◌else◌, ◌==◌, str_eq,
}
use reversing_lab.Export.Canonical.{Json, text, number, null, Fields, no_fields, field, canonical}

abbrev pub text_of : Json → String
text_of (text s) = s
text_of _ = ""

abbrev pub number_of : Json → ℕ
number_of (number n) = n
number_of _ = 0

-- The value under a key, null where there is none.
abbrev pub get : String → Fields → Json
get key no_fields = null
get key (field k value fields) = if str_eq k key then value else get key fields

abbrev pub without : String → Fields → Fields
without key no_fields = no_fields
without key (field k value fields) =
    if str_eq k key then without key fields else field k value (without key fields)

abbrev pub text_field : String → Fields → String
text_field key fields = text_of (get key fields)

-- What the digests of a line cover.
unfoldable pub content : Fields → String
content line =
    canonical (without "manifest_hash" (without "previous_hash" (without "record_hash" line)))

-- The contents of all lines but the footer.
unfoldable pub contents : List Fields → List String
unfolding content
contents [] = []
contents (line ∷ []) = []
contents (line ∷ next ∷ lines) = content line ∷ contents (next ∷ lines)

abbrev pub footer_of : List Fields → Fields
footer_of [] = no_fields
footer_of (line ∷ []) = line
footer_of (line ∷ next ∷ lines) = footer_of (next ∷ lines)

module _ (sha256 : String → String) where
  -- The text that the digest of an event is of.
  unfoldable pub linked : String → Fields → String
  unfolding content
  linked previous line = previous <> "\n" <> content line

  unfoldable pub footer_verifies : String → String → ℕ → Fields → Bool
  footer_verifies manifest_hash previous count line =
      str_eq (text_field "manifest_hash" line) manifest_hash
      && str_eq (text_field "chain_head" line) previous
      && (number_of (get "record_count" line) == count)

  unfoldable pub event_verifies : String → Fields → Bool
  unfolding linked
  event_verifies previous line =
      str_eq (text_field "previous_hash" line) previous
      && str_eq (text_field "record_hash" line) (sha256 (linked previous line))

  unfoldable pub chain_verifies : String → String → ℕ → List Fields → Bool
  unfolding event_verifies footer_verifies
  chain_verifies manifest_hash previous count [] = false
  chain_verifies manifest_hash previous count (line ∷ []) =
      footer_verifies manifest_hash previous count line
  chain_verifies manifest_hash previous count (line ∷ next ∷ lines) =
      event_verifies previous line
      && chain_verifies manifest_hash (text_field "record_hash" line) (suc count) (next ∷ lines)

  unfoldable pub verifies : List Fields → Bool
  unfolding content chain_verifies
  verifies [] = false
  verifies (manifest ∷ lines) =
      str_eq (text_field "manifest_hash" manifest) (sha256 (content manifest))
      && chain_verifies (text_field "manifest_hash" manifest) (text_field "manifest_hash" manifest)
          0 lines

  -- The texts that the digests of the events are of.
  unfoldable pub linked_texts : String → List Fields → List String
  unfolding linked
  linked_texts previous [] = []
  linked_texts previous (line ∷ []) = []
  linked_texts previous (line ∷ next ∷ lines) =
      linked previous line ∷ linked_texts (text_field "record_hash" line) (next ∷ lines)

  -- All texts of which an export has the digest.
  unfoldable pub digested : List Fields → List String
  unfolding content linked_texts
  digested [] = []
  digested (manifest ∷ lines) =
      content manifest ∷ linked_texts (text_field "manifest_hash" manifest) lines
