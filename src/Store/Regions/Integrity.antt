-- ===== src/Store/Regions/Integrity.antt =====
-- Extracted memory regions of backend/reversing_lab/database/repository.py are read back as they were
-- written.
use reversing_lab.Prelude.{
  ℕ, ◌≤◌, ◌≡◌, inl, inr, String, Bool, not, ◌||◌, Option, none, some, List, ltb, ◌==◌, str_eq,
  eq_iff, arith, length, Bool-cases,
}
use reversing_lab.Prelude.Dict.{lookup}
use reversing_lab.Store.Binaries.{Bytes}
use reversing_lab.Store.Regions.{Region, done, validated, read_region_artifact}

validated_done :
    (sha256 : Bytes → String) (is_file_of : String → String → Bool) (limit : ℕ) (r : Region)
    (o : Option Bytes) (bytes : Bytes)
    → validated sha256 is_file_of limit r o ≡ done bytes
    → (length bytes ≡ r.size) × (length bytes ≤ limit) × (sha256 bytes ≡ r.content_sha256)
validated_done sha256 is_file_of limit r none bytes h = cc
validated_done sha256 is_file_of limit r (some content) bytes h =
    let wrong =
      not (length content == r.size)
      || ltb limit (length content)
      || not (str_eq (sha256 content) r.content_sha256) in
    elim (Bool-cases wrong) [
      | inl refused ↦ ground (arith, h, refused)
      | inr passed ↦
          let same : content ≡ bytes = ground (arith, h, passed) in
          rw (← same) (ground (arith, passed, eq_iff (sha256 content) r.content_sha256))
    ]

-- Whatever `read_region_artifact` returns has the size and the digest of its row and is within the limit.
pub read_region_artifact_checked :
    (sha256 : Bytes → String) (is_file_of : String → String → Bool) (limit : ℕ) (r : Region)
    (files : List (String × Bytes)) (bytes : Bytes)
    → read_region_artifact sha256 is_file_of limit r files ≡ done bytes
    → (length bytes ≡ r.size) × (length bytes ≤ limit) × (sha256 bytes ≡ r.content_sha256)
unfolding read_region_artifact
read_region_artifact_checked sha256 is_file_of limit r files bytes h =
    elim (Bool-cases (is_file_of r.storage_path r.content_sha256)) [
      | inl inside ↦
          validated_done sha256 is_file_of limit r (lookup r.storage_path files) bytes
            (ground (arith, h, inside))
      | inr outside ↦ ground (arith, h, outside)
    ]
