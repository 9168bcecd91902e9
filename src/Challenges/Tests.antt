-- ===== src/Challenges/Tests.antt =====
-- Runs of the catalog, and its theorems at inputs.
use reversing_lab.Prelude.{◌≡◌, ◌↔◌, ◌⊎◌, refl, String, true, false, some, List, [], ◌∷◌, map}
use reversing_lab.Prelude.Dict.{lookup, insert}
use reversing_lab.Prelude.Trim.{lstrip, rstrip}
use reversing_lab.Challenges.{
  Challenge, done, refused, type_error, base64, crackme, easy, hard, register, new_registry,
  list_views, view_of, get, trimmed, is_ascii, compare_digest, result_of, verify, make_flag,
}
use reversing_lab.Challenges.Catalog.{has_repeats, new_registry_exact}
use reversing_lab.Challenges.Answers.{verify_exact}

abbrev encoded : Challenge
encoded = record {
  slug = "base64";
  title = "Encoded";
  category = base64;
  difficulty = easy;
  description = "";
  hint = "";
  artifact_filename = "base64.bin";
  artifact = 1 ∷ 2 ∷ [];
  answer = "RLAB{b64}";
}

abbrev keygen : Challenge
keygen = record {
  slug = "crackme";
  title = "Crack me";
  category = crackme;
  difficulty = hard;
  description = "";
  hint = "";
  artifact_filename = "crackme.bin";
  artifact = 7 ∷ [];
  answer = "RLAB{serial}";
}

abbrev both : List (String × Challenge)
both = ("base64", encoded) ∷ ("crackme", keygen) ∷ []

registered : new_registry (encoded ∷ keygen ∷ []) ≡ done both
unfolding new_registry register lookup insert
registered = refl

repeated : new_registry (encoded ∷ encoded ∷ []) ≡ refused "Duplicate challenge slug: 'base64'."
unfolding new_registry register lookup insert
repeated = refl

solved : verify both "crackme" " RLAB{serial}\n" ≡ done (result_of "crackme" true)
unfolding verify get lookup trimmed lstrip rstrip compare_digest
solved = refl

-- A submission that is not ASCII.
failed : verify both "crackme" "RLAB{é}" ≡ type_error
unfolding verify get lookup trimmed lstrip rstrip compare_digest
failed = refl

flag : make_flag "b64" ≡ "RLAB{b64}"
unfolding make_flag
flag = refl

new_registry_exact_example :
    ((by_slug : List (String × Challenge)) × (new_registry (encoded ∷ keygen ∷ []) ≡ done by_slug)
      × (list_views by_slug ≡ map view_of (encoded ∷ keygen ∷ []))
      × (has_repeats (encoded ∷ keygen ∷ []) ≡ false))
    ⊎ ((message : String) × (new_registry (encoded ∷ keygen ∷ []) ≡ refused message)
        × (has_repeats (encoded ∷ keygen ∷ []) ≡ true))
new_registry_exact_example = new_registry_exact (encoded ∷ keygen ∷ [])

found : lookup "base64" both ≡ some encoded
unfolding lookup
found = refl

verify_exact_example :
    ((verify both "base64" "RLAB{é}" ≡ done (result_of "base64" true))
      ↔ (trimmed "RLAB{é}" ≡ "RLAB{b64}"))
    × ((verify both "base64" "RLAB{é}" ≡ type_error) ↔ (is_ascii (trimmed "RLAB{é}") ≡ false))
verify_exact_example = verify_exact both "base64" "RLAB{é}" encoded found refl
