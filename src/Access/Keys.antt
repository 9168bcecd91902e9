-- ===== src/Access/Keys.antt =====
-- The API keys of the configuration: `validate_api_key_hashes` of backend/reversing_lab/config.py. A
-- dictionary is the list of its items.
use Prim.Native.Char.{code}
use reversing_lab.Prelude.{
  ℕ, String, Bool, true, false, ◌&&◌, ◌||◌, Option, none, some, List, [], ◌∷◌, if◌then◌else◌, leb,
  ◌==◌, str_eq,
}
use reversing_lab.Prelude.Text.{text_length}

-- descriptor.rpartition(":") where it finds a separator, and so descriptor.rsplit(":", 1)
unfoldable pub rpartition : String → Option (String × String)
rpartition String.[] = none
rpartition (String.◌∷◌ c s) = elim (rpartition s) [
  | some parts ↦ some (String.◌∷◌ c parts.0, parts.1)
  | none ↦ if code c == b':' then some (String.[], s) else none
]

-- all(test(character) for character in text)
unfoldable pub all_characters : (ℕ → Bool) → String → Bool
all_characters test String.[] = true
all_characters test (String.◌∷◌ c s) = test (code c) && all_characters test s

-- character in "0123456789abcdef"
abbrev pub is_digest_digit : ℕ → Bool
is_digest_digit c = (leb b'0' c && leb c b'9') || (leb b'a' c && leb c b'f')

-- character.isascii() and (character.isalnum() or character in "._@-")
abbrev pub is_name_character : ℕ → Bool
is_name_character c =
    (leb b'0' c && leb c b'9')
    || (leb b'a' c && leb c b'z')
    || (leb b'A' c && leb c b'Z')
    || (c == b'.')
    || (c == b'_')
    || (c == b'@')
    || (c == b'-')

unfoldable pub is_digest : String → Bool
is_digest digest = (text_length digest == 64) && all_characters is_digest_digit digest

unfoldable pub is_principal_id : String → Bool
is_principal_id id =
    leb 1 (text_length id) && leb (text_length id) 128 && all_characters is_name_character id

-- role in allowed_roles
abbrev pub is_role : String → Bool
is_role role = str_eq role "viewer" || str_eq role "analyst" || str_eq role "admin"

unfoldable pub is_descriptor : String → Bool
unfolding rpartition
is_descriptor descriptor = elim (rpartition descriptor) [
  | none ↦ false
  | some parts ↦ is_principal_id parts.0 && is_role parts.1
]

-- The two errors that the validator raises.
pub data KeyError : Type 0 where
  bad_digest bad_descriptor : KeyError

-- `none` where the validator returns the value.
unfoldable pub validate_api_key_hashes : List (String × String) → Option KeyError
validate_api_key_hashes [] = none
validate_api_key_hashes ((digest, descriptor) ∷ items) =
    if is_digest digest
    then if is_descriptor descriptor then validate_api_key_hashes items else some bad_descriptor
    else some bad_digest
