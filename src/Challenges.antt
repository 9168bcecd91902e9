-- ===== src/Challenges.antt =====
-- The challenge catalog: backend/reversing_lab/challenge. A challenge is what its class declares and
-- builds; the generators that build them are values of `Challenge`.
pub mod Catalog
pub mod Answers
mod Tests
use Prim.Native.Char.{code}
use Prim.Native.String.{◌++◌ as ◌<>◌}
use reversing_lab.Prelude.{
  ℕ, String, Bool, true, false, ◌&&◌, ◌||◌, Option, none, some, List, [], ◌∷◌, length,
  if◌then◌else◌, leb, ltb, ◌==◌, str_eq,
}
use reversing_lab.Prelude.Dict.{lookup, insert}
use reversing_lab.Prelude.Trim.{lstrip, rstrip}

pub data ChallengeCategory : Type 0 where
  hidden_string : ChallengeCategory
  xor : ChallengeCategory
  base64 : ChallengeCategory
  crackme : ChallengeCategory
  packing : ChallengeCategory
  malware : ChallengeCategory

pub data Difficulty : Type 0 where
  easy : Difficulty
  medium : Difficulty
  hard : Difficulty

-- An instance of a challenge class, with what `build` gives.
pub record Challenge : Type 0 where
  pub slug : String
  pub title : String
  pub category : ChallengeCategory
  pub difficulty : Difficulty
  pub description : String
  pub hint : String
  pub artifact_filename : String
  pub artifact : List ℕ
  pub answer : String

pub record ChallengeView : Type 0 where
  pub slug : String
  pub title : String
  pub category : ChallengeCategory
  pub difficulty : Difficulty
  pub description : String
  pub hint : String
  pub artifact_filename : String
  pub artifact_size : ℕ

pub record ChallengeResult : Type 0 where
  pub slug : String
  pub correct : Bool
  pub message : String

-- What a call ends in: a value, a `ChallengeError` with its text, or a `TypeError`.
pub data Answered (A : Type 0) : Type 0 where
  done : A → Answered A
  refused : String → Answered A
  type_error : Answered A

-- make_flag
unfoldable pub make_flag : String → String
make_flag secret = "RLAB{" <> secret <> "}"

unfoldable pub view_of : Challenge → ChallengeView
view_of c = record {
  slug = c.slug;
  title = c.title;
  category = c.category;
  difficulty = c.difficulty;
  description = c.description;
  hint = c.hint;
  artifact_filename = c.artifact_filename;
  artifact_size = length c.artifact;
}

-- A text between quotes, in the messages; slugs hold no quotes.
abbrev pub quoted : String → String
quoted s = "'" <> s <> "'."

-- The rest of a registration, unless the slug is taken.
abbrev pub unless_taken : {A : Type 0} → Option Challenge → String → Answered A → Answered A
unless_taken (some there) slug rest = refused ("Duplicate challenge slug: " <> quoted slug)
unless_taken none slug rest = rest

-- The loop of `__init__`, with the slugs registered so far.
unfoldable pub register :
    List Challenge → List (String × Challenge) → Answered (List (String × Challenge))
unfolding lookup insert
register [] by_slug = done by_slug
register (instance_ ∷ classes) by_slug =
    unless_taken (lookup instance_.slug by_slug) instance_.slug
      (register classes (insert instance_.slug instance_ by_slug))

unfoldable pub new_registry : List Challenge → Answered (List (String × Challenge))
unfolding register
new_registry classes = register classes []

unfoldable pub list_views : List (String × Challenge) → List ChallengeView
unfolding view_of
list_views [] = []
list_views ((slug, c) ∷ by_slug) = view_of c ∷ list_views by_slug

abbrev pub known : String → Option Challenge → Answered Challenge
known slug (some c) = done c
known slug none = refused ("Unknown challenge: " <> quoted slug)

unfoldable pub get : List (String × Challenge) → String → Answered Challenge
unfolding lookup
get by_slug slug = known slug (lookup slug by_slug)

-- White space as `str.strip` takes it.
abbrev is_white : ℕ → Bool
is_white c =
    (leb 9 c && leb c 13)
    || (leb 28 c && leb c 32)
    || (c == 133)
    || (c == 160)
    || (c == 5760)
    || (leb 8192 c && leb c 8202)
    || (c == 8232)
    || (c == 8233)
    || (c == 8239)
    || (c == 8287)
    || (c == 12288)

-- submission.strip()
unfoldable pub trimmed : String → String
unfolding lstrip rstrip
trimmed submission = rstrip is_white (lstrip is_white submission)

abbrev pub is_ascii : String → Bool
is_ascii String.[] = true
is_ascii (String.◌∷◌ c s) = ltb (code c) 128 && is_ascii s

-- hmac.compare_digest of two texts, which fails for a text that is not ASCII.
unfoldable pub compare_digest : String → String → Answered Bool
compare_digest a b = if is_ascii a && is_ascii b then done (str_eq a b) else type_error

abbrev pub result_of : String → Bool → ChallengeResult
result_of slug correct = record {
  slug = slug;
  correct = correct;
  message = if correct then "Correct — well done!" else "Incorrect. Keep analyzing and try again.";
}

abbrev pub with_digest : String → Answered Bool → Answered ChallengeResult
with_digest slug (done correct) = done (result_of slug correct)
with_digest slug (refused message) = refused message
with_digest slug type_error = type_error

abbrev pub with_challenge : String → String → Answered Challenge → Answered ChallengeResult
with_challenge slug submission (done c) =
    with_digest slug (compare_digest (trimmed submission) c.answer)
with_challenge slug submission (refused message) = refused message
with_challenge slug submission type_error = type_error

unfoldable pub verify : List (String × Challenge) → String → String → Answered ChallengeResult
unfolding get trimmed compare_digest
verify by_slug slug submission = with_challenge slug submission (get by_slug slug)
