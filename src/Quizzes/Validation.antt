-- ===== src/Quizzes/Validation.antt =====
-- The validators of the request bodies of app/quiz/schemas.py. A value that is out of a field's range
-- is refused by pydantic.
pub mod Accepted
pub mod Bodies
pub mod Again
use askit_backend.Exec.{Result, err, invalid_quiz_data, ok, value_error}
use askit_backend.External.{Texts}
use askit_backend.Models.{private, public}
use askit_backend.Prelude.{
  Bool, List, Option, String, [], any, false, if◌then◌else◌, is_empty, leb, len, length, ltb,
  nat_eq, none, not, some, string_eq, true, ℕ, ◌&&◌, ◌++◌, ◌==◌, ◌∷◌,
}
use askit_backend.Quizzes.Forms.{QuizQuestionCreate, QuizSettingsCreate}
use askit_backend.Reading.{fail_if, ◌>>=◌, ◌>>◌}

abbrev pub max_title_length : ℕ
max_title_length = 50

abbrev pub max_description_length : ℕ
max_description_length = 300

abbrev pub max_tag_length : ℕ
max_tag_length = 30

abbrev pub max_tags_per_quiz : ℕ
max_tags_per_quiz = 5

abbrev pub has : String → List String → Bool
has tag tags = any (λ t. t == tag) tags

-- `list(dict.fromkeys(validated))`, where the keys of the first argument are there already.
abbrev pub from_keys : List String → List String → List String
from_keys keys [] = keys
from_keys keys (tag ∷ tags) = from_keys (if has tag keys then keys else keys ++ tag ∷ []) tags

unfoldable pub validate_description : Option String → Result (Option String)
validate_description none = ok none
validate_description (some v) = do
  fail_if (ltb max_description_length (len v)) invalid_quiz_data
  ok (some v)

module _ ⦃texts : Texts⦄ where
  unfoldable pub validate_title : String → Result String
  validate_title v = do
    fail_if (is_empty (texts.strip v)) invalid_quiz_data
    fail_if (ltb max_title_length (len v)) invalid_quiz_data
    ok (texts.strip v)

  abbrev pub normal : String → String
  normal raw_tag = texts.lower (texts.strip raw_tag)

  abbrev pub validated : List String → Result (List String)
  validated [] = ok []
  validated (raw_tag ∷ raw_tags) =
      let rest = validated raw_tags in
      if is_empty (normal raw_tag)
      then rest
      else if ltb max_tag_length (len (normal raw_tag))
      then err invalid_quiz_data
      else elim rest [ ok tags ↦ ok (normal raw_tag ∷ tags) | err e ↦ err e ]

  unfoldable pub validate_tags : List String → Result (List String)
  validate_tags v = do
    tags ← validated v
    fail_if (ltb max_tags_per_quiz (length (from_keys [] tags))) invalid_quiz_data
    ok (from_keys [] tags)

-- `visibility_supported`, and the range of `max_participants`.
unfoldable pub validate_settings : QuizSettingsCreate → Result QuizSettingsCreate
validate_settings settings = do
  fail_if (elim settings.visibility [ private ↦ false | public ↦ true ]) invalid_quiz_data
  fail_if (not (leb 1 settings.max_participants && leb settings.max_participants 30)) value_error
  ok settings

-- The range of `time_limit`.
unfoldable pub validate_question : QuizQuestionCreate → Result QuizQuestionCreate
validate_question form = do
  fail_if (not (leb 5000 form.time_limit && leb form.time_limit 300000)) value_error
  ok form
