-- ===== src/Quizzes/Validation/Bodies.antt =====
-- The bodies `QuizCreate` and `QuizUpdate` of app/quiz/schemas.py, each validated in the order of its
-- fields. A range error does not stop the fields after it, but no field after it raises another class.
-- Reads only.
use askit_backend.Exec.{Result, ok}
use askit_backend.External.{Texts}
use askit_backend.Prelude.{List, Option, [], none, some, ◌∷◌}
use askit_backend.Quizzes.Forms.{QuizCreate, QuizQuestionCreate, QuizUpdate}
use askit_backend.Quizzes.Validation.{
  validate_description, validate_question, validate_settings, validate_tags, validate_title,
}
use askit_backend.Reading.{◌>>=◌}

unfoldable pub validate_questions : List QuizQuestionCreate → Result (List QuizQuestionCreate)
validate_questions [] = ok []
validate_questions (form ∷ forms) = do
  checked ← validate_question form
  rest ← validate_questions forms
  ok (checked ∷ rest)

-- A field that is `None` is left as it is.
abbrev pub optionally : {A : Type 0} → (A → Result A) → Option A → Result (Option A)
optionally validate none = ok none
optionally validate (some v) = do value ← validate v; ok (some value)

module _ ⦃texts : Texts⦄ where
  unfoldable pub validate_create : QuizCreate → Result QuizCreate
  validate_create form = do
    title ← validate_title form.title
    description ← validate_description form.description
    tags ← validate_tags form.tags
    settings ← validate_settings form.settings
    questions ← validate_questions form.questions
    ok (record {
      title = title;
      description = description;
      tags = tags;
      settings = settings;
      questions = questions;
    })

  unfoldable pub validate_update : QuizUpdate → Result QuizUpdate
  validate_update form = do
    title ← optionally validate_title form.title
    description ← validate_description form.description
    tags ← optionally validate_tags form.tags
    settings ← optionally validate_settings form.settings
    questions ← optionally validate_questions form.questions
    ok (record {
      title = title;
      description = description;
      tags = tags;
      settings = settings;
      questions = questions;
    })
