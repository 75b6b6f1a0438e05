-- ===== src/Quizzes/Views.antt =====
-- What `QuizService` sends back: `quiz_to_response`, `get_quiz`, `list_quizzes`, `list_favorites` and
-- `export_quiz`. The fields of an export are those of a `QuizCreate`.
-- Reads only.
use askit_backend.Exec.{Result, err, ok, quiz_access_denied, quiz_not_found, value_error}
use askit_backend.External.{Texts}
use askit_backend.Game.World.{by_position, load_quiz, with_sorted_questions}
use askit_backend.Models.{Db, Quiz, QuizAnswer, QuizQuestion, User, Uuid, status_eq}
use askit_backend.Prelude.{
  Bool, List, Option, [], false, if◌then◌else◌, map, nat_eq, none, not, select, some, string_eq,
  true, ℕ, ◌+◌, ◌==◌, ◌∷◌,
}
use askit_backend.Prelude.Sorting.{sort_by}
use askit_backend.Quizzes.{is_favorite}
use askit_backend.Quizzes.Forms.{
  QuizAnswerCreate, QuizAnswerOut, QuizCreate, QuizOut, QuizQuestionCreate, QuizQuestionOut,
  QuizSettingsCreate,
}
use askit_backend.Reading.{fail_if, require, ◌>>=◌, ◌>>◌}

abbrev pub answer_out : QuizAnswer → QuizAnswerOut
answer_out a = record { answer_id = a.answer_id; text = a.text; is_correct = a.is_correct }

abbrev pub question_out : QuizQuestion → QuizQuestionOut
question_out q = record {
  question_id = q.question_id;
  text = q.text;
  position = q.position;
  time_limit = q.time_limit;
  allow_multiple_answers = q.allow_multiple_answers;
  answers = map answer_out q.answers;
}

abbrev pub total_time : List QuizQuestion → ℕ
total_time [] = 0
total_time (q ∷ questions) = q.time_limit + total_time questions

-- `max_participants` is an `int` in the response: a quiz without one is refused by pydantic.
abbrev pub settings_of : Quiz → Result QuizSettingsCreate
settings_of q = do
  max_participants ← require q.max_participants value_error
  ok (record {
    default_time_per_question = q.default_time_per_question;
    visibility = q.visibility;
    max_participants = max_participants;
  })

abbrev pub answer_export : QuizAnswer → QuizAnswerCreate
answer_export a = record { text = a.text; is_correct = a.is_correct }

abbrev pub question_export : QuizQuestion → QuizQuestionCreate
question_export q = record {
  text = q.text;
  time_limit = q.time_limit;
  allow_multiple_answers = q.allow_multiple_answers;
  answers = map answer_export q.answers;
}

unfoldable pub export_quiz : Db → Uuid → User → Result QuizCreate
export_quiz db quiz_id user = do
  quiz ← require (load_quiz quiz_id db) quiz_not_found
  fail_if (not (quiz.creator_id == user.id)) quiz_access_denied
  settings ← settings_of quiz
  ok (record {
    title = quiz.title;
    description = quiz.description;
    tags = quiz.tags;
    settings = settings;
    questions = map question_export (sort_by by_position quiz.questions);
  })

module _ ⦃texts : Texts⦄ where
  unfoldable pub quiz_to_response : Quiz → Bool → Result QuizOut
  quiz_to_response quiz is_favorited = do
    settings ← settings_of quiz
    ok (record {
      quiz_id = quiz.quiz_id;
      creator_id = texts.str quiz.creator_id;
      title = quiz.title;
      description = quiz.description;
      tags = quiz.tags;
      status = quiz.status;
      settings = settings;
      questions = map question_out quiz.questions;
      estimated_time = total_time quiz.questions;
      created_at = quiz.created_at;
      updated_at = quiz.updated_at;
      is_favorited = is_favorited;
    })

  -- The end of `create_quiz`, `update_quiz` and `set_quiz_status`: the quiz as it is stored now.
  unfoldable pub respond : Uuid → Db → Result QuizOut
  respond quiz_id db = do
    quiz ← require (load_quiz quiz_id db) quiz_not_found
    quiz_to_response quiz false

  abbrev visible : Option User → Quiz → Bool
  visible none quiz = true
  visible (some user) quiz = quiz.creator_id == user.id

  abbrev favorite_of : Option User → Uuid → Db → Bool
  favorite_of none quiz_id db = false
  favorite_of (some user) quiz_id db = is_favorite user.id quiz_id db

  -- It catches the `ValueError` of a response that pydantic refuses.
  abbrev or_none : Result QuizOut → Option QuizOut
  or_none (ok out) = some out
  or_none (err e) = none

  unfoldable pub get_quiz : Db → Uuid → Option User → Option QuizOut
  get_quiz db quiz_id owner = elim (load_quiz quiz_id db) [
    | none ↦ none
    | some quiz ↦
        if visible owner quiz
        then or_none (quiz_to_response quiz (favorite_of owner quiz_id db))
        else none
  ]

  abbrev pub responses : (Quiz → Bool) → List Quiz → Result (List QuizOut)
  responses favorite [] = ok []
  responses favorite (q ∷ quizzes) = do
    out ← quiz_to_response (with_sorted_questions q) (favorite q)
    rest ← responses favorite quizzes
    ok (out ∷ rest)

  unfoldable pub list_quizzes : Db → User → Result (List QuizOut)
  list_quizzes db user =
      responses (λ (q : Quiz). is_favorite user.id q.quiz_id db)
        (select (λ (q : Quiz). q.creator_id == user.id) db.quizzes)

  unfoldable pub list_favorites : Db → User → Result (List QuizOut)
  list_favorites db user =
      responses (λ q. true) (select (λ (q : Quiz). is_favorite user.id q.quiz_id db) db.quizzes)
