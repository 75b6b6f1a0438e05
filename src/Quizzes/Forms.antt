-- ===== src/Quizzes/Forms.antt =====
-- The request bodies of app/quiz/schemas.py, as they are once they have been validated, and the
-- bodies of the responses. A default time below 0, which nothing refuses, is left out.
use askit_backend.Models.{QuizStatus, QuizVisibility, Time, Uuid}
use askit_backend.Prelude.{Bool, List, Option, String, ℕ}
use askit_backend.Prelude.Int.{ℤ}

pub record QuizAnswerCreate : Type 0 where
  pub text : String
  pub is_correct : Bool

pub record QuizQuestionCreate : Type 0 where
  pub text : String
  pub time_limit : ℕ
  pub allow_multiple_answers : Bool
  pub answers : List QuizAnswerCreate

pub record QuizSettingsCreate : Type 0 where
  pub default_time_per_question : ℕ
  pub visibility : QuizVisibility
  pub max_participants : ℕ

pub record QuizCreate : Type 0 where
  pub title : String
  pub description : Option String
  pub tags : List String
  pub settings : QuizSettingsCreate
  pub questions : List QuizQuestionCreate

pub record QuizUpdate : Type 0 where
  pub title : Option String
  pub description : Option String
  pub tags : Option (List String)
  pub settings : Option QuizSettingsCreate
  pub questions : Option (List QuizQuestionCreate)

pub record QuizAnswerOut : Type 0 where
  pub answer_id : Uuid
  pub text : String
  pub is_correct : Bool

pub record QuizQuestionOut : Type 0 where
  pub question_id : Uuid
  pub text : String
  pub position : ℕ
  pub time_limit : ℕ
  pub allow_multiple_answers : Bool
  pub answers : List QuizAnswerOut

pub record QuizOut : Type 0 where
  pub quiz_id : Uuid
  pub creator_id : String
  pub title : String
  pub description : Option String
  pub tags : List String
  pub status : QuizStatus
  pub settings : QuizSettingsCreate
  pub questions : List QuizQuestionOut
  pub estimated_time : ℕ
  pub created_at : Time
  pub updated_at : Time
  pub is_favorited : Bool

pub record TopPlayerOut : Type 0 where
  pub nickname : String
  pub score : ℤ
  pub played_at : Time

pub record QuizStatsOut : Type 0 where
  pub quiz_id : String
  pub times_played : ℕ
  pub total_players : ℕ
  pub average_score : ℤ
  pub average_duration_seconds : ℤ
  pub top_players : List TopPlayerOut
