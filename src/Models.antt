-- ===== src/Models.antt =====
-- The tables of app/models/*.py and the enumerations that they use. A table is the list of its rows;
-- a UUID is its number, a time the number of microseconds since the least time (`datetime.min`).
use askit_backend.Prelude.{Bool, Eq, List, Option, String, arith, false, nat_beq, true, ℕ, ◌↔◌, ◌≡◌}
use askit_backend.Prelude.Int.{ℤ}

abbrev pub Uuid : Type 0
Uuid = ℕ

abbrev pub Time : Type 0
Time = ℕ

pub data GameSessionStatus : Type 0 where
  waiting starting question revealing finished : GameSessionStatus

abbrev status_index : GameSessionStatus → ℕ
status_index waiting = 0
status_index starting = 1
status_index question = 2
status_index revealing = 3
status_index finished = 4

pub status_beq_iff :
    (a b : GameSessionStatus) → (nat_beq (status_index a) (status_index b) ≡ true) ↔ (a ≡ b)
status_beq_iff a b = ground arith

instance abbrev pub status_eq : Eq GameSessionStatus
status_eq = record {
  beq = λ a b. nat_beq (status_index a) (status_index b);
  beq_iff = status_beq_iff;
}

pub data QuizVisibility : Type 0 where
  private public : QuizVisibility

pub data QuizStatus : Type 0 where
  draft published : QuizStatus

abbrev pub is_published : QuizStatus → Bool
is_published draft = false
is_published published = true

pub record User : Type 0 where
  pub id : Uuid
  pub username : String
  pub email : String
  pub password_hash : String
  pub created_at : Time
  pub last_login : Option Time
  pub is_active : Bool
  pub token_version : ℕ

pub record QuizAnswer : Type 0 where
  pub answer_id : Uuid
  pub text : String
  pub is_correct : Bool

-- A question with the answers that its relationship loads.
pub record QuizQuestion : Type 0 where
  pub question_id : Uuid
  pub text : String
  pub position : ℕ
  pub time_limit : ℕ
  pub allow_multiple_answers : Bool
  pub answers : List QuizAnswer

pub record Quiz : Type 0 where
  pub quiz_id : Uuid
  pub creator_id : Uuid
  pub title : String
  pub description : Option String
  pub default_time_per_question : ℕ
  pub visibility : QuizVisibility
  pub status : QuizStatus
  pub max_participants : Option ℕ
  pub created_at : Time
  pub updated_at : Time
  pub questions : List QuizQuestion
  pub tags : List String

pub record GameSession : Type 0 where
  pub session_id : Uuid
  pub room_code : String
  pub quiz_id : Uuid
  pub host_id : Uuid
  pub randomize_questions : Bool
  pub randomize_answers : Bool
  pub show_immediate_feedback : Bool
  pub public_results : Bool
  pub status : GameSessionStatus
  pub current_question_index : ℕ
  pub created_at : Time
  pub started_at : Option Time
  pub ended_at : Option Time

pub record GamePlayer : Type 0 where
  pub player_id : Uuid
  pub session_id : Uuid
  pub nickname : String
  pub user_id : Option Uuid
  pub score : ℤ
  pub is_connected : Bool

pub record GamePlayerAnswer : Type 0 where
  pub player_id : Uuid
  pub question_id : Uuid
  pub selected_answer_ids : List String
  pub is_correct : Bool
  pub time_taken_ms : ℤ
  pub points_earned : ℤ

pub record Db : Type 0 where
  pub users : List User
  pub quizzes : List Quiz
  pub favorites : List (Uuid × Uuid)
  pub sessions : List GameSession
  pub players : List GamePlayer
  pub answers : List GamePlayerAnswer
