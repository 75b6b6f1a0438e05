-- ===== src/Game/Messages.antt =====
-- The WebSocket messages of app/game/schemas.py. Ids in messages are texts.
use askit_backend.Models.{GameSessionStatus, Time}
use askit_backend.Prelude.{Bool, List, Option, String, ℕ}
use askit_backend.Prelude.Int.{ℤ}

pub record PlayerInfo : Type 0 where
  pub player_id : String
  pub nickname : String
  pub score : ℤ
  pub is_connected : Bool

pub record WsAnswerOption : Type 0 where
  pub answer_id : String
  pub text : String

pub record WsQuestion : Type 0 where
  pub question_index : ℕ
  pub total_questions : ℕ
  pub question_id : String
  pub text : String
  pub answers : List WsAnswerOption
  pub time_limit_ms : ℕ
  pub started_at : Time
  pub allow_multiple_answers : Bool

pub record WsAnswerResult : Type 0 where
  pub is_correct : Bool
  pub correct_answer_ids : List String
  pub points_earned : ℤ
  pub time_taken_ms : ℤ

pub record WsLeaderboardEntry : Type 0 where
  pub rank : ℕ
  pub player_id : String
  pub nickname : String
  pub score : ℤ
  pub change : ℤ

pub record WsQuestionEnded : Type 0 where
  pub question_id : String
  pub correct_answer_ids : List String
  pub answer_distribution : List (String × ℕ)
  pub leaderboard : List WsLeaderboardEntry

pub record WsGameFinished : Type 0 where
  pub final_leaderboard : List WsLeaderboardEntry
  pub total_questions : ℕ
  pub duration_ms : ℤ
  pub public_results : Bool

pub record WsHostAnswerUpdate : Type 0 where
  pub player_id : String
  pub nickname : String
  pub is_correct : Bool
  pub answer_ids : List String
  pub time_taken_ms : ℤ
  pub total_score : ℤ

pub record WsRoomState : Type 0 where
  pub session_id : String
  pub room_code : String
  pub status : GameSessionStatus
  pub host_id : String
  pub players : List PlayerInfo
  pub quiz_title : String
  pub total_questions : ℕ
  pub current_question_index : ℕ
  pub current_question : Option WsQuestion
  pub host_answer_details : List WsHostAnswerUpdate
  pub question_ended : Option WsQuestionEnded

-- `WSMessageType` with the payload of each server message.
pub data WsMessage : Type 0 where
  error : String → String → WsMessage
  room_state : WsRoomState → WsMessage
  player_joined : PlayerInfo → WsMessage
  player_left : String → String → WsMessage
  game_starting : ℕ → ℕ → WsMessage
  question : WsQuestion → WsMessage
  answer_result : WsAnswerResult → WsMessage
  player_answered : String → WsMessage
  question_ended : WsQuestionEnded → WsMessage
  game_finished : WsGameFinished → WsMessage
  host_answer_update : WsHostAnswerUpdate → WsMessage

-- The client messages that `client_message_adapter` accepts.
pub data ClientMessage : Type 0 where
  start_game next_question : ClientMessage
  answer : String → List String → ClientMessage

-- A call of `connection_manager` by the game's handlers.
pub data Sent : Type 0 where
  broadcast_to_room : String → WsMessage → Sent
  -- With `exclude_player_id`, which stands first.
  broadcast_to_others : String → String → WsMessage → Sent
  send_to_player : String → WsMessage → Sent
  send_to_host : String → WsMessage → Sent
