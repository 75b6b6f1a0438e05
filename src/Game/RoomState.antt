-- ===== src/Game/RoomState.antt =====
-- `GameService.build_room_state`: what a client is sent when it connects.
pub mod Secrecy
use askit_backend.Exec.{Exec, attribute_error, gets, ok, or_raise, pure, ◌>>=◌}
use askit_backend.External.{Redis, Texts}
use askit_backend.Game.Answers.Check.{correct_ids}
use askit_backend.Game.Board.{
  build_host_answer_details, compute_answer_distribution, get_leaderboard,
}
use askit_backend.Game.Messages.{
  PlayerInfo, WsHostAnswerUpdate, WsQuestion, WsQuestionEnded, WsRoomState,
}
use askit_backend.Game.Play.{State, build_question_message}
use askit_backend.Game.Play.Current.{get_current_question}
use askit_backend.Game.World.{Room, get_room}
use askit_backend.Models.{
  GamePlayer, GameSession, GameSessionStatus, QuizAnswer, QuizQuestion, Time, question, revealing,
  status_eq,
}
use askit_backend.Prelude.{
  Bool, List, Option, String, [], if◌then◌else◌, length, map, nat_eq, none, some, string_eq, ℕ,
  ◌==◌, ◌||◌,
}

module _ ⦃texts : Texts⦄ where
  abbrev pub player_info : GamePlayer → PlayerInfo
  player_info p = record {
    player_id = texts.str p.player_id;
    nickname = p.nickname;
    score = p.score;
    is_connected = p.is_connected;
  }

-- The parts of the state that depend on the question that is running or being revealed.
pub record QuestionParts : Type 0 where
  pub current_question : Option WsQuestion
  pub host_answer_details : List WsHostAnswerUpdate
  pub question_ended : Option WsQuestionEnded

abbrev no_parts : QuestionParts
no_parts = record { current_question = none; host_answer_details = []; question_ended = none }

abbrev shows_question : GameSessionStatus → Bool
shows_question s = s == question || s == revealing

module _ ⦃redis : Redis⦄ ⦃texts : Texts⦄
    (shuffle : String → List QuizAnswer → List QuizAnswer) where
  -- The message that ends a question, as the reveal and a reconnection build it.
  unfoldable pub question_ended_of :
      String → GameSession → QuizQuestion → Exec State WsQuestionEnded
  question_ended_of room_code s q = do
    distribution ← gets (λ w. compute_answer_distribution w.db s.session_id q)
    leaderboard ← get_leaderboard room_code
    pure (record {
      question_id = texts.str q.question_id;
      correct_answer_ids = correct_ids q.answers;
      answer_distribution = distribution;
      leaderboard = leaderboard;
    })

  abbrev ended_when_revealing :
      String → GameSession → QuizQuestion → Exec State (Option WsQuestionEnded)
  ended_when_revealing room_code s q =
      if s.status == revealing
      then (do ended ← question_ended_of room_code s q; pure (some ended))
      else pure none

  abbrev parts_of :
      Time → String → Bool → GameSession → ℕ → Option QuizQuestion → Exec State QuestionParts
  parts_of now room_code for_host s question_count none = pure no_parts
  parts_of now room_code for_host s question_count (some q) = do
    message ← gets (
        build_question_message shuffle now q s.current_question_index question_count room_code
          s.randomize_answers)
    details ←
        gets
          (λ w. if for_host then build_host_answer_details w.db s.session_id q.question_id else [])
    ended ← ended_when_revealing room_code s q
    pure (record {
      current_question = some message;
      host_answer_details = details;
      question_ended = ended;
    })

  unfoldable pub question_parts : Time → String → Bool → GameSession → ℕ → Exec State QuestionParts
  question_parts now room_code for_host s question_count =
      if shows_question s.status
      then (do
        current ← (λ w. (get_current_question w room_code, w))
        parts_of now room_code for_host s question_count current)
      else pure no_parts

  abbrev state_of : Time → String → Bool → Room → Exec State (Option WsRoomState)
  state_of now room_code for_host room = do
    quiz ← or_raise room.quiz attribute_error
    parts ← question_parts now room_code for_host room.session (length quiz.questions)
    pure (
        some (record {
          session_id = texts.str room.session.session_id;
          room_code = room.session.room_code;
          status = room.session.status;
          host_id = texts.str room.session.host_id;
          players = map player_info room.players;
          quiz_title = quiz.title;
          total_questions = length quiz.questions;
          current_question_index = room.session.current_question_index;
          current_question = parts.current_question;
          host_answer_details = parts.host_answer_details;
          question_ended = parts.question_ended;
        }))

  unfoldable pub build_room_state : Time → String → Bool → Exec State (Option WsRoomState)
  build_room_state now room_code for_host w = elim (get_room room_code w.db) [
    | none ↦ (ok none, w)
    | some room ↦ state_of now room_code for_host room w
  ]
