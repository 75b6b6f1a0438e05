-- ===== src/Game/Handlers.antt =====
-- The handlers of app/game/router.py that run a game.

pub mod Progress
pub mod Effects
pub mod Steps
pub mod Course
pub mod Results
pub mod Frame
pub mod Ending
use askit_backend.Exec.{Exec, attribute_error, gets, modify, ok, or_raise, pure, ◌>>=◌, ◌>>◌}
use askit_backend.External.{Floats, Redis, Texts}
use askit_backend.Game.Board.{build_game_finished, clear_ranking_state}
use askit_backend.Game.Messages.{
  Sent, WsGameFinished, WsLeaderboardEntry, WsMessage, broadcast_to_room, game_finished,
  game_starting, question_ended, send_to_host, send_to_player,
}
use askit_backend.Game.Play.{
  State, advance_to_question, build_question_message, mark_finished, set_status, start_game,
  write_session,
}
use askit_backend.Game.Play.Current.{get_current_question}
use askit_backend.Game.RoomState.{question_ended_of}
use askit_backend.Game.World.{Room, get_room}
use askit_backend.Models.{
  GamePlayer, GameSession, QuizAnswer, QuizQuestion, Time, Uuid, question, revealing, status_eq,
}
use askit_backend.Prelude.{
  Bool, List, Option, String, [], false, if◌then◌else◌, length, ltb, nat_eq, none, not, select,
  some, string_eq, ℕ, ◌&&◌, ◌++◌, ◌+◌, ◌==◌, ◌∷◌,
}

-- What the handlers take from Python: `random.shuffle` of the questions, the seeded shuffle of the
-- answers, and the time.
pub record Ambient : Type 0 where
  pub shuffle_questions : List QuizQuestion → List QuizQuestion
  pub shuffle_answers : String → List QuizAnswer → List QuizAnswer
  pub now : Time

-- `_game_finished_for_player`
unfoldable pub game_finished_for_player : WsGameFinished → String → WsGameFinished
game_finished_for_player results player_id = record results {
  final_leaderboard =
      select (λ (e : WsLeaderboardEntry). e.player_id == player_id) results.final_leaderboard;
}

module _ ⦃redis : Redis⦄ where
  abbrev pub send : Sent → State → State
  send message w = record w { sent = w.sent ++ message ∷ [] }

  abbrev pub send_all : List Sent → State → State
  send_all messages w = record w { sent = w.sent ++ messages }

  abbrev pub add_timer : String → ℕ → State → State
  add_timer room_code question_index w = record w {
    timers = w.timers ++ (room_code, question_index) ∷ [];
  }

module _ ⦃redis : Redis⦄ ⦃texts : Texts⦄ ⦃floats : Floats⦄ (ambient : Ambient) where
  abbrev pub own_results : WsGameFinished → List GamePlayer → List Sent
  own_results results [] = []
  own_results results (p ∷ players) =
      send_to_player (texts.str p.player_id)
        (game_finished (game_finished_for_player results (texts.str p.player_id)))
      ∷ own_results results players

  -- Who is sent the final results: all, or the host and to each player its own entry.
  unfoldable pub results_to : String → Room → WsGameFinished → List Sent
  results_to room_code room results =
      if room.session.public_results
      then broadcast_to_room room_code (game_finished results) ∷ []
      else send_to_host room_code (game_finished results) ∷ own_results results room.players

  abbrev announce_results : String → Room → Option WsGameFinished → Exec State (Unit {0})
  announce_results room_code room none = pure tt
  announce_results room_code room (some results) = do
    modify (send_all (results_to room_code room results))
    modify (clear_ranking_state room_code)

  unfoldable pub end_game : String → Exec State (Unit {0})
  end_game room_code w = elim (get_room room_code w.db) [
    | none ↦ (ok tt, w)
    | some room ↦
        (do
          modify (write_session room.session.session_id (mark_finished ambient.now))
          results ← build_game_finished ambient.now room_code
          announce_results room_code room results)
          w
  ]

  abbrev randomizes : Option Room → Bool
  randomizes none = false
  randomizes (some room) = room.session.randomize_answers

  unfoldable pub show_question : String → ℕ → ℕ → Option QuizQuestion → Exec State (Unit {0})
  show_question room_code question_index total none = end_game room_code
  show_question room_code question_index total (some q) = do
    room ← gets (λ w. get_room room_code w.db)
    message ← gets (
        build_question_message ambient.shuffle_answers ambient.now q question_index total room_code
          (randomizes room))
    modify (send (broadcast_to_room room_code (WsMessage.question message)))
    modify (add_timer room_code question_index)

  unfoldable pub send_question : String → ℕ → ℕ → Exec State (Unit {0})
  send_question room_code question_index total = do
    q ← advance_to_question ambient.now room_code question_index
    show_question room_code question_index total q

  abbrev pub countdown : String → ℕ → List Sent
  countdown room_code total =
      broadcast_to_room room_code (game_starting 3000 total)
      ∷ broadcast_to_room room_code (game_starting 2000 total)
      ∷ broadcast_to_room room_code (game_starting 1000 total)
      ∷ []

  unfoldable pub handle_start_game : String → Uuid → Exec State (Unit {0})
  handle_start_game room_code host_id = do
    qs ← start_game ambient.shuffle_questions ambient.now room_code host_id
    modify (send_all (countdown room_code (length qs)))
    send_question room_code 1 (length qs)

  -- The end of the running question, forced by the host.
  unfoldable pub force_end : String → GameSession → Option QuizQuestion → Exec State (Unit {0})
  force_end room_code s none = pure tt
  force_end room_code s (some q) = do
    modify (write_session s.session_id (set_status revealing))
    ended ← question_ended_of ambient.shuffle_answers room_code s q
    modify (send (broadcast_to_room room_code (question_ended ended)))

  unfoldable pub go_on : String → GameSession → ℕ → Exec State (Unit {0})
  go_on room_code s question_count =
      if s.status == question
      then (do
        current ← (λ w. (get_current_question w room_code, w))
        force_end room_code s current)
      else if not (s.status == revealing)
      then pure tt
      else if ltb question_count (s.current_question_index + 1)
      then end_game room_code
      else send_question room_code (s.current_question_index + 1) question_count

  unfoldable pub handle_next_question : String → Exec State (Unit {0})
  handle_next_question room_code w = elim (get_room room_code w.db) [
    | none ↦ (ok tt, w)
    | some room ↦
        (do
          quiz ← or_raise room.quiz attribute_error
          go_on room_code room.session (length quiz.questions))
          w
  ]

  unfoldable pub reveal : String → GameSession → Option QuizQuestion → Exec State (Unit {0})
  reveal room_code s none = pure tt
  reveal room_code s (some q) = do
    ended ← question_ended_of ambient.shuffle_answers room_code s q
    modify (send (broadcast_to_room room_code (question_ended ended)))

  -- What `question_timeout` does when it wakes.
  unfoldable pub question_timeout : String → ℕ → Exec State (Unit {0})
  question_timeout room_code question_index w = elim (get_room room_code w.db) [
    | none ↦ (ok tt, w)
    | some room ↦
        if room.session.current_question_index == question_index && room.session.status == question
        then (do
          modify (write_session room.session.session_id (set_status revealing))
          current ← (λ w'. (get_current_question w' room_code, w'))
          reveal room_code room.session current)
            w
        else (ok tt, w)
  ]
