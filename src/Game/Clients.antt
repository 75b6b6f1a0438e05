-- ===== src/Game/Clients.antt =====
-- The handlers of client messages and the admission of sockets, app/game/router.py.
pub mod Effects
use askit_backend.Exec.{Error, Result, already_answered, err, ok, question_not_active}
use askit_backend.External.{Floats, Redis, Texts}
use askit_backend.Game.Answers.{submit_answer}
use askit_backend.Game.Handlers.{Ambient, handle_next_question, handle_start_game, send, send_all}
use askit_backend.Game.Messages.{
  ClientMessage, Sent, WsAnswerResult, WsMessage, answer_result, broadcast_to_room,
  host_answer_update, player_answered, send_to_host, send_to_player,
}
use askit_backend.Game.Play.{State}
use askit_backend.Game.World.{Room, get_room}
use askit_backend.Models.{GamePlayer, Time, Uuid}
use askit_backend.Prelude.{
  Bool, List, Option, String, [], false, if◌then◌else◌, nat_eq, none, some, string_eq, true, ◌++◌,
  ◌==◌, ◌∷◌,
}

-- What a `WSMessageType.ERROR` message says of an exception.
abbrev pub error_message : Error → WsMessage
error_message already_answered =
    WsMessage.error "ALREADY_ANSWERED" "You have already answered this question"
error_message question_not_active =
    WsMessage.error "QUESTION_NOT_ACTIVE" "No question is currently active"
error_message _ = WsMessage.error "ANSWER_ERROR" "Failed to process answer"

abbrev pub handler_error : WsMessage
handler_error = WsMessage.error "HANDLER_ERROR" "An unexpected error occurred"

module _ ⦃redis : Redis⦄ ⦃texts : Texts⦄ ⦃floats : Floats⦄ where
  -- The feed of the host, for a player of the room.
  abbrev host_update : String → String → List String → WsAnswerResult → List GamePlayer → List Sent
  host_update room_code player_id answer_ids result [] = []
  host_update room_code player_id answer_ids result (p ∷ players) =
      if texts.str p.player_id == player_id
      then send_to_host room_code (
          host_answer_update (record {
            player_id = player_id;
            nickname = p.nickname;
            is_correct = result.is_correct;
            answer_ids = answer_ids;
            time_taken_ms = result.time_taken_ms;
            total_score = p.score;
          }))
        ∷ []
      else host_update room_code player_id answer_ids result players

  abbrev feedback : String → WsAnswerResult → Bool → List Sent
  feedback player_id result true = send_to_player player_id (answer_result result) ∷ []
  feedback player_id result false = []

  abbrev replies : String → String → List String → WsAnswerResult → Option Room → List Sent
  replies room_code player_id answer_ids result none = []
  replies room_code player_id answer_ids result (some room) =
      feedback player_id result room.session.show_immediate_feedback
      ++ host_update room_code player_id answer_ids result room.players

  abbrev answered_result : String → String → List String → Result WsAnswerResult → State → State
  answered_result room_code player_id answer_ids (ok result) w =
      send_all
        (broadcast_to_room room_code (player_answered player_id)
          ∷ replies room_code player_id answer_ids result (get_room room_code w.db))
        w
  answered_result room_code player_id answer_ids (err e) w =
      send (send_to_player player_id (error_message e)) w

  -- It catches whatever `submit_answer` raises.
  unfoldable pub handle_answer : Time → String → String → String → List String → State → State
  handle_answer now room_code player_id question_id answer_ids w =
      let (r, w') = submit_answer now room_code player_id question_id answer_ids w in
      answered_result room_code player_id answer_ids r w'

  -- `none` is a message that the adapter refuses.
  unfoldable pub handle_player_message :
      Time → String → String → Option ClientMessage → State → State
  handle_player_message now room_code player_id (some (ClientMessage.answer q chosen)) w =
      handle_answer now room_code player_id q chosen w
  handle_player_message now room_code player_id (some ClientMessage.start_game) w = w
  handle_player_message now room_code player_id (some ClientMessage.next_question) w = w
  handle_player_message now room_code player_id none w =
      send (send_to_player player_id handler_error) w

  -- `except Exception` of the host's handler: what was done stays done.
  abbrev or_tell_host : String → Result (Unit {0}) × State → State
  or_tell_host room_code (ok _, w) = w
  or_tell_host room_code (err _, w) = send (send_to_host room_code handler_error) w

  unfoldable pub handle_host_message :
      Ambient → String → Uuid → Option ClientMessage → State → State
  handle_host_message ambient room_code host_id (some ClientMessage.start_game) w =
      or_tell_host room_code (handle_start_game ambient room_code host_id w)
  handle_host_message ambient room_code host_id (some ClientMessage.next_question) w =
      or_tell_host room_code (handle_next_question ambient room_code w)
  handle_host_message ambient room_code host_id (some (ClientMessage.answer q chosen)) w = w
  handle_host_message ambient room_code host_id none w =
      send (send_to_host room_code handler_error) w
