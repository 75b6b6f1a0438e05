-- ===== src/Game/Clients/Effects.antt =====
-- What a client's message can change.
use askit_backend.Exec.{Error, Result-cases, err}
use askit_backend.External.{Floats, Redis, Texts}
use askit_backend.Game.Answers.{submit_answer}
use askit_backend.Game.Answers.Submission.{submit_answer_refused}
use askit_backend.Game.Clients.{error_message, handle_answer, handle_player_message}
use askit_backend.Game.Handlers.Course.{submit_answer-sessions}
use askit_backend.Game.Messages.{ClientMessage, send_to_player}
use askit_backend.Game.Play.{State}
use askit_backend.Models.{Time}
use askit_backend.Prelude.{List, Option, String, [], inl, inr, none, refl, some, ◌++◌, ◌∷◌, ◌≡◌}

module _ ⦃redis : Redis⦄ ⦃texts : Texts⦄ ⦃floats : Floats⦄ where
  -- An answer that is refused changes nothing but the messages, and these by one, which tells the
  -- player why.
  pub handle_answer_refused :
      (now : Time) (room_code player_id question_id : String) (answer_ids : List String) (w : State)
      {e : Error} {w' : State}
      → submit_answer now room_code player_id question_id answer_ids w ≡ (err e, w')
      → handle_answer now room_code player_id question_id answer_ids w
        ≡ record w { sent = w.sent ++ send_to_player player_id (error_message e) ∷ [] }
  unfolding handle_answer
  handle_answer_refused now room_code player_id question_id answer_ids w h =
      rw (h, submit_answer_refused w now room_code player_id question_id answer_ids h)

  -- Whatever a player sends, no room and no quiz changes.
  pub handle_player_message_keeps_rooms :
      (now : Time) (room_code player_id : String) (message : Option ClientMessage) (w : State)
      → ((handle_player_message now room_code player_id message w).db.sessions ≡ w.db.sessions)
        × ((handle_player_message now room_code player_id message w).db.quizzes ≡ w.db.quizzes)
  unfolding handle_player_message handle_answer
  handle_player_message_keeps_rooms now room_code player_id none w = (refl, refl)
  handle_player_message_keeps_rooms now room_code player_id (some ClientMessage.start_game) w =
      (refl, refl)
  handle_player_message_keeps_rooms now room_code player_id (some ClientMessage.next_question) w =
      (refl, refl)
  handle_player_message_keeps_rooms now room_code player_id (some (ClientMessage.answer q chosen))
        w =
      let kept = submit_answer-sessions room_code now player_id q chosen w in
      elim (Result-cases (submit_answer now room_code player_id q chosen w).0) [
        | inl (result, e) ↦ rw e kept
        | inr (x, e) ↦ rw e kept
      ]
