-- ===== src/Game/RoomState/Secrecy.antt =====
-- What `build_room_state` keeps from players.
use askit_backend.Exec.{ok}
use askit_backend.External.{Redis, Texts}
use askit_backend.Game.Messages.{WsRoomState}
use askit_backend.Game.Play.{State}
use askit_backend.Game.RoomState.{build_room_state, question_parts}
use askit_backend.Models.{QuizAnswer, Time, revealing}
use askit_backend.Prelude.{List, String, [], arith, false, none, some, ◌≡◌, ◌⊎◌}

module _ ⦃redis : Redis⦄ ⦃texts : Texts⦄ where
  -- The state that a player is sent never has the feed of answers, and it has the correct answers
  -- only while they are being revealed.
  pub build_room_state_hides :
      (shuffle : String → List QuizAnswer → List QuizAnswer) (now : Time) (room_code : String)
      (w : State) {state : WsRoomState} {w' : State}
      → build_room_state shuffle now room_code false w ≡ (ok (some state), w')
      → (state.host_answer_details ≡ [])
        × ((state.status ≡ revealing) ⊎ (state.question_ended ≡ none))
  unfolding build_room_state question_parts
  build_room_state_hides shuffle now room_code w h = ground arith
