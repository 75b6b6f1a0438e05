-- ===== src/Examples/Doors.antt =====
-- The theorems on admission and on the start of a game at the scene.
use askit_backend.Examples.Scene.{
  ada, last_question, lobby, lobby_room-found, room_session, str, sum_question, waiting_room,
}
use askit_backend.Exec.{Result}
use askit_backend.External.Memory.{
  memory, plain_hashes, plain_jwt, plain_texts, strict_fields, two_secrets, whole_floats,
}
use askit_backend.Game.Admission.{admit, admit_player, create_ws_token, verify_ws_token}
use askit_backend.Game.Admission.Checks.{IsServed, admit_player-create_ws_token, admit_player_only}
use askit_backend.Game.Endpoints.{admit_player-join_endpoint, info_of, join_endpoint}
use askit_backend.Game.Play.{State, advance_to_question, start_game}
use askit_backend.Game.Rooms.{add_player, join_room, new_player}
use askit_backend.Game.World.{Room, get_room, load_quiz}
use askit_backend.Models.{GamePlayer, QuizQuestion}
use askit_backend.Prelude.{
  List, Option, String, [], find?, inl, inr, nat_eq, none, refl, some, string_eq, ◌==◌, ◌∷◌, ◌≡◌,
}
use askit_backend.Prelude.Sorting.{sort_by}

abbrev with_token : State
with_token = create_ws_token "token" (str 51) waiting_room

abbrev cid : GamePlayer
cid = new_player 53 room_session "cid" none

admit_player-join_endpoint_example :
    (p : GamePlayer) × (info_of cid ≡ info_of p)
    × (p.player_id ≡ 53)
    × (admit_player
          ("site" ∷ [])
          (some "site")
          (some "token")
          "ROOM"
          (create_ws_token "token" (str 53) (record waiting_room { db = add_player cid lobby }))
        ≡ admit p)
unfolding join_endpoint join_room get_room load_quiz sort_by
admit_player-join_endpoint_example =
    admit_player-join_endpoint ("site" ∷ []) (some "site") "token" 53 "ROOM" "cid" none waiting_room
      {info = info_of cid} refl (inr (inl refl)) refl refl

admit_player_only_example :
    (t : String) × (room : Room) × IsServed ("site" ∷ []) (some "site")
    × (some "token" ≡ some t)
    × (verify_ws_token t with_token ≡ some (str 51))
    × (get_room "ROOM" lobby ≡ some room)
    × (find? (λ (q : GamePlayer). str q.player_id == str 51) room.players ≡ some ada)
unfolding create_ws_token
admit_player_only_example =
    admit_player_only ("site" ∷ []) (some "site") (some "token") "ROOM" with_token {p = ada} (
      admit_player-create_ws_token ("site" ∷ []) (some "site") "token" "ROOM" waiting_room {p = ada}
        (inr (inl refl)) refl lobby_room-found refl)

abbrev started : State
started = (start_game (λ qs. qs) 7 "ROOM" 1 waiting_room).1

abbrev in_order : List QuizQuestion
in_order = sum_question ∷ last_question ∷ []

abbrev served : Result (Option QuizQuestion) × State
served = advance_to_question 9 "ROOM" 1 started
