-- ===== src/Examples/Rooms.antt =====
-- The theorems on creating and joining rooms at the scene.
use askit_backend.Examples.Scene.{lobby, room_session}
use askit_backend.Exec.{ok}
use askit_backend.External.Memory.{
  memory, plain_hashes, plain_jwt, plain_texts, strict_fields, two_secrets, whole_floats,
}
use askit_backend.Game.Rooms.{
  CreateRoomRequest, add_player, code_taken, create_room, create_session, find_quiz, join_room,
  new_player, new_session, response_of, room_code_attempts,
}
use askit_backend.Game.Rooms.Creation.{create_room_opens}
use askit_backend.Game.Rooms.Joining.{
  IsOpen, NamesDistinct, join_room-NamesDistinct, join_room_admits,
}
use askit_backend.Game.World.{Room}
use askit_backend.Models.{GamePlayer, GameSession, Quiz, published, waiting}
use askit_backend.Prelude.{
  String, [], false, none, refl, some, suc, true, zero, ℕ, ◌++◌, ◌<◌, ◌↔◌, ◌∷◌, ◌≡◌,
}

-- Every attempt but the last generates the code of the room of the scene.
abbrev codes : ℕ → String
codes zero = "FREE"
codes (suc n) = "ROOM"

abbrev wishes : CreateRoomRequest
wishes = record {
  quiz_id = 11;
  randomize_questions = true;
  randomize_answers = false;
  show_immediate_feedback = true;
  public_results = false;
}

abbrev row : String → GameSession
row = new_session wishes 1 42 7

create_room_opens_example :
    (quiz : Quiz) × (i : ℕ) × (find_quiz 11 lobby ≡ some quiz)
    × (quiz.creator_id ≡ 1)
    × (quiz.status ≡ published)
    × (i < room_code_attempts)
    × (code_taken (codes i) lobby ≡ false)
    × ("FREE" ≡ codes i)
    × (waiting ≡ waiting)
    × (record lobby { sessions = room_session ∷ row "FREE" ∷ [] }
        ≡ record lobby { sessions = lobby.sessions ++ row (codes i) ∷ [] })
unfolding create_room create_session
create_room_opens_example =
    create_room_opens codes 42 7 1 wishes lobby {response = response_of 0 (row "FREE")} refl

abbrev cid : GamePlayer
cid = new_player 53 room_session "cid" none

join_room_admits_example :
    (join_room 53 "ROOM" "cid" none lobby ≡ (ok (room_session, cid), add_player cid lobby)) ↔ (
      (room : Room) × (quiz : Quiz) × IsOpen 53 "ROOM" "cid" none lobby room_session room quiz
      × (cid ≡ new_player 53 room_session "cid" none)
      × (add_player cid lobby ≡ record lobby { players = lobby.players ++ cid ∷ [] }))
join_room_admits_example =
    join_room_admits 53 "ROOM" "cid" none lobby room_session cid (add_player cid lobby)

join_room-NamesDistinct_example : NamesDistinct (join_room 53 "ROOM" "cid" none lobby).1.players
join_room-NamesDistinct_example =
    join_room-NamesDistinct 53 "ROOM" "cid" none lobby ((refl, tt), (tt, tt))
