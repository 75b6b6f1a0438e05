-- ===== src/Examples/Courses.antt =====
-- The theorems on the course of a game at the scene.
use askit_backend.Examples.Scene.{
  ambient, lobby_room, lobby_room-found, room_session, str, sums, waiting_room,
}
use askit_backend.External.Memory.{
  memory, plain_hashes, plain_jwt, plain_texts, strict_fields, two_secrets, whole_floats,
}
use askit_backend.Game.Handlers.Course.{
  Event, game_never_goes_back, host_goes_on, host_starts, play, player_answers, timer_wakes,
}
use askit_backend.Game.Handlers.Ending.Starts.{started_game_ends}
use askit_backend.Game.Handlers.Progress.{Follows, is_finished}
use askit_backend.Game.World.{Room, find_question, get_room, load_quiz, with_sorted_questions}
use askit_backend.Models.{Quiz}
use askit_backend.Prelude.{List, [], arith, refl, some, true, ◌∷◌, ◌≡◌}
use askit_backend.Prelude.Sorting.{sort_by}

abbrev whole_game : List Event
whole_game =
    host_starts ambient 1
    ∷ player_answers 4_000_000 (str 51) (str 21) (str 31 ∷ [])
    ∷ timer_wakes ambient 0
    ∷ host_goes_on ambient
    ∷ host_goes_on ambient
    ∷ []

game_never_goes_back_example :
    (room : Room) × (get_room "ROOM" (play "ROOM" whole_game waiting_room).db ≡ some room)
    × Follows room_session room.session
game_never_goes_back_example =
    game_never_goes_back "ROOM" whole_game waiting_room lobby_room lobby_room-found

-- The quiz of the room, its questions in their order.
abbrev loaded : Quiz
loaded = with_sorted_questions sums

-- The host goes on four times, twice for each of the two questions.
abbrev four_presses : List Event
four_presses =
    host_goes_on ambient
    ∷ player_answers 4_000_000 (str 51) (str 21) (str 31 ∷ [])
    ∷ host_goes_on ambient
    ∷ timer_wakes ambient 2
    ∷ host_goes_on ambient
    ∷ host_goes_on ambient
    ∷ []

started_game_ends_example :
    (room : Room) × (get_room "ROOM"
        (play "ROOM" (host_starts ambient 1 ∷ four_presses) waiting_room).db
      ≡ some room)
    × (is_finished room.session.status ≡ true)
unfolding find_question load_quiz get_room sort_by
started_game_ends_example =
    started_game_ends "ROOM" ambient 1 waiting_room lobby_room loaded lobby_room-found refl refl
      refl four_presses (omega arith) (refl, (refl, tt)) (omega arith)
