-- ===== src/Examples/Boards.antt =====
-- The theorems on the leaderboard, the results and the state that is sent, at the scene.
use askit_backend.Examples.Scene.{
  ada, ambient, bob, lobby, lobby_room-found, str, sum_question, waiting_room,
}
use askit_backend.Exec.{ok}
use askit_backend.External.Memory.{
  memory, plain_hashes, plain_jwt, plain_texts, strict_fields, two_secrets, whole_floats,
}
use askit_backend.Game.Board.{compute_answer_distribution, get_leaderboard}
use askit_backend.Game.Board.Distribution.{
  answer_keys, chosen, compute_answer_distribution_counts, table,
}
use askit_backend.Game.Board.Ranking.{IsRanked, entry_of, get_leaderboard_ranks, standing}
use askit_backend.Game.Board.Repeat.{get_leaderboard_forgets}
use askit_backend.Game.Handlers.{end_game}
use askit_backend.Game.Handlers.Results.{IsPrivate, end_game-IsPrivate}
use askit_backend.Game.Messages.{Sent, WsLeaderboardEntry, WsRoomState}
use askit_backend.Game.RoomState.{build_room_state, player_info, question_parts}
use askit_backend.Game.RoomState.Secrecy.{build_room_state_hides}
use askit_backend.Game.World.{get_room, load_quiz}
use askit_backend.Models.{Db, GamePlayerAnswer, Uuid, revealing, waiting}
use askit_backend.Prelude.{All, List, Perm, [], map, none, refl, true, ◌++◌, ◌∷◌, ◌≡◌, ◌⊎◌}
use askit_backend.Prelude.Int.{pos}
use askit_backend.Prelude.Sorting.{sort_by}

get_leaderboard_ranks_example :
    (entries : List WsLeaderboardEntry) × ((get_leaderboard "ROOM" waiting_room).0 ≡ ok entries)
    × IsRanked 1 entries
    × Perm (map entry_of entries) (map standing (ada ∷ bob ∷ []))
get_leaderboard_ranks_example = get_leaderboard_ranks "ROOM" waiting_room lobby_room-found

abbrev selected_by : Uuid → GamePlayerAnswer
selected_by player_id = record {
  player_id = player_id;
  question_id = 21;
  selected_answer_ids = str 31 ∷ [];
  is_correct = true;
  time_taken_ms = pos 3000;
  points_earned = pos 700;
}

-- A player of the session has answered, and one of no session that is known.
abbrev answered_lobby : Db
answered_lobby = record lobby { answers = selected_by 51 ∷ selected_by 99 ∷ [] }

compute_answer_distribution_counts_example :
    compute_answer_distribution answered_lobby 41 sum_question
    ≡ table
        (λ k. chosen k 41 21 answered_lobby.players answered_lobby.answers)
        (answer_keys sum_question.answers)
compute_answer_distribution_counts_example =
    compute_answer_distribution_counts answered_lobby 41 sum_question ((refl, tt), (tt, tt))

end_game-IsPrivate_example :
    (news : List Sent) × ((end_game ambient "ROOM" waiting_room).1.sent ≡ waiting_room.sent ++ news)
    × All IsPrivate news
end_game-IsPrivate_example = end_game-IsPrivate ambient "ROOM" waiting_room lobby_room-found refl

abbrev shown : WsRoomState
shown = record {
  session_id = str 41;
  room_code = "ROOM";
  status = waiting;
  host_id = str 1;
  players = map player_info (ada ∷ bob ∷ []);
  quiz_title = "Sums";
  total_questions = 2;
  current_question_index = 0;
  current_question = none;
  host_answer_details = [];
  question_ended = none;
}

build_room_state_hides_example :
    (shown.host_answer_details ≡ []) × ((waiting ≡ revealing) ⊎ (shown.question_ended ≡ none))
unfolding build_room_state question_parts get_room load_quiz sort_by
build_room_state_hides_example =
    build_room_state_hides (λ seed answers. answers) 7 "ROOM" waiting_room {state = shown} refl

get_leaderboard_forgets_example :
    (entries : List WsLeaderboardEntry) × ((get_leaderboard "ROOM"
        (get_leaderboard "ROOM" waiting_room).1).0
      ≡ ok entries)
    × All (λ (e : WsLeaderboardEntry). e.change ≡ pos 0) entries
get_leaderboard_forgets_example =
    get_leaderboard_forgets "ROOM" waiting_room lobby_room-found ((refl, tt), (tt, tt))
