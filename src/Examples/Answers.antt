-- ===== src/Examples/Answers.antt =====
-- The theorems on scores and answers in the room of the scene.
use askit_backend.Examples.Scene.{running_room, str}
use askit_backend.Exec.{Exec, already_answered, err, ok, question_not_active}
use askit_backend.External.Memory.{
  memory, no_tables, plain_hashes, plain_jwt, plain_texts, strict_fields, two_secrets, whole_floats,
}
use askit_backend.Game.Answers.{commit_answer, has_answered, record_answer, submit_answer}
use askit_backend.Game.Answers.Check.{Checked, check_answer, same_set, time_taken}
use askit_backend.Game.Answers.Commit.{IsSound}
use askit_backend.Game.Answers.Overlap.{commit_all, commit_in_turn, load, overlapping_submissions}
use askit_backend.Game.Answers.Recording.{written}
use askit_backend.Game.Answers.Submission.{
  IsAdmitted, submit_answer-IsSound, submit_answer_accepted, submit_answer_once,
}
use askit_backend.Game.Handlers.{handle_start_game, send_question, show_question}
use askit_backend.Game.Messages.{WsAnswerResult}
use askit_backend.Game.Play.{State, advance_to_question, build_question_message, start_game}
use askit_backend.Game.Play.Current.{get_current_question}
use askit_backend.Game.Score.{
  calculate_score, elapsed_ms, max_points_per_question, min_points_per_question, speed_bonus,
  time_factor,
}
use askit_backend.Game.Score.Bounds.{calculate_score_range}
use askit_backend.Game.World.{find_question, get_room, load_quiz}
use askit_backend.Models.{GamePlayer, GamePlayerAnswer, Uuid}
use askit_backend.Prelude.{
  List, [], any, arith, false, if◌then◌else◌, map, nat_eq, refl, string_eq, true, ℕ, ◌==◌, ◌∷◌, ◌≡◌,
  ◌≢◌,
}
use askit_backend.Prelude.Int.{int_laws, pos, ℤ, ◌+ℤ◌, ◌-ℤ◌, ◌≤ℤ◌}
use askit_backend.Prelude.Sorting.{sort_by}

calculate_score_range_example :
    (points : ℤ) × (calculate_score (pos 2000) 5000 true ≡ ok points)
    × (if true
        then (pos min_points_per_question ≤ℤ points) × (points ≤ℤ pos max_points_per_question)
        else points ≡ pos 0)
calculate_score_range_example =
    calculate_score_range (pos 2000) 5000 true (omega (int_laws)) (omega arith)

running-IsSound : IsSound running_room.db
unfolding handle_start_game start_game send_question advance_to_question show_question
    get_current_question get_room load_quiz find_question sort_by build_question_message
running-IsSound = record { scores = (refl, (refl, tt)); once = tt }

abbrev answer : Exec State WsAnswerResult
answer = submit_answer 4_000_000 "ROOM" (str 51) (str 21) (str 31 ∷ [])

abbrev full_marks : WsAnswerResult
full_marks = record {
  is_correct = true;
  correct_answer_ids = str 31 ∷ [];
  points_earned = pos 1000;
  time_taken_ms = pos 3000;
}

abbrev after_answer : State
after_answer = (answer running_room).1

answer-accepted : answer running_room ≡ (ok full_marks, after_answer)
unfolding submit_answer check_answer record_answer commit_answer get_room handle_start_game
    start_game send_question advance_to_question show_question get_current_question load_quiz
    find_question sort_by same_set time_taken elapsed_ms calculate_score speed_bonus time_factor
    build_question_message ◌+ℤ◌ ◌-ℤ◌
answer-accepted = refl

abbrev late : Exec State WsAnswerResult
late = submit_answer 9_000_000 "ROOM" (str 51) (str 22) (str 31 ∷ [])

late-refused : late running_room ≡ (err question_not_active, running_room)
unfolding submit_answer check_answer record_answer commit_answer get_room handle_start_game
    start_game send_question advance_to_question show_question get_current_question load_quiz
    find_question sort_by build_question_message
late-refused = refl

submit_answer_accepted_example :
    (c : Checked) × IsAdmitted running_room 4_000_000 "ROOM" (str 51) (str 21) (str 31 ∷ []) c
    × (has_answered c.row.player_id c.row.question_id running_room.db ≡ false)
    × (any (λ (p : GamePlayer). p.player_id == c.row.player_id) running_room.db.players ≡ true)
    × (after_answer.db ≡ written c running_room.db)
    × (memory.sismember after_answer.redis c.answered_key (str 51) ≡ true)
    × (full_marks.is_correct ≡ c.row.is_correct)
    × (full_marks.points_earned ≡ c.row.points_earned)
submit_answer_accepted_example =
    submit_answer_accepted running_room 4_000_000 "ROOM" (str 51) (str 21) (str 31 ∷ [])
      answer-accepted

submit_answer_once_example :
    (submit_answer 4_500_000 "ROOM"
      (str 51)
      (str 21)
      (str 31 ∷ [])
      (record after_answer { redis = no_tables })).0
    ≢ ok full_marks
submit_answer_once_example =
    submit_answer_once running_room 4_000_000 "ROOM" (str 51) (str 21) (str 31 ∷ []) answer-accepted
      no_tables 4_500_000 "ROOM" (str 51) (str 21) (str 31 ∷ []) refl refl full_marks

submit_answer-IsSound_example : IsSound after_answer.db
submit_answer-IsSound_example =
    submit_answer-IsSound running_room 4_000_000 "ROOM" (str 51) (str 21) (str 31 ∷ [])
      running-IsSound

abbrev of_player : Uuid → ℕ → GamePlayerAnswer
of_player player_id points = record {
  player_id = player_id;
  question_id = 21;
  selected_answer_ids = str 31 ∷ [];
  is_correct = true;
  time_taken_ms = pos 3000;
  points_earned = pos points;
}

-- The second player answers twice.
abbrev three_answers : List GamePlayerAnswer
three_answers = of_player 51 700 ∷ of_player 52 400 ∷ of_player 52 900 ∷ []

overlapping_submissions_example :
    commit_all
      (map (λ (row : GamePlayerAnswer). load row running_room.db) three_answers)
      running_room.db
    ≡ commit_in_turn three_answers running_room.db
overlapping_submissions_example =
    overlapping_submissions 21 three_answers running_room.db running-IsSound
      (refl, (refl, (refl, tt)))

second_of_two_refused :
    (commit_in_turn three_answers running_room.db).0 ≡ ok tt ∷ ok tt ∷ err already_answered ∷ []
unfolding commit_in_turn commit_answer handle_start_game start_game send_question
    advance_to_question show_question get_current_question get_room load_quiz find_question sort_by
    build_question_message
second_of_two_refused = refl
