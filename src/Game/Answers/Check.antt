-- ===== src/Game/Answers/Check.antt =====
-- What `GameService.submit_answer` does before its first write: the guards, the time taken, the
-- comparison with the correct answers and the score.
-- Reads only.
use askit_backend.Exec.{
  Result, already_answered, err, ok, question_not_active, room_not_found, value_error,
}
use askit_backend.External.{Floats, Key, Redis, Texts, answered, question_start}
use askit_backend.Game.Play.{State}
use askit_backend.Game.Play.Current.{get_current_question}
use askit_backend.Game.Score.{calculate_score, elapsed_ms}
use askit_backend.Game.World.{as_time, get_room}
use askit_backend.Models.{
  GamePlayerAnswer, QuizAnswer, QuizQuestion, Time, Uuid, question, status_eq,
}
use askit_backend.Prelude.{
  Bool, List, Option, String, [], any, if◌then◌else◌, nat_eq, none, not, some, string_eq, true,
  ◌&&◌, ◌==◌, ◌∷◌,
}
use askit_backend.Prelude.Int.{pos, ℤ}
use askit_backend.Reading.{fail_if, require, ◌>>=◌, ◌>>◌}

-- What is known of an answer when it is about to be written.
pub record Checked : Type 0 where
  pub answered_key : Key
  pub correct_answer_ids : List String
  pub row : GamePlayerAnswer

abbrev pub contains : List String → String → Bool
contains xs x = any (λ y. y == x) xs

abbrev pub is_subset : List String → List String → Bool
is_subset [] ys = true
is_subset (x ∷ xs) ys = contains ys x && is_subset xs ys

-- `set(a) == set(b)`
unfoldable pub same_set : List String → List String → Bool
same_set a b = is_subset a b && is_subset b a

-- `list(set(a))`, up to the order of the set.
abbrev pub unique : List String → List String
unique [] = []
unique (x ∷ xs) = let rest = unique xs in if contains xs x then rest else x ∷ rest

module _ ⦃texts : Texts⦄ where
  abbrev pub correct_ids : List QuizAnswer → List String
  correct_ids [] = []
  correct_ids (a ∷ answers) =
      if a.is_correct then texts.str a.answer_id ∷ correct_ids answers else correct_ids answers

  -- A question other than the current one, or none, is refused.
  abbrev require_current : Option QuizQuestion → Uuid → Result QuizQuestion
  require_current none submitted = err question_not_active
  require_current (some q) submitted =
      if q.question_id == submitted then ok q else err question_not_active

module _ ⦃redis : Redis⦄ ⦃texts : Texts⦄ ⦃floats : Floats⦄ where
  -- Without a start time the whole limit counts as taken.
  unfoldable pub time_taken : State → Time → String → QuizQuestion → ℤ
  time_taken w now room_code q = elim (as_time (redis.get w.redis (question_start room_code))) [
    | none ↦ pos q.time_limit
    | some start ↦ elapsed_ms now start
  ]

  unfoldable pub check_answer :
      State → Time → String → String → String → List String → Result Checked
  check_answer w now room_code player_id question_id answer_ids = do
    room ← require (get_room room_code w.db) room_not_found
    fail_if (not (room.session.status == question)) question_not_active
    let key = answered room_code room.session.current_question_index
    fail_if (redis.sismember w.redis key player_id) already_answered
    submitted ← require (texts.parse_uuid question_id) question_not_active
    current ← get_current_question w room_code
    q ← require_current current submitted
    let taken = time_taken w now room_code q
    let is_correct = same_set answer_ids (correct_ids q.answers)
    points ← calculate_score taken q.time_limit is_correct
    player ← require (texts.parse_uuid player_id) value_error
    ok (record {
      answered_key = key;
      correct_answer_ids = unique (correct_ids q.answers);
      row = record {
        player_id = player;
        question_id = submitted;
        selected_answer_ids = answer_ids;
        is_correct = is_correct;
        time_taken_ms = taken;
        points_earned = points;
      };
    })
