-- ===== src/Game/Play/Current.antt =====
-- Reads only. `GameService.get_current_question`.
use askit_backend.Exec.{Result, index_error, ok, value_error}
use askit_backend.External.{Redis, Texts, questions_key}
use askit_backend.Game.Play.{State, question_id_at}
use askit_backend.Game.World.{Room, as_ids, find_question, get_room}
use askit_backend.Models.{Db, QuizQuestion}
use askit_backend.Prelude.{
  List, Option, String, if◌then◌else◌, length, ltb, nat_eq, none, some, string_eq, ℕ, ◌==◌,
}
use askit_backend.Reading.{require, ◌>>=◌}

module _ ⦃redis : Redis⦄ ⦃texts : Texts⦄ where
  abbrev question_at : Db → List String → ℕ → Result (Option QuizQuestion)
  question_at db question_ids i = do
    id_text ← require (question_id_at question_ids i) index_error
    question_id ← require (texts.parse_uuid id_text) value_error
    ok (find_question question_id db)

  abbrev pub current_in_order : Db → ℕ → Option (List String) → Result (Option QuizQuestion)
  current_in_order db i none = ok none
  current_in_order db i (some question_ids) =
      if ltb (length question_ids) i then ok none else question_at db question_ids i

  abbrev current_of : State → String → Option Room → Result (Option QuizQuestion)
  current_of w room_code none = ok none
  current_of w room_code (some room) =
      if room.session.current_question_index == 0
      then ok none
      else current_in_order w.db room.session.current_question_index
          (as_ids (redis.get w.redis (questions_key room_code)))

  unfoldable pub get_current_question : State → String → Result (Option QuizQuestion)
  get_current_question w room_code = current_of w room_code (get_room room_code w.db)
