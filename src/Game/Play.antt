-- ===== src/Game/Play.antt =====
-- The course of a game: `GameService.start_game`, `get_current_question`, `advance_to_question` and
-- `build_question_message`.
pub mod Current
pub mod Order
use askit_backend.Exec.{
  Exec, attribute_error, game_already_started, gets, index_error, modify, not_host, or_raise, pure,
  raise_if, room_not_found, value_error, ◌>>=◌, ◌>>◌,
}
use askit_backend.External.{Key, Redis, Texts, Value, ids, question_start, questions_key, time}
use askit_backend.Game.Messages.{WsQuestion}
use askit_backend.Game.World.{
  World, as_ids, as_time, by_position, find_question, get_room, update_session,
}
use askit_backend.Models.{
  GameSession, GameSessionStatus, Quiz, QuizAnswer, QuizQuestion, Time, Uuid, finished, question,
  starting, status_eq, waiting,
}
use askit_backend.Prelude.{
  Bool, List, Option, String, [], get_elem?, if◌then◌else◌, length, ltb, map, nat_eq, none, not,
  some, string_eq, suc, zero, ℕ, ◌==◌, ◌∷◌,
}
use askit_backend.Prelude.Sorting.{sort_by}

-- `SESSION_KEY_TTL`, and the ten minutes of the other keys, in seconds.
abbrev pub session_key_ttl : ℕ
session_key_ttl = 3600

abbrev pub question_key_ttl : ℕ
question_key_ttl = 600

-- `question_ids[question_index - 1]`: Python counts -1 from the end.
abbrev last : List String → Option String
last [] = none
last (x ∷ []) = some x
last (x ∷ y ∷ xs) = last (y ∷ xs)

abbrev pub question_id_at : List String → ℕ → Option String
question_id_at question_ids zero = last question_ids
question_id_at question_ids (suc i) = get_elem? question_ids i

abbrev pub set_status : GameSessionStatus → GameSession → GameSession
set_status status s = record s { status = status }

abbrev pub mark_started : Time → GameSession → GameSession
mark_started now s = record s { status = starting; started_at = some now }

abbrev pub mark_finished : Time → GameSession → GameSession
mark_finished now s = record s { status = finished; ended_at = some now }

abbrev pub mark_question : ℕ → GameSession → GameSession
mark_question question_index s = record s {
  status = question;
  current_question_index = question_index;
}

module _ ⦃redis : Redis⦄ where
  -- The state of the game module over this Redis.
  abbrev pub State : Type 0
  State = World redis.Store

  abbrev pub write_session : Uuid → (GameSession → GameSession) → State → State
  write_session session_id f w = record w { db = update_session session_id f w.db }

  abbrev pub redis_set : Key → Value → ℕ → State → State
  redis_set key value ttl w = record w { redis = redis.set key value ttl w.redis }

  abbrev pub redis_expire : Key → ℕ → State → State
  redis_expire key ttl w = record w { redis = redis.expire key ttl w.redis }

module _ ⦃redis : Redis⦄ ⦃texts : Texts⦄ where
  -- The order of play: shuffled, or sorted by position.
  abbrev pub play_order :
      (List QuizQuestion → List QuizQuestion) → GameSession → Quiz → List QuizQuestion
  play_order shuffle s quiz =
      if s.randomize_questions then shuffle quiz.questions else sort_by by_position quiz.questions

  abbrev pub order_ids : List QuizQuestion → List String
  order_ids qs = map (λ (q : QuizQuestion). texts.str q.question_id) qs

  unfoldable pub start_game :
      (List QuizQuestion → List QuizQuestion)
      → Time
      → String
      → Uuid
      → Exec State (List QuizQuestion)
  start_game shuffle now room_code host_id = do
    room ← (λ w. or_raise (get_room room_code w.db) room_not_found w)
    raise_if (not (room.session.host_id == host_id)) not_host
    raise_if (not (room.session.status == waiting)) game_already_started
    quiz ← or_raise room.quiz attribute_error
    modify (write_session room.session.session_id (mark_started now))
    modify (
        redis_set (questions_key room_code) (ids (order_ids (play_order shuffle room.session quiz)))
          session_key_ttl)
    pure (play_order shuffle room.session quiz)

  -- `question_id = UUID(text)` and the select of its question.
  abbrev pub load_question : Option String → Exec State (Option QuizQuestion)
  load_question text = do
    id_text ← or_raise text index_error
    question_id ← or_raise (texts.parse_uuid id_text) value_error
    gets (λ w. find_question question_id w.db)

  abbrev pub advance_within :
      Time → String → ℕ → Uuid → List String → Exec State (Option QuizQuestion)
  advance_within now room_code question_index session_id question_ids =
      if ltb (length question_ids) question_index
      then (do modify (write_session session_id (mark_finished now)); pure none)
      else (do
        modify (write_session session_id (mark_question question_index))
        modify (redis_set (question_start room_code) (time now) question_key_ttl)
        load_question (question_id_at question_ids question_index))

  abbrev pub advance_in_order :
      Time → String → ℕ → Uuid → Option (List String) → Exec State (Option QuizQuestion)
  advance_in_order now room_code question_index session_id none = pure none
  advance_in_order now room_code question_index session_id (some question_ids) = do
    modify (redis_expire (questions_key room_code) session_key_ttl)
    advance_within now room_code question_index session_id question_ids

  unfoldable pub advance_to_question : Time → String → ℕ → Exec State (Option QuizQuestion)
  advance_to_question now room_code question_index = do
    room ← (λ w. or_raise (get_room room_code w.db) room_not_found w)
    question_ids ← gets (λ w. as_ids (redis.get w.redis (questions_key room_code)))
    advance_in_order now room_code question_index room.session.session_id question_ids

  -- `shuffle` is `random.Random(str(question_id)).shuffle`, by its seed.
  unfoldable pub build_question_message :
      (String → List QuizAnswer → List QuizAnswer)
      → Time
      → QuizQuestion
      → ℕ
      → ℕ
      → String
      → Bool
      → State
      → WsQuestion
  build_question_message shuffle now q question_index total room_code randomize_answers w = record {
    question_index = question_index;
    total_questions = total;
    question_id = texts.str q.question_id;
    text = q.text;
    answers =
        map (λ (a : QuizAnswer). record { answer_id = texts.str a.answer_id; text = a.text })
          (if randomize_answers then shuffle (texts.str q.question_id) q.answers else q.answers);
    time_limit_ms = q.time_limit;
    started_at = elim (as_time (redis.get w.redis (question_start room_code))) [
      | none ↦ now
      | some t ↦ t
    ];
    allow_multiple_answers = q.allow_multiple_answers;
  }
