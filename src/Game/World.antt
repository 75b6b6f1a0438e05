-- ===== src/Game/World.antt =====
-- The state that the game's methods read and change, and `GameService.get_room`.
pub mod Loading
use mathlib.Core.Option
use askit_backend.External.{Texts, Value, count, ids, ranking, time, word}
use askit_backend.Game.Messages.{Sent}
use askit_backend.Models.{Db, GamePlayer, GameSession, Quiz, QuizQuestion, Time, Uuid}
use askit_backend.Prelude.{
  Bool, List, Option, String, [], find?, ltb, nat_eq, none, select, some, string_eq, update, ℕ,
  ◌==◌, ◌∷◌,
}
use askit_backend.Prelude.Sorting.{sort_by}

-- `sent` lists the calls of the connection manager, the latest last; `timers` the running
-- `question_timeout` tasks, each with its room code and question index.
pub record World (Store : Type 0) : Type 0 where
  pub db : Db
  pub redis : Store
  pub sent : List Sent
  pub timers : List (String × ℕ)

-- What `get_room` loads: the session, its players, and the quiz with its questions.
pub record Room : Type 0 where
  pub session : GameSession
  pub players : List GamePlayer
  pub quiz : Option Quiz

-- `Quiz.questions` is loaded `order_by="QuizQuestion.position"`. Tags and answers have no `order_by`:
-- they come here in the order in which they are stored, and in any other in Quizzes/Reread.
abbrev pub by_position : QuizQuestion → QuizQuestion → Bool
by_position p q = ltb p.position q.position

abbrev pub with_sorted_questions : Quiz → Quiz
with_sorted_questions q = record q { questions = sort_by by_position q.questions }

unfoldable pub load_quiz : Uuid → Db → Option Quiz
load_quiz quiz_id db =
    Option.map with_sorted_questions (find? (λ (q : Quiz). q.quiz_id == quiz_id) db.quizzes)

abbrev pub players_of : Uuid → Db → List GamePlayer
players_of session_id db = select (λ p. p.session_id == session_id) db.players

abbrev pub find_session : String → Db → Option GameSession
find_session code db = find? (λ s. s.room_code == code) db.sessions

-- A write of the attributes of one loaded session.
abbrev pub update_session : Uuid → (GameSession → GameSession) → Db → Db
update_session session_id f db = record db {
  sessions = update (λ s. s.session_id == session_id) f db.sessions;
}

abbrev pub find_in_quizzes : Uuid → List Quiz → Option QuizQuestion
find_in_quizzes question_id [] = none
find_in_quizzes question_id (q ∷ qs) =
    elim (find? (λ (x : QuizQuestion). x.question_id == question_id) q.questions) [
      | none ↦ find_in_quizzes question_id qs
      | some x ↦ some x
    ]

-- The select of `QuizQuestion` by its id.
unfoldable pub find_question : Uuid → Db → Option QuizQuestion
find_question question_id db = find_in_quizzes question_id db.quizzes

abbrev pub room_of : Db → GameSession → Room
room_of db s = record {
  session = s;
  players = players_of s.session_id db;
  quiz = load_quiz s.quiz_id db;
}

module _ ⦃texts : Texts⦄ where
  unfoldable pub get_room : String → Db → Option Room
  get_room room_code db = Option.map (room_of db) (find_session (texts.upper room_code) db)

-- The text values under the keys of a session.
abbrev pub as_ids : Option Value → Option (List String)
as_ids (some (ids l)) = some l
as_ids (some (time t)) = none
as_ids (some (ranking l)) = none
as_ids (some (word x)) = none
as_ids (some (count n)) = none
as_ids none = none

abbrev pub as_time : Option Value → Option Time
as_time (some (ids l)) = none
as_time (some (time t)) = some t
as_time (some (ranking l)) = none
as_time (some (word x)) = none
as_time (some (count n)) = none
as_time none = none

abbrev pub as_ranking : Option Value → List (String × ℕ)
as_ranking (some (ids l)) = []
as_ranking (some (time t)) = []
as_ranking (some (ranking l)) = l
as_ranking (some (word x)) = []
as_ranking (some (count n)) = []
as_ranking none = []
