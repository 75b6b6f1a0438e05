-- ===== src/Examples/Scene.antt =====
-- A published quiz of two questions, its host, and a room with two players in it.
use askit_backend.External.Memory.{
  memory, no_tables, plain_hashes, plain_jwt, plain_texts, strict_fields, two_secrets, whole_floats,
}
use askit_backend.Game.Handlers.{Ambient, handle_start_game}
use askit_backend.Game.Play.{State}
use askit_backend.Game.World.{Room, get_room, load_quiz}
use askit_backend.Models.{
  Db, GamePlayer, GameSession, Quiz, QuizAnswer, QuizQuestion, User, private, published, waiting,
}
use askit_backend.Prelude.{String, [], false, none, refl, some, true, ℕ, ◌∷◌, ◌≡◌}
use askit_backend.Prelude.Int.{pos}

abbrev pub right : QuizAnswer
right = record { answer_id = 31; text = "4"; is_correct = true }

abbrev pub wrong : QuizAnswer
wrong = record { answer_id = 32; text = "5"; is_correct = false }

abbrev pub sum_question : QuizQuestion
sum_question = record {
  question_id = 21;
  text = "2 + 2?";
  position = 1;
  time_limit = 5000;
  allow_multiple_answers = false;
  answers = right ∷ wrong ∷ [];
}

abbrev pub last_question : QuizQuestion
last_question = record {
  question_id = 22;
  text = "3 + 1?";
  position = 2;
  time_limit = 5000;
  allow_multiple_answers = false;
  answers = wrong ∷ right ∷ [];
}

abbrev pub sums : Quiz
sums = record {
  quiz_id = 11;
  creator_id = 1;
  title = "Sums";
  description = none;
  default_time_per_question = 30000;
  visibility = private;
  status = published;
  max_participants = some 5;
  created_at = 0;
  updated_at = 0;
  questions = last_question ∷ sum_question ∷ [];
  tags = [];
}

abbrev pub host : User
host = record {
  id = 1;
  username = "host";
  email = "host@example.org";
  password_hash = "hash";
  created_at = 0;
  last_login = none;
  is_active = true;
  token_version = 0;
}

abbrev pub room_session : GameSession
room_session = record {
  session_id = 41;
  room_code = "ROOM";
  quiz_id = 11;
  host_id = 1;
  randomize_questions = false;
  randomize_answers = false;
  show_immediate_feedback = true;
  public_results = false;
  status = waiting;
  current_question_index = 0;
  created_at = 0;
  started_at = none;
  ended_at = none;
}

abbrev pub ada : GamePlayer
ada = record {
  player_id = 51;
  session_id = 41;
  nickname = "ada";
  user_id = none;
  score = pos 0;
  is_connected = true;
}

abbrev pub bob : GamePlayer
bob = record {
  player_id = 52;
  session_id = 41;
  nickname = "bob";
  user_id = none;
  score = pos 0;
  is_connected = true;
}

abbrev pub lobby : Db
lobby = record {
  users = host ∷ [];
  quizzes = sums ∷ [];
  favorites = [];
  sessions = room_session ∷ [];
  players = ada ∷ bob ∷ [];
  answers = [];
}

abbrev pub waiting_room : State
waiting_room = record { db = lobby; redis = no_tables; sent = []; timers = [] }

abbrev pub ambient : Ambient
ambient = record {
  shuffle_questions = λ qs. qs;
  shuffle_answers = λ seed answers. answers;
  now = 1_000_000;
}

-- The room while its first question runs.
abbrev pub running_room : State
running_room = (handle_start_game ambient "ROOM" 1 waiting_room).1

abbrev pub str : ℕ → String
str = plain_texts.str

abbrev pub lobby_room : Room
lobby_room = record { session = room_session; quiz = load_quiz 11 lobby; players = ada ∷ bob ∷ [] }

pub lobby_room-found : get_room "ROOM" lobby ≡ some lobby_room
unfolding get_room
lobby_room-found = refl
