-- ===== src/Game/Rooms.antt =====
-- `GameService.create_room` and `join_room`.

pub mod Joining
pub mod Creation
use askit_backend.Exec.{
  Exec, attribute_error, err, game_already_started, host_cannot_join, integrity_error, modify,
  nickname_already_taken, ok, or_raise, pure, quiz_access_denied, quiz_not_found, quiz_not_playable,
  raise_if, room_full, room_not_found, ◌>>=◌, ◌>>◌,
}
use askit_backend.External.{Texts}
use askit_backend.Game.World.{get_room}
use askit_backend.Models.{
  Db, GamePlayer, GameSession, GameSessionStatus, Quiz, Time, User, Uuid, is_published, status_eq,
  waiting,
}
use askit_backend.Prelude.{
  Bool, Option, String, [], any, false, find?, if◌then◌else◌, leb, length, nat_eq, none, not, some,
  string_eq, suc, true, zero, ℕ, ◌&&◌, ◌++◌, ◌==◌, ◌∷◌,
}
use askit_backend.Prelude.Int.{pos}

pub record CreateRoomRequest : Type 0 where
  pub quiz_id : Uuid
  pub randomize_questions : Bool
  pub randomize_answers : Bool
  pub show_immediate_feedback : Bool
  pub public_results : Bool

pub record RoomResponse : Type 0 where
  pub session_id : String
  pub room_code : String
  pub quiz_id : String
  pub status : GameSessionStatus
  pub player_count : ℕ
  pub created_at : Time

abbrev pub room_code_attempts : ℕ
room_code_attempts = 5

-- The row that `GameSession(...)` builds, with the defaults of its columns.
abbrev pub new_session : CreateRoomRequest → Uuid → Uuid → Time → String → GameSession
new_session request host_id session_id now code = record {
  session_id = session_id;
  room_code = code;
  quiz_id = request.quiz_id;
  host_id = host_id;
  randomize_questions = request.randomize_questions;
  randomize_answers = request.randomize_answers;
  show_immediate_feedback = request.show_immediate_feedback;
  public_results = request.public_results;
  status = waiting;
  current_question_index = 0;
  created_at = now;
  started_at = none;
  ended_at = none;
}

-- The unique index on `room_code`.
abbrev pub code_taken : String → Db → Bool
code_taken code db = any (λ (s : GameSession). s.room_code == code) db.sessions

-- The loop over `remaining`: `generate` yields the code of each attempt, by the attempts that are
-- left after it. The last collision is raised again.
unfoldable pub create_session : (ℕ → String) → (String → GameSession) → ℕ → Exec Db GameSession
create_session generate row zero db = (err integrity_error, db)
create_session generate row (suc remaining) db =
    let retry = create_session generate row remaining db in
    if code_taken (generate remaining) db then retry else (
      ok (row (generate remaining)),
      record db { sessions = db.sessions ++ row (generate remaining) ∷ [] },
    )

abbrev pub find_quiz : Uuid → Db → Option Quiz
find_quiz quiz_id db = find? (λ (q : Quiz). q.quiz_id == quiz_id) db.quizzes

module _ ⦃texts : Texts⦄ where
  abbrev pub response_of : ℕ → GameSession → RoomResponse
  response_of player_count s = record {
    session_id = texts.str s.session_id;
    room_code = s.room_code;
    quiz_id = texts.str s.quiz_id;
    status = s.status;
    player_count = player_count;
    created_at = s.created_at;
  }

  -- `session_id` and `now` are what the columns' defaults yield.
  unfoldable pub create_room :
      (ℕ → String) → Uuid → Time → Uuid → CreateRoomRequest → Exec Db RoomResponse
  create_room generate session_id now user_id request = do
    quiz ← (λ db. or_raise (find_quiz request.quiz_id db) quiz_not_found db)
    raise_if (not (quiz.creator_id == user_id)) quiz_access_denied
    raise_if (not (is_published quiz.status)) quiz_not_playable
    session ←
        create_session generate (new_session request user_id session_id now) room_code_attempts
    pure (response_of 0 session)

  -- `quiz.max_participants and len(session.players) >= quiz.max_participants`
  abbrev pub is_full : Option ℕ → ℕ → Bool
  is_full none n = false
  is_full (some m) n = not (m == 0) && leb m n

  abbrev pub same_nickname : String → GamePlayer → Bool
  same_nickname nickname p = texts.lower p.nickname == texts.lower nickname

  abbrev pub hosts : Option User → GameSession → Bool
  hosts none s = false
  hosts (some u) s = s.host_id == u.id

  abbrev pub new_player : Uuid → GameSession → String → Option User → GamePlayer
  new_player player_id s nickname user = record {
    player_id = player_id;
    session_id = s.session_id;
    nickname = nickname;
    user_id = elim user [ none ↦ none | some u ↦ some u.id ];
    score = pos 0;
    is_connected = true;
  }

  abbrev pub add_player : GamePlayer → Db → Db
  add_player p db = record db { players = db.players ++ p ∷ [] }

  unfoldable pub join_room :
      Uuid → String → String → Option User → Exec Db (GameSession × GamePlayer)
  join_room player_id room_code nickname user = do
    room ← (λ db. or_raise (get_room room_code db) room_not_found db)
    raise_if (not (room.session.status == waiting)) game_already_started
    raise_if (hosts user room.session) host_cannot_join
    quiz ← or_raise room.quiz attribute_error
    raise_if (is_full quiz.max_participants (length room.players)) room_full
    raise_if (any (same_nickname nickname) room.players) nickname_already_taken
    modify (add_player (new_player player_id room.session nickname user))
    pure (room.session, new_player player_id room.session nickname user)
