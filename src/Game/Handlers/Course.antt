-- ===== src/Game/Handlers/Course.antt =====
-- Whole games: any sequence of messages, wake-ups of timers and answers in one room.
use askit_backend.External.{Floats, Redis, Texts}
use askit_backend.Game.Answers.{commit_answer, record_answer, submit_answer}
use askit_backend.Game.Handlers.{Ambient, handle_next_question, handle_start_game, question_timeout}
use askit_backend.Game.Handlers.Progress.{
  Advances, Advances-reveal, Advances-same, Advances-trans, Follows, Follows-refl,
}
use askit_backend.Game.Handlers.Steps.{
  handle_next_question-Advances, handle_start_game-Advances, question_timeout-db,
}
use askit_backend.Game.Play.{State, set_status}
use askit_backend.Game.World.{Room, get_room, room_of, update_session}
use askit_backend.Models.{Db, GamePlayerAnswer, Time, Uuid, question, revealing, status_eq}
use askit_backend.Prelude.{
  Bool-cases, List, String, [], arith, if◌then◌else◌, inl, inr, nat_eq, refl, some, string_eq, ℕ,
  ◌&&◌, ◌==◌, ◌∷◌, ◌≡◌,
}

-- What can happen to a running room. A `Ambient` gives the time and the shuffles of its moment.
pub data Event : Type 0 where
  host_starts : Ambient → Uuid → Event
  host_goes_on : Ambient → Event
  timer_wakes : Ambient → ℕ → Event
  player_answers : Time → String → String → List String → Event

module _ ⦃redis : Redis⦄ ⦃texts : Texts⦄ ⦃floats : Floats⦄ (code : String) where
  unfoldable pub handle : Event → State → State
  handle (host_starts ambient host_id) w = (handle_start_game ambient code host_id w).1
  handle (host_goes_on ambient) w = (handle_next_question ambient code w).1
  handle (timer_wakes ambient i) w = (question_timeout ambient code i w).1
  handle (player_answers now player_id question_id answer_ids) w =
      (submit_answer now code player_id question_id answer_ids w).1

  unfoldable pub play : List Event → State → State
  play [] w = w
  play (e ∷ es) w = play es (handle e w)

  commit_answer-sessions :
      (row : GamePlayerAnswer) (db : Db)
      → ((commit_answer row db).1.sessions ≡ db.sessions)
        × ((commit_answer row db).1.quizzes ≡ db.quizzes)
  unfolding commit_answer
  commit_answer-sessions row db = ground arith

  -- Answers leave the sessions alone.
  pub submit_answer-sessions :
      (now : Time) (player_id question_id : String) (answer_ids : List String) (w : State)
      → ((submit_answer now code player_id question_id answer_ids w).1.db.sessions ≡ w.db.sessions)
        × ((submit_answer now code player_id question_id answer_ids w).1.db.quizzes ≡ w.db.quizzes)
  unfolding submit_answer record_answer commit_answer
  submit_answer-sessions now player_id question_id answer_ids w = ground arith

  -- The room that is found among the same sessions.
  get_room-same_sessions :
      (db db' : Db) {room : Room}
      → db'.sessions ≡ db.sessions
      → get_room code db ≡ some room
      → (room' : Room) × (get_room code db' ≡ some room') × (room'.session ≡ room.session)
  unfolding get_room
  get_room-same_sessions db db' {room} same found = (room_of db' room.session, ground arith, refl)

  handle-Advances :
      (e : Event) (w : State) (room : Room)
      → get_room code w.db ≡ some room
      → Advances code room (handle e w).db
  unfolding handle
  handle-Advances (host_starts ambient host_id) w room found =
      handle_start_game-Advances ambient code host_id w room found
  handle-Advances (host_goes_on ambient) w room found =
      handle_next_question-Advances ambient code w room found
  handle-Advances (timer_wakes ambient i) w room found =
      rw (question_timeout-db ambient code i w room found) (timed room found)
    where
      timed :
          (r : Room)
          → get_room code w.db ≡ some r
          → Advances code r (
              if r.session.current_question_index == i && r.session.status == question
              then update_session r.session.session_id (set_status revealing) w.db
              else w.db)
      timed r f =
          elim (Bool-cases
            (r.session.current_question_index == i && r.session.status == question)) [
              | inl b ↦ rw b (Advances-reveal code r w.db f (ground arith))
              | inr b ↦ rw b (Advances-same code r w.db w.db f refl)
            ]
  handle-Advances (player_answers now player_id question_id answer_ids) w room found =
      let (room', found', same) =
        get_room-same_sessions w.db _
          (submit_answer-sessions now player_id question_id answer_ids w).0 found in
      (room', found', rw same (Follows-refl room.session))

  -- Whatever the starts and the steps of the host, the timers and the answers of players do to a
  -- room, the room stays, and its game never goes back: it is at the same or a later turn, or
  -- finished, and once finished it stays so.
  pub game_never_goes_back :
      (events : List Event) (w : State) (room : Room)
      → get_room code w.db ≡ some room
      → (room' : Room) × (get_room code (play events w).db ≡ some room')
        × Follows room.session room'.session
  unfolding play
  game_never_goes_back [] w room found = (room, found, Follows-refl room.session)
  game_never_goes_back (e ∷ es) w room found =
      Advances-trans code room (handle e w).db (play es (handle e w)).db
        (handle-Advances e w room found) (λ r f. game_never_goes_back es (handle e w) r f)
