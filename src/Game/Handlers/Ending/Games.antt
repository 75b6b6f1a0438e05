-- ===== src/Game/Handlers/Ending/Games.antt =====
-- Whole games that come to their end.
use askit_backend.External.{Floats, Redis, Texts}
use askit_backend.Game.Handlers.{Ambient, handle_start_game, question_timeout}
use askit_backend.Game.Handlers.Course.{
  Event, handle, host_goes_on, host_starts, play, player_answers, submit_answer-sessions,
  timer_wakes,
}
use askit_backend.Game.Handlers.Ending.{IsRunning, Near, Near-over, Near-timed, presses}
use askit_backend.Game.Handlers.Ending.Presses.{press-Lands}
use askit_backend.Game.Handlers.Ending.Stock.{IsStocked, IsStocked-same, Lands, Lands-write}
use askit_backend.Game.Handlers.Frame.{
  SameCourse, SameCourse-refl, handle_next_question-SameCourse, question_timeout-SameCourse,
  submit_answer-SameCourse,
}
use askit_backend.Game.Handlers.Progress.{is_finished, turn}
use askit_backend.Game.Handlers.Steps.{question_timeout-db}
use askit_backend.Game.Play.{State, set_status, start_game}
use askit_backend.Game.World.{Room, get_room, load_quiz, room_of}
use askit_backend.Models.{
  Db, GameSession, Quiz, QuizQuestion, Uuid, question, revealing, status_eq, waiting,
}
use askit_backend.Prelude.{
  Bool-cases, List, String, [], arith, false, inl, inr, length, nat_eq, refl, some, string_eq, true,
  ℕ, ◌&&◌, ◌+◌, ◌==◌, ◌∷◌, ◌≡◌, ◌≤◌,
}

module _ ⦃redis : Redis⦄ ⦃texts : Texts⦄ ⦃floats : Floats⦄ (code : String) where
  -- A game that is under way is not started again.
  restart :
      (ambient : Ambient) (host_id : Uuid) (w : State) (room : Room)
      → get_room code w.db ≡ some room
      → (room.session.status == waiting) ≡ false
      → (handle_start_game ambient code host_id w).1 ≡ w
  unfolding handle_start_game start_game
  restart ambient host_id w room found begun = ground arith

  handle-SameCourse :
      (e : Event) (w : State) (room : Room)
      → get_room code w.db ≡ some room
      → (room.session.status == waiting) ≡ false
      → SameCourse code w (handle code e w)
  unfolding handle
  handle-SameCourse (host_starts ambient host_id) w room found begun =
      rw (restart ambient host_id w room found begun) (SameCourse-refl code w)
  handle-SameCourse (host_goes_on ambient) w room found begun =
      handle_next_question-SameCourse ambient code w
  handle-SameCourse (timer_wakes ambient i) w room found begun =
      question_timeout-SameCourse ambient code i w
  handle-SameCourse (player_answers now player_id question_id answer_ids) w room found begun =
      submit_answer-SameCourse now code player_id question_id answer_ids w

  get_room-same_tables :
      (db db' : Db) {room : Room} {quiz : Quiz}
      → db'.sessions ≡ db.sessions
      → db'.quizzes ≡ db.quizzes
      → get_room code db ≡ some room
      → room.quiz ≡ some quiz
      → (room' : Room) × (get_room code db' ≡ some room')
        × (room'.quiz ≡ some quiz)
        × (room'.session ≡ room.session)
  unfolding get_room load_quiz
  get_room-same_tables db db' {room} {quiz} sessions quizzes found has_quiz =
      (room_of db' room.session, ground arith, ground arith, refl)

  module _ (qs : List QuizQuestion) (quiz : Quiz) where
    Near-begun : (n k : ℕ) (s : GameSession) → Near n k s → (s.status == waiting) ≡ false
    Near-begun n k s (inl over) = ground arith
    Near-begun n k s (inr ((inl e, least, most), far)) = ground arith
    Near-begun n k s (inr ((inr e, least, most), far)) = ground arith

    timer-Lands :
        (ambient : Ambient) (i k : ℕ) (w : State) (room : Room)
        → get_room code w.db ≡ some room
        → room.quiz ≡ some quiz
        → Near (length qs) k room.session
        → Lands code qs quiz k (question_timeout ambient code i w).1.db
    timer-Lands ambient i k w room found has_quiz near =
        rw (question_timeout-db ambient code i w room found)
          (elim (Bool-cases
            (room.session.current_question_index == i && room.session.status == question)) [
              | inl b ↦ rw b (
                  Lands-write code qs quiz k w.db room (set_status revealing) found has_quiz
                    (record { session_id = λ s. refl; room_code = λ s. refl; quiz_id = λ s. refl })
                    (Near-timed (length qs) k room.session (ground arith) near))
              | inr b ↦ rw b (room, found, has_quiz, near)
            ])

    handle-Lands :
        (e : Event) (es : List Event) (w : State) (room : Room)
        → get_room code w.db ≡ some room
        → room.quiz ≡ some quiz
        → IsStocked code qs quiz w
        → Near (length qs) (presses (e ∷ es)) room.session
        → Lands code qs quiz (presses es) (handle code e w).db
    unfolding handle
    handle-Lands (host_starts ambient host_id) es w room found has_quiz stocked near =
        rw
          (restart ambient host_id w room found
            (Near-begun (length qs) (presses es) room.session near))
          (room, found, has_quiz, near)
    handle-Lands (host_goes_on ambient) es w room found has_quiz stocked near =
        press-Lands code qs quiz ambient (presses es) w room found has_quiz stocked near
    handle-Lands (timer_wakes ambient i) es w room found has_quiz stocked near =
        timer-Lands ambient i (presses es) w room found has_quiz near
    handle-Lands (player_answers now player_id question_id answer_ids) es w room found has_quiz
          stocked near =
        let (sessions, quizzes) =
          submit_answer-sessions code now player_id question_id answer_ids w in
        let (room', found', has_quiz', same) =
          get_room-same_tables w.db _ sessions quizzes found has_quiz in
        (room', found', has_quiz', rw same near)

    pub play-Near :
        (events : List Event) (w : State) (room : Room)
        → get_room code w.db ≡ some room
        → room.quiz ≡ some quiz
        → IsStocked code qs quiz w
        → Near (length qs) (presses events) room.session
        → (room' : Room) × (get_room code (play code events w).db ≡ some room')
          × (is_finished room'.session.status ≡ true)
    unfolding play
    play-Near [] w room found has_quiz stocked near =
        (room, found, Near-over (length qs) room.session near)
    play-Near (e ∷ es) w room found has_quiz stocked near =
        let (room', found', has_quiz', near') =
          handle-Lands e es w room found has_quiz stocked near in
        let begun = Near-begun (length qs) (presses (e ∷ es)) room.session near in
        play-Near es (handle code e w) room' found' has_quiz'
          (IsStocked-same code qs quiz w (handle code e w) (handle-SameCourse e w room found begun)
            stocked)
          near'

    -- While Redis has the order of play and the tables its questions and the quiz, a game that asks
    -- or reveals a question is over once the host has gone on twice for each question from that one
    -- on, less one where it is revealed already. Starts, timers and answers may come between.
    pub game_ends :
        (events : List Event) (w : State) (room : Room)
        → get_room code w.db ≡ some room
        → room.quiz ≡ some quiz
        → IsStocked code qs quiz w
        → IsRunning (length qs) room.session
        → length qs + length qs + 2
          ≤ turn room.session.status room.session.current_question_index + presses events
        → (room' : Room) × (get_room code (play code events w).db ≡ some room')
          × (is_finished room'.session.status ≡ true)
    game_ends events w room found has_quiz stocked runs enough =
        play-Near events w room found has_quiz stocked (inr (runs, enough))
