-- ===== src/Game/Handlers/Steps.antt =====
-- The steps of a game, each with its effect on the session of its room.
use askit_backend.Exec.{Result-cases, bind_cases, modify, ok, ◌>>◌}
use askit_backend.External.{Floats, Redis, Texts}
use askit_backend.Game.Handlers.{
  Ambient, countdown, end_game, force_end, go_on, handle_next_question, handle_start_game,
  question_timeout, reveal, send_all, send_question, show_question,
}
use askit_backend.Game.Handlers.Effects.{
  advance_to_question-Advances, end_game-Advances, question_ended_of-db, show_question-Advances,
}
use askit_backend.Game.Handlers.Progress.{
  Advances, Advances-reveal, Advances-same, Advances-start, Advances-trans, Follows-trans,
  is_finished, turn,
}
use askit_backend.Game.Play.{
  State, advance_to_question, mark_started, set_status, start_game, write_session,
}
use askit_backend.Game.Play.Current.{get_current_question}
use askit_backend.Game.World.{Room, get_room, update_session}
use askit_backend.Game.World.Loading.{KeepsKeys, get_room-update_session}
use askit_backend.Models.{
  GameSession, Quiz, QuizQuestion, Uuid, question, revealing, starting, status_beq_iff, status_eq,
  waiting,
}
use askit_backend.Prelude.{
  Bool-cases, List, Option, Option-cases, String, arith, false, if◌then◌else◌, inl, inr, length,
  ltb, nat_eq, none, refl, some, string_eq, ℕ, ◌&&◌, ◌+◌, ◌<◌, ◌==◌, ◌≡◌, ◌≢◌, ◌≤◌, ◌⊎◌,
}

module _ ⦃redis : Redis⦄ ⦃texts : Texts⦄ ⦃floats : Floats⦄ where
  module _ (ambient : Ambient) (code : String) where
    send_question-Advances :
        (i total : ℕ) (w : State) (room : Room)
        → get_room code w.db ≡ some room
        → is_finished room.session.status ≡ false
        → turn room.session.status room.session.current_question_index ≤ i + i
        → Advances code room (send_question ambient code i total w).1.db
    unfolding send_question
    send_question-Advances i total w room found running order =
        let w' = (advance_to_question ambient.now code i w).1 in
        let moved = advance_to_question-Advances ambient.now code i w room found running order in
        bind_cases (λ (v : State). Advances code room v.db) (show_question ambient code i total)
          (advance_to_question ambient.now code i) w (λ e raised. moved)
          (λ q went_on.
            Advances-trans code room w'.db (show_question ambient code i total q w').1.db moved
              (λ room' found'. show_question-Advances ambient code room' i total q w' found'))

    -- Starting a game: either it raises and changes no table, or it marks the session started.
    pub start_game-db :
        (host_id : Uuid) (w : State) {room : Room}
        → get_room code w.db ≡ some room
        → ((start_game ambient.shuffle_questions ambient.now code host_id w).1.db ≡ w.db)
          ⊎ ((room.session.status ≡ waiting)
              × ((start_game ambient.shuffle_questions ambient.now code host_id w).1.db
                  ≡ update_session room.session.session_id (mark_started ambient.now) w.db))
    unfolding start_game
    start_game-db host_id w found = ground arith

    start_game_left :
        (host_id : Uuid) (w : State) {room : Room} {qs : List QuizQuestion}
        → get_room code w.db ≡ some room
        → (start_game ambient.shuffle_questions ambient.now code host_id w).0 ≡ ok qs
        → (room.session.status ≡ waiting)
          × ((start_game ambient.shuffle_questions ambient.now code host_id w).1.db
              ≡ update_session room.session.session_id (mark_started ambient.now) w.db)
    unfolding start_game
    start_game_left host_id w found h = ground arith

    after_start :
        (qs : List QuizQuestion) (w : State) (room : Room)
        → get_room code w.db ≡ some room
        → room.session.status ≡ starting
        → Advances code room (send_question ambient code 1 (length qs) w).1.db
    after_start qs w room found begun =
        send_question-Advances 1 (length qs) w room found (ground arith) (ground arith)

    pub handle_start_game-Advances :
        (host_id : Uuid) (w : State) (room : Room)
        → get_room code w.db ≡ some room
        → Advances code room (handle_start_game ambient code host_id w).1.db
    unfolding handle_start_game
    handle_start_game-Advances host_id w room found =
        let w' = (start_game ambient.shuffle_questions ambient.now code host_id w).1 in
        bind_cases (λ (v : State). Advances code room v.db)
          (λ qs.
            modify (send_all (countdown ambient code (length qs)))
            >> send_question ambient code 1 (length qs))
          (start_game ambient.shuffle_questions ambient.now code host_id) w
          (λ e raised. elim (start_game-db host_id w found) [
            | inl same ↦ Advances-same code room w.db w'.db found same
            | inr (open_, begun) ↦ rw begun (Advances-start code room w.db ambient.now found open_)
          ])
          (λ qs went_on.
            let (open_, begun) = start_game_left host_id w found went_on in
            let room' : Room = record room { session = mark_started ambient.now room.session } in
            let w'' : State = send_all (countdown ambient code (length qs)) w' in
            let keeps : KeepsKeys (mark_started ambient.now) = record {
              session_id = λ s. refl;
              room_code = λ s. refl;
              quiz_id = λ s. refl;
            } in
            let found' : get_room code w''.db ≡ some room' =
              rw begun (get_room-update_session code w.db (mark_started ambient.now) keeps found) in
            let (r, found'', follows) = after_start qs w'' room' found' refl in
            (r, found'', Follows-trans room.session room'.session r.session (ground arith) follows))

    pub force_end-db :
        (s : GameSession) (q : QuizQuestion) (w : State)
        → (force_end ambient code s (some q) w).1.db
          ≡ update_session s.session_id (set_status revealing) w.db
    unfolding force_end
    force_end-db s q w = ground (
      arith,
      question_ended_of-db ambient.shuffle_answers code s q
          (write_session s.session_id (set_status revealing) w),
    )

    reveal-db :
        (s : GameSession) (q : Option QuizQuestion) (w : State)
        → (reveal ambient code s q w).1.db ≡ w.db
    unfolding reveal
    reveal-db s none w = refl
    reveal-db s (some q) w = ground (arith, question_ended_of-db ambient.shuffle_answers code s q w)

    -- What `handle_next_question` does with a running question, by the question that Redis yields.
    go_on_running :
        (s : GameSession) (n : ℕ) (w : State)
        → s.status ≡ question
        → ((go_on ambient code s n w).1.db ≡ w.db)
          ⊎ ((go_on ambient code s n w).1.db
              ≡ update_session s.session_id (set_status revealing) w.db)
    unfolding go_on
    go_on_running s n w running = elim (Result-cases (get_current_question w code)) [
      | inl (c, e) ↦ elim (Option-cases c) [
        | inl nothing ↦ inl (unfold force_end in ground arith)
        | inr (q, some_) ↦ inr (ground (arith, force_end-db s q w))
      ]
      | inr (x, e) ↦ inl (ground arith)
    ]

    pub go_on_done :
        (s : GameSession) (n : ℕ) (w : State)
        → s.status ≡ revealing
        → n < s.current_question_index + 1
        → go_on ambient code s n w ≡ end_game ambient code w
    unfolding go_on
    go_on_done s n w shown over = ground arith

    pub go_on_next :
        (s : GameSession) (n : ℕ) (w : State)
        → s.status ≡ revealing
        → s.current_question_index + 1 ≤ n
        → go_on ambient code s n w ≡ send_question ambient code (s.current_question_index + 1) n w
    unfolding go_on
    go_on_next s n w shown more = ground arith

    pub go_on_otherwise :
        (s : GameSession) (n : ℕ) (w : State)
        → s.status ≢ question
        → s.status ≢ revealing
        → go_on ambient code s n w ≡ (ok tt, w)
    unfolding go_on
    go_on_otherwise s n w a b =
        ground (arith, status_beq_iff s.status question, status_beq_iff s.status revealing)

    go_on-Advances :
        (n : ℕ) (w : State) (room : Room)
        → get_room code w.db ≡ some room
        → Advances code room (go_on ambient code room.session n w).1.db
    go_on-Advances n w room found = elim (Bool-cases (room.session.status == question)) [
      | inl running ↦ elim (go_on_running room.session n w (ground arith)) [
        | inl same ↦ Advances-same code room w.db _ found same
        | inr e ↦ rw e (Advances-reveal code room w.db found (ground arith))
      ]
      | inr other ↦ elim (Bool-cases (room.session.status == revealing)) [
        | inl shown ↦ elim (Bool-cases (ltb n (room.session.current_question_index + 1))) [
          | inl over ↦
              rw (go_on_done room.session n w (ground arith) (ground arith))
                (end_game-Advances ambient code room w found)
          | inr more ↦ rw (go_on_next room.session n w (ground arith) (ground arith)) (
              send_question-Advances (room.session.current_question_index + 1) n w room found
                (ground arith) (ground arith))
        ]
        | inr neither ↦
            rw (go_on_otherwise room.session n w (ground arith) (ground arith))
              (Advances-same code room w.db w.db found refl)
      ]
    ]

    next_without_quiz :
        (w : State) {room : Room}
        → get_room code w.db ≡ some room
        → room.quiz ≡ none
        → (handle_next_question ambient code w).1.db ≡ w.db
    unfolding handle_next_question
    next_without_quiz w found e = ground arith

    pub next_with_quiz :
        (w : State) {room : Room} {quiz : Quiz}
        → get_room code w.db ≡ some room
        → room.quiz ≡ some quiz
        → handle_next_question ambient code w
          ≡ go_on ambient code room.session (length quiz.questions) w
    unfolding handle_next_question
    next_with_quiz w found e = ground arith

    pub handle_next_question-Advances :
        (w : State) (room : Room)
        → get_room code w.db ≡ some room
        → Advances code room (handle_next_question ambient code w).1.db
    handle_next_question-Advances w room found = elim (Option-cases room.quiz) [
      | inl e ↦ Advances-same code room w.db _ found (next_without_quiz w found e)
      | inr (quiz, e) ↦
          rw (next_with_quiz w found e) (go_on-Advances (length quiz.questions) w room found)
    ]

    -- The wake-up of a timer changes the tables exactly when the room still runs the question that
    -- the timer was set for, and then only marks it as being revealed.
    pub question_timeout-db :
        (i : ℕ) (w : State) (room : Room)
        → get_room code w.db ≡ some room
        → (question_timeout ambient code i w).1.db ≡ (
            if room.session.current_question_index == i && room.session.status == question
            then update_session room.session.session_id (set_status revealing) w.db
            else w.db)
    unfolding question_timeout
    question_timeout-db i w room found =
        let w' : State = write_session room.session.session_id (set_status revealing) w in
        elim (Result-cases (get_current_question w' code)) [
          | inl (q, e) ↦ ground (arith, reveal-db room.session q w')
          | inr (x, e) ↦ ground arith
        ]
