-- ===== src/Game/Handlers/Frame.antt =====
-- What the handlers leave in place: the order of play in Redis, and the quizzes.
use askit_backend.Exec.{Result-cases, bind_cases}
use askit_backend.External.{
  Floats, Redis, Texts, prev_ranking, question_start, questions_key, ranking, time,
}
use askit_backend.Game.Answers.{commit_answer, record_answer, submit_answer}
use askit_backend.Game.Answers.Check.{check_answer}
use askit_backend.Game.Answers.Submission.{check_answer-IsAdmitted}
use askit_backend.Game.Board.{
  build_game_finished, by_score, clear_ranking_state, get_leaderboard, new_ranking,
}
use askit_backend.Game.Handlers.{
  Ambient, end_game, force_end, go_on, handle_next_question, question_timeout, reveal,
  send_question, show_question,
}
use askit_backend.Game.Play.{
  State, advance_to_question, mark_finished, question_key_ttl, session_key_ttl, set_status,
  write_session,
}
use askit_backend.Game.Play.Current.{get_current_question}
use askit_backend.Game.RoomState.{question_ended_of}
use askit_backend.Game.World.{get_room}
use askit_backend.Models.{GameSession, QuizAnswer, QuizQuestion, Time, revealing}
use askit_backend.Prelude.{
  List, Option, Option-cases, String, arith, inl, inr, length, none, refl, some, ℕ, ◌+◌, ◌∙◌, ◌≡◌,
}
use askit_backend.Prelude.Sorting.{sort_by}

module _ ⦃redis : Redis⦄ where
  abbrev pub SameCourse : String → State → State → Type 0
  SameCourse code w w' =
      (redis.get w'.redis (questions_key code) ≡ redis.get w.redis (questions_key code))
      × (w'.db.quizzes ≡ w.db.quizzes)

  pub SameCourse-refl : (code : String) (w : State) → SameCourse code w w
  SameCourse-refl code w = (refl, refl)

  pub SameCourse-trans :
      (code : String) (u v w : State)
      → SameCourse code u v
      → SameCourse code v w
      → SameCourse code u w
  SameCourse-trans code u v w a b = (b.0 ∙ a.0, b.1 ∙ a.1)

module _ ⦃redis : Redis⦄ ⦃texts : Texts⦄ where
  get_leaderboard-SameCourse :
      (code : String) (w : State) → SameCourse code w (get_leaderboard code w).1
  unfolding get_leaderboard
  get_leaderboard-SameCourse code w = elim (Option-cases (get_room code w.db)) [
    | inl e ↦ ground arith
    | inr (room, e) ↦ ground (
      arith,
      redis.get-set (prev_ranking code) (questions_key code)
          (ranking (new_ranking 1 (sort_by by_score room.players))) session_key_ttl w.redis,
    )
  ]

  question_ended_of-SameCourse :
      (shuffle : String → List QuizAnswer → List QuizAnswer) (code : String) (s : GameSession)
      (q : QuizQuestion) (w : State)
      → SameCourse code w (question_ended_of shuffle code s q w).1
  unfolding question_ended_of
  question_ended_of-SameCourse shuffle code s q w =
      ground (arith, get_leaderboard-SameCourse code w)

  pub advance_to_question-SameCourse :
      (now : Time) (code : String) (i : ℕ) (w : State)
      → SameCourse code w (advance_to_question now code i w).1
  unfolding advance_to_question
  advance_to_question-SameCourse now code i w = ground (
    arith,
    redis.get-expire (questions_key code) (questions_key code) 3599 w.redis,
    redis.get-set (question_start code) (questions_key code) (time now) question_key_ttl
        (redis.expire (questions_key code) session_key_ttl w.redis),
  )

module _ ⦃redis : Redis⦄ ⦃texts : Texts⦄ ⦃floats : Floats⦄ where
  build_game_finished-SameCourse :
      (now : Time) (code : String) (w : State)
      → SameCourse code w (build_game_finished now code w).1
  unfolding build_game_finished
  build_game_finished-SameCourse now code w = ground (arith, get_leaderboard-SameCourse code w)

  pub submit_answer-SameCourse :
      (now : Time) (code player_id question_id : String) (answer_ids : List String) (w : State)
      → SameCourse code w (submit_answer now code player_id question_id answer_ids w).1
  unfolding submit_answer record_answer commit_answer
  submit_answer-SameCourse now code player_id question_id answer_ids w =
      elim (Result-cases (check_answer w now code player_id question_id answer_ids)) [
        | inl (c, e) ↦
            let admitted = check_answer-IsAdmitted w now code player_id question_id answer_ids e in
            let added : redis.Store = redis.sadd c.answered_key player_id w.redis in
            ground (
              arith,
              redis.get-expire c.answered_key (questions_key code) 599 added,
              redis.get-sadd c.answered_key (questions_key code) player_id w.redis
                  (rw admitted.4 refl),
            )
        | inr (x, e) ↦ ground arith
      ]

  module _ (ambient : Ambient) (code : String) where
    pub end_game-SameCourse : (w : State) → SameCourse code w (end_game ambient code w).1
    unfolding end_game clear_ranking_state
    end_game-SameCourse w = elim (Option-cases (get_room code w.db)) [
      | inl e ↦ ground arith
      | inr (room, e) ↦
          let ended : State = write_session room.session.session_id (mark_finished ambient.now) w in
          let built = build_game_finished ambient.now code ended in
          ground (
            arith,
            build_game_finished-SameCourse ambient.now code ended,
            redis.get-delete (prev_ranking code) (questions_key code) built.1.redis,
          )
    ]

    force_end-SameCourse :
        (s : GameSession) (q : Option QuizQuestion) (w : State)
        → SameCourse code w (force_end ambient code s q w).1
    unfolding force_end
    force_end-SameCourse s none w = (refl, refl)
    force_end-SameCourse s (some q) w = ground (
      arith,
      question_ended_of-SameCourse ambient.shuffle_answers code s q
          (write_session s.session_id (set_status revealing) w),
    )

    reveal-SameCourse :
        (s : GameSession) (q : Option QuizQuestion) (w : State)
        → SameCourse code w (reveal ambient code s q w).1
    unfolding reveal
    reveal-SameCourse s none w = (refl, refl)
    reveal-SameCourse s (some q) w =
        ground (arith, question_ended_of-SameCourse ambient.shuffle_answers code s q w)

    show_question-SameCourse :
        (i total : ℕ) (q : Option QuizQuestion) (w : State)
        → SameCourse code w (show_question ambient code i total q w).1
    unfolding show_question
    show_question-SameCourse i total none w = end_game-SameCourse w
    show_question-SameCourse i total (some q) w = (refl, refl)

    pub send_question-SameCourse :
        (i total : ℕ) (w : State) → SameCourse code w (send_question ambient code i total w).1
    unfolding send_question
    send_question-SameCourse i total w =
        let w' = (advance_to_question ambient.now code i w).1 in
        let moved = advance_to_question-SameCourse ambient.now code i w in
        bind_cases (λ (v : State). SameCourse code w v) (show_question ambient code i total)
          (advance_to_question ambient.now code i) w (λ e raised. moved)
          (λ q went_on.
            SameCourse-trans code w w' (show_question ambient code i total q w').1 moved
              (show_question-SameCourse i total q w'))

    go_on-SameCourse :
        (s : GameSession) (n : ℕ) (w : State) → SameCourse code w (go_on ambient code s n w).1
    unfolding go_on
    go_on-SameCourse s n w = elim (Result-cases (get_current_question w code)) [
      | inl (q, e) ↦ ground (
        arith,
        e,
        force_end-SameCourse s q w,
        end_game-SameCourse w,
        send_question-SameCourse (s.current_question_index + 1) n w,
      )
      | inr (x, e) ↦ ground (
        arith,
        e,
        end_game-SameCourse w,
        send_question-SameCourse (s.current_question_index + 1) n w,
      )
    ]

    pub handle_next_question-SameCourse :
        (w : State) → SameCourse code w (handle_next_question ambient code w).1
    unfolding handle_next_question
    handle_next_question-SameCourse w = elim (Option-cases (get_room code w.db)) [
      | inl e ↦ ground arith
      | inr (room, e) ↦ elim (Option-cases room.quiz) [
        | inl e' ↦ ground arith
        | inr (quiz, e') ↦ ground (arith, go_on-SameCourse room.session (length quiz.questions) w)
      ]
    ]

    pub question_timeout-SameCourse :
        (i : ℕ) (w : State) → SameCourse code w (question_timeout ambient code i w).1
    unfolding question_timeout
    question_timeout-SameCourse i w = elim (Option-cases (get_room code w.db)) [
      | inl e ↦ ground arith
      | inr (room, e) ↦
          let w' : State = write_session room.session.session_id (set_status revealing) w in
          elim (Result-cases (get_current_question w' code)) [
            | inl (q, e') ↦ ground (arith, reveal-SameCourse room.session q w')
            | inr (x, e') ↦ ground arith
          ]
    ]
