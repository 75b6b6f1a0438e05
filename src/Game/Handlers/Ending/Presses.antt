-- ===== src/Game/Handlers/Ending/Presses.antt =====
-- What the steps of the host do to a game that has what it needs.
use askit_backend.Exec.{ok}
use askit_backend.External.{Floats, Redis, Texts}
use askit_backend.Game.Handlers.{
  Ambient, end_game, force_end, go_on, handle_next_question, send_question, show_question,
}
use askit_backend.Game.Handlers.Effects.{end_game-db}
use askit_backend.Game.Handlers.Ending.{IsRunning, Near, Near-ask, Near-reveal}
use askit_backend.Game.Handlers.Ending.Stock.{
  IsStocked, Lands, Lands-write, get_current_question-known, length-order_ids, question_at_place,
}
use askit_backend.Game.Handlers.Progress.{is_finished}
use askit_backend.Game.Handlers.Steps.{
  force_end-db, go_on_done, go_on_next, go_on_otherwise, next_with_quiz,
}
use askit_backend.Game.Play.{State, advance_to_question, mark_finished, mark_question, set_status}
use askit_backend.Game.Play.Current.{get_current_question}
use askit_backend.Game.Play.Order.{advance_to_question-in_order, advance_to_question_serves}
use askit_backend.Game.World.{Room, get_room, update_session}
use askit_backend.Models.{GameSession, Quiz, QuizQuestion, question, revealing}
use askit_backend.Prelude.{
  Bool-cases, List, String, arith, inl, inr, length, ltb, none, refl, some, suc, true, ℕ, ◌+◌, ◌<◌,
  ◌≡◌,
}

module _ ⦃redis : Redis⦄ ⦃texts : Texts⦄ ⦃floats : Floats⦄ (code : String) (qs : List QuizQuestion)
    (quiz : Quiz) where
  module _ (ambient : Ambient) where
    go_on_asked :
        (s : GameSession) (n : ℕ) (w : State) {q : QuizQuestion}
        → s.status ≡ question
        → get_current_question w code ≡ ok (some q)
        → go_on ambient code s n w ≡ force_end ambient code s (some q) w
    unfolding go_on
    go_on_asked s n w running current = ground arith

    advance_to_question_over :
        (i : ℕ) (w : State) (room : Room)
        → get_room code w.db ≡ some room
        → IsStocked code qs quiz w
        → length qs < i
        → ((advance_to_question ambient.now code i w).0 ≡ ok none)
          × ((advance_to_question ambient.now code i w).1.db
              ≡ update_session room.session.session_id (mark_finished ambient.now) w.db)
    advance_to_question_over i w room found stocked past =
        let size = length-order_ids qs in
        rw (advance_to_question-in_order ambient.now code i w found stocked.0) (ground arith)

    send_question_over :
        (i total : ℕ) (w : State)
        → (advance_to_question ambient.now code i w).0 ≡ ok none
        → send_question ambient code i total w
          ≡ end_game ambient code (advance_to_question ambient.now code i w).1
    unfolding send_question show_question
    send_question_over i total w over = ground arith

    send_question_shown :
        (i total : ℕ) (w : State) {q : QuizQuestion}
        → (advance_to_question ambient.now code i w).0 ≡ ok (some q)
        → (send_question ambient code i total w).1.db
          ≡ (advance_to_question ambient.now code i w).1.db
    unfolding send_question show_question
    send_question_shown i total w shown = ground arith

    finish_write :
        (k : ℕ) (w : State) (room : Room)
        → get_room code w.db ≡ some room
        → room.quiz ≡ some quiz
        → Lands code qs quiz k
            (update_session room.session.session_id (mark_finished ambient.now) w.db)
    finish_write k w room found has_quiz =
        Lands-write code qs quiz k w.db room (mark_finished ambient.now) found has_quiz
          (record { session_id = λ s. refl; room_code = λ s. refl; quiz_id = λ s. refl }) (inl refl)

    finish :
        (k : ℕ) (w : State) (room : Room)
        → get_room code w.db ≡ some room
        → room.quiz ≡ some quiz
        → Lands code qs quiz k (end_game ambient code w).1.db
    finish k w room found has_quiz =
        rw (end_game-db ambient code room w found) (finish_write k w room found has_quiz)

    pub ask_shown :
        (k total i : ℕ) (w : State) (room : Room)
        → get_room code w.db ≡ some room
        → room.quiz ≡ some quiz
        → IsStocked code qs quiz w
        → i < length qs
        → Near (length qs) k (mark_question (suc i) room.session)
        → Lands code qs quiz k (send_question ambient code (suc i) total w).1.db
    ask_shown k total i w room found has_quiz stocked inside near =
        let (q, here, known) = question_at_place code qs quiz w i stocked inside in
        let (some_, moved, started) =
          advance_to_question_serves ambient.now code i w qs found stocked.0 here known in
        rw (send_question_shown (suc i) total w some_, moved)
          (Lands-write code qs quiz k w.db room (mark_question (suc i)) found has_quiz
            (record { session_id = λ s. refl; room_code = λ s. refl; quiz_id = λ s. refl }) near)

    ask_past :
        (k total i : ℕ) (w : State) (room : Room)
        → get_room code w.db ≡ some room
        → room.quiz ≡ some quiz
        → IsStocked code qs quiz w
        → length qs < i
        → Lands code qs quiz k (send_question ambient code i total w).1.db
    ask_past k total i w room found has_quiz stocked past =
        let w' : State = (advance_to_question ambient.now code i w).1 in
        let (none_, ended) = advance_to_question_over i w room found stocked past in
        let landed : Lands code qs quiz k w'.db = rw ended (finish_write k w room found has_quiz) in
        let (room', found', has_quiz', over) = landed in
        rw (send_question_over i total w none_) (finish k w' room' found' has_quiz')

    -- A step of the host brings the end nearer.
    go_on-Lands :
        (k n : ℕ) (w : State) (room : Room)
        → get_room code w.db ≡ some room
        → room.quiz ≡ some quiz
        → IsStocked code qs quiz w
        → IsRunning (length qs) room.session
        → Near (length qs) (suc k) room.session
        → Lands code qs quiz k (go_on ambient code room.session n w).1.db
    go_on-Lands k n w room found has_quiz stocked (inl running, least, most) near =
        let (q, current) =
          get_current_question-known code qs quiz w room found stocked (inl running, least, most) in
        rw
          (go_on_asked room.session n w running current, force_end-db ambient code room.session q w)
          (Lands-write code qs quiz k w.db room (set_status revealing) found has_quiz
            (record { session_id = λ s. refl; room_code = λ s. refl; quiz_id = λ s. refl })
            (Near-reveal (length qs) k room.session running near))
    go_on-Lands k n w room found has_quiz stocked (inr shown, least, most) near =
        let i = room.session.current_question_index in
        let next : i + 1 ≡ suc i = omega arith in
        elim (Bool-cases (ltb n (i + 1))) [
          | inl over ↦
              rw (go_on_done ambient code room.session n w shown (ground arith))
                (finish k w room found has_quiz)
          | inr more ↦
              rw (go_on_next ambient code room.session n w shown (ground arith))
                (elim (Bool-cases (ltb (length qs) (i + 1))) [
                  | inl past ↦ ask_past k n (i + 1) w room found has_quiz stocked (ground arith)
                  | inr inside ↦ rw next (
                      ask_shown k n i w room found has_quiz stocked (ground arith) (
                        rw (← next)
                          (Near-ask (length qs) k room.session shown (ground arith) near)))
                ])
        ]

    -- A finished game is left as it is.
    go_on-over :
        (k n : ℕ) (w : State) (room : Room)
        → get_room code w.db ≡ some room
        → room.quiz ≡ some quiz
        → is_finished room.session.status ≡ true
        → Lands code qs quiz k (go_on ambient code room.session n w).1.db
    go_on-over k n w room found has_quiz over =
        rw (go_on_otherwise ambient code room.session n w (ground arith) (ground arith))
          (room, found, has_quiz, inl over)

    pub press-Lands :
        (k : ℕ) (w : State) (room : Room)
        → get_room code w.db ≡ some room
        → room.quiz ≡ some quiz
        → IsStocked code qs quiz w
        → Near (length qs) (suc k) room.session
        → Lands code qs quiz k (handle_next_question ambient code w).1.db
    press-Lands k w room found has_quiz stocked (inl over) =
        rw (next_with_quiz ambient code w found has_quiz)
          (go_on-over k (length quiz.questions) w room found has_quiz over)
    press-Lands k w room found has_quiz stocked (inr (runs, far)) =
        rw (next_with_quiz ambient code w found has_quiz) (
          go_on-Lands k (length quiz.questions) w room found has_quiz stocked runs
            (inr (runs, far)))
