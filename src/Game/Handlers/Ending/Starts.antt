-- ===== src/Game/Handlers/Ending/Starts.antt =====
-- Games from their start to their end.
use askit_backend.Exec.{ok}
use askit_backend.External.{Floats, Redis, Texts, get-set_same, ids, questions_key}
use askit_backend.Game.Handlers.{Ambient, countdown, handle_start_game, send_all, send_question}
use askit_backend.Game.Handlers.Course.{Event, handle, host_starts, play}
use askit_backend.Game.Handlers.Ending.{find_question-same, presses}
use askit_backend.Game.Handlers.Ending.Games.{play-Near}
use askit_backend.Game.Handlers.Ending.Presses.{ask_shown}
use askit_backend.Game.Handlers.Ending.Stock.{IsStocked, IsStocked-same}
use askit_backend.Game.Handlers.Frame.{send_question-SameCourse}
use askit_backend.Game.Handlers.Progress.{is_finished}
use askit_backend.Game.Play.{
  State, mark_started, order_ids, play_order, session_key_ttl, start_game,
}
use askit_backend.Game.World.{Room, as_ids, find_question, get_room, update_session}
use askit_backend.Game.World.Loading.{get_room-update_session}
use askit_backend.Models.{Db, Quiz, QuizQuestion, Uuid, status_beq_iff, waiting}
use askit_backend.Prelude.{
  All, All-map, List, String, ap, arith, inl, inr, length, refl, some, subst, sym, true, ◌+◌, ◌∙◌,
  ◌∷◌, ◌≡◌, ◌≤◌,
}

module _ ⦃redis : Redis⦄ ⦃texts : Texts⦄ ⦃floats : Floats⦄ (code : String) (ambient : Ambient)
    (host_id : Uuid) (w : State) (room : Room) (quiz : Quiz)
    (found : get_room code w.db ≡ some room) (has_quiz : room.quiz ≡ some quiz)
    (hosts : room.session.host_id ≡ host_id) (open_ : room.session.status ≡ waiting) where
  -- The order of play of the new game.
  abbrev pub order : List QuizQuestion
  order = play_order ambient.shuffle_questions room.session quiz

  abbrev begun : State
  begun = (start_game ambient.shuffle_questions ambient.now code host_id w).1

  start_game_done :
      (start_game ambient.shuffle_questions ambient.now code host_id w ≡ (ok order, begun))
      × (begun.db ≡ update_session room.session.session_id (mark_started ambient.now) w.db)
      × (begun.redis
          ≡ redis.set (questions_key code) (ids (order_ids order)) session_key_ttl w.redis)
  unfolding start_game
  start_game_done = ground (arith, status_beq_iff room.session.status waiting)

  abbrev counted : State
  counted = send_all (countdown ambient code (length order)) begun

  handle_start_game_done :
      (handle_start_game ambient code host_id w).1
      ≡ (send_question ambient code 1 (length order) counted).1
  unfolding handle_start_game
  handle_start_game_done = ground (arith, start_game_done.0)

  counted-IsStocked :
      All (λ (q : QuizQuestion). find_question q.question_id w.db ≡ some q) order
      → IsStocked code order quiz counted
  counted-IsStocked known = (
    ap as_ids (
        ap (λ (s : redis.Store). redis.get s (questions_key code)) start_game_done.2
        ∙ get-set_same (questions_key code) (ids (order_ids order)) session_key_ttl w.redis),
    All-map (λ (q : QuizQuestion). find_question q.question_id w.db ≡ some q)
        (λ (q : QuizQuestion). find_question q.question_id counted.db ≡ some q) order
        (λ q here.
          find_question-same q.question_id w.db counted.db
            (ap (λ (db : Db). db.quizzes) start_game_done.1)
          ∙ here)
        known,
  )

  -- A host who starts a waiting room, whose quiz has questions that the tables find by their ids,
  -- brings the game to its end by going on twice for each of them, whatever the timers, the answers
  -- and further starts in between.
  pub started_game_ends :
      (events : List Event)
      → 1 ≤ length order
      → All (λ (q : QuizQuestion). find_question q.question_id w.db ≡ some q) order
      → length order + length order ≤ presses events
      → (room' : Room) × (get_room code (play code (host_starts ambient host_id ∷ events) w).db
          ≡ some room')
        × (is_finished room'.session.status ≡ true)
  unfolding play handle
  started_game_ends events least known enough =
      let begun_room : Room = record room { session = mark_started ambient.now room.session } in
      let stocked = counted-IsStocked known in
      let found' : get_room code counted.db ≡ some begun_room = rw start_game_done.1 (
        get_room-update_session code w.db (mark_started ambient.now)
          (record { session_id = λ s. refl; room_code = λ s. refl; quiz_id = λ s. refl }) found) in
      let asked : State = (send_question ambient code 1 (length order) counted).1 in
      let (room'', found'', has_quiz'', near) =
        ask_shown code order quiz ambient (presses events) (length order) 0 counted begun_room
          found' has_quiz stocked (omega arith)
          (inr ((inl refl, omega arith, least), omega arith)) in
      subst
        (λ (v : State).
          (room' : Room) × (get_room code (play code events v).db ≡ some room')
          × (is_finished room'.session.status ≡ true))
        (sym handle_start_game_done)
        (play-Near code order quiz events asked room'' found'' has_quiz''
          (IsStocked-same code order quiz counted asked
            (send_question-SameCourse ambient code 1 (length order) counted) stocked)
          near)
