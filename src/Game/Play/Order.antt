-- ===== src/Game/Play/Order.antt =====
-- The order of questions that a game starts with, and the questions that it serves.
use askit_backend.Exec.{ok}
use askit_backend.External.{Redis, Texts, get-set_same, ids, question_start, questions_key, time}
use askit_backend.Game.Play.{
  State, advance_to_question, advance_within, load_question, mark_question, mark_started, order_ids,
  play_order, question_key_ttl, redis_expire, redis_set, session_key_ttl, start_game, write_session,
}
use askit_backend.Game.World.{Room, as_ids, as_time, find_question, get_room, update_session}
use askit_backend.Models.{Quiz, QuizQuestion, Time, Uuid, waiting}
use askit_backend.Prelude.{
  List, Option, String, [], ap, arith, false, get_elem?, length, ltb, none, refl, some, suc, zero,
  ℕ, ◌∙◌, ◌∷◌, ◌≡◌,
}

module _ ⦃redis : Redis⦄ ⦃texts : Texts⦄ where
  start_game_parts :
      (shuffle : List QuizQuestion → List QuizQuestion) (now : Time) (room_code : String)
      (host_id : Uuid) (w : State) {qs : List QuizQuestion} {w' : State}
      → start_game shuffle now room_code host_id w ≡ (ok qs, w')
      → (room : Room) × (quiz : Quiz) × (get_room room_code w.db ≡ some room)
        × (room.session.host_id ≡ host_id)
        × (room.session.status ≡ waiting)
        × (room.quiz ≡ some quiz)
        × (qs ≡ play_order shuffle room.session quiz)
        × (w'.db ≡ update_session room.session.session_id (mark_started now) w.db)
        × (w'.redis
            ≡ redis.set (questions_key room_code) (ids (order_ids qs)) session_key_ttl w.redis)
  unfolding start_game
  start_game_parts shuffle now room_code host_id w h = ground arith

  -- A game starts only for the host of a waiting room. The room is then starting, and Redis has the
  -- order of play that is returned.
  pub start_game_begins :
      (shuffle : List QuizQuestion → List QuizQuestion) (now : Time) (room_code : String)
      (host_id : Uuid) (w : State) {qs : List QuizQuestion} {w' : State}
      → start_game shuffle now room_code host_id w ≡ (ok qs, w')
      → (room : Room) × (quiz : Quiz) × (get_room room_code w.db ≡ some room)
        × (room.session.host_id ≡ host_id)
        × (room.session.status ≡ waiting)
        × (room.quiz ≡ some quiz)
        × (qs ≡ play_order shuffle room.session quiz)
        × (w'.db ≡ update_session room.session.session_id (mark_started now) w.db)
        × (as_ids (redis.get w'.redis (questions_key room_code)) ≡ some (order_ids qs))
  start_game_begins shuffle now room_code host_id w h =
      let (room, quiz, found, host, wait, has_quiz, played, begun, stored) =
        start_game_parts shuffle now room_code host_id w h in
      (
        room,
        quiz,
        found,
        host,
        wait,
        has_quiz,
        played,
        begun,
        ap as_ids (ap (λ s. redis.get s (questions_key room_code)) stored ∙ get-set_same _ _ _ _),
      )

  pub order_ids-at :
      (i : ℕ) (qs : List QuizQuestion) {q : QuizQuestion}
      → get_elem? qs i ≡ some q
      → (get_elem? (order_ids qs) i ≡ some (texts.str q.question_id))
        × (ltb (length (order_ids qs)) (suc i) ≡ false)
  order_ids-at i [] h = absurd (ground arith)
  order_ids-at zero (q ∷ qs) h = (ground arith, ground arith)
  order_ids-at (suc i) (q ∷ qs) h =
      let (here, inside) = order_ids-at i qs h in (here, ground (arith, inside))

  load_question-known :
      (text : Option String) (w : State) {q : QuizQuestion}
      → text ≡ some (texts.str q.question_id)
      → find_question q.question_id w.db ≡ some q
      → load_question text w ≡ (ok (some q), w)
  load_question-known none w h known = absurd (ground arith)
  load_question-known (some x) w {q} h known = ground (arith, texts.parse_uuid-str q.question_id)

  -- What a served question has done to the state.
  abbrev asked : Time → String → ℕ → Uuid → State → State
  asked now room_code question_index session_id w =
      redis_set (question_start room_code) (time now) question_key_ttl
        (write_session session_id (mark_question question_index) w)

  advance_within-served :
      (now : Time) (room_code : String) (i : ℕ) (session_id : Uuid) (question_ids : List String)
      (w : State) {q : QuizQuestion}
      → ltb (length question_ids) (suc i) ≡ false
      → get_elem? question_ids i ≡ some (texts.str q.question_id)
      → find_question q.question_id w.db ≡ some q
      → advance_within now room_code (suc i) session_id question_ids w
        ≡ (ok (some q), asked now room_code (suc i) session_id w)
  unfolding find_question
  advance_within-served now room_code i session_id question_ids w inside here known = rw inside (
      load_question-known (get_elem? question_ids i) (asked now room_code (suc i) session_id w) here
        known)

  pub advance_to_question-in_order :
      (now : Time) (room_code : String) (question_index : ℕ) (w : State) {room : Room}
      {question_ids : List String}
      → get_room room_code w.db ≡ some room
      → as_ids (redis.get w.redis (questions_key room_code)) ≡ some question_ids
      → advance_to_question now room_code question_index w
        ≡ advance_within now room_code question_index room.session.session_id question_ids
            (redis_expire (questions_key room_code) session_key_ttl w)
  unfolding advance_to_question
  advance_to_question-in_order now room_code question_index w found order =
      ground (arith, found, order)

  -- While the room exists and Redis has the order of play, a question that the tables have is
  -- served under its place in that order, counted from 1; the room runs it from then on, and Redis
  -- has the time of its start.
  pub advance_to_question_serves :
      (now : Time) (room_code : String) (i : ℕ) (w : State) (qs : List QuizQuestion) {room : Room}
      {q : QuizQuestion}
      → get_room room_code w.db ≡ some room
      → as_ids (redis.get w.redis (questions_key room_code)) ≡ some (order_ids qs)
      → get_elem? qs i ≡ some q
      → find_question q.question_id w.db ≡ some q
      → ((advance_to_question now room_code (suc i) w).0 ≡ ok (some q))
        × ((advance_to_question now room_code (suc i) w).1.db
            ≡ update_session room.session.session_id (mark_question (suc i)) w.db)
        × (as_time (
              redis.get
                (advance_to_question now room_code (suc i) w).1.redis
                (question_start room_code))
            ≡ some now)
  unfolding advance_to_question
  advance_to_question_serves now room_code i w qs {room} {q} found order here known =
      let (text_here, inside) = order_ids-at i qs here in
      let kept =
        get-set_same (question_start room_code) (time now) question_key_ttl
          (redis.expire (questions_key room_code) session_key_ttl w.redis) in
      rw
        (
          advance_to_question-in_order now room_code (suc i) w found order,
          advance_within-served now room_code i room.session.session_id (order_ids qs)
              (redis_expire (questions_key room_code) session_key_ttl w) inside text_here known,
        )
        (refl, refl, ap as_time kept)
