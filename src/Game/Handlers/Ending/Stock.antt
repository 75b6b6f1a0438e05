-- ===== src/Game/Handlers/Ending/Stock.antt =====
-- What a game needs to go on: the order of play in Redis, and its questions in the tables.
use askit_backend.Exec.{ok}
use askit_backend.External.{Floats, Redis, Texts, questions_key}
use askit_backend.Game.Handlers.Ending.{
  All-get_elem?, IsRunning, Near, find_question-same, get_elem?-inside,
}
use askit_backend.Game.Handlers.Frame.{SameCourse}
use askit_backend.Game.Play.{State, order_ids}
use askit_backend.Game.Play.Current.{current_in_order, get_current_question}
use askit_backend.Game.Play.Order.{order_ids-at}
use askit_backend.Game.World.{Room, as_ids, find_question, get_room, update_session}
use askit_backend.Game.World.Loading.{KeepsKeys, get_room-update_session}
use askit_backend.Models.{Db, GameSession, Quiz, QuizQuestion}
use askit_backend.Prelude.{
  All, All-map, List, String, [], ap, arith, get_elem?, length, refl, some, suc, ℕ, ◌-◌, ◌<◌, ◌∙◌,
  ◌∷◌, ◌≡◌, ◌≤◌,
}

module _ ⦃redis : Redis⦄ ⦃texts : Texts⦄ where
  pub length-order_ids : (xs : List QuizQuestion) → length (order_ids xs) ≡ length xs
  length-order_ids [] = refl
  length-order_ids (x ∷ xs) = omega (arith, length-order_ids xs)

module _ ⦃redis : Redis⦄ ⦃texts : Texts⦄ ⦃floats : Floats⦄ (code : String) (qs : List QuizQuestion)
    (quiz : Quiz) where
  -- Redis has the order of play, and the tables have its questions.
  abbrev pub IsStocked : State → Type 0
  IsStocked w =
      (as_ids (redis.get w.redis (questions_key code)) ≡ some (order_ids qs))
      × All (λ (q : QuizQuestion). find_question q.question_id w.db ≡ some q) qs

  pub IsStocked-same : (w w' : State) → SameCourse code w w' → IsStocked w → IsStocked w'
  IsStocked-same w w' same stocked = (
    ap as_ids same.0 ∙ stocked.0,
    All-map (λ (q : QuizQuestion). find_question q.question_id w.db ≡ some q)
        (λ (q : QuizQuestion). find_question q.question_id w'.db ≡ some q) qs
        (λ q known. find_question-same q.question_id w.db w'.db same.1 ∙ known) stocked.1,
  )

  -- The room is found with its quiz, near the end.
  abbrev pub Lands : ℕ → Db → Type 0
  Lands k db =
      (room : Room) × (get_room code db ≡ some room)
      × (room.quiz ≡ some quiz)
      × Near (length qs) k room.session

  pub Lands-write :
      (k : ℕ) (db : Db) (room : Room) (f : GameSession → GameSession)
      → get_room code db ≡ some room
      → room.quiz ≡ some quiz
      → KeepsKeys f
      → Near (length qs) k (f room.session)
      → Lands k (update_session room.session.session_id f db)
  Lands-write k db room f found has_quiz keeps near = (
    record room { session = f room.session },
    get_room-update_session code db f keeps found,
    has_quiz,
    near,
  )

  current_in_order-known :
      (i : ℕ) (db : Db) {q : QuizQuestion}
      → get_elem? qs i ≡ some q
      → find_question q.question_id db ≡ some q
      → current_in_order db (suc i) (some (order_ids qs)) ≡ ok (some q)
  current_in_order-known i db {q} here known =
      ground (arith, order_ids-at i qs here, texts.parse_uuid-str q.question_id)

  get_current_question-in_order :
      (w : State) (room : Room)
      → get_room code w.db ≡ some room
      → 1 ≤ room.session.current_question_index
      → get_current_question w code
        ≡ current_in_order w.db room.session.current_question_index
            (as_ids (redis.get w.redis (questions_key code)))
  unfolding get_current_question
  get_current_question-in_order w room found least = ground arith

  -- The question of a place in the order of play.
  pub question_at_place :
      (w : State) (i : ℕ)
      → IsStocked w
      → i < length qs
      → (q : QuizQuestion) × (get_elem? qs i ≡ some q) × (find_question q.question_id w.db ≡ some q)
  question_at_place w i stocked inside =
      let (q, here) = get_elem?-inside qs i inside in
      (
        q,
        here,
        All-get_elem? (λ (x : QuizQuestion). find_question x.question_id w.db ≡ some x) qs i
            stocked.1 here,
      )

  -- The question that a running game shows.
  pub get_current_question-known :
      (w : State) (room : Room)
      → get_room code w.db ≡ some room
      → IsStocked w
      → IsRunning (length qs) room.session
      → (q : QuizQuestion) × (get_current_question w code ≡ ok (some q))
  get_current_question-known w room found stocked runs =
      let place = room.session.current_question_index - 1 in
      let (q, here, known) = question_at_place w place stocked (omega arith) in
      let after : room.session.current_question_index ≡ suc place = omega arith in
      (
        q,
        get_current_question-in_order w room found runs.1
            ∙ ap (current_in_order w.db room.session.current_question_index) stocked.0
            ∙ ap (λ i. current_in_order w.db i (some (order_ids qs))) after
            ∙ current_in_order-known place w.db here known,
      )
