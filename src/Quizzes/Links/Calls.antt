-- ===== src/Quizzes/Links/Calls.antt =====
-- The calls of users keep the foreign keys.
use askit_backend.Exec.{Error, Result, Result-cases, err, ok}
use askit_backend.Models.{
  Db, GamePlayerAnswer, GameSession, Quiz, QuizQuestion, User, Uuid, status_eq,
}
use askit_backend.Prelude.{
  All, All-append, All-map, All-of, Bool, Bool-cases, List, Option-cases, [], any, any-and,
  any-append_left, any-select, arith, false, find?, find?-some, find?-some-any, inl, inr, nat_eq,
  refl, select-All, select-All_of, some, some-injective, string_eq, subst, sym, true, ◌&&◌, ◌++◌,
  ◌==◌, ◌∷◌, ◌≡◌,
}
use askit_backend.Quizzes.{
  has_id, is_favorite, publish_as, set_quiz_status, toggle_favorite, write_quiz,
}
use askit_backend.Quizzes.Authoring.{
  Fresh, apply_update, asks, build_questions, create_quiz, delete_quiz, drop_answers_to, new_quiz,
  remove_quiz, replaced_questions, update_quiz, updated_questions,
}
use askit_backend.Quizzes.Calls.{QuizCall, call, creates, deletes, sets_status, toggles, updates}
use askit_backend.Quizzes.Forms.{QuizCreate, QuizUpdate}
use askit_backend.Quizzes.Links.{IsLinked, is_asked, relinked, written-IsLinked}
use askit_backend.Quizzes.Outcomes.{
  delete_quiz_done, delete_quiz_refused, update_quiz_done, update_quiz_refused,
}
use askit_backend.Quizzes.Owners.{IdsUnique, set_quiz_status_done, set_quiz_status_refused}
use askit_backend.Quizzes.Shape.{apply_update-keeps}

create_quiz-IsLinked :
    (fresh : Fresh) (user : User) (form : QuizCreate) (db : Db)
    → IsLinked db
    → IsLinked (create_quiz fresh user form db).1
unfolding create_quiz
create_quiz-IsLinked fresh user form db h =
    elim (Result-cases (build_questions fresh 1 form.questions)) [
      | inr (x, e) ↦ rw e h
      | inl (questions, e) ↦ rw e (
          relinked db (db.quizzes ++ new_quiz fresh user form questions ∷ []) db.answers
            (λ quiz_id.
              any-append_left (has_id quiz_id) db.quizzes (new_quiz fresh user form questions ∷ []))
            (All-map _ _ db.answers
              (λ a l. (
                l.0,
                any-append_left (is_asked a.question_id) db.quizzes
                    (new_quiz fresh user form questions ∷ []) l.1,
              ))
              h.3)
            h)
    ]

apart :
    (i j : Uuid) (quizzes : List Quiz)
    → (i == j) ≡ false
    → any (λ (r : Quiz). has_id i r && has_id j r) quizzes ≡ false
apart i j [] h = refl
apart i j (q ∷ quizzes) h = ground (arith, apart i j quizzes)

-- Nothing that the quiz with an id lacks is found in a quiz with this id.
only_found :
    (p : Quiz → Bool) (quiz_id : Uuid) (quizzes : List Quiz) {quiz : Quiz}
    → IdsUnique quizzes
    → find? (has_id quiz_id) quizzes ≡ some quiz
    → p quiz ≡ false
    → any (λ (r : Quiz). p r && has_id quiz_id r) quizzes ≡ false
only_found p quiz_id [] u found h = refl
only_found p quiz_id (q ∷ quizzes) u found h = elim (Bool-cases (has_id quiz_id q)) [
  | inl e ↦
      let lacks : p q ≡ false = rw (some-injective _ _ (rw e at found)) h in
      rw lacks (any-and p (has_id quiz_id) quizzes (ground (arith, u.0)))
  | inr e ↦ ground (arith, only_found p quiz_id quizzes u.1 (rw e at found) h)
]

delete_quiz-IsLinked :
    (quiz : Quiz) (db : Db)
    → IdsUnique db.quizzes
    → find? (has_id quiz.quiz_id) db.quizzes ≡ some quiz
    → IsLinked db
    → IsLinked (remove_quiz quiz db)
delete_quiz-IsLinked quiz db u found h = (
  select-All_of _ _ _ db.sessions
      (λ s other e.
        any-select (has_id s.quiz_id) (has_id quiz.quiz_id) db.quizzes e
          (apart s.quiz_id quiz.quiz_id db.quizzes (ground arith)))
      h.0,
  select-All_of _ _ _ db.favorites
      (λ f other e.
        any-select (has_id f.1) (has_id quiz.quiz_id) db.quizzes e
          (apart f.1 quiz.quiz_id db.quizzes (ground arith)))
      h.1,
  select-All_of _ _ _ db.players
      (λ p other e.
        any-select (λ (s : GameSession). s.session_id == p.session_id)
          (λ (s : GameSession). s.quiz_id == quiz.quiz_id) db.sessions e (ground arith))
      h.2,
  select-All_of _ _ _ db.answers
      (λ a other l. (
        ground arith,
        any-select (is_asked a.question_id) (has_id quiz.quiz_id) db.quizzes l.1
            (only_found (is_asked a.question_id) quiz.quiz_id db.quizzes u found (ground arith)),
      ))
      h.3,
)

-- The answers that are kept are to questions that are kept.
dropped :
    (fresh : Fresh) (form : QuizUpdate) (quiz : Quiz) {questions : List QuizQuestion}
    (rows : List GamePlayerAnswer)
    → updated_questions fresh form.questions quiz ≡ ok questions
    → All
        (λ (a : GamePlayerAnswer).
          is_asked a.question_id quiz ≡ true → asks a.question_id questions ≡ true)
        (drop_answers_to (replaced_questions form quiz) rows)
dropped fresh form quiz {questions} rows e = elim (Option-cases form.questions) [
  | inl none_given ↦
      let same : questions ≡ quiz.questions = ground (arith, rw none_given at e) in
      rw same (All-of _ _ (λ a k. k))
  | inr (forms, given) ↦ rw given (
      select-All_of (λ a. Unit {0}) _ _ rows (λ a kept t k. absurd (ground arith))
        (All-of _ rows (λ a. tt)))
]

update_quiz-IsLinked :
    (fresh : Fresh) (form : QuizUpdate) (quiz_id : Uuid) (db : Db) {quiz : Quiz}
    {questions : List QuizQuestion}
    → IdsUnique db.quizzes
    → find? (has_id quiz_id) db.quizzes ≡ some quiz
    → updated_questions fresh form.questions quiz ≡ ok questions
    → IsLinked db
    → IsLinked (
        write_quiz quiz_id
          (apply_update fresh.now form questions)
          (record db { answers = drop_answers_to (replaced_questions form quiz) db.answers }))
update_quiz-IsLinked fresh form quiz_id db {quiz} {questions} u found e h =
    written-IsLinked quiz_id (apply_update fresh.now form questions) db
      (drop_answers_to (replaced_questions form quiz) db.answers) u found
      (apply_update-keeps fresh.now form questions quiz).0 (dropped fresh form quiz db.answers e)
      (h.0, h.1, h.2, select-All _ _ db.answers h.3)

kept_links :
    {A : Type 0} (db : Db) (out : Result A × Db)
    → IsLinked db
    → ((e : Error) (db' : Db) → out ≡ (err e, db') → db' ≡ db)
    → ((a : A) (db' : Db) → out ≡ (ok a, db') → IsLinked db')
    → IsLinked out.1
kept_links db (ok a, db') h failed returned = returned a db' refl
kept_links db (err e, db') h failed returned = subst IsLinked (sym (failed e db' refl)) h

toggle_favorite-IsLinked :
    (quiz_id : Uuid) (user : User) (db : Db)
    → IsLinked db
    → IsLinked (toggle_favorite quiz_id user db).1
unfolding toggle_favorite
toggle_favorite-IsLinked quiz_id user db h =
    elim (Option-cases (find? (has_id quiz_id) db.quizzes)) [
      | inl missing ↦ rw missing h
      | inr (quiz, found) ↦ elim (Bool-cases (quiz.creator_id == user.id)) [
        | inr e ↦ rw (found, e) h
        | inl e ↦ elim (Bool-cases (is_favorite user.id quiz_id db)) [
          | inl e' ↦ rw (found, e, e') (h.0, select-All _ _ db.favorites h.1, h.2, h.3)
          | inr e' ↦
              rw (found, e, e')
                (
                  h.0,
                  All-append _ db.favorites ((user.id, quiz_id) ∷ []) h.1
                      (find?-some-any (has_id quiz_id) db.quizzes found, tt),
                  h.2,
                  h.3,
                )
        ]
      ]
    ]

-- Every call keeps the foreign keys: each session and each favorite is of a quiz, each player in a
-- session, and each answer by a player to a question of a quiz; where no two quizzes share an id.
pub call-IsLinked :
    (user : User) (c : QuizCall) (db : Db)
    → IdsUnique db.quizzes
    → IsLinked db
    → IsLinked (call user c db)
unfolding call
call-IsLinked user (creates fresh form) db u h = create_quiz-IsLinked fresh user form db h
call-IsLinked user (toggles quiz_id) db u h = toggle_favorite-IsLinked quiz_id user db h
call-IsLinked user (deletes quiz_id) db u h =
    kept_links db (delete_quiz quiz_id user db) h (λ e db'. delete_quiz_refused quiz_id user db)
      (λ r db' e.
        let (quiz, found, owner, gone) = delete_quiz_done quiz_id user db e in
        let same : quiz_id ≡ quiz.quiz_id =
          ground (arith, find?-some (has_id quiz_id) db.quizzes {x = quiz} found) in
        rw gone (
          delete_quiz-IsLinked quiz db u
            (subst (λ i. find? (has_id i) db.quizzes ≡ some quiz) same found) h))
call-IsLinked user (updates fresh quiz_id form) db u h =
    kept_links db (update_quiz fresh quiz_id user form db) h
      (λ e db'. update_quiz_refused fresh quiz_id user form db)
      (λ r db' e.
        let (quiz, questions, found, owner, unpublished, built, wrote) =
          update_quiz_done fresh quiz_id user form db e in
        subst IsLinked (sym wrote) (update_quiz-IsLinked fresh form quiz_id db u found built h))
call-IsLinked user (sets_status now quiz_id status) db u h =
    kept_links db (set_quiz_status now quiz_id status user db) h
      (λ e db'. set_quiz_status_refused now quiz_id status user db)
      (λ r db' e.
        let (quiz, found, owner, guard, wrote) =
          set_quiz_status_done now quiz_id status user db e in
        subst IsLinked (sym wrote) (
          written-IsLinked quiz_id (publish_as status now) db db.answers u found refl
            (All-of _ db.answers (λ a k. k)) h))
