-- ===== src/Quizzes/Outcomes.antt =====
-- What the calls of an owner do when they return and when they raise.
use askit_backend.Exec.{Error, Result-cases, err, ok}
use askit_backend.Models.{Db, Quiz, QuizQuestion, User, Uuid, is_published}
use askit_backend.Prelude.{
  List, Option-cases, [], arith, false, find?, inl, inr, some, ◌++◌, ◌∷◌, ◌≡◌,
}
use askit_backend.Quizzes.{has_id, write_quiz}
use askit_backend.Quizzes.Authoring.{
  Fresh, apply_update, build_questions, create_quiz, delete_quiz, drop_answers_to, new_quiz,
  remove_quiz, replaced_questions, update_quiz, updated_questions,
}
use askit_backend.Quizzes.Forms.{QuizCreate, QuizUpdate}

pub create_quiz_done :
    (fresh : Fresh) (user : User) (form : QuizCreate) (db : Db) {u : Unit {0}} {db' : Db}
    → create_quiz fresh user form db ≡ (ok u, db')
    → (questions : List QuizQuestion) × (build_questions fresh 1 form.questions ≡ ok questions)
      × (db'.quizzes ≡ db.quizzes ++ new_quiz fresh user form questions ∷ [])
unfolding create_quiz
create_quiz_done fresh user form db h =
    elim (Result-cases (build_questions fresh 1 form.questions)) [
      | inl (questions, e) ↦ (questions, e, ground arith)
      | inr (x, e) ↦ absurd (ground arith)
    ]

pub create_quiz_makes :
    (fresh : Fresh) (user : User) (form : QuizCreate) (db : Db) {questions : List QuizQuestion}
    → build_questions fresh 1 form.questions ≡ ok questions
    → create_quiz fresh user form db
      ≡ (ok tt, record db { quizzes = db.quizzes ++ new_quiz fresh user form questions ∷ [] })
unfolding create_quiz
create_quiz_makes fresh user form db e = ground (arith, e)

pub create_quiz_refused :
    (fresh : Fresh) (user : User) (form : QuizCreate) (db : Db) {e : Error} {db' : Db}
    → create_quiz fresh user form db ≡ (err e, db')
    → db' ≡ db
unfolding create_quiz
create_quiz_refused fresh user form db h = ground arith

pub delete_quiz_refused :
    (quiz_id : Uuid) (user : User) (db : Db) {e : Error} {db' : Db}
    → delete_quiz quiz_id user db ≡ (err e, db')
    → db' ≡ db
unfolding delete_quiz
delete_quiz_refused quiz_id user db h = ground arith

pub delete_quiz_done :
    (quiz_id : Uuid) (user : User) (db : Db) {u : Unit {0}} {db' : Db}
    → delete_quiz quiz_id user db ≡ (ok u, db')
    → (quiz : Quiz) × (find? (has_id quiz_id) db.quizzes ≡ some quiz)
      × (quiz.creator_id ≡ user.id)
      × (db' ≡ remove_quiz quiz db)
unfolding delete_quiz
delete_quiz_done quiz_id user db h = elim (Option-cases (find? (has_id quiz_id) db.quizzes)) [
  | inl missing ↦ absurd (ground arith)
  | inr (quiz, found) ↦ (quiz, found, ground arith, ground arith)
]

pub update_quiz_refused :
    (fresh : Fresh) (quiz_id : Uuid) (user : User) (form : QuizUpdate) (db : Db) {e : Error}
    {db' : Db}
    → update_quiz fresh quiz_id user form db ≡ (err e, db')
    → db' ≡ db
unfolding update_quiz
update_quiz_refused fresh quiz_id user form db h = ground arith

pub update_quiz_done :
    (fresh : Fresh) (quiz_id : Uuid) (user : User) (form : QuizUpdate) (db : Db) {u : Unit {0}}
    {db' : Db}
    → update_quiz fresh quiz_id user form db ≡ (ok u, db')
    → (quiz : Quiz) × (questions : List QuizQuestion) × (find? (has_id quiz_id) db.quizzes
        ≡ some quiz)
      × (quiz.creator_id ≡ user.id)
      × (is_published quiz.status ≡ false)
      × (updated_questions fresh form.questions quiz ≡ ok questions)
      × (db'
          ≡ write_quiz quiz_id
              (apply_update fresh.now form questions)
              (record db { answers = drop_answers_to (replaced_questions form quiz) db.answers }))
unfolding update_quiz
update_quiz_done fresh quiz_id user form db h =
    elim (Option-cases (find? (has_id quiz_id) db.quizzes)) [
      | inl missing ↦ absurd (ground arith)
      | inr (quiz, found) ↦ elim (Result-cases (updated_questions fresh form.questions quiz)) [
        | inr (x, e) ↦ absurd (ground arith)
        | inl (questions, e) ↦ (quiz, questions, found, ground arith, ground arith, e, ground arith)
      ]
    ]
