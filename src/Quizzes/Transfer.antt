-- ===== src/Quizzes/Transfer.antt =====
-- A quiz that is created from a form and exported again.
use askit_backend.Exec.{Result-cases, ok}
use askit_backend.Game.World.{by_position, load_quiz}
use askit_backend.Models.{Db, Quiz, QuizQuestion, User, Uuid}
use askit_backend.Prelude.{
  All, All-map, Bool-cases, List, [], any, ap, arith, beq_refl, false, find?, find?-append, inl,
  inr, map, refl, some, suc, ℕ, ◌++◌, ◌<◌, ◌∙◌, ◌∷◌, ◌≡◌,
}
use askit_backend.Prelude.Sorting.{IsSorted, sort_by-of_IsSorted}
use askit_backend.Quizzes.{has_id}
use askit_backend.Quizzes.Authoring.{
  Fresh, any_correct, build_answers, build_question, build_questions, create_quiz, new_quiz,
}
use askit_backend.Quizzes.Forms.{QuizAnswerCreate, QuizCreate, QuizQuestionCreate}
use askit_backend.Quizzes.Outcomes.{create_quiz_done}
use askit_backend.Quizzes.Shape.{Numbered, build_questions-Numbered}
use askit_backend.Quizzes.Views.{answer_export, export_quiz, question_export}

positions_after :
    (n k : ℕ) (questions : List QuizQuestion)
    → n < k
    → Numbered k questions
    → All (λ (q : QuizQuestion). n < q.position) questions
positions_after n k [] lt h = tt
positions_after n k (q ∷ questions) lt h =
    (omega (arith, lt, h.0), positions_after n (suc k) questions (omega (arith, lt)) h.1)

pub Numbered-IsSorted :
    (n : ℕ) (questions : List QuizQuestion) → Numbered n questions → IsSorted by_position questions
Numbered-IsSorted n [] h = tt
Numbered-IsSorted n (q ∷ questions) h = (
  All-map _ _ questions (λ r lt. ground (arith, lt, h.0))
      (positions_after n (suc n) questions (omega arith) h.1),
  Numbered-IsSorted (suc n) questions h.1,
)

pub answers_back :
    (next_id : ℕ → Uuid) (i : ℕ) (forms : List QuizAnswerCreate)
    → map answer_export (build_answers next_id i forms) ≡ forms
answers_back next_id i [] = refl
answers_back next_id i (form ∷ forms) =
    ap (λ rest. form ∷ rest) (answers_back next_id (suc i) forms)

pub questions_back :
    (fresh : Fresh) (n : ℕ) (forms : List QuizQuestionCreate) {questions : List QuizQuestion}
    → build_questions fresh n forms ≡ ok questions
    → map question_export questions ≡ forms
unfolding build_questions
questions_back fresh n [] {questions} h = let e : questions ≡ [] = cc in rw e refl
questions_back fresh n (form ∷ forms) {questions} h =
    elim (Bool-cases (any_correct (build_question fresh n form).answers)) [
      | inr bad ↦ absurd (ground arith)
      | inl good ↦ elim (Result-cases (build_questions fresh (suc n) forms)) [
        | inr (x, e) ↦ absurd (ground arith)
        | inl (rest, e) ↦
            let whole : questions ≡ build_question fresh n form ∷ rest = ground arith in
            rw
              (
                whole,
                questions_back fresh (suc n) forms e,
                answers_back (fresh.answer_ids n) 0 form.answers,
              )
              refl
      ]
    ]

-- The stored quiz, as it is loaded right after it was created.
pub load_created :
    (fresh : Fresh) (user : User) (form : QuizCreate) (quizzes : List Quiz)
    (questions : List QuizQuestion)
    → any (has_id fresh.quiz_id) quizzes ≡ false
    → find? (has_id fresh.quiz_id) (quizzes ++ new_quiz fresh user form questions ∷ [])
      ≡ some (new_quiz fresh user form questions)
load_created fresh user form quizzes questions h =
    find?-append (has_id fresh.quiz_id) quizzes (new_quiz fresh user form questions ∷ []) h
    ∙ (rw (beq_refl fresh.quiz_id) refl)

-- Under a fresh id, a form that is accepted comes back whole when the quiz is exported.
pub export_quiz-create_quiz :
    (fresh : Fresh) (user : User) (form : QuizCreate) (db : Db) {u : Unit {0}} {db' : Db}
    → any (has_id fresh.quiz_id) db.quizzes ≡ false
    → create_quiz fresh user form db ≡ (ok u, db')
    → export_quiz db' fresh.quiz_id user ≡ ok form
unfolding export_quiz load_quiz
export_quiz-create_quiz fresh user form db {u} {db'} new h =
    let (questions, e, wrote) = create_quiz_done fresh user form db h in
    let sorted =
      sort_by-of_IsSorted by_position questions
        (Numbered-IsSorted 1 questions (build_questions-Numbered fresh 1 form.questions e).0) in
    rw
      (
        wrote,
        load_created fresh user form db.quizzes questions new,
        beq_refl user.id,
        sorted,
        sorted,
        questions_back fresh 1 form.questions e,
      )
      refl
