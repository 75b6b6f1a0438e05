-- ===== src/Quizzes/Shape.antt =====
-- What a quiz is like that the service has built.
use askit_backend.Exec.{Result-cases, ok}
use askit_backend.Models.{Quiz, QuizQuestion, Time, User, is_published}
use askit_backend.Prelude.{
  All, Bool-cases, List, Option, [], ap, arith, false, inl, inr, none, refl, some, suc, true, ℕ,
  ◌∙◌, ◌∷◌, ◌≡◌,
}
use askit_backend.Quizzes.Authoring.{
  Fresh, any_correct, apply_update, build_question, build_questions, change_settings, new_quiz,
  updated_questions,
}
use askit_backend.Quizzes.Forms.{QuizCreate, QuizQuestionCreate, QuizUpdate}
use askit_backend.Quizzes.Owners.{IsPlayable}

-- Questions with the numbers from `n` on.
abbrev pub Numbered : ℕ → List QuizQuestion → Type 0
Numbered n [] = Unit
Numbered n (q ∷ questions) = (q.position ≡ n) × Numbered (suc n) questions

abbrev pub IsAnswerable : QuizQuestion → Type 0
IsAnswerable q = any_correct q.answers ≡ true

-- Its questions are numbered from 1 and have a correct answer each, and it has one if it is
-- published.
abbrev pub IsWellFormed : Quiz → Type 0
IsWellFormed q = Numbered 1 q.questions × All IsAnswerable q.questions × IsPlayable q

pub build_questions-Numbered :
    (fresh : Fresh) (n : ℕ) (forms : List QuizQuestionCreate) {questions : List QuizQuestion}
    → build_questions fresh n forms ≡ ok questions
    → Numbered n questions × All IsAnswerable questions
unfolding build_questions
build_questions-Numbered fresh n [] {questions} h = let e : questions ≡ [] = cc in rw e (tt, tt)
build_questions-Numbered fresh n (form ∷ forms) {questions} h =
    elim (Bool-cases (any_correct (build_question fresh n form).answers)) [
      | inr bad ↦ absurd (ground arith)
      | inl good ↦ elim (Result-cases (build_questions fresh (suc n) forms)) [
        | inr (x, e) ↦ absurd (ground arith)
        | inl (rest, e) ↦
            let (numbered, answerable) = build_questions-Numbered fresh (suc n) forms e in
            let whole : questions ≡ build_question fresh n form ∷ rest = ground arith in
            rw whole ((refl, numbered), (good, answerable))
      ]
    ]

pub new_quiz-IsWellFormed :
    (fresh : Fresh) (user : User) (form : QuizCreate) {questions : List QuizQuestion}
    → build_questions fresh 1 form.questions ≡ ok questions
    → IsWellFormed (new_quiz fresh user form questions)
new_quiz-IsWellFormed fresh user form e =
    let (numbered, answerable) = build_questions-Numbered fresh 1 form.questions e in
    (numbered, answerable, inl refl)

-- An update changes neither whose quiz it is nor its state.
pub apply_update-keeps :
    (now : Time) (form : QuizUpdate) (questions : List QuizQuestion) (q : Quiz)
    → ((apply_update now form questions q).quiz_id ≡ q.quiz_id)
      × ((apply_update now form questions q).creator_id ≡ q.creator_id)
      × ((apply_update now form questions q).status ≡ q.status)
apply_update-keeps now form questions q =
    elim form.settings
      as (λ s.
        ((change_settings s q).quiz_id ≡ q.quiz_id)
        × ((change_settings s q).creator_id ≡ q.creator_id)
        × ((change_settings s q).status ≡ q.status)) [
          | none ↦ (refl, refl, refl)
          | some settings ↦ (refl, refl, refl)
        ]

pub updated_questions-Numbered :
    (fresh : Fresh) (given : Option (List QuizQuestionCreate)) (q : Quiz)
    {questions : List QuizQuestion}
    → updated_questions fresh given q ≡ ok questions
    → Numbered 1 q.questions × All IsAnswerable q.questions
    → Numbered 1 questions × All IsAnswerable questions
updated_questions-Numbered fresh none q {questions} e h =
    let same : questions ≡ q.questions = cc in rw same h
updated_questions-Numbered fresh (some forms) q e h = build_questions-Numbered fresh 1 forms e

pub updated-IsWellFormed :
    (fresh : Fresh) (form : QuizUpdate) (q : Quiz) {questions : List QuizQuestion}
    → updated_questions fresh form.questions q ≡ ok questions
    → is_published q.status ≡ false
    → IsWellFormed q
    → IsWellFormed (apply_update fresh.now form questions q)
updated-IsWellFormed fresh form q {questions} e unpublished h =
    let (numbered, answerable) = updated_questions-Numbered fresh form.questions q e (h.0, h.1) in
    let (_, _, status) = apply_update-keeps fresh.now form questions q in
    (numbered, answerable, inl (ap is_published status ∙ unpublished))
