-- ===== src/Quizzes/Endpoints/Importable.antt =====
-- The quizzes that the router stores: what the validators of a body accept.
use askit_backend.Exec.{Result-cases, ok}
use askit_backend.External.{Texts}
use askit_backend.Models.{Quiz, QuizQuestion, User}
use askit_backend.Prelude.{All, List, [], arith, inl, inr, map, refl, subst, sym, ◌∷◌, ◌≡◌}
use askit_backend.Quizzes.Authoring.{Fresh, build_questions, new_quiz}
use askit_backend.Quizzes.Forms.{QuizCreate, QuizQuestionCreate, QuizSettingsCreate}
use askit_backend.Quizzes.Transfer.{questions_back}
use askit_backend.Quizzes.Validation.{
  validate_description, validate_question, validate_settings, validate_tags, validate_title,
}
use askit_backend.Quizzes.Validation.Again.{
  validate_description-same, validate_question-same, validate_settings-same, validate_tags-again,
  validate_title-again,
}
use askit_backend.Quizzes.Validation.Bodies.{validate_create, validate_questions}
use askit_backend.Quizzes.Views.{question_export, settings_of}

abbrev pub QuestionFits : QuizQuestionCreate → Type 0
QuestionFits form = validate_question form ≡ ok form

All-map_of {ℓ κ λ'} :
    {A : Type ℓ} {B : Type κ} (P : B → Type λ') (f : A → B) (xs : List A)
    → All P (map f xs)
    → All (λ x. P (f x)) xs
All-map_of P f [] h = tt
All-map_of P f (x ∷ xs) h = (h.0, All-map_of P f xs h.1)

pub All-of_map {ℓ κ λ'} :
    {A : Type ℓ} {B : Type κ} (P : B → Type λ') (f : A → B) (xs : List A)
    → All (λ x. P (f x)) xs
    → All P (map f xs)
All-of_map P f [] h = tt
All-of_map P f (x ∷ xs) h = (h.0, All-of_map P f xs h.1)

pub validate_questions-fit :
    (forms : List QuizQuestionCreate) {checked : List QuizQuestionCreate}
    → validate_questions forms ≡ ok checked
    → All QuestionFits checked
unfolding validate_questions
validate_questions-fit [] {checked} h = let e : checked ≡ [] = cc in rw e tt
validate_questions-fit (form ∷ forms) {checked} h = elim (Result-cases (validate_question form)) [
  | inr (x, e) ↦ absurd (ground (arith, h, e))
  | inl (first, e) ↦ elim (Result-cases (validate_questions forms)) [
    | inr (x, e') ↦ absurd (ground (arith, h, e, e'))
    | inl (rest, e') ↦
        let whole : checked ≡ first ∷ rest = ground (arith, h, e, e') in
        let same = validate_question-same form e in
        rw whole (rw (← same) at e, validate_questions-fit forms e')
  ]
]

module _ ⦃texts : Texts⦄ where
  -- What the validators of `QuizCreate` leave as it is.
  abbrev pub IsAccepted : QuizCreate → Type 0
  IsAccepted form =
      (validate_title form.title ≡ ok form.title)
      × (validate_description form.description ≡ ok form.description)
      × (validate_tags form.tags ≡ ok form.tags)
      × (validate_settings form.settings ≡ ok form.settings)
      × All QuestionFits form.questions

  pub validate_create-IsAccepted :
      (body : QuizCreate) {form : QuizCreate} → validate_create body ≡ ok form → IsAccepted form
  unfolding validate_create
  validate_create-IsAccepted body {form} h =
      let titled : validate_title body.title ≡ ok form.title = ground (arith, h) in
      let described : validate_description body.description ≡ ok form.description =
        ground (arith, h) in
      let tagged : validate_tags body.tags ≡ ok form.tags = ground (arith, h) in
      let set_ : validate_settings body.settings ≡ ok form.settings = ground (arith, h) in
      let asked : validate_questions body.questions ≡ ok form.questions = ground (arith, h) in
      (
        validate_title-again body.title titled,
        rw (← validate_description-same body.description described) at described,
        validate_tags-again body.tags tagged,
        rw (← validate_settings-same body.settings set_) at set_,
        validate_questions-fit body.questions asked,
      )

  -- The same of a stored quiz.
  abbrev pub IsImportable : Quiz → Type 0
  IsImportable q =
      (settings : QuizSettingsCreate) × (settings_of q ≡ ok settings)
      × (validate_title q.title ≡ ok q.title)
      × (validate_description q.description ≡ ok q.description)
      × (validate_tags q.tags ≡ ok q.tags)
      × (validate_settings settings ≡ ok settings)
      × All (λ (x : QuizQuestion). QuestionFits (question_export x)) q.questions

  pub questions-fit :
      (fresh : Fresh) (forms : List QuizQuestionCreate) {questions : List QuizQuestion}
      → All QuestionFits forms
      → build_questions fresh 1 forms ≡ ok questions
      → All (λ (x : QuizQuestion). QuestionFits (question_export x)) questions
  questions-fit fresh forms {questions} fit e =
      All-map_of QuestionFits question_export questions
        (subst (All QuestionFits) (sym (questions_back fresh 1 forms e)) fit)

  pub new_quiz-IsImportable :
      (fresh : Fresh) (user : User) (form : QuizCreate) {questions : List QuizQuestion}
      → IsAccepted form
      → build_questions fresh 1 form.questions ≡ ok questions
      → IsImportable (new_quiz fresh user form questions)
  new_quiz-IsImportable fresh user form accepted e = (
    form.settings,
    refl,
    accepted.0,
    accepted.1,
    accepted.2,
    accepted.3,
    questions-fit fresh form.questions accepted.4 e,
  )
