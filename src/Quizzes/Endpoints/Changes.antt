-- ===== src/Quizzes/Endpoints/Changes.antt =====
-- The calls of the router keep what the validators accept.
use askit_backend.Exec.{Error, Result, Result-cases, err, ok}
use askit_backend.External.{Texts}
use askit_backend.Game.Answers.Check.{unique}
use askit_backend.Models.{Db, Quiz, QuizQuestion, QuizStatus, Time, User, Uuid}
use askit_backend.Prelude.{
  All, All-append, List, Option, String, [], arith, inl, inr, none, not, refl, select-All, some,
  ◌∷◌, ◌≡◌,
}
use askit_backend.Quizzes.{has_id, publish_as, set_quiz_status}
use askit_backend.Quizzes.Authoring.{
  Fresh, apply_update, change_settings, create_quiz, delete_quiz, if_given, new_quiz, update_quiz,
  updated_questions,
}
use askit_backend.Quizzes.Endpoints.Importable.{
  IsAccepted, IsImportable, QuestionFits, new_quiz-IsImportable, questions-fit,
  validate_questions-fit,
}
use askit_backend.Quizzes.Forms.{QuizCreate, QuizQuestionCreate, QuizSettingsCreate, QuizUpdate}
use askit_backend.Quizzes.Outcomes.{
  create_quiz_done, create_quiz_refused, delete_quiz_done, delete_quiz_refused, update_quiz_done,
  update_quiz_refused,
}
use askit_backend.Quizzes.Owners.{
  IdsUnique, set_quiz_status_done, set_quiz_status_refused, update-All,
}
use askit_backend.Quizzes.Validation.{
  validate_description, validate_settings, validate_tags, validate_title,
}
use askit_backend.Quizzes.Validation.Again.{
  validate_description-same, validate_questions-same, validate_settings-same, validate_tags-again,
  validate_title-again,
}
use askit_backend.Quizzes.Validation.Bodies.{optionally, validate_questions, validate_update}
use askit_backend.Quizzes.Views.{question_export, settings_of}

-- Where a field is given, it is accepted as it is.
abbrev AcceptedIf : {A : Type 0} → (A → Result A) → Option A → Type 0
AcceptedIf validate none = Unit
AcceptedIf validate (some v) = validate v ≡ ok v

optionally-AcceptedIf :
    {A : Type 0} (validate : A → Result A) (given : Option A) {checked : Option A}
    → ((v w : A) → validate v ≡ ok w → validate w ≡ ok w)
    → optionally validate given ≡ ok checked
    → AcceptedIf validate checked
optionally-AcceptedIf validate none {checked} again h = let e : checked ≡ none = cc in rw e tt
optionally-AcceptedIf validate (some v) {checked} again h = elim (Result-cases (validate v)) [
  | inr (x, e) ↦ absurd (ground (arith, h, e))
  | inl (w, e) ↦ let whole : checked ≡ some w = ground (arith, h, e) in rw whole (again v w e)
]

if_given-fits :
    {A : Type 0} (validate : A → Result A) (given : Option A) (old : A)
    → AcceptedIf validate given
    → validate old ≡ ok old
    → validate (if_given given old) ≡ ok (if_given given old)
if_given-fits validate none old accepted h = h
if_given-fits validate (some new) old accepted h = accepted

module _ ⦃texts : Texts⦄ where
  abbrev UpdateAccepted : QuizUpdate → Type 0
  UpdateAccepted form =
      AcceptedIf validate_title form.title
      × (validate_description form.description ≡ ok form.description)
      × AcceptedIf validate_tags form.tags
      × AcceptedIf validate_settings form.settings
      × AcceptedIf validate_questions form.questions

  pub validate_update-UpdateAccepted :
      (body : QuizUpdate) {form : QuizUpdate} → validate_update body ≡ ok form → UpdateAccepted form
  unfolding validate_update
  validate_update-UpdateAccepted body {form} h =
      let titled : optionally validate_title body.title ≡ ok form.title = ground (arith, h) in
      let described : validate_description body.description ≡ ok form.description =
        ground (arith, h) in
      let tagged : optionally validate_tags body.tags ≡ ok form.tags = ground (arith, h) in
      let set_ : optionally validate_settings body.settings ≡ ok form.settings =
        ground (arith, h) in
      let asked : optionally validate_questions body.questions ≡ ok form.questions =
        ground (arith, h) in
      (
        optionally-AcceptedIf validate_title body.title (λ v w. validate_title-again v) titled,
        rw (← validate_description-same body.description described) at described,
        optionally-AcceptedIf validate_tags body.tags (λ v w. validate_tags-again v) tagged,
        optionally-AcceptedIf validate_settings body.settings
            (λ v w e. rw (← validate_settings-same v e) at e) set_,
        optionally-AcceptedIf validate_questions body.questions
            (λ v w e. rw (← validate_questions-same v e) at e) asked,
      )

  kept_description :
      (given old : Option String)
      → validate_description given ≡ ok given
      → validate_description old ≡ ok old
      → validate_description (elim given [ none ↦ old | some text ↦ some text ])
        ≡ ok (elim given [ none ↦ old | some text ↦ some text ])
  kept_description none old g o = o
  kept_description (some text) old g o = g

  changed_settings :
      (given : Option QuizSettingsCreate) (q : Quiz) {old : QuizSettingsCreate}
      → AcceptedIf validate_settings given
      → settings_of q ≡ ok old
      → validate_settings old ≡ ok old
      → (settings : QuizSettingsCreate) × (settings_of (change_settings given q) ≡ ok settings)
        × (validate_settings settings ≡ ok settings)
  changed_settings none q {old} accepted e fit = (old, e, fit)
  changed_settings (some new) q {old} accepted e fit = (new, refl, accepted)

  changed_questions :
      (fresh : Fresh) (given : Option (List QuizQuestionCreate)) (q : Quiz)
      {questions : List QuizQuestion}
      → AcceptedIf validate_questions given
      → updated_questions fresh given q ≡ ok questions
      → All (λ (x : QuizQuestion). QuestionFits (question_export x)) q.questions
      → All (λ (x : QuizQuestion). QuestionFits (question_export x)) questions
  changed_questions fresh none q {questions} accepted e fit =
      let same : questions ≡ q.questions = cc in rw same fit
  changed_questions fresh (some forms) q {questions} accepted e fit =
      questions-fit fresh forms (validate_questions-fit forms accepted) e

  updated-IsImportable :
      (fresh : Fresh) (form : QuizUpdate) (q : Quiz) {questions : List QuizQuestion}
      → UpdateAccepted form
      → updated_questions fresh form.questions q ≡ ok questions
      → IsImportable q
      → IsImportable (apply_update fresh.now form questions q)
  updated-IsImportable fresh form q accepted e (old, has_settings, t, d, g, s, fit) =
      let (settings, e', s') = changed_settings form.settings q accepted.3 has_settings s in
      (
        settings,
        e',
        if_given-fits validate_title form.title q.title accepted.0 t,
        kept_description form.description q.description accepted.1 d,
        if_given-fits validate_tags form.tags q.tags accepted.2 g,
        s',
        changed_questions fresh form.questions q accepted.4 e fit,
      )

-- What holds of all quizzes after either end of a call.
outcome_All :
    {A : Type 0} (P : Quiz → Type 0) (db : Db) (out : Result A × Db)
    → ((e : Error) (db' : Db) → out ≡ (err e, db') → db' ≡ db)
    → ((a : A) (db' : Db) → out ≡ (ok a, db') → All P db'.quizzes)
    → All P db.quizzes
    → All P out.1.quizzes
outcome_All P db (ok a, db') failed returned h = returned a db' refl
outcome_All P db (err e, db') failed returned h = rw (failed e db' refl) h

module _ ⦃texts : Texts⦄ where
  pub create_quiz-IsImportable :
      (fresh : Fresh) (user : User) (form : QuizCreate) (db : Db)
      → IsAccepted form
      → All IsImportable db.quizzes
      → All IsImportable (create_quiz fresh user form db).1.quizzes
  create_quiz-IsImportable fresh user form db accepted h =
      outcome_All IsImportable db (create_quiz fresh user form db)
        (λ e db'. create_quiz_refused fresh user form db)
        (λ u db' made.
          let (questions, e, wrote) = create_quiz_done fresh user form db made in
          rw wrote (
            All-append IsImportable db.quizzes (new_quiz fresh user form questions ∷ []) h
              (new_quiz-IsImportable fresh user form accepted e, tt)))
        h

  pub update_quiz-IsImportable :
      (fresh : Fresh) (quiz_id : Uuid) (user : User) (form : QuizUpdate) (db : Db)
      → UpdateAccepted form
      → IdsUnique db.quizzes
      → All IsImportable db.quizzes
      → All IsImportable (update_quiz fresh quiz_id user form db).1.quizzes
  update_quiz-IsImportable fresh quiz_id user form db accepted unique h =
      outcome_All IsImportable db (update_quiz fresh quiz_id user form db)
        (λ e db'. update_quiz_refused fresh quiz_id user form db)
        (λ u db' made.
          let (quiz, questions, found, owner, unpublished, e, wrote) =
            update_quiz_done fresh quiz_id user form db made in
          rw wrote (
            update-All IsImportable quiz_id (apply_update fresh.now form questions) db.quizzes
              unique found (updated-IsImportable fresh form quiz accepted e) h))
        h

  pub delete_quiz-IsImportable :
      (quiz_id : Uuid) (user : User) (db : Db)
      → All IsImportable db.quizzes
      → All IsImportable (delete_quiz quiz_id user db).1.quizzes
  delete_quiz-IsImportable quiz_id user db h =
      outcome_All IsImportable db (delete_quiz quiz_id user db)
        (λ e db'. delete_quiz_refused quiz_id user db)
        (λ u db' made.
          let (quiz, found, owner, gone) = delete_quiz_done quiz_id user db made in
          rw gone
            (select-All IsImportable (λ (r : Quiz). not (has_id quiz.quiz_id r)) db.quizzes h))
        h

  pub set_quiz_status-IsImportable :
      (now : Time) (quiz_id : Uuid) (status : QuizStatus) (user : User) (db : Db)
      → IdsUnique db.quizzes
      → All IsImportable db.quizzes
      → All IsImportable (set_quiz_status now quiz_id status user db).1.quizzes
  set_quiz_status-IsImportable now quiz_id status user db unique h =
      outcome_All IsImportable db (set_quiz_status now quiz_id status user db)
        (λ e db'. set_quiz_status_refused now quiz_id status user db)
        (λ u db' made.
          let (quiz, found, owner, guard, wrote) =
            set_quiz_status_done now quiz_id status user db made in
          rw wrote (
            update-All IsImportable quiz_id (publish_as status now) db.quizzes unique found
              (λ fits. fits) h))
        h
