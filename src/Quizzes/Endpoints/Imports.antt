-- ===== src/Quizzes/Endpoints/Imports.antt =====
-- Exports that are imported.
use askit_backend.Auth.{get_current_user}
use askit_backend.Exec.{Result, Result-cases, ok}
use askit_backend.External.{Texts}
use askit_backend.External.Tokens.{Jwt, Secrets}
use askit_backend.Game.World.{by_position, load_quiz, with_sorted_questions}
use askit_backend.Models.{Db, Quiz, QuizAnswer, QuizQuestion, User, Uuid}
use askit_backend.Prelude.{
  All, Bool, Bool-cases, List, Option-cases, [], any, ap, arith, false, find?, find?-All, inl, inr,
  map, nat_eq, refl, some, string_eq, suc, ℕ, ◌++◌, ◌==◌, ◌∙◌, ◌∷◌, ◌≡◌,
}
use askit_backend.Prelude.Sorting.{sort_by, sort_by-of_IsSorted}
use askit_backend.Quizzes.{has_id}
use askit_backend.Quizzes.Authoring.{
  Fresh, any_correct, build_answers, build_question, build_questions, create_quiz, new_quiz,
}
use askit_backend.Quizzes.Endpoints.{Caller, import_quiz_endpoint}
use askit_backend.Quizzes.Endpoints.Importable.{All-of_map, IsAccepted, IsImportable, QuestionFits}
use askit_backend.Quizzes.Forms.{QuizCreate, QuizOut, QuizQuestionCreate, QuizSettingsCreate}
use askit_backend.Quizzes.Outcomes.{create_quiz_makes}
use askit_backend.Quizzes.Reread.{Pairwise, RereadQuiz, SameForm, export_quiz-RereadQuiz}
use askit_backend.Quizzes.Shape.{IsAnswerable, IsWellFormed}
use askit_backend.Quizzes.Transfer.{Numbered-IsSorted, export_quiz-create_quiz, load_created}
use askit_backend.Quizzes.Validation.Bodies.{validate_create, validate_questions}
use askit_backend.Quizzes.Views.{
  answer_export, export_quiz, question_export, quiz_to_response, respond, settings_of,
}

any_correct-again :
    (next_id : ℕ → Uuid) (i : ℕ) (answers : List QuizAnswer)
    → any_correct (build_answers next_id i (map answer_export answers)) ≡ any_correct answers
any_correct-again next_id i [] = refl
any_correct-again next_id i (a ∷ answers) =
    ground (arith, any_correct-again next_id (suc i) answers)

-- Questions that have a correct answer each can be built again from their exports.
rebuilt :
    (fresh : Fresh) (n : ℕ) (questions : List QuizQuestion)
    → All IsAnswerable questions
    → (built : List QuizQuestion) × (build_questions fresh n (map question_export questions)
        ≡ ok built)
unfolding build_questions
rebuilt fresh n [] h = ([], refl)
rebuilt fresh n (q ∷ questions) h =
    let (rest, e) = rebuilt fresh (suc n) questions h.1 in
    (
      build_question fresh n (question_export q) ∷ rest,
      rw (any_correct-again (fresh.answer_ids n) 0 q.answers, h.0, e) refl,
    )

module _ ⦃texts : Texts⦄ where
  validate_questions-fixed :
      (forms : List QuizQuestionCreate)
      → All QuestionFits forms
      → validate_questions forms ≡ ok forms
  unfolding validate_questions
  validate_questions-fixed [] h = refl
  validate_questions-fixed (form ∷ forms) h = rw (h.0, validate_questions-fixed forms h.1) refl

  validate_create-fixed : (form : QuizCreate) → IsAccepted form → validate_create form ≡ ok form
  unfolding validate_create
  validate_create-fixed form (t, d, g, s, fit) =
      rw (t, d, g, s, validate_questions-fixed form.questions fit) refl

  -- The form of a quiz whose questions are in their order.
  abbrev form_of : Quiz → QuizSettingsCreate → QuizCreate
  form_of q settings = record {
    title = q.title;
    description = q.description;
    tags = q.tags;
    settings = settings;
    questions = map question_export q.questions;
  }

  export_quiz-form_of :
      (db : Db) (quiz_id : Uuid) (user : User) (q : Quiz) (settings : QuizSettingsCreate)
      {form : QuizCreate}
      → find? (λ (r : Quiz). r.quiz_id == quiz_id) db.quizzes ≡ some q
      → settings_of q ≡ ok settings
      → sort_by by_position q.questions ≡ q.questions
      → export_quiz db quiz_id user ≡ ok form
      → form ≡ form_of q settings
  unfolding export_quiz load_quiz
  export_quiz-form_of db quiz_id user q settings {form} found has_settings sorted h =
      elim (Bool-cases (q.creator_id == user.id)) [
        | inl mine ↦ ground (arith, rw (found, has_settings, sorted, sorted, mine) at h)
        | inr foreign ↦ absurd (ground (arith, h, found, has_settings, foreign))
      ]

  -- The form that a stored quiz is exported as.
  exported_form :
      (db : Db) (quiz_id : Uuid) (user : User) {form : QuizCreate}
      → All IsImportable db.quizzes
      → All IsWellFormed db.quizzes
      → export_quiz db quiz_id user ≡ ok form
      → (q : Quiz) × IsAccepted form
        × (form.questions ≡ map question_export q.questions)
        × All IsAnswerable q.questions
  exported_form db quiz_id user {form} fits shapes h =
      elim (Option-cases (find? (λ (r : Quiz). r.quiz_id == quiz_id) db.quizzes)) [
        | inl missing ↦
            absurd (unfold export_quiz in unfold load_quiz in ground (arith, h, missing))
        | inr (q, found) ↦
            let p = λ (r : Quiz). r.quiz_id == quiz_id in
            let (settings, has_settings, t, d, g, s, fit) =
              find?-All IsImportable p db.quizzes {x = q} fits found in
            let (numbered, answerable, playable) =
              find?-All IsWellFormed p db.quizzes {x = q} shapes found in
            let sorted =
              sort_by-of_IsSorted by_position q.questions
                (Numbered-IsSorted 1 q.questions numbered) in
            let whole =
              export_quiz-form_of db quiz_id user q settings found has_settings sorted h in
            rw whole (
              q,
              (t, d, g, s, All-of_map QuestionFits question_export q.questions fit),
              refl,
              answerable,
            )
      ]

  quiz_to_response-of_settings :
      (q : Quiz) (is_favorited : Bool) {settings : QuizSettingsCreate}
      → settings_of q ≡ ok settings
      → (out : QuizOut) × (quiz_to_response q is_favorited ≡ ok out)
  unfolding quiz_to_response
  quiz_to_response-of_settings q is_favorited e =
      elim (Result-cases (quiz_to_response q is_favorited)) [
        | inl returned ↦ returned
        | inr (x, failed) ↦ absurd (ground (arith, e, failed))
      ]

  -- The response to a quiz that has just been created.
  created_response :
      (fresh : Fresh) (user : User) (form : QuizCreate) (db db' : Db)
      (questions : List QuizQuestion)
      → any (has_id fresh.quiz_id) db.quizzes ≡ false
      → db'.quizzes ≡ db.quizzes ++ new_quiz fresh user form questions ∷ []
      → (out : QuizOut) × (respond fresh.quiz_id db' ≡ ok out)
  unfolding respond load_quiz
  created_response fresh user form db db' questions new wrote =
      rw (wrote, load_created fresh user form db.quizzes questions new)
        (quiz_to_response-of_settings (with_sorted_questions (new_quiz fresh user form questions))
          false refl)

  module _ ⦃jwt : Jwt⦄ ⦃secrets : Secrets⦄ where
    import_quiz_endpoint_done :
        (fresh : Fresh) (caller : Caller jwt.Token) (body : QuizCreate) (db : Db) {user : User}
        {form : QuizCreate} {u : Unit {0}} {db' : Db} {out : QuizOut}
        → get_current_user caller.now caller.cookie db ≡ ok user
        → validate_create body ≡ ok form
        → create_quiz fresh user form db ≡ (ok u, db')
        → respond fresh.quiz_id db' ≡ ok out
        → import_quiz_endpoint fresh caller body db ≡ (ok out, db')
    unfolding import_quiz_endpoint
    import_quiz_endpoint_done fresh caller body db let_in e made r =
        ground (arith, let_in, e, made, r)

    imported_back :
        (fresh : Fresh) (caller : Caller jwt.Token) (quiz_id : Uuid) (user importer : User)
        (db : Db) {form : QuizCreate}
        → All IsImportable db.quizzes
        → All IsWellFormed db.quizzes
        → any (has_id fresh.quiz_id) db.quizzes ≡ false
        → get_current_user caller.now caller.cookie db ≡ ok importer
        → export_quiz db quiz_id user ≡ ok form
        → (out : QuizOut) × (db' : Db) × (import_quiz_endpoint fresh caller form db ≡ (ok out, db'))
          × (export_quiz db' fresh.quiz_id importer ≡ ok form)
    imported_back fresh caller quiz_id user importer db {form} fits shapes new let_in h =
        let (q, accepted, questions, answerable) = exported_form db quiz_id user fits shapes h in
        let (built, e) = rebuilt fresh 1 q.questions answerable in
        let e' : build_questions fresh 1 form.questions ≡ ok built =
          ap (build_questions fresh 1) questions ∙ e in
        let db' : Db = record db {
          quizzes = db.quizzes ++ new_quiz fresh importer form built ∷ [];
        } in
        let made : create_quiz fresh importer form db ≡ (ok tt, db') =
          create_quiz_makes fresh importer form db e' in
        let (out, r) = created_response fresh importer form db db' built new refl in
        (
          out,
          db',
          import_quiz_endpoint_done fresh caller form db let_in
              (validate_create-fixed form accepted) made r,
          export_quiz-create_quiz fresh importer form db new made,
        )

    -- Where the stored quizzes are well-formed and accepted by the validators, whatever is exported
    -- can be imported by any user, under a fresh id. In whatever order the database then gives back
    -- the tags of quizzes and the answers of questions, the new quiz is exported as the same form, but
    -- for the order of its tags and of the answers of each question.
    pub import_quiz-export_quiz :
        (fresh : Fresh) (caller : Caller jwt.Token) (quiz_id : Uuid) (user importer : User)
        (db : Db) {form : QuizCreate} (reread : List Quiz)
        → All IsImportable db.quizzes
        → All IsWellFormed db.quizzes
        → any (has_id fresh.quiz_id) db.quizzes ≡ false
        → get_current_user caller.now caller.cookie db ≡ ok importer
        → export_quiz db quiz_id user ≡ ok form
        → Pairwise RereadQuiz (import_quiz_endpoint fresh caller form db).1.quizzes reread
        → (out : QuizOut) × (form' : QuizCreate) × ((import_quiz_endpoint fresh caller form db).0
            ≡ ok out)
          × (export_quiz
                (record (import_quiz_endpoint fresh caller form db).1 { quizzes = reread })
                fresh.quiz_id
                importer
              ≡ ok form')
          × SameForm form form'
    import_quiz-export_quiz fresh caller quiz_id user importer db {form} reread fits shapes new
          let_in h given =
        let (out, db', done, back) =
          imported_back fresh caller quiz_id user importer db fits shapes new let_in h in
        let left = ap (λ (r : Result QuizOut × Db). r.1) done in
        let (form', again, same) =
          export_quiz-RereadQuiz (import_quiz_endpoint fresh caller form db).1 reread fresh.quiz_id
            importer given (ap (λ d. export_quiz d fresh.quiz_id importer) left ∙ back) in
        (out, form', ap (λ (r : Result QuizOut × Db). r.0) done, again, same)
