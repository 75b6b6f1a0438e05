-- ===== src/Quizzes/Endpoints/Stored.antt =====
-- The requests keep what the validators accept.
use askit_backend.Auth.{get_current_user}
use askit_backend.Exec.{Error, Result-cases, err, ok}
use askit_backend.External.{Fields, Floats, Texts}
use askit_backend.External.Tokens.{Jwt, Secrets}
use askit_backend.Models.{Db, QuizStatus, Time, User, Uuid}
use askit_backend.Prelude.{All, arith, inl, inr, ◌≡◌}
use askit_backend.Quizzes.{set_quiz_status, toggle_favorite}
use askit_backend.Quizzes.Authoring.{Fresh, create_quiz, delete_quiz, update_quiz}
use askit_backend.Quizzes.Endpoints.{
  Caller, QuizRequest, create_quiz_endpoint, delete_quiz_at, delete_quiz_endpoint, export_at,
  get_favorites, get_list, get_quiz_at, import_quiz, import_quiz_endpoint, patch_quiz, patch_status,
  post_quiz, post_stats, route, set_quiz_status_endpoint, stats_at, toggle_at,
  toggle_favorite_endpoint, update_quiz_endpoint,
}
use askit_backend.Quizzes.Endpoints.Access.{
  caller_of, export_at_reads, get_favorites_reads, get_list_reads, get_quiz_at_reads,
  post_stats_reads, route_refused, stats_at_reads,
}
use askit_backend.Quizzes.Endpoints.Changes.{
  create_quiz-IsImportable, delete_quiz-IsImportable, set_quiz_status-IsImportable,
  update_quiz-IsImportable, validate_update-UpdateAccepted,
}
use askit_backend.Quizzes.Endpoints.Importable.{IsImportable, validate_create-IsAccepted}
use askit_backend.Quizzes.Forms.{QuizCreate, QuizUpdate}
use askit_backend.Quizzes.Owners.{IdsUnique}
use askit_backend.Quizzes.Validation.Bodies.{validate_create, validate_update}

module _ ⦃jwt : Jwt⦄ ⦃secrets : Secrets⦄ ⦃texts : Texts⦄ ⦃floats : Floats⦄ ⦃fields : Fields⦄ where
  module _ (db : Db) (user : User) where
    abbrev LetsIn : Caller jwt.Token → Type 0
    LetsIn caller = get_current_user caller.now caller.cookie db ≡ ok user

    post_quiz_stores :
        (fresh : Fresh) (caller : Caller jwt.Token) (body : QuizCreate) {form : QuizCreate}
        → LetsIn caller
        → validate_create body ≡ ok form
        → ((route (post_quiz fresh caller body) db).1 ≡ (create_quiz fresh user form db).1)
          × ((route (import_quiz fresh caller body) db).1 ≡ (create_quiz fresh user form db).1)
    unfolding route create_quiz_endpoint import_quiz_endpoint
    post_quiz_stores fresh caller body let_in e =
        (ground (arith, let_in, e), ground (arith, let_in, e))

    post_quiz_invalid :
        (fresh : Fresh) (caller : Caller jwt.Token) (body : QuizCreate) {x : Error}
        → LetsIn caller
        → validate_create body ≡ err x
        → ((route (post_quiz fresh caller body) db).1 ≡ db)
          × ((route (import_quiz fresh caller body) db).1 ≡ db)
    unfolding route create_quiz_endpoint import_quiz_endpoint
    post_quiz_invalid fresh caller body let_in e =
        (ground (arith, let_in, e), ground (arith, let_in, e))

    patch_quiz_stores :
        (fresh : Fresh) (caller : Caller jwt.Token) (quiz_id : Uuid) (body : QuizUpdate)
        {form : QuizUpdate}
        → LetsIn caller
        → validate_update body ≡ ok form
        → (route (patch_quiz fresh caller quiz_id body) db).1
          ≡ (update_quiz fresh quiz_id user form db).1
    unfolding route update_quiz_endpoint
    patch_quiz_stores fresh caller quiz_id body let_in e = ground (arith, let_in, e)

    patch_quiz_invalid :
        (fresh : Fresh) (caller : Caller jwt.Token) (quiz_id : Uuid) (body : QuizUpdate) {x : Error}
        → LetsIn caller
        → validate_update body ≡ err x
        → (route (patch_quiz fresh caller quiz_id body) db).1 ≡ db
    unfolding route update_quiz_endpoint
    patch_quiz_invalid fresh caller quiz_id body let_in e = ground (arith, let_in, e)

    patch_status_stores :
        (now : Time) (caller : Caller jwt.Token) (quiz_id : Uuid) (status : QuizStatus)
        → LetsIn caller
        → (route (patch_status now caller quiz_id status) db).1
          ≡ (set_quiz_status now quiz_id status user db).1
    unfolding route set_quiz_status_endpoint
    patch_status_stores now caller quiz_id status let_in = ground (arith, let_in)

    delete_quiz_stores :
        (caller : Caller jwt.Token) (quiz_id : Uuid)
        → LetsIn caller
        → (route (delete_quiz_at caller quiz_id) db).1 ≡ (delete_quiz quiz_id user db).1
    unfolding route delete_quiz_endpoint
    delete_quiz_stores caller quiz_id let_in = ground (arith, let_in)

    toggle_stores :
        (caller : Caller jwt.Token) (quiz_id : Uuid)
        → LetsIn caller
        → (route (toggle_at caller quiz_id) db).1.quizzes ≡ db.quizzes
    unfolding route toggle_favorite_endpoint toggle_favorite
    toggle_stores caller quiz_id let_in = ground (arith, let_in)

    posted-IsImportable :
        (fresh : Fresh) (caller : Caller jwt.Token) (body : QuizCreate)
        → LetsIn caller
        → All IsImportable db.quizzes
        → All IsImportable (route (post_quiz fresh caller body) db).1.quizzes
          × All IsImportable (route (import_quiz fresh caller body) db).1.quizzes
    posted-IsImportable fresh caller body let_in h = elim (Result-cases (validate_create body)) [
      | inr (x, e) ↦
          let (same, same') = post_quiz_invalid fresh caller body let_in e in
          (rw same h, rw same' h)
      | inl (form, e) ↦
          let (stored, stored') = post_quiz_stores fresh caller body let_in e in
          let kept =
            create_quiz-IsImportable fresh user form db (validate_create-IsAccepted body e) h in
          (rw stored kept, rw stored' kept)
    ]

    patched-IsImportable :
        (fresh : Fresh) (caller : Caller jwt.Token) (quiz_id : Uuid) (body : QuizUpdate)
        → LetsIn caller
        → IdsUnique db.quizzes
        → All IsImportable db.quizzes
        → All IsImportable (route (patch_quiz fresh caller quiz_id body) db).1.quizzes
    patched-IsImportable fresh caller quiz_id body let_in apart h =
        elim (Result-cases (validate_update body)) [
          | inr (x, e) ↦ rw (patch_quiz_invalid fresh caller quiz_id body let_in e) h
          | inl (form, e) ↦ rw (patch_quiz_stores fresh caller quiz_id body let_in e) (
              update_quiz-IsImportable fresh quiz_id user form db
                (validate_update-UpdateAccepted body e) apart h)
        ]

    served-IsImportable :
        (r : QuizRequest jwt.Token)
        → LetsIn (caller_of r)
        → IdsUnique db.quizzes
        → All IsImportable db.quizzes
        → All IsImportable (route r db).1.quizzes
    served-IsImportable (post_quiz fresh caller body) let_in apart h =
        (posted-IsImportable fresh caller body let_in h).0
    served-IsImportable (import_quiz fresh caller body) let_in apart h =
        (posted-IsImportable fresh caller body let_in h).1
    served-IsImportable (patch_quiz fresh caller quiz_id body) let_in apart h =
        patched-IsImportable fresh caller quiz_id body let_in apart h
    served-IsImportable (patch_status now caller quiz_id status) let_in apart h =
        rw (patch_status_stores now caller quiz_id status let_in)
          (set_quiz_status-IsImportable now quiz_id status user db apart h)
    served-IsImportable (delete_quiz_at caller quiz_id) let_in apart h =
        rw (delete_quiz_stores caller quiz_id let_in) (delete_quiz-IsImportable quiz_id user db h)
    served-IsImportable (toggle_at caller quiz_id) let_in apart h =
        rw (toggle_stores caller quiz_id let_in) h
    served-IsImportable (get_quiz_at caller quiz_id) let_in apart h =
        rw (get_quiz_at_reads db caller quiz_id) h
    served-IsImportable (export_at caller quiz_id) let_in apart h =
        rw (export_at_reads db caller quiz_id) h
    served-IsImportable (stats_at caller quiz_id) let_in apart h =
        rw (stats_at_reads db caller quiz_id) h
    served-IsImportable (get_list caller) let_in apart h = rw (get_list_reads db caller) h
    served-IsImportable (get_favorites caller) let_in apart h = rw (get_favorites_reads db caller) h
    served-IsImportable (post_stats caller quiz_ids) let_in apart h =
        rw (post_stats_reads db caller quiz_ids) h

  -- Every request to the quiz router keeps all stored quizzes such that the validators of a body
  -- accept each field of them as it is, where no two quizzes share an id.
  pub route-IsImportable :
      (r : QuizRequest jwt.Token) (db : Db)
      → IdsUnique db.quizzes
      → All IsImportable db.quizzes
      → All IsImportable (route r db).1.quizzes
  route-IsImportable r db apart h =
      elim (Result-cases (get_current_user (caller_of r).now (caller_of r).cookie db)) [
        | inr (x, e) ↦ rw (route_refused r db e) h
        | inl (user, e) ↦ served-IsImportable db user r e apart h
      ]
