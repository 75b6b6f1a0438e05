-- ===== src/Quizzes/Calls.antt =====
-- The calls of users that change quizzes, and what they can change.
use askit_backend.Exec.{Error, Result, Result-cases, err, ok}
use askit_backend.Models.{Db, Quiz, QuizQuestion, QuizStatus, Time, User, Uuid, status_eq}
use askit_backend.Prelude.{
  All, Bool-cases, List, [], any, append-nil, arith, false, find?, find?-some, inl, inr, nat_eq,
  not, refl, select, select-append, some, some-injective, string_eq, subst, sym, true, update, ◌++◌,
  ◌==◌, ◌∙◌, ◌∷◌, ◌≡◌, ◌⊎◌,
}
use askit_backend.Quizzes.{has_id, publish_as, set_quiz_status, toggle_favorite}
use askit_backend.Quizzes.Authoring.{
  Fresh, apply_update, build_questions, create_quiz, delete_quiz, new_quiz, update_quiz,
}
use askit_backend.Quizzes.Forms.{QuizCreate, QuizUpdate}
use askit_backend.Quizzes.Outcomes.{
  delete_quiz_done, delete_quiz_refused, update_quiz_done, update_quiz_refused,
}
use askit_backend.Quizzes.Owners.{
  IdsUnique, published_as-IsPlayable, set_quiz_status_done, set_quiz_status_refused, update-absent,
}
use askit_backend.Quizzes.Shape.{IsWellFormed, apply_update-keeps, updated-IsWellFormed}

pub data QuizCall : Type 0 where
  creates : Fresh → QuizCreate → QuizCall
  updates : Fresh → Uuid → QuizUpdate → QuizCall
  deletes : Uuid → QuizCall
  sets_status : Time → Uuid → QuizStatus → QuizCall
  toggles : Uuid → QuizCall

-- The database after a call by the user, whether or not it raises.
unfoldable pub call : User → QuizCall → Db → Db
call user (creates fresh form) db = (create_quiz fresh user form db).1
call user (updates fresh quiz_id form) db = (update_quiz fresh quiz_id user form db).1
call user (deletes quiz_id) db = (delete_quiz quiz_id user db).1
call user (sets_status now quiz_id status) db = (set_quiz_status now quiz_id status user db).1
call user (toggles quiz_id) db = (toggle_favorite quiz_id user db).1

-- The ways in which a user's call changes the table of quizzes.
pub data Change (user : User) (quizzes : List Quiz) : List Quiz → Type 0 where
  nothing : Change user quizzes quizzes
  added :
      (fresh : Fresh) (form : QuizCreate) (questions : List QuizQuestion)
      → build_questions fresh 1 form.questions ≡ ok questions
      → Change user quizzes (quizzes ++ new_quiz fresh user form questions ∷ [])
  changed :
      (quiz_id : Uuid) (f : Quiz → Quiz) (quiz : Quiz)
      → find? (has_id quiz_id) quizzes ≡ some quiz
      → quiz.creator_id ≡ user.id
      → (f quiz).creator_id ≡ quiz.creator_id
      → (IsWellFormed quiz → IsWellFormed (f quiz))
      → Change user quizzes (update (has_id quiz_id) f quizzes)
  removed :
      (quiz_id : Uuid) (quiz : Quiz)
      → find? (has_id quiz_id) quizzes ≡ some quiz
      → quiz.creator_id ≡ user.id
      → Change user quizzes (select (λ (r : Quiz). not (has_id quiz.quiz_id r)) quizzes)

create_quiz-Change :
    (user : User) (fresh : Fresh) (form : QuizCreate) (db : Db)
    → Change user db.quizzes (create_quiz fresh user form db).1.quizzes
unfolding create_quiz
create_quiz-Change user fresh form db =
    elim (Result-cases (build_questions fresh 1 form.questions)) [
      | inl (questions, e) ↦ rw e (added fresh form questions e)
      | inr (x, e) ↦ rw e nothing
    ]

-- A call that raises leaves the table as it was, and one that returns has changed it.
of_outcome :
    {A : Type 0} (user : User) (db : Db) (out : Result A × Db)
    → ((e : Error) (db' : Db) → out ≡ (err e, db') → db' ≡ db)
    → ((a : A) (db' : Db) → out ≡ (ok a, db') → Change user db.quizzes db'.quizzes)
    → Change user db.quizzes out.1.quizzes
of_outcome user db (ok a, db') failed returned = returned a db' refl
of_outcome user db (err e, db') failed returned =
    subst (λ (d : Db). Change user db.quizzes d.quizzes) (sym (failed e db' refl)) nothing

toggle_favorite-quizzes :
    (quiz_id : Uuid) (user : User) (db : Db)
    → (toggle_favorite quiz_id user db).1.quizzes ≡ db.quizzes
unfolding toggle_favorite
toggle_favorite-quizzes quiz_id user db = ground arith

pub call-Change :
    (user : User) (c : QuizCall) (db : Db) → Change user db.quizzes (call user c db).quizzes
unfolding call
call-Change user (creates fresh form) db = create_quiz-Change user fresh form db
call-Change user (toggles quiz_id) db =
    subst (Change user db.quizzes) (sym (toggle_favorite-quizzes quiz_id user db)) nothing
call-Change user (deletes quiz_id) db =
    of_outcome user db (delete_quiz quiz_id user db) (λ e db'. delete_quiz_refused quiz_id user db)
      (λ u db' h.
        let (quiz, found, owner, gone) = delete_quiz_done quiz_id user db h in
        subst (λ (d : Db). Change user db.quizzes d.quizzes) (sym gone)
          (removed quiz_id quiz found owner))
call-Change user (updates fresh quiz_id form) db =
    of_outcome user db (update_quiz fresh quiz_id user form db)
      (λ e db'. update_quiz_refused fresh quiz_id user form db)
      (λ u db' h.
        let (quiz, questions, found, owner, unpublished, e, wrote) =
          update_quiz_done fresh quiz_id user form db h in
        subst (λ (d : Db). Change user db.quizzes d.quizzes) (sym wrote)
          (changed quiz_id (apply_update fresh.now form questions) quiz found owner
            (apply_update-keeps fresh.now form questions quiz).1
            (updated-IsWellFormed fresh form quiz e unpublished)))
call-Change user (sets_status now quiz_id status) db =
    of_outcome user db (set_quiz_status now quiz_id status user db)
      (λ e db'. set_quiz_status_refused now quiz_id status user db)
      (λ u db' h.
        let (quiz, found, owner, guard, wrote) =
          set_quiz_status_done now quiz_id status user db h in
        subst (λ (d : Db). Change user db.quizzes d.quizzes) (sym wrote)
          (changed quiz_id (publish_as status now) quiz found owner refl
            (λ w. (w.0, w.1, published_as-IsPlayable now status quiz guard))))

-- The quizzes of other users.
abbrev pub others : User → List Quiz → List Quiz
others user quizzes = select (λ (q : Quiz). not (q.creator_id == user.id)) quizzes

others-update :
    (user : User) (quiz_id : Uuid) (f : Quiz → Quiz) (quizzes : List Quiz) {quiz : Quiz}
    → IdsUnique quizzes
    → find? (has_id quiz_id) quizzes ≡ some quiz
    → quiz.creator_id ≡ user.id
    → (f quiz).creator_id ≡ quiz.creator_id
    → others user (update (has_id quiz_id) f quizzes) ≡ others user quizzes
others-update user quiz_id f [] u found owner keep = refl
others-update user quiz_id f (q ∷ quizzes) {quiz} u found owner keep =
    elim (Bool-cases (has_id quiz_id q)) [
      | inl e ↦
          let same : q ≡ quiz = some-injective _ _ (rw e at found) in
          let mine : (q.creator_id == user.id) ≡ true = ground (arith, owner, same) in
          let still : ((f q).creator_id == user.id) ≡ true = ground (arith, owner, same, keep) in
          rw (e, update-absent quiz_id f quizzes (ground (arith, u.0)), mine, still) refl
      | inr e ↦ ground (arith, others-update user quiz_id f quizzes u.1 (rw e at found) owner keep)
    ]

others-remove :
    (user : User) (quiz : Quiz) (quizzes : List Quiz)
    → All (λ (q : Quiz). (has_id quiz.quiz_id q ≡ false) ⊎ (q.creator_id ≡ user.id)) quizzes
    → others user (select (λ (r : Quiz). not (has_id quiz.quiz_id r)) quizzes) ≡ others user quizzes
others-remove user quiz [] h = refl
others-remove user quiz (q ∷ quizzes) h = elim h.0 [
  | inl e ↦ ground (arith, others-remove user quiz quizzes h.1)
  | inr e ↦ ground (arith, others-remove user quiz quizzes h.1)
]

absent :
    (user : User) (quiz_id : Uuid) (quizzes : List Quiz)
    → any (has_id quiz_id) quizzes ≡ false
    → All (λ (q : Quiz). (has_id quiz_id q ≡ false) ⊎ (q.creator_id ≡ user.id)) quizzes
absent user quiz_id [] h = tt
absent user quiz_id (q ∷ quizzes) h =
    (inl (ground arith), absent user quiz_id quizzes (ground arith))

sole :
    (user : User) (quiz_id : Uuid) (quizzes : List Quiz) {quiz : Quiz}
    → IdsUnique quizzes
    → find? (has_id quiz_id) quizzes ≡ some quiz
    → quiz.creator_id ≡ user.id
    → All (λ (q : Quiz). (has_id quiz.quiz_id q ≡ false) ⊎ (q.creator_id ≡ user.id)) quizzes
sole user quiz_id [] u found owner = tt
sole user quiz_id (q ∷ quizzes) {quiz} u found owner =
    let id : quiz.quiz_id ≡ quiz_id =
      ground (arith, find?-some (has_id quiz_id) (q ∷ quizzes) {x = quiz} found) in
    elim (Bool-cases (has_id quiz_id q)) [
      | inl e ↦
          let same : q ≡ quiz = some-injective _ _ (rw e at found) in
          (
            inr (ground (arith, owner, same)),
            absent user quiz.quiz_id quizzes (ground (arith, u.0, same)),
          )
      | inr e ↦ (inl (ground (arith, id)), sole user quiz_id quizzes u.1 (rw e at found) owner)
    ]

Change-others :
    (user : User) {quizzes quizzes' : List Quiz}
    → Change user quizzes quizzes'
    → IdsUnique quizzes
    → others user quizzes' ≡ others user quizzes
Change-others user nothing u = refl
Change-others user {quizzes} (added fresh form questions e) u =
    select-append (λ (q : Quiz). not (q.creator_id == user.id)) quizzes
      (new_quiz fresh user form questions ∷ [])
    ∙ ground (arith, append-nil (others user quizzes))
Change-others user {quizzes} (changed quiz_id f quiz found owner keep _) u =
    others-update user quiz_id f quizzes u found owner keep
Change-others user {quizzes} (removed quiz_id quiz found owner) u =
    others-remove user quiz quizzes (sole user quiz_id quizzes u found owner)

-- Whatever a user calls, the quizzes of all others stay as they are, in their order, where no two
-- quizzes share an id.
pub call-others :
    (user : User) (c : QuizCall) (db : Db)
    → IdsUnique db.quizzes
    → others user (call user c db).quizzes ≡ others user db.quizzes
call-others user c db u = Change-others user (call-Change user c db) u
