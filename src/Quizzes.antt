-- ===== src/Quizzes.antt =====
-- `QuizService` of app/quiz/services.py: `set_quiz_status`, `toggle_favorite` and what all its methods
-- share.
pub mod Forms
pub mod Views
pub mod Authoring
pub mod Owners
pub mod Outcomes
pub mod Shape
pub mod Calls
pub mod Transfer
pub mod Reread
pub mod Links
pub mod Endpoints
pub mod Stats
pub mod Validation
use askit_backend.Exec.{
  Exec, invalid_quiz_data, modify, or_raise, pure, quiz_access_denied, quiz_not_found, raise_if,
  ◌>>=◌, ◌>>◌,
}
use askit_backend.Models.{Db, Quiz, QuizStatus, Time, User, Uuid, is_published, status_eq}
use askit_backend.Prelude.{
  Bool, Option, [], any, false, find?, if◌then◌else◌, nat_eq, none, not, select, some, string_eq,
  true, update, ◌&&◌, ◌++◌, ◌==◌, ◌∷◌,
}

abbrev pub publish_as : QuizStatus → Time → Quiz → Quiz
publish_as new_status now q = record q { status = new_status; updated_at = now }

abbrev pub has_questions : Quiz → Bool
has_questions q = elim q.questions [ [] ↦ false | x ∷ questions ↦ true ]

abbrev pub has_id : Uuid → Quiz → Bool
has_id quiz_id q = q.quiz_id == quiz_id

-- A write of the attributes of one loaded quiz.
abbrev pub write_quiz : Uuid → (Quiz → Quiz) → Db → Db
write_quiz quiz_id f db = record db { quizzes = update (has_id quiz_id) f db.quizzes }

-- The quiz that a user may change, or the refusal.
abbrev pub owned_quiz : Uuid → User → Exec Db Quiz
owned_quiz quiz_id user = do
  quiz ← (λ db. or_raise (find? (has_id quiz_id) db.quizzes) quiz_not_found db)
  raise_if (not (quiz.creator_id == user.id)) quiz_access_denied
  pure quiz

-- `set_quiz_status` up to its commit. The response that follows is `Views.respond`.
unfoldable pub set_quiz_status : Time → Uuid → QuizStatus → User → Exec Db (Unit {0})
set_quiz_status now quiz_id new_status user = do
  quiz ← owned_quiz quiz_id user
  raise_if (is_published new_status && not (has_questions quiz)) invalid_quiz_data
  modify (write_quiz quiz_id (publish_as new_status now))

abbrev pub is_pair : Uuid → Uuid → Uuid × Uuid → Bool
is_pair user_id quiz_id f = f.0 == user_id && f.1 == quiz_id

abbrev pub is_favorite : Uuid → Uuid → Db → Bool
is_favorite user_id quiz_id db = any (is_pair user_id quiz_id) db.favorites

abbrev pub owns : User → Option Quiz → Bool
owns user none = false
owns user (some q) = q.creator_id == user.id

abbrev pub drop_favorite : Uuid → Uuid → Db → Db
drop_favorite user_id quiz_id db = record db {
  favorites = select (λ f. not (is_pair user_id quiz_id f)) db.favorites;
}

abbrev pub add_favorite : Uuid → Uuid → Db → Db
add_favorite user_id quiz_id db = record db { favorites = db.favorites ++ (user_id, quiz_id) ∷ [] }

-- `none` where the quiz is missing or another user's, else whether it is a favorite now.
unfoldable pub toggle_favorite : Uuid → User → Db → Option Bool × Db
toggle_favorite quiz_id user db =
    if not (owns user (find? (λ (q : Quiz). q.quiz_id == quiz_id) db.quizzes))
    then (none, db)
    else if is_favorite user.id quiz_id db
    then (some false, drop_favorite user.id quiz_id db)
    else (some true, add_favorite user.id quiz_id db)
