-- ===== src/Quizzes/Authoring.antt =====
-- `QuizService.create_quiz`, `update_quiz` and `delete_quiz`, up to their responses. The rows of tags
-- are left out: a quiz holds the names.
use askit_backend.Exec.{
  Exec, Result, err, invalid_quiz_data, lift, modify, ok, quiz_published, raise_if, ◌>>=◌, ◌>>◌,
}
use askit_backend.Models.{
  Db, GamePlayer, GamePlayerAnswer, GameSession, Quiz, QuizAnswer, QuizQuestion, Time, User, Uuid,
  draft, is_published, status_eq,
}
use askit_backend.Prelude.{
  Bool, List, Option, [], any, if◌then◌else◌, nat_eq, none, not, select, some, string_eq, suc, ℕ,
  ◌&&◌, ◌++◌, ◌==◌, ◌∷◌,
}
use askit_backend.Quizzes.{owned_quiz, write_quiz}
use askit_backend.Quizzes.Forms.{
  QuizAnswerCreate, QuizCreate, QuizQuestionCreate, QuizSettingsCreate, QuizUpdate,
}

-- The ids and the time that a call draws.
pub record Fresh : Type 0 where
  pub quiz_id : Uuid
  pub question_ids : ℕ → Uuid
  pub answer_ids : ℕ → ℕ → Uuid
  pub now : Time

abbrev pub build_answers : (ℕ → Uuid) → ℕ → List QuizAnswerCreate → List QuizAnswer
build_answers next_id i [] = []
build_answers next_id i (a ∷ answers) =
    record { answer_id = next_id i; text = a.text; is_correct = a.is_correct }
    ∷ build_answers next_id (suc i) answers

abbrev pub any_correct : List QuizAnswer → Bool
any_correct answers = any (λ (a : QuizAnswer). a.is_correct) answers

abbrev pub build_question : Fresh → ℕ → QuizQuestionCreate → QuizQuestion
build_question fresh position form = record {
  question_id = fresh.question_ids position;
  text = form.text;
  position = position;
  time_limit = form.time_limit;
  allow_multiple_answers = form.allow_multiple_answers;
  answers = build_answers (fresh.answer_ids position) 0 form.answers;
}

-- `enumerate(data.questions, start=1)`: the first question without a correct answer raises.
unfoldable pub build_questions : Fresh → ℕ → List QuizQuestionCreate → Result (List QuizQuestion)
build_questions fresh position [] = ok []
build_questions fresh position (form ∷ forms) =
    let rest = build_questions fresh (suc position) forms in
    if any_correct (build_question fresh position form).answers
    then elim rest [
      | ok questions ↦ ok (build_question fresh position form ∷ questions)
      | err e ↦ err e
    ]
    else err invalid_quiz_data

abbrev pub new_quiz : Fresh → User → QuizCreate → List QuizQuestion → Quiz
new_quiz fresh user form questions = record {
  quiz_id = fresh.quiz_id;
  creator_id = user.id;
  title = form.title;
  description = form.description;
  default_time_per_question = form.settings.default_time_per_question;
  visibility = form.settings.visibility;
  status = draft;
  max_participants = some form.settings.max_participants;
  created_at = fresh.now;
  updated_at = fresh.now;
  questions = questions;
  tags = form.tags;
}

unfoldable pub create_quiz : Fresh → User → QuizCreate → Exec Db (Unit {0})
create_quiz fresh user form = do
  questions ← lift (build_questions fresh 1 form.questions)
  modify (λ db. record db { quizzes = db.quizzes ++ new_quiz fresh user form questions ∷ [] })

abbrev pub if_given : {A : Type 0} → Option A → A → A
if_given none old = old
if_given (some new) old = new

abbrev pub change_settings : Option QuizSettingsCreate → Quiz → Quiz
change_settings none q = q
change_settings (some settings) q = record q {
  default_time_per_question = settings.default_time_per_question;
  visibility = settings.visibility;
  max_participants = some settings.max_participants;
}

-- `data.description is not None`: a description cannot be taken away.
abbrev pub apply_update : Time → QuizUpdate → List QuizQuestion → Quiz → Quiz
apply_update now form questions q =
    let q' = change_settings form.settings q in
    record q' {
      title = if_given form.title q.title;
      description = elim form.description [ none ↦ q.description | some text ↦ some text ];
      tags = if_given form.tags q.tags;
      questions = questions;
      updated_at = now;
    }

abbrev pub updated_questions :
    Fresh → Option (List QuizQuestionCreate) → Quiz → Result (List QuizQuestion)
updated_questions fresh none q = ok q.questions
updated_questions fresh (some forms) q = build_questions fresh 1 forms

-- The foreign key of the players' answers drops those to a question that is deleted.
abbrev pub asks : Uuid → List QuizQuestion → Bool
asks question_id questions = any (λ (q : QuizQuestion). q.question_id == question_id) questions

abbrev pub drop_answers_to : List QuizQuestion → List GamePlayerAnswer → List GamePlayerAnswer
drop_answers_to questions rows =
    select (λ (a : GamePlayerAnswer). not (asks a.question_id questions)) rows

abbrev pub replaced_questions : QuizUpdate → Quiz → List QuizQuestion
replaced_questions form q = elim form.questions [ none ↦ [] | some forms ↦ q.questions ]

unfoldable pub update_quiz : Fresh → Uuid → User → QuizUpdate → Exec Db (Unit {0})
update_quiz fresh quiz_id user form = do
  quiz ← owned_quiz quiz_id user
  raise_if (is_published quiz.status) quiz_published
  questions ← lift (updated_questions fresh form.questions quiz)
  modify (λ db. record db { answers = drop_answers_to (replaced_questions form quiz) db.answers })
  modify (write_quiz quiz_id (apply_update fresh.now form questions))

-- The rows that go with a quiz: its sessions with their players and the answers of these, its
-- questions with all answers to them, and its places among the favorites.
abbrev pub is_deleted_session : Uuid → List GameSession → Uuid → Bool
is_deleted_session quiz_id sessions session_id =
    any (λ (s : GameSession). s.session_id == session_id && s.quiz_id == quiz_id) sessions

abbrev pub kept_players : Uuid → Db → List GamePlayer
kept_players quiz_id db =
    select (λ (p : GamePlayer). not (is_deleted_session quiz_id db.sessions p.session_id))
      db.players

abbrev pub is_kept_player : Uuid → Db → Uuid → Bool
is_kept_player quiz_id db player_id =
    any (λ (p : GamePlayer). p.player_id == player_id) (kept_players quiz_id db)

abbrev pub remove_quiz : Quiz → Db → Db
remove_quiz q db = record db {
  quizzes = select (λ (r : Quiz). not (r.quiz_id == q.quiz_id)) db.quizzes;
  favorites = select (λ f. not (f.1 == q.quiz_id)) db.favorites;
  sessions = select (λ (s : GameSession). not (s.quiz_id == q.quiz_id)) db.sessions;
  players = kept_players q.quiz_id db;
  answers =
      select
        (λ (a : GamePlayerAnswer).
          is_kept_player q.quiz_id db a.player_id && not (asks a.question_id q.questions))
        db.answers;
}

unfoldable pub delete_quiz : Uuid → User → Exec Db (Unit {0})
delete_quiz quiz_id user = do quiz ← owned_quiz quiz_id user; modify (remove_quiz quiz)
