-- ===== src/Quizzes/Stats/Groups.antt =====
-- What the statistics of quizzes are computed from.
use askit_backend.Exec.{Error, err, quiz_access_denied, quiz_not_found, value_error}
use askit_backend.External.{Fields, Floats, Texts}
use askit_backend.Models.{Db, GameSession, Quiz, User, Uuid, status_eq}
use askit_backend.Prelude.{
  Bool, Bool-cases, Option-cases, any, find?, inl, inr, nat_eq, refl, string_eq, ◌&&◌, ◌==◌, ◌≡◌,
}
use askit_backend.Prelude.Dict.{Dict}
use askit_backend.Quizzes.{has_id}
use askit_backend.Quizzes.Forms.{QuizStatsOut}
use askit_backend.Quizzes.Stats.{
  Played, compute_quiz_stats, finished_sessions, get_quiz_stats, stats_of,
}

module _ ⦃floats : Floats⦄ ⦃fields : Fields⦄ where
  -- The statistics of one quiz are refused to everyone: the id that they are to hold is not a text.
  pub get_quiz_stats_refused :
      (db : Db) (quiz_id : Uuid) (user : User)
      → (e : Error) × (get_quiz_stats db quiz_id user ≡ err e)
  unfolding get_quiz_stats compute_quiz_stats
  get_quiz_stats_refused db quiz_id user = elim (Option-cases (find? (has_id quiz_id) db.quizzes)) [
    | inl missing ↦ (quiz_not_found, rw missing refl)
    | inr (quiz, found) ↦ elim (Bool-cases (quiz.creator_id == user.id)) [
      | inl e ↦ (value_error, rw (found, e, fields.str_field-uuid quiz_id) refl)
      | inr e ↦ (quiz_access_denied, rw (found, e) refl)
    ]
  ]

module _ ⦃texts : Texts⦄ where
  abbrev of_quiz : Uuid → Played → Bool
  of_quiz qid p = p.0.quiz_id == qid

abbrev pub is_own : Db → User → Uuid → Bool
is_own db user qid = any (λ (q : Quiz). q.quiz_id == qid && q.creator_id == user.id) db.quizzes

module _ ⦃floats : Floats⦄ ⦃fields : Fields⦄ ⦃texts : Texts⦄ where
  abbrev pub stats_for : Db → Uuid → QuizStatsOut
  stats_for db qid =
      stats_of (texts.str qid) (finished_sessions db (λ (s : GameSession). s.quiz_id == qid))
