-- ===== src/Quizzes/Owners.antt =====
-- What an owner can do with a quiz.
use askit_backend.Exec.{Error, err, ok}
use askit_backend.Models.{
  Db, Quiz, QuizStatus, Time, User, Uuid, draft, is_published, published, status_eq,
}
use askit_backend.Prelude.{
  All, Bool, Bool-cases, List, Option-cases, [], any, any-append, arith, false, find?,
  if◌then◌else◌, inl, inr, nat_eq, not, refl, select, some, some-injective, string_eq, subst, sym,
  true, update, ◌&&◌, ◌==◌, ◌∷◌, ◌≡◌, ◌⊎◌,
}
use askit_backend.Quizzes.{
  has_id, has_questions, is_favorite, is_pair, owns, publish_as, set_quiz_status, toggle_favorite,
  write_quiz,
}

-- Every published quiz has a question.
abbrev pub IsPlayable : Quiz → Type 0
IsPlayable q = (is_published q.status ≡ false) ⊎ (has_questions q ≡ true)

pub published_as-IsPlayable :
    (now : Time) (new_status : QuizStatus) (q : Quiz)
    → (is_published new_status && not (has_questions q)) ≡ false
    → IsPlayable (publish_as new_status now q)
published_as-IsPlayable now draft q h = inl refl
published_as-IsPlayable now published q h = inr (ground arith)

-- No two quizzes share an id.
abbrev pub IdsUnique : List Quiz → Type 0
IdsUnique [] = Unit
IdsUnique (q ∷ quizzes) =
    (any (λ (r : Quiz). r.quiz_id == q.quiz_id) quizzes ≡ false) × IdsUnique quizzes

pub update-absent :
    (quiz_id : Uuid) (f : Quiz → Quiz) (quizzes : List Quiz)
    → any (λ (r : Quiz). r.quiz_id == quiz_id) quizzes ≡ false
    → update (λ (r : Quiz). r.quiz_id == quiz_id) f quizzes ≡ quizzes
update-absent quiz_id f [] h = refl
update-absent quiz_id f (q ∷ quizzes) h = ground (arith, update-absent quiz_id f quizzes)

-- What holds of all quizzes still does when the one that is found is changed within it.
pub update-All :
    (P : Quiz → Type 0) (quiz_id : Uuid) (f : Quiz → Quiz) (quizzes : List Quiz) {quiz : Quiz}
    → IdsUnique quizzes
    → find? (has_id quiz_id) quizzes ≡ some quiz
    → (P quiz → P (f quiz))
    → All P quizzes
    → All P (update (has_id quiz_id) f quizzes)
update-All P quiz_id f [] u found keep h = tt
update-All P quiz_id f (q ∷ quizzes) {quiz} u found keep h = elim (Bool-cases (has_id quiz_id q)) [
  | inl e ↦
      let same : q ≡ quiz = some-injective _ _ (rw e at found) in
      rw (e, update-absent quiz_id f quizzes (ground (arith, u.0)))
        (subst (λ x. P x → P (f x)) (sym same) keep h.0, h.1)
  | inr e ↦ rw e (h.0, update-All P quiz_id f quizzes u.1 (rw e at found) keep h.1)
]

pub set_quiz_status_refused :
    (now : Time) (quiz_id : Uuid) (new_status : QuizStatus) (user : User) (db : Db) {e : Error}
    {db' : Db}
    → set_quiz_status now quiz_id new_status user db ≡ (err e, db')
    → db' ≡ db
unfolding set_quiz_status
set_quiz_status_refused now quiz_id new_status user db h = ground arith

pub set_quiz_status_done :
    (now : Time) (quiz_id : Uuid) (new_status : QuizStatus) (user : User) (db : Db) {u : Unit {0}}
    {db' : Db}
    → set_quiz_status now quiz_id new_status user db ≡ (ok u, db')
    → (quiz : Quiz) × (find? (has_id quiz_id) db.quizzes ≡ some quiz)
      × (quiz.creator_id ≡ user.id)
      × ((is_published new_status && not (has_questions quiz)) ≡ false)
      × (db' ≡ write_quiz quiz_id (publish_as new_status now) db)
unfolding set_quiz_status
set_quiz_status_done now quiz_id new_status user db h =
    elim (Option-cases (find? (has_id quiz_id) db.quizzes)) [
      | inl missing ↦ absurd (ground arith)
      | inr (quiz, found) ↦ (quiz, found, ground arith, ground arith, ground arith)
    ]

any-dropped :
    (u q u' q' : Uuid) (favorites : List (Uuid × Uuid))
    → any (is_pair u' q') (select (λ f. not (is_pair u q f)) favorites)
      ≡ (if u' == u && q' == q then false else any (is_pair u' q') favorites)
any-dropped u q u' q' [] = ground arith
any-dropped u q u' q' (f ∷ favorites) = ground (arith, any-dropped u q u' q' favorites)

-- A toggle that finds the quiz is by its owner, and turns over whether it is a favorite of the owner.
-- It changes this for no other user and no other quiz.
pub toggle_favorite_flips :
    (quiz_id : Uuid) (user : User) (db : Db) {now_favorite : Bool} {db' : Db}
    → toggle_favorite quiz_id user db ≡ (some now_favorite, db')
    → (owns user (find? (λ (q : Quiz). q.quiz_id == quiz_id) db.quizzes) ≡ true)
      × (now_favorite ≡ not (is_favorite user.id quiz_id db))
      × ((u q : Uuid)
          → is_favorite u q db'
            ≡ (if u == user.id && q == quiz_id then now_favorite else is_favorite u q db))
unfolding toggle_favorite
toggle_favorite_flips quiz_id user db {now_favorite} {db'} h = (
  ground arith,
  ground arith,
  λ u q. elim (Bool-cases (is_favorite user.id quiz_id db)) [
    | inl e ↦ ground (arith, any-dropped user.id quiz_id u q db.favorites)
    | inr e ↦ ground (arith, any-append (is_pair u q) db.favorites ((user.id, quiz_id) ∷ []))
  ],
)
