-- ===== src/Quizzes/Reread.antt =====
-- Stored quizzes as the database may give them back: `Quiz.tags` and `QuizQuestion.answers` of
-- app/models/quiz.py have no `order_by`, so the tags of a quiz and the answers of a question come in
-- any order.
use mathlib.Core.List.{Permᴰ}
use mathlib.Core.Logic.{∥∥₁_map}
use askit_backend.Exec.{Result-cases, ok}
use askit_backend.Game.World.{by_position, load_quiz}
use askit_backend.Models.{Db, Quiz, QuizQuestion, User, Uuid}
use askit_backend.Prelude.{
  Bool, Bool-cases, List, Option-cases, Perm, [], ap, arith, find?, inl, inr, map, nat_eq, refl,
  some, some-injective, string_eq, subst, sym, ◌==◌, ◌∙◌, ◌∷◌, ◌≡◌,
}
use askit_backend.Prelude.Sorting.{insert_by, sort_by}
use askit_backend.Quizzes.Forms.{QuizCreate, QuizQuestionCreate, QuizSettingsCreate}
use askit_backend.Quizzes.Views.{answer_export, export_quiz, question_export, settings_of}

-- Two lists of one length, related element by element.
abbrev pub Pairwise {ℓ} : {A : Type ℓ} → (A → A → Type 0) → List A → List A → Type 0
Pairwise R [] [] = Unit
Pairwise R [] (y ∷ ys) = ⊥
Pairwise R (x ∷ xs) [] = ⊥
Pairwise R (x ∷ xs) (y ∷ ys) = R x y × Pairwise R xs ys

abbrev pub RereadQuestion : QuizQuestion → QuizQuestion → Type 0
RereadQuestion q q' = (q' ≡ record q { answers = q'.answers }) × Perm q.answers q'.answers

abbrev pub RereadQuiz : Quiz → Quiz → Type 0
RereadQuiz q q' =
    (q' ≡ record q { tags = q'.tags; questions = q'.questions })
    × Perm q.tags q'.tags
    × Pairwise RereadQuestion q.questions q'.questions

-- Forms that differ in the order of tags and of answers at most.
abbrev pub SameQuestion : QuizQuestionCreate → QuizQuestionCreate → Type 0
SameQuestion form form' =
    (form' ≡ record form { answers = form'.answers }) × Perm form.answers form'.answers

abbrev pub SameForm : QuizCreate → QuizCreate → Type 0
SameForm form form' =
    (form' ≡ record form { tags = form'.tags; questions = form'.questions })
    × Perm form.tags form'.tags
    × Pairwise SameQuestion form.questions form'.questions

module _ {ℓ} {A : Type ℓ} (R : A → A → Type 0) (before : A → A → Bool)
    (alike : (x x' y y' : A) → R x x' → R y y' → before x y ≡ before x' y') where
  insert_by-Pairwise :
      (x x' : A) (ys ys' : List A)
      → R x x'
      → Pairwise R ys ys'
      → Pairwise R (insert_by before x ys) (insert_by before x' ys')
  insert_by-Pairwise x x' [] [] r h = (r, tt)
  insert_by-Pairwise x x' [] (y' ∷ ys') r h = absurd h
  insert_by-Pairwise x x' (y ∷ ys) [] r h = absurd h
  insert_by-Pairwise x x' (y ∷ ys) (y' ∷ ys') r h =
      let rest = insert_by-Pairwise x x' ys ys' r h.1 in
      let same = alike y y' x x' h.0 r in
      elim (Bool-cases (before y x)) [
        | inl e ↦ rw (e, sym same ∙ e) (h.0, rest)
        | inr e ↦ rw (e, sym same ∙ e) (r, h)
      ]

  sort_by-Pairwise :
      (xs xs' : List A) → Pairwise R xs xs' → Pairwise R (sort_by before xs) (sort_by before xs')
  unfolding sort_by
  sort_by-Pairwise [] [] h = tt
  sort_by-Pairwise [] (x' ∷ xs') h = absurd h
  sort_by-Pairwise (x ∷ xs) [] h = absurd h
  sort_by-Pairwise (x ∷ xs) (x' ∷ xs') h =
      insert_by-Pairwise x x' (sort_by before xs) (sort_by before xs') h.0
        (sort_by-Pairwise xs xs' h.1)

by_position-alike :
    (x x' y y' : QuizQuestion)
    → RereadQuestion x x'
    → RereadQuestion y y'
    → by_position x y ≡ by_position x' y'
by_position-alike x x' y y' h k =
    cc (ap (λ (q : QuizQuestion). q.position) h.0, ap (λ (q : QuizQuestion). q.position) k.0)

find?-RereadQuiz :
    (quiz_id : Uuid) (quizzes reread : List Quiz) {q : Quiz}
    → Pairwise RereadQuiz quizzes reread
    → find? (λ (r : Quiz). r.quiz_id == quiz_id) quizzes ≡ some q
    → (q' : Quiz) × (find? (λ (r : Quiz). r.quiz_id == quiz_id) reread ≡ some q') × RereadQuiz q q'
find?-RereadQuiz quiz_id [] [] h found = absurd (ground (arith, found))
find?-RereadQuiz quiz_id [] (r' ∷ reread) h found = absurd h
find?-RereadQuiz quiz_id (r ∷ quizzes) [] h found = absurd h
find?-RereadQuiz quiz_id (r ∷ quizzes) (r' ∷ reread) {q} h found =
    let own : r'.quiz_id ≡ r.quiz_id = ap (λ (x : Quiz). x.quiz_id) h.0.0 in
    elim (Bool-cases (r.quiz_id == quiz_id)) [
      | inl e ↦
          let same : r ≡ q = some-injective _ _ (rw e at found) in
          (r', rw (own, e) refl, subst (λ x. RereadQuiz x r') same h.0)
      | inr e ↦
          let (q', found', related) = find?-RereadQuiz quiz_id quizzes reread h.1 (rw e at found) in
          (q', rw (own, e) found', related)
    ]

Permᴰ-map : {A B : Type 0} (f : A → B) {xs ys : List A} → Permᴰ xs ys → Permᴰ (map f xs) (map f ys)
Permᴰ-map f Permᴰ.nil = Permᴰ.nil
Permᴰ-map f (Permᴰ.cons e d) = Permᴰ.cons (ap f e) (Permᴰ-map f d)
Permᴰ-map f (Permᴰ.swap e e') = Permᴰ.swap (ap f e) (ap f e')
Permᴰ-map f (Permᴰ.trans d d') = Permᴰ.trans (Permᴰ-map f d) (Permᴰ-map f d')

Perm-map : {A B : Type 0} (f : A → B) {xs ys : List A} → Perm xs ys → Perm (map f xs) (map f ys)
Perm-map f {xs} {ys} p = ∥∥₁_map {B = Permᴰ (map f xs) (map f ys)} p (λ d. Permᴰ-map f d)

questions-exported :
    (questions reread : List QuizQuestion)
    → Pairwise RereadQuestion questions reread
    → Pairwise SameQuestion (map question_export questions) (map question_export reread)
questions-exported [] [] h = tt
questions-exported [] (q' ∷ reread) h = absurd h
questions-exported (q ∷ questions) [] h = absurd h
questions-exported (q ∷ questions) (q' ∷ reread) h = (
  (ap question_export h.0.0, Perm-map answer_export h.0.1),
  questions-exported questions reread h.1,
)

-- The form that a quiz is exported as.
abbrev exported : Quiz → QuizSettingsCreate → QuizCreate
exported q settings = record {
  title = q.title;
  description = q.description;
  tags = q.tags;
  settings = settings;
  questions = map question_export (sort_by by_position (sort_by by_position q.questions));
}

exported-RereadQuiz :
    (q q' : Quiz) (settings : QuizSettingsCreate)
    → RereadQuiz q q'
    → SameForm (exported q settings) (exported q' settings)
exported-RereadQuiz q q' settings h =
    let sorted =
      sort_by-Pairwise RereadQuestion by_position by_position-alike q.questions q'.questions h.2 in
    (
      ap (λ x. exported x settings) h.0,
      h.1,
      questions-exported _ _
          (sort_by-Pairwise RereadQuestion by_position by_position-alike _ _ sorted),
    )

-- What is exported after the quizzes were read again is what was exported before, but for the order of
-- tags and of answers.
pub export_quiz-RereadQuiz :
    (db : Db) (reread : List Quiz) (quiz_id : Uuid) (user : User) {form : QuizCreate}
    → Pairwise RereadQuiz db.quizzes reread
    → export_quiz db quiz_id user ≡ ok form
    → (form' : QuizCreate) × (export_quiz (record db { quizzes = reread }) quiz_id user ≡ ok form')
      × SameForm form form'
unfolding export_quiz load_quiz
export_quiz-RereadQuiz db reread quiz_id user {form} h done =
    elim (Option-cases (find? (λ (r : Quiz). r.quiz_id == quiz_id) db.quizzes)) [
      | inl missing ↦ absurd (ground (arith, done, missing))
      | inr (q, found) ↦ elim (Result-cases (settings_of q)) [
        | inr (x, failed) ↦ absurd (ground (arith, done, found, failed))
        | inl (settings, has_settings) ↦ elim (Bool-cases (q.creator_id == user.id)) [
          | inr stranger ↦ absurd (ground (arith, done, found, has_settings, stranger))
          | inl mine ↦
              let (q', found', related) = find?-RereadQuiz quiz_id db.quizzes reread h found in
              let owner : q'.creator_id ≡ q.creator_id =
                ap (λ (r : Quiz). r.creator_id) related.0 in
              let set_ : settings_of q' ≡ ok settings = ap settings_of related.0 ∙ has_settings in
              let whole : form ≡ exported q settings =
                ground (arith, rw (found, has_settings, mine) at done) in
              (
                exported q' settings,
                rw (found', set_, owner, mine) refl,
                rw whole (exported-RereadQuiz q q' settings related),
              )
        ]
      ]
    ]
