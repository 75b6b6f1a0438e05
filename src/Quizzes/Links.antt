-- ===== src/Quizzes/Links.antt =====
-- The foreign keys between the tables.
pub mod Calls
use askit_backend.Models.{Db, GamePlayer, GamePlayerAnswer, GameSession, Quiz, Uuid}
use askit_backend.Prelude.{
  All, All-both, All-map, Bool, Bool-cases, List, [], any, arith, find?, inl, inr, nat_eq, refl,
  some, some-injective, string_eq, subst, sym, true, update, ◌==◌, ◌∷◌, ◌≡◌,
}
use askit_backend.Quizzes.{has_id, write_quiz}
use askit_backend.Quizzes.Authoring.{asks}
use askit_backend.Quizzes.Owners.{IdsUnique, update-absent}

abbrev pub is_asked : Uuid → Quiz → Bool
is_asked question_id q = asks question_id q.questions

-- Each session and each favorite is of a quiz, each player in a session, and each answer by a player
-- to a question of a quiz.
abbrev pub IsLinked : Db → Type 0
IsLinked db =
    All (λ (s : GameSession). any (has_id s.quiz_id) db.quizzes ≡ true) db.sessions
    × All (λ (f : Uuid × Uuid). any (has_id f.1) db.quizzes ≡ true) db.favorites
    × All
        (λ (p : GamePlayer).
          any (λ (s : GameSession). s.session_id == p.session_id) db.sessions ≡ true)
        db.players
    × All
        (λ (a : GamePlayerAnswer).
          (any (λ (p : GamePlayer). p.player_id == a.player_id) db.players ≡ true)
          × (any (is_asked a.question_id) db.quizzes ≡ true))
        db.answers

-- What is found in the quizzes still is once the one with an id is changed.
update-any :
    (p : Quiz → Bool) (quiz_id : Uuid) (f : Quiz → Quiz) (quizzes : List Quiz) {quiz : Quiz}
    → IdsUnique quizzes
    → find? (has_id quiz_id) quizzes ≡ some quiz
    → (p quiz ≡ true → p (f quiz) ≡ true)
    → any p quizzes ≡ true
    → any p (update (has_id quiz_id) f quizzes) ≡ true
update-any p quiz_id f [] {quiz} u found keep h = h
update-any p quiz_id f (q ∷ quizzes) {quiz} u found keep h = elim (Bool-cases (has_id quiz_id q)) [
  | inl e ↦
      let same : q ≡ quiz = some-injective _ _ (rw e at found) in
      let keep' : p q ≡ true → p (f q) ≡ true =
        subst (λ x. p x ≡ true → p (f x) ≡ true) (sym same) keep in
      rw (e, update-absent quiz_id f quizzes (ground (arith, u.0)))
        (elim (Bool-cases (p q)) [ inl e' ↦ rw (keep' e') refl | inr e' ↦ ground arith ])
  | inr e ↦ rw e (ground (arith, update-any p quiz_id f quizzes u.1 (rw e at found) keep))
]

-- Where the quizzes keep what they are found by.
pub relinked :
    (db : Db) (quizzes : List Quiz) (rows : List GamePlayerAnswer)
    → ((quiz_id : Uuid)
        → any (has_id quiz_id) db.quizzes ≡ true
        → any (has_id quiz_id) quizzes ≡ true)
    → All
        (λ (a : GamePlayerAnswer).
          (any (λ (p : GamePlayer). p.player_id == a.player_id) db.players ≡ true)
          × (any (is_asked a.question_id) quizzes ≡ true))
        rows
    → IsLinked db
    → IsLinked (record db { quizzes = quizzes; answers = rows })
relinked db quizzes rows found rest h = (
  All-map _ _ db.sessions (λ s. found s.quiz_id) h.0,
  All-map _ _ db.favorites (λ f. found f.1) h.1,
  h.2,
  rest,
)

-- Where one quiz is changed within itself, and no answer is to a question that it drops.
pub written-IsLinked :
    (quiz_id : Uuid) (f : Quiz → Quiz) (db : Db) (rows : List GamePlayerAnswer) {quiz : Quiz}
    → IdsUnique db.quizzes
    → find? (has_id quiz_id) db.quizzes ≡ some quiz
    → (f quiz).quiz_id ≡ quiz.quiz_id
    → All
        (λ (a : GamePlayerAnswer).
          is_asked a.question_id quiz ≡ true → is_asked a.question_id (f quiz) ≡ true)
        rows
    → IsLinked (record db { answers = rows })
    → IsLinked (write_quiz quiz_id f (record db { answers = rows }))
written-IsLinked quiz_id f db rows {quiz} u found same keep h =
    relinked (record db { answers = rows }) (update (has_id quiz_id) f db.quizzes) rows
      (λ other.
        update-any (has_id other) quiz_id f db.quizzes u found (λ e. ground (arith, e, same)))
      (All-both _ _ _ rows
        (λ a k l. (l.0, update-any (is_asked a.question_id) quiz_id f db.quizzes u found k l.1))
        keep h.3)
      h
