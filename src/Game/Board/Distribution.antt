-- ===== src/Game/Board/Distribution.antt =====
-- `compute_answer_distribution` against a direct count.
use askit_backend.External.{Texts}
use askit_backend.Game.Board.{answers_for, bump, bump_all, compute_answer_distribution, tally}
use askit_backend.Models.{Db, GamePlayer, GamePlayerAnswer, QuizAnswer, QuizQuestion, Uuid}
use askit_backend.Prelude.{
  All, All-map, Bool, Bool-cases, List, String, [], any, ap, arith, false, if◌then◌else◌, inl, inr,
  map, nat_eq, refl, select, string_eq, suc, true, ℕ, ◌&&◌, ◌+◌, ◌==◌, ◌∙◌, ◌∷◌, ◌≡◌,
}

-- How often an id stands in the answers.
abbrev pub occurrences : String → List String → ℕ
occurrences k [] = 0
occurrences k (x ∷ row) = if k == x then suc (occurrences k row) else occurrences k row

abbrev pub occurrences_in : String → List (List String) → ℕ
occurrences_in k [] = 0
occurrences_in k (row ∷ rows) = occurrences k row + occurrences_in k rows

abbrev pub Distinct : List String → Type 0
Distinct [] = Unit
Distinct (k ∷ keys) = All (λ (j : String). (j == k) ≡ false) keys × Distinct keys

abbrev pub table : (String → ℕ) → List String → List (String × ℕ)
table f [] = []
table f (k ∷ keys) = (k, f k) ∷ table f keys

table-cong :
    (f g : String → ℕ) (keys : List String)
    → All (λ (k : String). f k ≡ g k) keys
    → table f keys ≡ table g keys
table-cong f g [] h = refl
table-cong f g (k ∷ keys) h = cc (h.0, table-cong f g keys h.1)

table-ext :
    (f g : String → ℕ) (keys : List String)
    → ((k : String) → f k ≡ g k)
    → table f keys ≡ table g keys
table-ext f g [] h = refl
table-ext f g (k ∷ keys) h = cc (h k, table-ext f g keys h)

abbrev bumped : String → (String → ℕ) → String → ℕ
bumped x f k = if k == x then f k + 1 else f k

bump-table :
    (x : String) (f : String → ℕ) (keys : List String)
    → Distinct keys
    → bump x (table f keys) ≡ table (bumped x f) keys
bump-table x f [] h = refl
bump-table x f (k ∷ keys) h = elim (Bool-cases (k == x)) [
  | inl e ↦ rw (e, table-cong f (bumped x f) keys (All-map _ _ keys (others k x e) h.0))
  | inr e ↦ rw (e, bump-table x f keys h.1)
]
  where
    others : (k x : String) → (k == x) ≡ true → (j : String) → (j == k) ≡ false → f j ≡ bumped x f j
    others k x e j ne = rw (← (string_eq.beq_iff k x).0 e, ne)

bump_all-table :
    (row : List String) (f : String → ℕ) (keys : List String)
    → Distinct keys
    → bump_all row (table f keys) ≡ table (λ k. f k + occurrences k row) keys
bump_all-table [] f keys h = table-ext _ _ keys (λ k. omega arith)
bump_all-table (x ∷ row) f keys h =
    rw (bump-table x f keys h)
      (bump_all-table row (bumped x f) keys h ∙ table-ext _ _ keys (λ k. ground arith))

tally-table :
    (rows : List (List String)) (f : String → ℕ) (keys : List String)
    → Distinct keys
    → tally rows (table f keys) ≡ table (λ k. f k + occurrences_in k rows) keys
tally-table [] f keys h = table-ext _ _ keys (λ k. omega arith)
tally-table (row ∷ rows) f keys h =
    rw (bump_all-table row f keys h) (
      tally-table rows (λ k. f k + occurrences k row) keys h
      ∙ table-ext _ _ keys (λ k. omega arith))

-- One of the players is this one, and in the session.
abbrev pub plays : Uuid → Uuid → List GamePlayer → Bool
plays session_id player_id [] = false
plays session_id player_id (p ∷ players) =
    if p.player_id == player_id && p.session_id == session_id
    then true
    else plays session_id player_id players

-- How often the session's players have selected an id in their answers to a question.
abbrev pub chosen : String → Uuid → Uuid → List GamePlayer → List GamePlayerAnswer → ℕ
chosen k session_id question_id players [] = 0
chosen k session_id question_id players (a ∷ rows) =
    (if a.question_id == question_id && plays session_id a.player_id players
      then occurrences k a.selected_answer_ids
      else 0)
    + chosen k session_id question_id players rows

zero_add : (n : ℕ) → 0 + n ≡ n
zero_add n = omega arith

any-plays :
    (session_id player_id : Uuid) (players : List GamePlayer)
    → any (λ (p : GamePlayer). p.player_id == player_id && p.session_id == session_id) players
      ≡ plays session_id player_id players
any-plays session_id player_id [] = refl
any-plays session_id player_id (p ∷ players) =
    ground (arith, any-plays session_id player_id players)

module _ ⦃texts : Texts⦄ where
  abbrev pub answer_keys : List QuizAnswer → List String
  answer_keys answers = map (λ (a : QuizAnswer). texts.str a.answer_id) answers

  abbrev selections : Db → Uuid → QuizQuestion → List (List String)
  selections db session_id q =
      map (λ (a : GamePlayerAnswer). a.selected_answer_ids)
        (answers_for session_id q.question_id db)

  answers_for-plays :
      (k : String) (session_id question_id : Uuid) (players : List GamePlayer)
      (rows : List GamePlayerAnswer)
      → occurrences_in k (
          map
            (λ (a : GamePlayerAnswer). a.selected_answer_ids)
            (select
              (λ (a : GamePlayerAnswer).
                a.question_id == question_id
                && any
                    (λ (p : GamePlayer). p.player_id == a.player_id && p.session_id == session_id)
                    players)
              rows))
        ≡ chosen k session_id question_id players rows
  answers_for-plays k session_id question_id players [] = refl
  answers_for-plays k session_id question_id players (a ∷ rows) = ground (
    arith,
    answers_for-plays k session_id question_id players rows,
    any-plays session_id a.player_id players,
  )

  zero-table :
      (answers : List QuizAnswer)
      → map (λ (a : QuizAnswer). (texts.str a.answer_id, 0)) answers
        ≡ table (λ k. 0) (answer_keys answers)
  zero-table [] = refl
  zero-table (a ∷ answers) = ap (λ r. (texts.str a.answer_id, 0) ∷ r) (zero-table answers)

  -- The distribution has the answers of the question in their order, each with the number of times
  -- that it stands in the selections of the session's players for this question, where the ids are
  -- distinct.
  pub compute_answer_distribution_counts :
      (db : Db) (session_id : Uuid) (q : QuizQuestion)
      → Distinct (answer_keys q.answers)
      → compute_answer_distribution db session_id q
        ≡ table
            (λ k. chosen k session_id q.question_id db.players db.answers)
            (answer_keys q.answers)
  unfolding compute_answer_distribution
  compute_answer_distribution_counts db session_id q h = rw (zero-table q.answers) (
      tally-table (selections db session_id q) (λ k. 0) (answer_keys q.answers) h
      ∙ table-ext _ _ (answer_keys q.answers)
          (λ k. zero_add _ ∙ answers_for-plays k session_id q.question_id db.players db.answers))
