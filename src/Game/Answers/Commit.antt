-- ===== src/Game/Answers/Commit.antt =====
-- The commit of an answer: all or nothing, once for each player and question, and the score stays
-- the sum of what was earned.
use askit_backend.Game.Answers.{commit_answer, earn, has_answered, player_exists}
use askit_backend.Models.{Db, GamePlayer, GamePlayerAnswer, Uuid}
use askit_backend.Prelude.{
  All, Bool, Bool-cases, List, [], any, any-append, arith, false, if◌then◌else◌, inl, inr, nat_eq,
  not, refl, string_eq, update, ◌&&◌, ◌++◌, ◌==◌, ◌||◌, ◌∷◌, ◌≡◌,
}
use askit_backend.Prelude.Int.{+ℤ_assoc, int_laws, pos, ℤ, ◌+ℤ◌}

-- What a player has earned, by the rows of the answers.
abbrev pub earned : Uuid → List GamePlayerAnswer → ℤ
earned player_id [] = pos 0
earned player_id (a ∷ rows) =
    if a.player_id == player_id
    then a.points_earned +ℤ earned player_id rows
    else earned player_id rows

-- Every player's score is the sum of the points of its answers.
abbrev pub ScoresMatch : Db → Type 0
ScoresMatch db = All (λ (p : GamePlayer). p.score ≡ earned p.player_id db.answers) db.players

-- No two rows are of one player and one question.
abbrev pub answers_to : Uuid → Uuid → List GamePlayerAnswer → Bool
answers_to player_id question_id rows =
    any (λ (a : GamePlayerAnswer). a.player_id == player_id && a.question_id == question_id) rows

abbrev pub NoDoubles : List GamePlayerAnswer → Type 0
NoDoubles [] = Unit
NoDoubles (a ∷ rows) = (answers_to a.player_id a.question_id rows ≡ false) × NoDoubles rows

pub record IsSound (db : Db) : Type 0 where
  pub scores : ScoresMatch db
  pub once : NoDoubles db.answers

pub earned-append :
    (player_id : Uuid) (rows : List GamePlayerAnswer) (a : GamePlayerAnswer)
    → earned player_id (rows ++ a ∷ []) ≡ (
        if a.player_id == player_id
        then earned player_id rows +ℤ a.points_earned
        else earned player_id rows)
earned-append player_id [] a = elim (Bool-cases (a.player_id == player_id)) [
  | inl e ↦ rw e (omega int_laws)
  | inr e ↦ rw e
]
earned-append player_id (b ∷ rows) a = ground (
  arith,
  earned-append player_id rows a,
  +ℤ_assoc b.points_earned (earned player_id rows) a.points_earned,
)

update-ScoresMatch :
    (row : GamePlayerAnswer) (rows : List GamePlayerAnswer) (players : List GamePlayer)
    → All (λ (p : GamePlayer). p.score ≡ earned p.player_id rows) players
    → All
        (λ (p : GamePlayer). p.score ≡ earned p.player_id (rows ++ row ∷ []))
        (update (λ (p : GamePlayer). p.player_id == row.player_id) (earn row.points_earned) players)
update-ScoresMatch row rows [] h = tt
update-ScoresMatch row rows (p ∷ players) h = (
  ground (arith, h.0, earned-append p.player_id rows row),
  update-ScoresMatch row rows players h.1,
)

NoDoubles-append :
    (rows : List GamePlayerAnswer) (a : GamePlayerAnswer)
    → NoDoubles rows
    → answers_to a.player_id a.question_id rows ≡ false
    → NoDoubles (rows ++ a ∷ [])
NoDoubles-append [] a h e = (refl, tt)
NoDoubles-append (b ∷ rows) a h e =
    (rw any-append (ground (arith, h.0)), NoDoubles-append rows a h.1 (ground arith))

-- A commit of an answer either raises and leaves the tables as they were, or keeps the scores equal
-- to the points earned and the rows one for each player and question.
pub commit_answer-IsSound :
    (row : GamePlayerAnswer) (db : Db) → IsSound db → IsSound (commit_answer row db).1
unfolding commit_answer
commit_answer-IsSound row db h =
    elim (Bool-cases
      (has_answered row.player_id row.question_id db || not (player_exists row.player_id db))) [
        | inl e ↦ rw e h
        | inr e ↦ rw e (record {
          scores = update-ScoresMatch row db.answers db.players h.scores;
          once = NoDoubles-append db.answers row h.once (ground arith);
        })
      ]
