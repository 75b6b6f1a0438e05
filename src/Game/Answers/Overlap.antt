-- ===== src/Game/Answers/Overlap.antt =====
-- Submissions that overlap: `submit_answer` loads the player and then waits for its commit, so others
-- may commit in between. The score that is written is the loaded one with the points added.
use mathlib.Core.Option
use askit_backend.Exec.{Exec, Result, already_answered, err, ok}
use askit_backend.Game.Answers.{commit_answer, earn, has_answered, player_exists}
use askit_backend.Game.Answers.Commit.{
  IsSound, ScoresMatch, commit_answer-IsSound, earned, earned-append,
}
use askit_backend.Models.{Db, GamePlayer, GamePlayerAnswer, Uuid}
use askit_backend.Prelude.{
  All, All-both, All-of, Bool, Bool-cases, List, Option, Option-cases, [], any, any-append, ap,
  arith, false, find?, find?-All, find?-none-any, find?-some, if◌then◌else◌, inl, inr, map, nat_eq,
  none, not, refl, some, string_eq, sym, true, update, ◌++◌, ◌==◌, ◌||◌, ◌∙◌, ◌∷◌, ◌≡◌, ◌⊎◌,
}
use askit_backend.Prelude.Int.{ℤ, ◌+ℤ◌}

-- A submission between the load of its player and its commit.
pub record Pending : Type 0 where
  pub row : GamePlayerAnswer
  pub loaded : Option ℤ

abbrev of_row : Uuid → GamePlayer → Bool
of_row player_id p = p.player_id == player_id

-- The select of the player.
pub load : GamePlayerAnswer → Db → Pending
load row db = record {
  row = row;
  loaded = Option.map (λ (p : GamePlayer). p.score) (find? (of_row row.player_id) db.players);
}

-- `if player: player.score += points`
abbrev write_score : Option ℤ → ℤ → GamePlayer → GamePlayer
write_score none points p = p
write_score (some score) points p = record p { score = score +ℤ points }

-- The commit, or its rollback.
unfoldable commit_pending : Pending → Exec Db (Unit {0})
commit_pending p db =
    if has_answered p.row.player_id p.row.question_id db || not (player_exists p.row.player_id db)
    then (err already_answered, db)
    else (
      ok tt,
      record db {
        players =
            update (of_row p.row.player_id) (write_score p.loaded p.row.points_earned) db.players;
        answers = db.answers ++ p.row ∷ [];
      },
    )

-- What was loaded is still right, or the commit will be refused.
abbrev Fits : Db → Pending → Type 0
Fits db p =
    (has_answered p.row.player_id p.row.question_id db ≡ true)
    ⊎ ((player_exists p.row.player_id db ≡ false)
        ⊎ (p.loaded ≡ some (earned p.row.player_id db.answers)))

load-Fits : (row : GamePlayerAnswer) (db : Db) → ScoresMatch db → Fits db (load row db)
unfolding load
load-Fits row db h = elim (Option-cases (find? (of_row row.player_id) db.players)) [
  | inl e ↦ inr (inl (find?-none-any (of_row row.player_id) db.players e))
  | inr (p, e) ↦
      let own = find?-some (of_row row.player_id) db.players {x = p} e in
      let right =
        find?-All (λ (x : GamePlayer). x.score ≡ earned x.player_id db.answers)
          (of_row row.player_id) db.players {x = p} h e in
      let same : p.player_id ≡ row.player_id = ground (arith, own) in
      inr (inr (rw e (ap some (right ∙ ap (λ i. earned i db.answers) same))))
]

-- With the right score loaded, the commit writes what it would write to a score read just now.
update-loaded :
    (player_id : Uuid) (points : ℤ) (rows : List GamePlayerAnswer) (players : List GamePlayer)
    → All (λ (p : GamePlayer). p.score ≡ earned p.player_id rows) players
    → update (of_row player_id) (write_score (some (earned player_id rows)) points) players
      ≡ update (of_row player_id) (earn points) players
update-loaded player_id points rows [] h = refl
update-loaded player_id points rows (p ∷ players) h =
    let rest = update-loaded player_id points rows players h.1 in
    elim (Bool-cases (p.player_id == player_id)) [
      | inr e ↦ rw (e, rest) refl
      | inl e ↦
          let same : p.player_id ≡ player_id = ground (arith, e) in
          let score : earned player_id rows ≡ p.score = sym (h.0 ∙ ap (λ i. earned i rows) same) in
          rw (e, rest, score) refl
    ]

commit_pending-of_right :
    (p : Pending) (db : Db)
    → ScoresMatch db
    → Fits db p
    → commit_pending p db ≡ commit_answer p.row db
unfolding commit_pending commit_answer
commit_pending-of_right p db h (inl e) = ground (arith, e)
commit_pending-of_right p db h (inr (inl e)) = ground (arith, e)
commit_pending-of_right p db h (inr (inr e)) =
    rw (e, update-loaded p.row.player_id p.row.points_earned db.answers db.players h) refl

player_exists-update :
    (player_id id : Uuid) (points : ℤ) (players : List GamePlayer)
    → any (of_row id) (update (of_row player_id) (earn points) players) ≡ any (of_row id) players
player_exists-update player_id id points [] = refl
player_exists-update player_id id points (p ∷ players) =
    ground (arith, player_exists-update player_id id points players)

accepted-Fits :
    (row : GamePlayerAnswer) (q : Pending) (db : Db)
    → row.question_id ≡ q.row.question_id
    → Fits db q
    → Fits
        (record db {
          players = update (of_row row.player_id) (earn row.points_earned) db.players;
          answers = db.answers ++ row ∷ [];
        })
        q
accepted-Fits row q db same (inl e) = inl (rw any-append (ground (arith, e)))
accepted-Fits row q db same (inr (inl e)) =
    inr (inl (player_exists-update row.player_id q.row.player_id row.points_earned db.players ∙ e))
accepted-Fits row q db same (inr (inr e)) = elim (Bool-cases (row.player_id == q.row.player_id)) [
  | inl own ↦ inl (rw any-append (ground (arith, own, same)))
  | inr apart ↦
      inr (inr (e ∙ ap some (sym (earned-append q.row.player_id db.answers row ∙ rw apart refl))))
]

-- A commit of an answer leaves the other submissions to the same question right.
commit_answer-Fits :
    (row : GamePlayerAnswer) (q : Pending) (db : Db)
    → row.question_id ≡ q.row.question_id
    → Fits db q
    → Fits (commit_answer row db).1 q
unfolding commit_answer
commit_answer-Fits row q db same fits =
    elim (Bool-cases
      (has_answered row.player_id row.question_id db || not (player_exists row.player_id db))) [
        | inl e ↦ rw e fits
        | inr e ↦ rw e (accepted-Fits row q db same fits)
      ]

-- Submissions that have loaded their players commit one after another.
pub commit_all : List Pending → Db → List (Result (Unit {0})) × Db
commit_all [] db = ([], db)
commit_all (p ∷ ps) db =
    let (r, next) = commit_pending p db in let (rs, end) = commit_all ps next in (r ∷ rs, end)

-- The same submissions, each of which reads the score that is there when it commits.
unfoldable pub commit_in_turn : List GamePlayerAnswer → Db → List (Result (Unit {0})) × Db
commit_in_turn [] db = ([], db)
commit_in_turn (row ∷ rows) db =
    let (r, next) = commit_answer row db in
    let (rs, end) = commit_in_turn rows next in (r ∷ rs, end)

-- Loaded right, and all to one question, the submissions commit as if in turn.
commit_all-of_right :
    (question_id : Uuid) (ps : List Pending) (db : Db)
    → IsSound db
    → All (λ (p : Pending). p.row.question_id ≡ question_id) ps
    → All (Fits db) ps
    → commit_all ps db ≡ commit_in_turn (map (λ (p : Pending). p.row) ps) db
unfolding commit_all commit_in_turn
commit_all-of_right question_id [] db h same fits = refl
commit_all-of_right question_id (p ∷ ps) db h same fits =
    let first = commit_pending-of_right p db h.scores fits.0 in
    let right =
      All-both (λ (q : Pending). q.row.question_id ≡ question_id) (Fits db)
        (Fits (commit_answer p.row db).1) ps
        (λ q own f. commit_answer-Fits p.row q db (same.0 ∙ sym own) f) same.1 fits.1 in
    let rest =
      commit_all-of_right question_id ps (commit_answer p.row db).1
        (commit_answer-IsSound p.row db h) same.1 right in
    rw (first, rest) refl

All-of_map {ℓ m κ} :
    {A : Type ℓ} {B : Type m} (P : B → Type κ) (f : A → B) (xs : List A)
    → All (λ x. P (f x)) xs
    → All P (map f xs)
All-of_map P f [] h = tt
All-of_map P f (x ∷ xs) h = (h.0, All-of_map P f xs h.1)

row-load :
    (rows : List GamePlayerAnswer) (db : Db)
    → map (λ (p : Pending). p.row) (map (λ (row : GamePlayerAnswer). load row db) rows) ≡ rows
unfolding load
row-load [] db = refl
row-load (row ∷ rows) db = ap (λ rest. row ∷ rest) (row-load rows db)

-- On tables whose scores are the points earned and whose answers are one for each player and
-- question, submissions to one question that have all loaded their players before any of them
-- commits write the tables, and get the results, that they would if each were handled after the
-- other, in the order in which they commit: no points are lost.
pub overlapping_submissions :
    (question_id : Uuid) (rows : List GamePlayerAnswer) (db : Db)
    → IsSound db
    → All (λ (row : GamePlayerAnswer). row.question_id ≡ question_id) rows
    → commit_all (map (λ (row : GamePlayerAnswer). load row db) rows) db ≡ commit_in_turn rows db
unfolding load
overlapping_submissions question_id rows db h same =
    commit_all-of_right question_id (map (λ (row : GamePlayerAnswer). load row db) rows) db h
      (All-of_map _ (λ (row : GamePlayerAnswer). load row db) rows same)
      (All-of_map _ (λ (row : GamePlayerAnswer). load row db) rows
        (All-of _ rows (λ row. load-Fits row db h.scores)))
    ∙ ap (λ l. commit_in_turn l db) (row-load rows db)
