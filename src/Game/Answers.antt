-- ===== src/Game/Answers.antt =====
-- `GameService.submit_answer`: the part that writes. `Answers/Check` has the part that only reads.
pub mod Check
pub mod Selection
pub mod Commit
pub mod Recording
pub mod Submission
pub mod Overlap
use askit_backend.Exec.{Exec, already_answered, err, modify, ok, pure, ◌>>=◌, ◌>>◌}
use askit_backend.External.{Floats, Key, Redis, Texts}
use askit_backend.Game.Answers.Check.{Checked, check_answer}
use askit_backend.Game.Messages.{WsAnswerResult}
use askit_backend.Game.Play.{State, question_key_ttl}
use askit_backend.Models.{Db, GamePlayer, GamePlayerAnswer, Time, Uuid}
use askit_backend.Prelude.{
  Bool, List, String, [], any, if◌then◌else◌, nat_eq, not, string_eq, update, ◌&&◌, ◌++◌, ◌==◌,
  ◌||◌, ◌∷◌,
}
use askit_backend.Prelude.Int.{ℤ, ◌+ℤ◌}

-- The unique constraint on (player_id, question_id), and the foreign key of the player.
abbrev pub has_answered : Uuid → Uuid → Db → Bool
has_answered player_id question_id db =
    any (λ (a : GamePlayerAnswer). a.player_id == player_id && a.question_id == question_id)
      db.answers

abbrev pub player_exists : Uuid → Db → Bool
player_exists player_id db = any (λ (p : GamePlayer). p.player_id == player_id) db.players

abbrev pub earn : ℤ → GamePlayer → GamePlayer
earn points p = record p { score = p.score +ℤ points }

-- The commit of the player's new score together with the answer row. A row that breaks a
-- constraint rolls both back. That the text of the selected ids fits its column is not checked here.
unfoldable pub commit_answer : GamePlayerAnswer → Exec Db (Unit {0})
commit_answer row db =
    if has_answered row.player_id row.question_id db || not (player_exists row.player_id db)
    then (err already_answered, db)
    else (
      ok tt,
      record db {
        players =
            update (λ (p : GamePlayer). p.player_id == row.player_id) (earn row.points_earned)
              db.players;
        answers = db.answers ++ row ∷ [];
      },
    )

module _ ⦃redis : Redis⦄ where
  -- `SADD` of the player to the set of those who have answered, with its expiry.
  abbrev pub mark_answered : Key → String → State → State
  mark_answered key player_id w = record w {
    redis = redis.expire key question_key_ttl (redis.sadd key player_id w.redis);
  }

  unfoldable pub record_answer : String → Checked → Exec State WsAnswerResult
  record_answer player_id c = do
    (λ w. let (r, db) = commit_answer c.row w.db in (r, record w { db = db }))
    modify (mark_answered c.answered_key player_id)
    pure (record {
      is_correct = c.row.is_correct;
      correct_answer_ids = c.correct_answer_ids;
      points_earned = c.row.points_earned;
      time_taken_ms = c.row.time_taken_ms;
    })

module _ ⦃redis : Redis⦄ ⦃texts : Texts⦄ ⦃floats : Floats⦄ where
  unfoldable pub submit_answer :
      Time → String → String → String → List String → Exec State WsAnswerResult
  submit_answer now room_code player_id question_id answer_ids = do
    checked ← (λ w. (check_answer w now room_code player_id question_id answer_ids, w))
    record_answer player_id checked
