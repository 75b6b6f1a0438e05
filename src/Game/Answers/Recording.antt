-- ===== src/Game/Answers/Recording.antt =====
-- What `submit_answer` writes once its checks have passed.
use askit_backend.Exec.{ok}
use askit_backend.External.{Key, Redis, key_beq_refl}
use askit_backend.Game.Answers.{commit_answer, earn, has_answered, record_answer}
use askit_backend.Game.Answers.Check.{Checked}
use askit_backend.Game.Messages.{WsAnswerResult}
use askit_backend.Game.Play.{State, question_key_ttl}
use askit_backend.Models.{Db, GamePlayer, Uuid}
use askit_backend.Prelude.{
  List, String, [], any, arith, beq_refl, false, if◌then◌else◌, map, nat_eq, refl, string_eq, true,
  update, ◌++◌, ◌==◌, ◌∙◌, ◌∷◌, ◌≡◌,
}
use askit_backend.Prelude.Int.{ℤ, ◌+ℤ◌}

-- The player's row with the points added to its score, and every other row as it is.
abbrev credited : Uuid → ℤ → GamePlayer → GamePlayer
credited player_id points p =
    if p.player_id == player_id then record p { score = p.score +ℤ points } else p

-- The tables with one more answer and the points of its player.
abbrev pub written : Checked → Db → Db
written c db = record db {
  players = map (credited c.row.player_id c.row.points_earned) db.players;
  answers = db.answers ++ c.row ∷ [];
}

update-earn :
    (player_id : Uuid) (points : ℤ) (players : List GamePlayer)
    → update (λ (p : GamePlayer). p.player_id == player_id) (earn points) players
      ≡ map (credited player_id points) players
update-earn player_id points [] = refl
update-earn player_id points (p ∷ players) = ground (arith, update-earn player_id points players)

module _ ⦃redis : Redis⦄ (w : State) (player_id : String) (c : Checked) where
  -- What a recorded answer has written.
  abbrev pub IsRecorded : WsAnswerResult → State → Type 0
  IsRecorded result w' =
      (has_answered c.row.player_id c.row.question_id w.db ≡ false)
      × (any (λ (p : GamePlayer). p.player_id == c.row.player_id) w.db.players ≡ true)
      × (w'.db ≡ written c w.db)
      × (w'.redis
          ≡ redis.expire c.answered_key question_key_ttl
              (redis.sadd c.answered_key player_id w.redis))
      × (result.is_correct ≡ c.row.is_correct)
      × (result.points_earned ≡ c.row.points_earned)

  pub record_answer-IsRecorded :
      {result : WsAnswerResult} {w' : State}
      → record_answer player_id c w ≡ (ok result, w')
      → IsRecorded result w'
  unfolding record_answer commit_answer
  record_answer-IsRecorded h =
      ground (arith, h, update-earn c.row.player_id c.row.points_earned w.db.players)

  pub record_answer-db : (record_answer player_id c w).1.db ≡ (commit_answer c.row w.db).1
  unfolding record_answer
  record_answer-db = ground arith

module _ ⦃redis : Redis⦄ where
  -- A player that has been marked is found in the set.
  pub sismember-mark :
      (k : Key) (m : String) (s : redis.Store)
      → redis.sismember (redis.expire k question_key_ttl (redis.sadd k m s)) k m ≡ true
  sismember-mark k m s =
      redis.sismember-expire k k 599 m (redis.sadd k m s)
      ∙ (redis.sismember-sadd k k m m s ∙ rw (key_beq_refl k, beq_refl m))
