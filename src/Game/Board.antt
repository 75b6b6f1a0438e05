-- ===== src/Game/Board.antt =====
-- `GameService.get_leaderboard`, `compute_answer_distribution`, `clear_ranking_state`,
-- `build_host_answer_details` and `build_game_finished`.
pub mod Ranking
pub mod Repeat
pub mod Distribution
use askit_backend.Exec.{Exec, attribute_error, gets, modify, ok, or_raise, pure, ◌>>=◌, ◌>>◌}
use askit_backend.External.{Floats, Redis, Texts, prev_ranking, ranking}
use askit_backend.Game.Messages.{WsGameFinished, WsHostAnswerUpdate, WsLeaderboardEntry}
use askit_backend.Game.Play.{State, redis_set, session_key_ttl}
use askit_backend.Game.Score.{elapsed_ms}
use askit_backend.Game.World.{Room, as_ranking, get_room, players_of}
use askit_backend.Models.{
  Db, GamePlayer, GamePlayerAnswer, GameSession, QuizAnswer, QuizQuestion, Time, Uuid,
}
use askit_backend.Prelude.{
  Bool, List, Option, String, [], any, if◌then◌else◌, length, map, nat_eq, none, select, some,
  string_eq, suc, ℕ, ◌&&◌, ◌++◌, ◌+◌, ◌==◌, ◌∷◌,
}
use askit_backend.Prelude.Int.{ltb_ℤ, pos, ℤ, ◌-ℤ◌}
use askit_backend.Prelude.Sorting.{sort_by}

-- `sorted(players, key=lambda p: p.score, reverse=True)`, which keeps the order of equal scores.
abbrev pub by_score : GamePlayer → GamePlayer → Bool
by_score p q = ltb_ℤ q.score p.score

-- `prev_ranking.get(pid, rank)`
abbrev pub rank_or : List (String × ℕ) → String → ℕ → ℕ
rank_or [] pid rank = rank
rank_or ((k, r) ∷ ranks) pid rank = if k == pid then r else rank_or ranks pid rank

-- `counts[aid] += 1` under `if aid in counts`
abbrev pub bump : String → List (String × ℕ) → List (String × ℕ)
bump aid [] = []
bump aid ((k, n) ∷ counts) = if k == aid then (k, n + 1) ∷ counts else (k, n) ∷ bump aid counts

abbrev pub bump_all : List String → List (String × ℕ) → List (String × ℕ)
bump_all [] counts = counts
bump_all (aid ∷ aids) counts = bump_all aids (bump aid counts)

abbrev pub tally : List (List String) → List (String × ℕ) → List (String × ℕ)
tally [] counts = counts
tally (row ∷ rows) counts = tally rows (bump_all row counts)

-- The rows of the join with the players of the session, for one question.
abbrev pub answers_for : Uuid → Uuid → Db → List GamePlayerAnswer
answers_for session_id question_id db =
    select
      (λ (a : GamePlayerAnswer).
        a.question_id == question_id
        && any (λ (p : GamePlayer). p.player_id == a.player_id && p.session_id == session_id)
            db.players)
      db.answers

module _ ⦃texts : Texts⦄ where
  unfoldable pub rank_entries : List (String × ℕ) → ℕ → List GamePlayer → List WsLeaderboardEntry
  rank_entries prev rank [] = []
  rank_entries prev rank (p ∷ players) =
      record {
        rank = rank;
        player_id = texts.str p.player_id;
        nickname = p.nickname;
        score = p.score;
        change = pos (rank_or prev (texts.str p.player_id) rank) -ℤ pos rank;
      }
      ∷ rank_entries prev (suc rank) players

  unfoldable pub new_ranking : ℕ → List GamePlayer → List (String × ℕ)
  new_ranking rank [] = []
  new_ranking rank (p ∷ players) = (texts.str p.player_id, rank) ∷ new_ranking (suc rank) players

  unfoldable pub compute_answer_distribution : Db → Uuid → QuizQuestion → List (String × ℕ)
  compute_answer_distribution db session_id q =
      tally
        (map (λ (a : GamePlayerAnswer). a.selected_answer_ids)
          (answers_for session_id q.question_id db))
        (map (λ (a : QuizAnswer). (texts.str a.answer_id, 0)) q.answers)

  abbrev update_for : GamePlayerAnswer → List GamePlayer → List WsHostAnswerUpdate
  update_for a [] = []
  update_for a (p ∷ players) =
      if p.player_id == a.player_id
      then record {
        player_id = texts.str p.player_id;
        nickname = p.nickname;
        is_correct = a.is_correct;
        answer_ids = a.selected_answer_ids;
        time_taken_ms = a.time_taken_ms;
        total_score = p.score;
      }
        ∷ update_for a players
      else update_for a players

  abbrev details_of : List GamePlayer → List GamePlayerAnswer → List WsHostAnswerUpdate
  details_of players [] = []
  details_of players (a ∷ rows) = update_for a players ++ details_of players rows

  -- The join of the question's answers with the players of the session.
  unfoldable pub build_host_answer_details : Db → Uuid → Uuid → List WsHostAnswerUpdate
  build_host_answer_details db session_id question_id =
      details_of (players_of session_id db)
        (select (λ (a : GamePlayerAnswer). a.question_id == question_id) db.answers)

module _ ⦃redis : Redis⦄ ⦃texts : Texts⦄ where
  abbrev board_of : String → List GamePlayer → Exec State (List WsLeaderboardEntry)
  board_of room_code players = do
    prev ← gets (λ w. as_ranking (redis.get w.redis (prev_ranking room_code)))
    modify (redis_set (prev_ranking room_code) (ranking (new_ranking 1 players)) session_key_ttl)
    pure (rank_entries prev 1 players)

  unfoldable pub get_leaderboard : String → Exec State (List WsLeaderboardEntry)
  get_leaderboard room_code w = elim (get_room room_code w.db) [
    | none ↦ (ok [], w)
    | some room ↦ board_of room_code (sort_by by_score room.players) w
  ]

  unfoldable pub clear_ranking_state : String → State → State
  clear_ranking_state room_code w = record w {
    redis = redis.delete (prev_ranking room_code) w.redis;
  }

module _ ⦃redis : Redis⦄ ⦃texts : Texts⦄ ⦃floats : Floats⦄ where
  -- Whole milliseconds from the start to the end, or to now while there is no end.
  unfoldable pub duration_ms : Time → GameSession → ℤ
  duration_ms now s = elim s.started_at [
    | none ↦ pos 0
    | some started ↦ elim s.ended_at [
      | none ↦ elapsed_ms now started
      | some ended ↦ elapsed_ms ended started
    ]
  ]

  abbrev finished_of : Time → String → Room → Exec State (Option WsGameFinished)
  finished_of now room_code room = do
    leaderboard ← get_leaderboard room_code
    quiz ← or_raise room.quiz attribute_error
    pure (
        some (record {
          final_leaderboard = leaderboard;
          total_questions = length quiz.questions;
          duration_ms = duration_ms now room.session;
          public_results = room.session.public_results;
        }))

  unfoldable pub build_game_finished : Time → String → Exec State (Option WsGameFinished)
  build_game_finished now room_code w = elim (get_room room_code w.db) [
    | none ↦ (ok none, w)
    | some room ↦ finished_of now room_code room w
  ]
