-- ===== src/Quizzes/Stats.antt =====
-- `QuizService.get_quiz_stats`, `_compute_quiz_stats` and `get_bulk_quiz_stats`.
-- Reads only.
pub mod Groups
pub mod Totals
use askit_backend.Exec.{Result, ok, quiz_access_denied, quiz_not_found, value_error}
use askit_backend.External.{FieldValue, Fields, Floats, Texts, of_text, of_uuid}
use askit_backend.Game.World.{players_of}
use askit_backend.Models.{Db, GamePlayer, GameSession, Quiz, Time, User, Uuid, finished, status_eq}
use askit_backend.Prelude.{
  Bool, List, Option, String, [], any, find?, length, map, nat_eq, none, not, select, some,
  string_eq, take, ◌&&◌, ◌++◌, ◌==◌, ◌∷◌,
}
use askit_backend.Prelude.Dict.{Dict, insert, lookup}
use askit_backend.Prelude.Int.{floor_div, ltb_ℤ, pos, ℤ, ◌+ℤ◌, ◌-ℤ◌}
use askit_backend.Prelude.Sorting.{sort_by}
use askit_backend.Quizzes.{has_id}
use askit_backend.Quizzes.Forms.{QuizStatsOut, TopPlayerOut}
use askit_backend.Reading.{fail_if, require, ◌>>=◌, ◌>>◌}

-- A session with the players that its relationship loads.
abbrev pub Played : Type 0
Played = GameSession × List GamePlayer

abbrev pub with_players : Db → GameSession → Played
with_players db s = (s, players_of s.session_id db)

-- The finished sessions that a test selects.
abbrev pub finished_sessions : Db → (GameSession → Bool) → List Played
finished_sessions db p =
    map (with_players db) (select (λ (s : GameSession). p s && s.status == finished) db.sessions)

abbrev pub sum_ℤ : List ℤ → ℤ
sum_ℤ [] = pos 0
sum_ℤ (n ∷ ns) = n +ℤ sum_ℤ ns

-- `sum(ns) // len(ns) if ns else 0`
abbrev pub average : List ℤ → ℤ
average [] = pos 0
average (n ∷ ns) = floor_div (sum_ℤ (n ∷ ns)) (length (n ∷ ns))

abbrev pub all_players : List Played → List GamePlayer
all_players [] = []
all_players ((s, players) ∷ sessions) = players ++ all_players sessions

-- `s.started_at or datetime.min`
abbrev pub or_min : Option Time → Time
or_min none = 0
or_min (some t) = t

abbrev pub top_player : GameSession → GamePlayer → TopPlayerOut
top_player s p = record { nickname = p.nickname; score = p.score; played_at = or_min s.started_at }

abbrev pub players_out : List Played → List TopPlayerOut
players_out [] = []
players_out ((s, players) ∷ sessions) = map (top_player s) players ++ players_out sessions

abbrev pub by_top_score : TopPlayerOut → TopPlayerOut → Bool
by_top_score a b = ltb_ℤ b.score a.score

abbrev pub top_ten : List Played → List TopPlayerOut
top_ten sessions = take 10 (sort_by by_top_score (players_out sessions))

abbrev pub is_member : Uuid → List Uuid → Bool
is_member quiz_id quiz_ids = any (λ i. i == quiz_id) quiz_ids

module _ ⦃texts : Texts⦄ where
  -- `{str(qid): [] for qid in quiz_ids}`, where a key that comes again keeps its place
  abbrev pub no_sessions : List Uuid → Dict (List Played) → Dict (List Played)
  no_sessions [] d = d
  no_sessions (qid ∷ quiz_ids) d = no_sessions quiz_ids (insert (texts.str qid) [] d)

  abbrev pub add_session : Played → Dict (List Played) → Dict (List Played)
  add_session p d = elim (lookup (texts.str p.0.quiz_id) d) [
    | none ↦ d
    | some sessions ↦ insert (texts.str p.0.quiz_id) (sessions ++ p ∷ []) d
  ]

  abbrev pub group_sessions : List Played → Dict (List Played) → Dict (List Played)
  group_sessions [] d = d
  group_sessions (p ∷ sessions) d = group_sessions sessions (add_session p d)

  -- `str(qid) in found_quizzes`
  abbrev pub is_found : Db → List Uuid → User → Uuid → Bool
  is_found db quiz_ids user qid =
      any (λ (q : Quiz). texts.str q.quiz_id == texts.str qid)
        (select (λ (q : Quiz). is_member q.quiz_id quiz_ids && q.creator_id == user.id) db.quizzes)

  -- `d[str(qid)]`, whose key is there
  abbrev pub sessions_at : Dict (List Played) → Uuid → List Played
  sessions_at d qid = elim (lookup (texts.str qid) d) [ none ↦ [] | some sessions ↦ sessions ]

module _ ⦃floats : Floats⦄ where
  -- `int((ended_at - started_at).total_seconds())`
  abbrev pub whole_seconds : Time → Time → ℤ
  whole_seconds started ended =
      floats.trunc (floats.true_div (pos ended -ℤ pos started) (pos 1000000))

  abbrev pub duration : GameSession → List ℤ
  duration s = elim s.started_at [
    | none ↦ []
    | some started ↦ elim s.ended_at [ none ↦ [] | some ended ↦ whole_seconds started ended ∷ [] ]
  ]

  abbrev pub durations : List Played → List ℤ
  durations [] = []
  durations ((s, players) ∷ sessions) = duration s ++ durations sessions

  -- Without sessions all is 0, which is what the sums come to.
  abbrev pub stats_of : String → List Played → QuizStatsOut
  stats_of quiz_id sessions = record {
    quiz_id = quiz_id;
    times_played = length sessions;
    total_players = length (all_players sessions);
    average_score = average (map (λ (p : GamePlayer). p.score) (all_players sessions));
    average_duration_seconds = average (durations sessions);
    top_players = top_ten sessions;
  }

  module _ ⦃fields : Fields⦄ where
    unfoldable pub compute_quiz_stats : FieldValue → List Played → Result QuizStatsOut
    compute_quiz_stats quiz_id sessions = do
      text ← require (fields.str_field quiz_id) value_error
      ok (stats_of text sessions)

    -- It computes as `_compute_quiz_stats` does, line for line, but from the id itself.
    unfoldable pub get_quiz_stats : Db → Uuid → User → Result QuizStatsOut
    get_quiz_stats db quiz_id user = do
      quiz ← require (find? (has_id quiz_id) db.quizzes) quiz_not_found
      fail_if (not (quiz.creator_id == user.id)) quiz_access_denied
      compute_quiz_stats (of_uuid quiz_id)
          (finished_sessions db (λ (s : GameSession). s.quiz_id == quiz_id))

    module _ ⦃texts : Texts⦄ where
      abbrev pub stats_of_all : Dict (List Played) → List Uuid → Result (List QuizStatsOut)
      stats_of_all d [] = ok []
      stats_of_all d (qid ∷ quiz_ids) = do
        out ← compute_quiz_stats (of_text (texts.str qid)) (sessions_at d qid)
        rest ← stats_of_all d quiz_ids
        ok (out ∷ rest)

      unfoldable pub get_bulk_quiz_stats : Db → List Uuid → User → Result (List QuizStatsOut)
      get_bulk_quiz_stats db quiz_ids user =
          stats_of_all
            (group_sessions
              (finished_sessions db (λ (s : GameSession). is_member s.quiz_id quiz_ids))
              (no_sessions quiz_ids []))
            (select (is_found db quiz_ids user) quiz_ids)
