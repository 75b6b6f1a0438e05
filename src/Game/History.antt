-- ===== src/Game/History.antt =====
-- `GameService.get_game_history` of app/game/services.py.
-- Reads only.
pub mod Paging
pub mod Roles
use askit_backend.Exec.{Result, attribute_error, ok}
use askit_backend.External.{Texts}
use askit_backend.Game.Board.{by_score}
use askit_backend.Game.World.{players_of}
use askit_backend.Models.{
  Db, GamePlayer, GameSession, GameSessionStatus, Quiz, Time, User, Uuid, finished, status_eq,
}
use askit_backend.Prelude.{
  Bool, List, Option, String, [], drop, false, find?, if◌then◌else◌, length, ltb, nat_eq, none,
  select, some, string_eq, suc, take, true, ℕ, ◌&&◌, ◌++◌, ◌+◌, ◌==◌, ◌∷◌,
}
use askit_backend.Prelude.Int.{ℤ}
use askit_backend.Prelude.Sorting.{sort_by}
use askit_backend.Quizzes.Stats.{or_min}
use askit_backend.Reading.{require, ◌>>=◌, ◌>>◌}
use askit_backend.Users.Validators.{codes}

-- `host < player` as texts.
pub data GameRole : Type 0 where
  as_host as_player : GameRole

pub record GameHistoryItem : Type 0 where
  pub session_id : String
  pub room_code : String
  pub quiz_id : String
  pub quiz_title : String
  pub role : GameRole
  pub score : Option ℤ
  pub rank : Option ℕ
  pub total_players : ℕ
  pub started_at : Option Time
  pub ended_at : Option Time
  pub status : GameSessionStatus

pub record GameHistoryOut : Type 0 where
  pub items : List GameHistoryItem
  pub total : ℕ

-- Texts are ordered by their code points.
abbrev pub text_ltb : List ℕ → List ℕ → Bool
text_ltb cs [] = false
text_ltb [] (d ∷ ds) = true
text_ltb (c ∷ cs) (d ∷ ds) =
    let rest = text_ltb cs ds in if ltb c d then true else if ltb d c then false else rest

abbrev pub role_ltb : GameRole → GameRole → Bool
role_ltb as_host as_player = true
role_ltb r s = false

-- `key=lambda x: (x.started_at or datetime.min, x.session_id, x.role), reverse=True`
abbrev pub by_recency : GameHistoryItem → GameHistoryItem → Bool
by_recency x y =
    if ltb (or_min y.started_at) (or_min x.started_at)
    then true
    else if ltb (or_min x.started_at) (or_min y.started_at)
    then false
    else if text_ltb (codes y.session_id) (codes x.session_id)
    then true
    else if text_ltb (codes x.session_id) (codes y.session_id)
    then false
    else role_ltb y.role x.role

-- `next((i + 1 for i, p in enumerate(players) if p.player_id == player_id), None)`, from i on.
abbrev pub rank_of : ℕ → Uuid → List GamePlayer → Option ℕ
rank_of i player_id [] = none
rank_of i player_id (p ∷ players) =
    let rest = rank_of (suc i) player_id players in
    if p.player_id == player_id then some (i + 1) else rest

abbrev pub of_role : Option GameRole → GameRole → Bool
of_role none r = true
of_role (some as_host) as_host = true
of_role (some as_player) as_player = true
of_role (some _) r = false

abbrev pub is_user : Uuid → Option Uuid → Bool
is_user user_id none = false
is_user user_id (some i) = i == user_id

module _ ⦃texts : Texts⦄ where
  -- The part of an item that is the session's. Without its quiz an `AttributeError` is raised.
  abbrev pub history_item :
      Db → GameRole → Option ℤ → Option ℕ → GameSession → Result GameHistoryItem
  history_item db role score rank s = do
    quiz ← require (find? (λ (q : Quiz). q.quiz_id == s.quiz_id) db.quizzes) attribute_error
    ok (record {
      session_id = texts.str s.session_id;
      room_code = s.room_code;
      quiz_id = texts.str s.quiz_id;
      quiz_title = quiz.title;
      role = role;
      score = score;
      rank = rank;
      total_players = length (players_of s.session_id db);
      started_at = s.started_at;
      ended_at = s.ended_at;
      status = s.status;
    })

  abbrev pub host_items : Db → List GameSession → Result (List GameHistoryItem)
  host_items db [] = ok []
  host_items db (s ∷ sessions) = do
    item ← history_item db as_host none none s
    rest ← host_items db sessions
    ok (item ∷ rest)

  abbrev pub player_item : Db → GamePlayer → GameSession → Result GameHistoryItem
  player_item db player s =
      history_item db as_player (some player.score)
        (rank_of 0 player.player_id (sort_by by_score (players_of s.session_id db))) s

  -- The join of the players with their finished sessions.
  abbrev pub player_entries :
      Uuid → List GameSession → List GamePlayer → List (GamePlayer × GameSession)
  player_entries user_id sessions [] = []
  player_entries user_id sessions (p ∷ players) =
      let rest = player_entries user_id sessions players in
      elim (find? (λ (s : GameSession). s.session_id == p.session_id) sessions) [
        | none ↦ rest
        | some s ↦ if is_user user_id p.user_id && s.status == finished then (p, s) ∷ rest else rest
      ]

  abbrev pub player_items : Db → List (GamePlayer × GameSession) → Result (List GameHistoryItem)
  player_items db [] = ok []
  player_items db ((p, s) ∷ entries) = do
    item ← player_item db p s
    rest ← player_items db entries
    ok (item ∷ rest)

  abbrev pub hosted : Db → User → List GameSession
  hosted db user =
      select (λ (s : GameSession). s.host_id == user.id && s.status == finished) db.sessions

  abbrev pub history_of : Db → User → Option GameRole → Result (List GameHistoryItem)
  history_of db user role = do
    as_hosts ← host_items db (if of_role role as_host then hosted db user else [])
    as_players ←
        player_items db
          (if of_role role as_player then player_entries user.id db.sessions db.players else [])
    ok (sort_by by_recency (as_hosts ++ as_players))

  unfoldable pub get_game_history : Db → User → ℕ → ℕ → Option GameRole → Result GameHistoryOut
  get_game_history db user limit offset role = do
    items ← history_of db user role
    ok (record { items = take limit (drop offset items); total = length items })
