-- ===== src/Game/History/Roles.antt =====
-- What the items of a game history tell by role.
use askit_backend.Exec.{Result-cases, ok}
use askit_backend.External.{Texts}
use askit_backend.Game.Board.{by_score}
use askit_backend.Game.History.{
  GameHistoryItem, GameHistoryOut, GameRole, as_host, as_player, by_recency, get_game_history,
  history_item, history_of, host_items, hosted, is_user, of_role, player_entries, player_item,
  player_items, rank_of,
}
use askit_backend.Game.Rooms.{hosts}
use askit_backend.Game.World.{players_of}
use askit_backend.Models.{Db, GamePlayer, GameSession, Quiz, User, Uuid, finished, status_eq}
use askit_backend.Prelude.{
  All, All-append, All-map, Bool, Bool-cases, List, Option, Option-cases, [], any, arith, beq_refl,
  drop, drop-All, false, find?, find?-some, if◌then◌else◌, inl, inr, length, length-take,
  nat_beq_iff, nat_eq, none, refl, select, some, string_eq, subst, suc, sym, take, take-All, true,
  ℕ, ◌&&◌, ◌++◌, ◌+◌, ◌<◌, ◌==◌, ◌∷◌, ◌≡◌, ◌≤◌,
}
use askit_backend.Prelude.Int.{ℤ}
use askit_backend.Prelude.Sorting.{length-sort_by, sort_by, sort_by-All, sort_by-any}

rank_of-bounds :
    (i : ℕ) (player_id : Uuid) (players : List GamePlayer) {r : ℕ}
    → rank_of i player_id players ≡ some r
    → (i < r) × (r ≤ i + length players)
rank_of-bounds i player_id [] h = absurd (ground (arith, h))
rank_of-bounds i player_id (p ∷ players) {r} h = elim (Bool-cases (p.player_id == player_id)) [
  | inl e ↦ (ground (arith, h, e), ground (arith, h, e))
  | inr e ↦
      let (low, high) = rank_of-bounds (suc i) player_id players {r = r} (ground (arith, h, e)) in
      (omega (arith, low), omega (arith, high))
]

rank_of-some :
    (i : ℕ) (player_id : Uuid) (players : List GamePlayer)
    → any (λ (p : GamePlayer). p.player_id == player_id) players ≡ true
    → (r : ℕ) × (rank_of i player_id players ≡ some r)
rank_of-some i player_id [] h = absurd (ground (arith, h))
rank_of-some i player_id (p ∷ players) h = elim (Bool-cases (p.player_id == player_id)) [
  | inl e ↦ (i + 1, rw e refl)
  | inr e ↦
      let (r, e') = rank_of-some (suc i) player_id players (ground (arith, h, e)) in
      (r, ground (arith, e, e'))
]

-- A host has neither score nor rank. A player has both, and the rank is one of those of the players.
abbrev pub Fits : GameRole → Option ℤ → Option ℕ → ℕ → Type 0
Fits as_host score rank total_players = (score ≡ none) × (rank ≡ none)
Fits as_player score rank total_players =
    (n : ℤ) × (r : ℕ) × (score ≡ some n) × (rank ≡ some r) × (1 ≤ r) × (r ≤ total_players)

abbrev pub FitsRole : GameHistoryItem → Type 0
FitsRole item = Fits item.role item.score item.rank item.total_players

module _ ⦃texts : Texts⦄ where
  history_item-FitsRole :
      (db : Db) (role : GameRole) (score : Option ℤ) (rank : Option ℕ) (s : GameSession)
      {item : GameHistoryItem}
      → history_item db role score rank s ≡ ok item
      → Fits role score rank (length (players_of s.session_id db))
      → FitsRole item
  history_item-FitsRole db role score rank s {item} h fits =
      elim (Option-cases (find? (λ (q : Quiz). q.quiz_id == s.quiz_id) db.quizzes)) [
        | inl missing ↦ absurd (ground (arith, h, missing))
        | inr (quiz, found) ↦
            let whole : item ≡ record {
              session_id = texts.str s.session_id;
              room_code = s.room_code;
              quiz_id = texts.str s.quiz_id;
              quiz_title = quiz.title;
              role = role;
              score = score;
              rank = rank;
              total_players = length (players_of s.session_id db);
              started_at = s.started_at;
              ended_at = s.ended_at;
              status = s.status;
            } =
              ground (arith, h, found) in
            subst FitsRole (sym whole) fits
      ]

  host_items-FitsRole :
      (db : Db) (sessions : List GameSession) {items : List GameHistoryItem}
      → host_items db sessions ≡ ok items
      → All FitsRole items
  host_items-FitsRole db [] {items} h = let e : items ≡ [] = cc in rw e tt
  host_items-FitsRole db (s ∷ sessions) {items} h =
      elim (Result-cases (history_item db as_host none none s)) [
        | inr (x, failed) ↦ absurd (ground (arith, h, failed))
        | inl (item, e) ↦ elim (Result-cases (host_items db sessions)) [
          | inr (x, failed) ↦ absurd (ground (arith, h, e, failed))
          | inl (rest, e') ↦
              let whole : items ≡ item ∷ rest = ground (arith, h, e, e') in
              rw whole (
                history_item-FitsRole db as_host none none s e (refl, refl),
                host_items-FitsRole db sessions e',
              )
        ]
      ]

  -- The player is one of the session.
  abbrev IsIn : Db → GamePlayer × GameSession → Type 0
  IsIn db entry =
      any (λ (q : GamePlayer). q.player_id == entry.0.player_id) (players_of entry.1.session_id db)
      ≡ true

  player_items-FitsRole :
      (db : Db) (entries : List (GamePlayer × GameSession)) {items : List GameHistoryItem}
      → All (IsIn db) entries
      → player_items db entries ≡ ok items
      → All FitsRole items
  player_items-FitsRole db [] {items} isin h = let e : items ≡ [] = cc in rw e tt
  player_items-FitsRole db ((p, s) ∷ entries) {items} isin h =
      elim (Result-cases (player_item db p s)) [
        | inr (x, failed) ↦ absurd (ground (arith, h, failed))
        | inl (item, e) ↦ elim (Result-cases (player_items db entries)) [
          | inr (x, failed) ↦ absurd (ground (arith, h, e, failed))
          | inl (rest, e') ↦
              let whole : items ≡ item ∷ rest = ground (arith, h, e, e') in
              let players = sort_by by_score (players_of s.session_id db) in
              let (r, ranked) =
                rank_of-some 0 p.player_id players
                  (sort_by-any by_score _ (players_of s.session_id db) isin.0) in
              let (low, high) = rank_of-bounds 0 p.player_id players ranked in
              rw whole (
                history_item-FitsRole db as_player (some p.score) (rank_of 0 p.player_id players) s
                    e
                    (
                      p.score,
                      r,
                      refl,
                      ranked,
                      omega (arith, low),
                      omega (arith, high, length-sort_by by_score (players_of s.session_id db)),
                    ),
                player_items-FitsRole db entries isin.1 e',
              )
        ]
      ]

  selected_in :
      (p : GamePlayer) (session_id : Uuid) (players : List GamePlayer)
      → any (λ (q : GamePlayer). q.player_id == p.player_id && q.session_id == session_id) players
        ≡ true
      → any
          (λ (q : GamePlayer). q.player_id == p.player_id)
          (select (λ (q : GamePlayer). q.session_id == session_id) players)
        ≡ true
  selected_in p session_id [] h = absurd (ground (arith, h))
  selected_in p session_id (q ∷ players) h = ground (arith, h, selected_in p session_id players)

  player_entries-IsIn :
      (db : Db) (user_id : Uuid) (players : List GamePlayer)
      → All
          (λ (p : GamePlayer).
            any
              (λ (q : GamePlayer). q.player_id == p.player_id && q.session_id == p.session_id)
              db.players
            ≡ true)
          players
      → All (IsIn db) (player_entries user_id db.sessions players)
  player_entries-IsIn db user_id [] h = tt
  player_entries-IsIn db user_id (p ∷ players) h =
      elim (Option-cases (find? (λ (s : GameSession). s.session_id == p.session_id) db.sessions)) [
        | inl missing ↦ rw (player_entries, missing) (player_entries-IsIn db user_id players h.1)
        | inr (s, found) ↦ elim (Bool-cases (is_user user_id p.user_id && s.status == finished)) [
          | inr e ↦ rw (player_entries, found, e) (player_entries-IsIn db user_id players h.1)
          | inl e ↦
              let own : s.session_id ≡ p.session_id = (nat_beq_iff _ _).0 (
                find?-some (λ (t : GameSession). t.session_id == p.session_id) db.sessions {x = s}
                  found) in
              rw (player_entries, found, e)
                (
                  selected_in p s.session_id db.players (rw own h.0),
                  player_entries-IsIn db user_id players h.1,
                )
        ]
      ]

  -- Each player is among the players.
  own_rows :
      (players : List GamePlayer)
      → All
          (λ (p : GamePlayer).
            any
              (λ (q : GamePlayer). q.player_id == p.player_id && q.session_id == p.session_id)
              players
            ≡ true)
          players
  own_rows [] = tt
  own_rows (p ∷ players) = (
    rw (beq_refl p.player_id, beq_refl p.session_id) refl,
    All-map _ _ players (λ q h. ground (arith, h)) (own_rows players),
  )

  entries_if-IsIn :
      (b : Bool) (db : Db) (user_id : Uuid)
      → All (IsIn db) (if b then player_entries user_id db.sessions db.players else [])
  entries_if-IsIn true db user_id = player_entries-IsIn db user_id db.players (own_rows db.players)
  entries_if-IsIn false db user_id = tt

  history_of-FitsRole :
      (db : Db) (user : User) (role : Option GameRole) {items : List GameHistoryItem}
      → history_of db user role ≡ ok items
      → All FitsRole items
  history_of-FitsRole db user role {items} h =
      let sessions = if of_role role as_host then hosted db user else [] in
      let entries =
        if of_role role as_player then player_entries user.id db.sessions db.players else [] in
      elim (Result-cases (host_items db sessions)) [
        | inr (x, failed) ↦ absurd (ground (arith, h, failed))
        | inl (hosts, e) ↦ elim (Result-cases (player_items db entries)) [
          | inr (x, failed) ↦ absurd (ground (arith, h, e, failed))
          | inl (players, e') ↦
              let whole : items ≡ sort_by by_recency (hosts ++ players) =
                ground (arith, h, e, e') in
              subst (All FitsRole) (sym whole) (
                sort_by-All by_recency FitsRole (hosts ++ players) (
                  All-append FitsRole hosts players (host_items-FitsRole db sessions e) (
                    player_items-FitsRole db entries
                      (entries_if-IsIn (of_role role as_player) db user.id) e')))
        ]
      ]

  -- A page holds as many items as were asked for at most. An item of a host has no score and no rank,
  -- one of a player has both, and the rank is one of those of the session's players.
  pub get_game_history-FitsRole :
      (db : Db) (user : User) (limit offset : ℕ) (role : Option GameRole) {out : GameHistoryOut}
      → get_game_history db user limit offset role ≡ ok out
      → (length out.items ≤ limit) × All FitsRole out.items
  unfolding get_game_history
  get_game_history-FitsRole db user limit offset role {out} h =
      elim (Result-cases (history_of db user role)) [
        | inr (e, failed) ↦ absurd (ground (arith, h, failed))
        | inl (items, e) ↦
            let page : out.items ≡ take limit (drop offset items) = ground (arith, h, e) in
            rw page (
              omega (arith, length-take limit (drop offset items)),
              take-All FitsRole limit (drop offset items)
                  (drop-All FitsRole offset items (history_of-FitsRole db user role e)),
            )
      ]
