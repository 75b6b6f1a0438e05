-- ===== src/Game/Board/Ranking.antt =====
-- The entries of `get_leaderboard` and what it keeps for the next call.
use mathlib.Core.List.Perm
use askit_backend.Exec.{ok}
use askit_backend.External.{Redis, Texts, prev_ranking}
use askit_backend.Game.Board.{by_score, get_leaderboard, rank_entries}
use askit_backend.Game.Messages.{WsLeaderboardEntry}
use askit_backend.Game.Play.{State}
use askit_backend.Game.World.{Room, as_ranking, get_room}
use askit_backend.Models.{GamePlayer}
use askit_backend.Prelude.{
  All, List, Perm, String, [], ap, arith, false, map, refl, some, suc, true, ℕ, ◌∷◌, ◌≡◌,
}
use askit_backend.Prelude.Int.{ℤ, ◌≤ℤ◌}
use askit_backend.Prelude.Sorting.{IsSorted, sort_by, sort_by-IsSorted, sort_by-perm}

-- Entries in the order of their ranks, by scores that do not increase.
abbrev pub IsRanked : ℕ → List WsLeaderboardEntry → Type 0
IsRanked rank [] = Unit
IsRanked rank (e ∷ entries) =
    (e.rank ≡ rank)
    × All (λ (f : WsLeaderboardEntry). f.score ≤ℤ e.score) entries
    × IsRanked (suc rank) entries

by_score_asym : (p q : GamePlayer) → by_score p q ≡ true → by_score q p ≡ false
by_score_asym p q h = ground arith

by_score_trans :
    (p q r : GamePlayer) → by_score q p ≡ false → by_score r q ≡ false → by_score r p ≡ false
by_score_trans p q r h k = ground arith

module _ ⦃texts : Texts⦄ where
  -- Whose entry it is.
  abbrev pub standing : GamePlayer → String × String × ℤ
  standing p = (texts.str p.player_id, p.nickname, p.score)

  abbrev pub entry_of : WsLeaderboardEntry → String × String × ℤ
  entry_of e = (e.player_id, e.nickname, e.score)

  rank_entries-standing :
      (prev : List (String × ℕ)) (rank : ℕ) (players : List GamePlayer)
      → map entry_of (rank_entries prev rank players) ≡ map standing players
  unfolding rank_entries
  rank_entries-standing prev rank [] = refl
  rank_entries-standing prev rank (p ∷ players) =
      ap (λ es. standing p ∷ es) (rank_entries-standing prev (suc rank) players)

  rank_entries-below :
      (prev : List (String × ℕ)) (rank : ℕ) (q : GamePlayer) (players : List GamePlayer)
      → All (λ (p : GamePlayer). by_score p q ≡ false) players
      → All (λ (e : WsLeaderboardEntry). e.score ≤ℤ q.score) (rank_entries prev rank players)
  unfolding rank_entries
  rank_entries-below prev rank q [] h = tt
  rank_entries-below prev rank q (p ∷ players) h =
      (ground (arith, h.0), rank_entries-below prev (suc rank) q players h.1)

  rank_entries-IsRanked :
      (prev : List (String × ℕ)) (rank : ℕ) (players : List GamePlayer)
      → IsSorted by_score players
      → IsRanked rank (rank_entries prev rank players)
  unfolding rank_entries
  rank_entries-IsRanked prev rank [] h = tt
  rank_entries-IsRanked prev rank (p ∷ players) h = (
    refl,
    rank_entries-below prev (suc rank) p players h.0,
    rank_entries-IsRanked prev (suc rank) players h.1,
  )

module _ ⦃redis : Redis⦄ ⦃texts : Texts⦄ where
  -- The leaderboard of a room has one entry for each of its players, with ranks from 1 on, and
  -- scores that do not increase.
  pub get_leaderboard_ranks :
      (room_code : String) (w : State) {room : Room}
      → get_room room_code w.db ≡ some room
      → (entries : List WsLeaderboardEntry) × ((get_leaderboard room_code w).0 ≡ ok entries)
        × IsRanked 1 entries
        × Perm (map entry_of entries) (map standing room.players)
  unfolding get_leaderboard
  get_leaderboard_ranks room_code w {room} found =
      let players = sort_by by_score room.players in
      let prev = as_ranking (redis.get w.redis (prev_ranking room_code)) in
      (
        rank_entries prev 1 players,
        ground (arith, found),
        rank_entries-IsRanked prev 1 players
            (sort_by-IsSorted by_score by_score_asym by_score_trans room.players),
        rw (rank_entries-standing prev 1 players)
            (Perm.map standing (sort_by-perm by_score room.players)),
      )
