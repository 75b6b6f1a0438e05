-- ===== src/Game/Handlers/Results.antt =====
-- Who learns what at the end of a game.
use mathlib.Core.List.{append-nil}
use askit_backend.Exec.{Result-cases}
use askit_backend.External.{Floats, Redis, Texts}
use askit_backend.Game.Board.{build_game_finished, clear_ranking_state, get_leaderboard}
use askit_backend.Game.Handlers.{
  Ambient, end_game, game_finished_for_player, own_results, results_to,
}
use askit_backend.Game.Messages.{
  Sent, WsGameFinished, WsLeaderboardEntry, WsMessage, broadcast_to_others, broadcast_to_room,
  game_finished, send_to_host, send_to_player,
}
use askit_backend.Game.Play.{State, mark_finished, write_session}
use askit_backend.Game.World.{Room, get_room}
use askit_backend.Models.{GamePlayer, Time}
use askit_backend.Prelude.{
  All, Bool-cases, List, String, [], arith, false, inl, inr, nat_eq, none, select, some, string_eq,
  ◌++◌, ◌==◌, ◌∷◌, ◌≡◌,
}

abbrev OwnOnly : String → WsMessage → Type 0
OwnOnly player_id (game_finished results) =
    All (λ (e : WsLeaderboardEntry). e.player_id ≡ player_id) results.final_leaderboard
OwnOnly player_id _ = Unit

-- A message that shows no player the result of another.
abbrev pub IsPrivate : Sent → Type 0
IsPrivate (broadcast_to_room room_code message) = ⊥
IsPrivate (broadcast_to_others player_id room_code message) = ⊥
IsPrivate (send_to_player player_id message) = OwnOnly player_id message
IsPrivate (send_to_host room_code message) = Unit

own_entries :
    (player_id : String) (entries : List WsLeaderboardEntry)
    → All
        (λ (e : WsLeaderboardEntry). e.player_id ≡ player_id)
        (select (λ (e : WsLeaderboardEntry). e.player_id == player_id) entries)
own_entries player_id [] = tt
own_entries player_id (e ∷ entries) = elim (Bool-cases (e.player_id == player_id)) [
  | inl same ↦ rw same ((string_eq.beq_iff _ _).0 same, own_entries player_id entries)
  | inr other ↦ rw other (own_entries player_id entries)
]

module _ ⦃redis : Redis⦄ ⦃texts : Texts⦄ ⦃floats : Floats⦄ (ambient : Ambient) where
  own_results-IsPrivate :
      (results : WsGameFinished) (players : List GamePlayer)
      → All IsPrivate (own_results ambient results players)
  unfolding game_finished_for_player
  own_results-IsPrivate results [] = tt
  own_results-IsPrivate results (p ∷ players) = (
    own_entries (texts.str p.player_id) results.final_leaderboard,
    own_results-IsPrivate results players,
  )

  results_to-IsPrivate :
      (room_code : String) (room : Room) (results : WsGameFinished)
      → room.session.public_results ≡ false
      → All IsPrivate (results_to ambient room_code room results)
  unfolding results_to
  results_to-IsPrivate room_code room results h =
      rw h (tt, own_results-IsPrivate results room.players)

  build_game_finished-sent :
      (now : Time) (room_code : String) (w : State)
      → (build_game_finished now room_code w).1.sent ≡ w.sent
  unfolding build_game_finished get_leaderboard
  build_game_finished-sent now room_code w = ground arith

  -- The end of a game whose results are private sends no broadcast, and to a player no entry but
  -- its own.
  pub end_game-IsPrivate :
      (room_code : String) (w : State) {room : Room}
      → get_room room_code w.db ≡ some room
      → room.session.public_results ≡ false
      → (news : List Sent) × ((end_game ambient room_code w).1.sent ≡ w.sent ++ news)
        × All IsPrivate news
  unfolding end_game clear_ranking_state
  end_game-IsPrivate room_code w {room} found h =
      let w' = write_session room.session.session_id (mark_finished ambient.now) w in
      let quiet = build_game_finished-sent ambient.now room_code w' in
      elim (Result-cases (build_game_finished ambient.now room_code w').0) [
        | inr (x, e) ↦ ([], ground (arith, quiet, append-nil w.sent), tt)
        | inl (none, e) ↦ ([], ground (arith, quiet, append-nil w.sent), tt)
        | inl (some results, e) ↦ (
          results_to ambient room_code room results,
          ground (arith, quiet),
          results_to-IsPrivate room_code room results h,
        )
      ]
