-- ===== src/Game/Lifetimes/Cleanup.antt =====
-- What the cleanup of a player's socket leaves.
use askit_backend.External.{Redis, Texts}
use askit_backend.Game.Connections.{Socket, is_in, player_socket, recipients}
use askit_backend.Game.Connections.Delivery.{disconnect_forgets, disconnect_silences}
use askit_backend.Game.Lifetimes.{Server, mark_connected, player_leaves}
use askit_backend.Game.Messages.{broadcast_to_room, player_left}
use askit_backend.Models.{GamePlayer, Uuid}
use askit_backend.Prelude.{
  Bool, List, Option, String, [], any, arith, false, nat_eq, none, refl, string_eq, update, ◌&&◌,
  ◌++◌, ◌==◌, ◌∷◌, ◌≡◌,
}

-- A row of the player that says it is connected.
abbrev pub shows_connected : Uuid → GamePlayer → Bool
shows_connected player_id p = p.player_id == player_id && p.is_connected

marked_off :
    (player_id : Uuid) (players : List GamePlayer)
    → any
        (shows_connected player_id)
        (update (λ (p : GamePlayer). p.player_id == player_id) (mark_connected false) players)
      ≡ false
marked_off player_id [] = refl
marked_off player_id (p ∷ players) = ground (arith, marked_off player_id players)

others_kept :
    (player_id other : Uuid) (connected : Bool) (players : List GamePlayer)
    → (player_id == other) ≡ false
    → any
        (shows_connected other)
        (update (λ (p : GamePlayer). p.player_id == player_id) (mark_connected connected) players)
      ≡ any (shows_connected other) players
others_kept player_id other connected [] h = refl
others_kept player_id other connected (p ∷ players) h =
    ground (arith, h, others_kept player_id other connected players h)

module _ ⦃redis : Redis⦄ ⦃texts : Texts⦄ where
  -- Once a player's socket is cleaned up, no message to its room is written to it, a message to that
  -- player alone has no socket to be written to, no row says that the player is connected, those of
  -- another player say what they said, and the room is told.
  pub player_leaves_gone :
      (ws : Socket) (room_code : String) (p : GamePlayer) (s : Server redis.Store)
      (excluded : Option String) (other : Uuid)
      → (p.player_id == other) ≡ false
      → (is_in ws (recipients room_code excluded (player_leaves ws room_code p s).1.manager)
          ≡ false)
        × (player_socket (texts.str p.player_id) (player_leaves ws room_code p s).1.manager ≡ none)
        × (any (shows_connected p.player_id) (player_leaves ws room_code p s).1.world.db.players
            ≡ false)
        × (any (shows_connected other) (player_leaves ws room_code p s).1.world.db.players
            ≡ any (shows_connected other) s.world.db.players)
        × ((player_leaves ws room_code p s).1.world.sent
            ≡ s.world.sent
              ++ broadcast_to_room room_code (player_left (texts.str p.player_id) p.nickname) ∷ [])
  unfolding player_leaves
  player_leaves_gone ws room_code p s excluded other h = (
    disconnect_silences ws room_code (texts.str p.player_id) s.manager excluded,
    disconnect_forgets ws room_code (texts.str p.player_id) s.manager,
    marked_off p.player_id s.world.db.players,
    others_kept p.player_id other false s.world.db.players h,
    refl,
  )
