-- ===== src/Game/Lifetimes.antt =====
-- The life of a WebSocket after its admission: `websocket_player_endpoint` and
-- `websocket_host_endpoint` of app/game/router.py up to their receive loops, and their cleanup.

pub mod Cleanup
use askit_backend.Exec.{Exec, err, modify, ok, pure, ◌>>=◌, ◌>>◌}
use askit_backend.External.{Floats, Redis, Texts}
use askit_backend.Game.Board.{build_game_finished}
use askit_backend.Game.Connections.{
  Manager, Socket, connect, connect_host, disconnect, disconnect_host,
}
use askit_backend.Game.Handlers.{Ambient, game_finished_for_player, send}
use askit_backend.Game.Messages.{
  PlayerInfo, Sent, WsGameFinished, WsMessage, broadcast_to_others, broadcast_to_room,
  game_finished, player_joined, player_left, send_to_host, send_to_player,
}
use askit_backend.Game.Play.{State}
use askit_backend.Game.RoomState.{build_room_state}
use askit_backend.Game.World.{World}
use askit_backend.Models.{Db, GamePlayer, GameSession, Uuid, finished, status_eq}
use askit_backend.Prelude.{
  Bool, Option, String, false, nat_eq, none, some, string_eq, true, update, ◌==◌,
}

-- The state of the game beside that of the connection manager.
pub record Server (Store : Type 0) : Type 0 where
  pub world : World Store
  pub manager : Manager

abbrev pub mark_connected : Bool → GamePlayer → GamePlayer
mark_connected connected p = record p { is_connected = connected }

abbrev pub write_connected : Uuid → Bool → Db → Db
write_connected player_id connected db = record db {
  players =
      update (λ (p : GamePlayer). p.player_id == player_id) (mark_connected connected) db.players;
}

-- `try: … except Exception`
abbrev pub attempt : {W A : Type 0} → Exec W A → Exec W (Option A)
attempt m w = let (r, w') = m w in (ok (elim r [ ok a ↦ some a | err e ↦ none ]), w')

module _ ⦃redis : Redis⦄ where
  abbrev pub in_world : {A : Type 0} → Exec State A → Exec (Server redis.Store) A
  in_world m s = let (r, w) = m s.world in (r, record s { world = w })

  abbrev pub in_manager : (Manager → Manager) → Exec (Server redis.Store) (Unit {0})
  in_manager f = modify (λ s. record s { manager = f s.manager })

  -- `_set_player_connected`, whose write is taken to succeed.
  abbrev pub set_player_connected : Uuid → Bool → Exec (Server redis.Store) (Unit {0})
  set_player_connected player_id connected = modify (λ s. record s {
    world = record s.world { db = write_connected player_id connected s.world.db };
  })

  abbrev pub sends : Sent → Exec (Server redis.Store) (Unit {0})
  sends message = in_world (modify (send message))

  abbrev pub send_given :
      {A : Type 0} → Option A → (A → Sent) → Exec (Server redis.Store) (Unit {0})
  send_given none message = pure tt
  send_given (some a) message = sends (message a)

  module _ ⦃texts : Texts⦄ where
    -- The `finally` of the player's receive loop.
    unfoldable pub player_leaves :
        Socket → String → GamePlayer → Exec (Server redis.Store) (Unit {0})
    player_leaves ws room_code p = do
      in_manager (disconnect ws room_code (texts.str p.player_id))
      set_player_connected p.player_id false
      sends (broadcast_to_room room_code (player_left (texts.str p.player_id) p.nickname))

    -- That of the host's tells nobody.
    unfoldable pub host_leaves : Socket → String → Exec (Server redis.Store) (Unit {0})
    host_leaves ws room_code = in_manager (disconnect_host ws room_code)

    module _ ⦃floats : Floats⦄ (ambient : Ambient) where
      abbrev own_part : Bool → String → WsGameFinished → WsGameFinished
      own_part true player_id results = results
      own_part false player_id results = game_finished_for_player results player_id

      abbrev joined_info : GamePlayer → PlayerInfo
      joined_info p = record {
        player_id = texts.str p.player_id;
        nickname = p.nickname;
        score = p.score;
        is_connected = true;
      }

      abbrev finished_if : Bool → String → Exec State (Option WsGameFinished)
      finished_if true room_code = build_game_finished ambient.now room_code
      finished_if false room_code = pure none

      -- `false` where the room's state could not be built: the socket is then taken out again and
      -- closed. The session and the player are those of the admission.
      unfoldable pub player_enters :
          Socket → String → GameSession → GamePlayer → Exec (Server redis.Store) Bool
      player_enters ws room_code session p = do
        in_manager (connect ws room_code (texts.str p.player_id))
        set_player_connected p.player_id true
        built ←
            attempt
              (in_world (build_room_state ambient.shuffle_answers ambient.now room_code false))
        elim built [
          | none ↦ in_manager (disconnect ws room_code (texts.str p.player_id)) >> pure false
          | some loaded ↦
              send_given loaded
                (λ state. send_to_player (texts.str p.player_id) (WsMessage.room_state state))
              >> (in_world (finished_if (session.status == finished) room_code) >>= λ results.
                  send_given results (λ r.
                    send_to_player (texts.str p.player_id)
                      (game_finished (own_part session.public_results (texts.str p.player_id) r)))
                  >> sends (
                      broadcast_to_others (texts.str p.player_id) room_code
                        (player_joined (joined_info p)))
                  >> pure true)
        ]

      unfoldable pub host_enters : Socket → String → GameSession → Exec (Server redis.Store) Bool
      host_enters ws room_code session = do
        in_manager (connect_host ws room_code)
        built ←
            attempt (in_world (build_room_state ambient.shuffle_answers ambient.now room_code true))
        elim built [
          | none ↦ in_manager (disconnect_host ws room_code) >> pure false
          | some loaded ↦
              send_given loaded (λ state. send_to_host room_code (WsMessage.room_state state))
              >> (in_world (finished_if (session.status == finished) room_code) >>= λ results.
                  send_given results (λ r. send_to_host room_code (game_finished r)) >> pure true)
        ]
