-- ===== src/Examples/Connections.antt =====
-- The theorems on the connection manager and on the life of a socket.
use askit_backend.Examples.Scene.{ada, str, waiting_room}
use askit_backend.External.Memory.{
  memory, plain_hashes, plain_jwt, plain_texts, strict_fields, two_secrets, whole_floats,
}
use askit_backend.Game.Connections.{connect, disconnect, empty, is_in, player_socket, recipients}
use askit_backend.Game.Connections.Consistency.{
  IsConsistent, connect_player, connect_to_host, disconnect_player, rooms_match_subscriptions, run,
}
use askit_backend.Game.Connections.Delivery.{reconnection_lost}
use askit_backend.Game.Connections.Refinement.{Refines, means_all, nobody, run-Refines}
use askit_backend.Game.Lifetimes.{Server, player_leaves}
use askit_backend.Game.Lifetimes.Cleanup.{player_leaves_gone, shows_connected}
use askit_backend.Game.Messages.{broadcast_to_room, player_left}
use askit_backend.Prelude.{[], any, arith, false, none, refl, true, ◌++◌, ◌∷◌, ◌≡◌}

reconnection_lost_example :
    (player_socket "p" (disconnect 1 "A" "p" (connect 2 "A" "p" empty)) ≡ none)
    × (is_in 2 (recipients "A" none (disconnect 1 "A" "p" (connect 2 "A" "p" empty))) ≡ true)
reconnection_lost_example = reconnection_lost 1 2 "A" "p" empty (omega arith)

run-Refines_example :
    Refines
      (run
        (connect_player 1 "A" "p" ∷ connect_to_host 2 "A" ∷ disconnect_player 1 "A" "p" ∷ [])
        empty)
      (means_all
        (connect_player 1 "A" "p" ∷ connect_to_host 2 "A" ∷ disconnect_player 1 "A" "p" ∷ [])
        nobody)
run-Refines_example =
    run-Refines
      (connect_player 1 "A" "p" ∷ connect_to_host 2 "A" ∷ disconnect_player 1 "A" "p" ∷ [])

rooms_match_subscriptions_example :
    IsConsistent (run (connect_player 1 "A" "p" ∷ disconnect_player 1 "A" "p" ∷ []) empty)
rooms_match_subscriptions_example =
    rooms_match_subscriptions (connect_player 1 "A" "p" ∷ disconnect_player 1 "A" "p" ∷ [])

abbrev entered : Server memory.Store
entered = record { world = waiting_room; manager = connect 1 "ROOM" (str 51) empty }

player_leaves_gone_example :
    (is_in 1 (recipients "ROOM" none (player_leaves 1 "ROOM" ada entered).1.manager) ≡ false)
    × (player_socket (str 51) (player_leaves 1 "ROOM" ada entered).1.manager ≡ none)
    × (any (shows_connected 51) (player_leaves 1 "ROOM" ada entered).1.world.db.players ≡ false)
    × (any (shows_connected 52) (player_leaves 1 "ROOM" ada entered).1.world.db.players
        ≡ any (shows_connected 52) entered.world.db.players)
    × ((player_leaves 1 "ROOM" ada entered).1.world.sent
        ≡ entered.world.sent ++ broadcast_to_room "ROOM" (player_left (str 51) "ada") ∷ [])
player_leaves_gone_example = player_leaves_gone 1 "ROOM" ada entered none 52 refl
