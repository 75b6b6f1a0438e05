-- ===== src/Game/Connections/Delivery.antt =====
-- Whom the manager's messages reach.
use askit_backend.Game.Connections.{
  Manager, Socket, connect, disconnect, is_excluded, is_in, player_at, player_socket, recipients,
  sockets_of,
}
use askit_backend.Game.Connections.Sets.{
  is_in-add, is_in-leave_room, is_in-select, leave_room_cases, sockets_of-enter_room,
  sockets_of-insert, sockets_of-remove,
}
use askit_backend.Prelude.{
  Option, String, arith, beq_refl, eq_iff, false, if◌then◌else◌, nat_eq, none, not, refl, some,
  string_eq, true, ◌==◌, ◌≡◌, ◌≢◌,
}
use askit_backend.Prelude.Dict.{lookup-insert, lookup-remove}

-- A message to a room is written to its sockets, but not to that of the excluded player.
pub is_in-recipients :
    (x : Socket) (room : String) (excluded : Option String) (m : Manager)
    → is_in x (recipients room excluded m) ≡ (
        if not (is_excluded excluded (player_at x m.players))
        then is_in x (sockets_of room m.rooms)
        else false)
unfolding recipients
is_in-recipients x room excluded m = is_in-select x _ (sockets_of room m.rooms)

module _ (ws : Socket) (room pid : String) (m : Manager) where
  -- A player that has just connected is the one that messages to it are written to, and is reached
  -- by every message to its room that excludes nobody.
  pub connect_reaches :
      (player_socket pid (connect ws room pid m) ≡ some ws)
      × (is_in ws (recipients room none (connect ws room pid m)) ≡ true)
  unfolding connect player_socket
  connect_reaches = (
    rw (lookup-insert, beq_refl),
    rw is_in-recipients (
        rw sockets_of-enter_room
          (rw (beq_refl room) (ground (arith, is_in-add ws ws (sockets_of room m.rooms))))),
  )

  -- A socket that has disconnected is reached by no message to its room.
  pub disconnect_silences :
      (excluded : Option String)
      → is_in ws (recipients room excluded (disconnect ws room pid m)) ≡ false
  unfolding disconnect
  disconnect_silences excluded =
      rw is_in-recipients
        (rw is_in-leave_room (rw (beq_refl room) (rw (beq_refl ws) (ground arith))))

  -- Nor is a message to the player written to any socket.
  pub disconnect_forgets : player_socket pid (disconnect ws room pid m) ≡ none
  unfolding disconnect player_socket
  disconnect_forgets = rw (lookup-remove, beq_refl)

  -- Connecting to a room and leaving it change no other room.
  pub other_rooms_keep :
      (other : String)
      → room ≢ other
      → (sockets_of other (connect ws room pid m).rooms ≡ sockets_of other m.rooms)
        × (sockets_of other (disconnect ws room pid m).rooms ≡ sockets_of other m.rooms)
  unfolding connect disconnect
  other_rooms_keep other ne =
      let apart : (room == other) ≡ false = ground (arith, eq_iff room other) in
      (
        rw sockets_of-enter_room (rw apart),
        leave_room_cases ws room m (λ m'. sockets_of other m'.rooms ≡ sockets_of other m.rooms)
            (λ e. rw sockets_of-remove (rw apart)) (λ present e. rw sockets_of-insert (rw apart))
            (λ e. refl),
      )

-- When a player reconnects before its old socket is cleaned up, the cleanup leaves the player
-- without a socket to write to, although the new one is still connected to the room.
pub reconnection_lost :
    (old new : Socket) (room pid : String) (m : Manager)
    → old ≢ new
    → (player_socket pid (disconnect old room pid (connect new room pid m)) ≡ none)
      × (is_in new (recipients room none (disconnect old room pid (connect new room pid m))) ≡ true)
unfolding connect disconnect player_socket
reconnection_lost old new room pid m ne = (
  rw (lookup-remove, beq_refl),
  rw is_in-recipients (
      rw is_in-leave_room (
        rw sockets_of-enter_room
          (rw (beq_refl room) (ground (arith, is_in-add new new (sockets_of room m.rooms)))))),
)
