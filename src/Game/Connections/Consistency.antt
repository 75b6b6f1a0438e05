-- ===== src/Game/Connections/Consistency.antt =====
-- The rooms of the manager and its Redis subscriptions agree, whatever the calls.
use askit_backend.Game.Connections.{
  Manager, Socket, add, close_all, connect, connect_host, discard, disconnect, disconnect_host,
  empty, enter_room, has_room, is_empty, leave_room, sockets_of, subscribes,
}
use askit_backend.Game.Connections.Sets.{
  has_room-insert, has_room-remove, is_empty-add, leave_room_cases, subscribes-subscribe,
  subscribes-unsubscribe,
}
use askit_backend.Prelude.{List, String, [], arith, eq_iff, false, refl, some, ◌∷◌, ◌≡◌}
use askit_backend.Prelude.Dict.{lookup, lookup-insert, lookup-remove}

-- Exactly the rooms with a subscription are present, and none of them is empty.
pub record IsConsistent (m : Manager) : Type 0 where
  pub synced : (j : String) → has_room j m.rooms ≡ subscribes j m.subscriptions
  pub occupied :
      (j : String) (sockets : List Socket)
      → lookup j m.rooms ≡ some sockets
      → is_empty sockets ≡ false

-- A call of the manager.
pub data Call : Type 0 where
  connect_player disconnect_player : Socket → String → String → Call
  connect_to_host disconnect_from_host : Socket → String → Call
  close_everything : Call

unfoldable pub call : Call → Manager → Manager
call (connect_player ws room pid) = connect ws room pid
call (disconnect_player ws room pid) = disconnect ws room pid
call (connect_to_host ws room) = connect_host ws room
call (disconnect_from_host ws room) = disconnect_host ws room
call close_everything = close_all

unfoldable pub run : List Call → Manager → Manager
run [] m = m
run (c ∷ cs) m = run cs (call c m)

enter_room-IsConsistent :
    (ws : Socket) (room : String) (m : Manager)
    → IsConsistent m
    → IsConsistent (enter_room ws room m)
enter_room-IsConsistent ws room m h = record {
  synced = λ j. ground (
    arith,
    h.synced j,
    h.synced room,
    eq_iff room j,
    has_room-insert room j (add ws (sockets_of room m.rooms)) m.rooms,
    subscribes-subscribe j room m.subscriptions,
  );
  occupied = λ j sockets e. ground (
    arith,
    h.occupied j sockets,
    lookup-insert room j (add ws (sockets_of room m.rooms)) m.rooms,
    is_empty-add ws (sockets_of room m.rooms),
  );
}

leave_room-IsConsistent :
    (ws : Socket) (room : String) (m : Manager)
    → IsConsistent m
    → IsConsistent (leave_room ws room m)
leave_room-IsConsistent ws room m h =
    leave_room_cases ws room m IsConsistent
      (λ e. record {
        synced = λ j. ground (
          arith,
          h.synced j,
          has_room-remove room j m.rooms,
          subscribes-unsubscribe j room m.subscriptions,
        );
        occupied =
            λ j sockets p. ground (arith, h.occupied j sockets, lookup-remove room j m.rooms);
      })
      (λ present e. record {
        synced = λ j. ground (
          arith,
          h.synced j,
          eq_iff room j,
          has_room-insert room j (discard ws (sockets_of room m.rooms)) m.rooms,
        );
        occupied = λ j sockets p. ground (
          arith,
          h.occupied j sockets,
          lookup-insert room j (discard ws (sockets_of room m.rooms)) m.rooms,
        );
      })
      (λ e. h)

call-IsConsistent : (c : Call) (m : Manager) → IsConsistent m → IsConsistent (call c m)
unfolding call connect disconnect connect_host disconnect_host close_all
call-IsConsistent (connect_player ws room pid) m h = record {
  synced = (enter_room-IsConsistent ws room m h).synced;
  occupied = (enter_room-IsConsistent ws room m h).occupied;
}
call-IsConsistent (disconnect_player ws room pid) m h = record {
  synced = (leave_room-IsConsistent ws room m h).synced;
  occupied = (leave_room-IsConsistent ws room m h).occupied;
}
call-IsConsistent (connect_to_host ws room) m h = record {
  synced = (enter_room-IsConsistent ws room m h).synced;
  occupied = (enter_room-IsConsistent ws room m h).occupied;
}
call-IsConsistent (disconnect_from_host ws room) m h = record {
  synced = (leave_room-IsConsistent ws room m h).synced;
  occupied = (leave_room-IsConsistent ws room m h).occupied;
}
call-IsConsistent close_everything m h = record { synced = λ j. refl; occupied = λ j s e. cc }

run-IsConsistent : (cs : List Call) (m : Manager) → IsConsistent m → IsConsistent (run cs m)
unfolding run
run-IsConsistent [] m h = h
run-IsConsistent (c ∷ cs) m h = run-IsConsistent cs (call c m) (call-IsConsistent c m h)

-- After any sequence of calls on a new manager, exactly the rooms with a subscription are present,
-- and each has a socket.
pub rooms_match_subscriptions : (calls : List Call) → IsConsistent (run calls empty)
rooms_match_subscriptions calls =
    run-IsConsistent calls empty (record { synced = λ j. refl; occupied = λ j s e. cc })
