-- ===== src/Game/Connections.antt =====
-- `ConnectionManager`, app/game/connection_manager.py. A socket is the number of its object: Python
-- compares WebSockets by identity. The methods that
-- change the manager run under its lock, as one step each; `close_all` takes no lock, and is modelled as
-- one step too, in which nothing else happens.
use askit_backend.Prelude.{
  Bool, List, Option, String, [], any, false, if◌then◌else◌, length, nat_eq, none, not, select,
  some, string_eq, true, ℕ, ◌&&◌, ◌++◌, ◌==◌, ◌∷◌,
}
use askit_backend.Prelude.Dict.{Dict, insert, lookup, remove}
pub mod Sets
pub mod Consistency
pub mod Delivery
pub mod Refinement

abbrev pub Socket : Type 0
Socket = ℕ

pub record Manager : Type 0 where
  pub rooms : Dict (List Socket)
  pub players : Dict Socket
  pub hosts : Dict Socket
  pub subscriptions : List String

abbrev pub empty : Manager
empty = record { rooms = []; players = []; hosts = []; subscriptions = [] }

-- The sockets of a room; a room that is missing has none.
abbrev pub sockets_of : String → Dict (List Socket) → List Socket
sockets_of room rooms = elim (lookup room rooms) [ none ↦ [] | some sockets ↦ sockets ]

abbrev pub has_room : String → Dict (List Socket) → Bool
has_room room rooms = elim (lookup room rooms) [ none ↦ false | some sockets ↦ true ]

abbrev pub is_in : Socket → List Socket → Bool
is_in ws sockets = any (λ x. x == ws) sockets

-- `set.add` and `set.discard`
abbrev pub add : Socket → List Socket → List Socket
add ws sockets = if is_in ws sockets then sockets else sockets ++ ws ∷ []

abbrev pub discard : Socket → List Socket → List Socket
discard ws sockets = select (λ x. not (x == ws)) sockets

abbrev pub is_empty : List Socket → Bool
is_empty [] = true
is_empty (x ∷ xs) = false

-- `_subscribe_to_room` and `_unsubscribe_from_room`, on the keys of `_subscriptions`
abbrev pub subscribes : String → List String → Bool
subscribes room subs = any (λ s. s == room) subs

abbrev pub subscribe : String → List String → List String
subscribe room subs = if subscribes room subs then subs else subs ++ room ∷ []

abbrev pub unsubscribe : String → List String → List String
unsubscribe room subs = select (λ s. not (s == room)) subs

-- The part of `connect` and `connect_host` that enters the socket into its room.
abbrev pub enter_room : Socket → String → Manager → Manager
enter_room ws room m = record m {
  rooms = insert room (add ws (sockets_of room m.rooms)) m.rooms;
  subscriptions = if has_room room m.rooms then m.subscriptions else subscribe room m.subscriptions;
}

-- The part of `disconnect` and `disconnect_host` that takes the socket out of its room, and drops
-- the room with its subscription when that was the last one.
abbrev pub drop_room : String → Manager → Manager
drop_room room m = record m {
  rooms = remove room m.rooms;
  subscriptions = unsubscribe room m.subscriptions;
}

abbrev pub shrink_room : Socket → String → Manager → Manager
shrink_room ws room m = record m {
  rooms = insert room (discard ws (sockets_of room m.rooms)) m.rooms;
}

unfoldable pub leave_room : Socket → String → Manager → Manager
leave_room ws room m =
    if has_room room m.rooms
    then (if is_empty (discard ws (sockets_of room m.rooms))
        then drop_room room m
        else shrink_room ws room m)
    else m

unfoldable pub connect : Socket → String → String → Manager → Manager
connect ws room player_id m =
    let m' = enter_room ws room m in record m' { players = insert player_id ws m.players }

unfoldable pub connect_host : Socket → String → Manager → Manager
connect_host ws room m =
    let m' = enter_room ws room m in record m' { hosts = insert room ws m.hosts }

unfoldable pub disconnect : Socket → String → String → Manager → Manager
disconnect ws room player_id m =
    let m' = leave_room ws room m in record m' { players = remove player_id m.players }

unfoldable pub disconnect_host : Socket → String → Manager → Manager
disconnect_host ws room m =
    let m' = leave_room ws room m in record m' { hosts = remove room m.hosts }

-- The socket that `send_to_player` and `send_to_host` write to.
unfoldable pub player_socket : String → Manager → Option Socket
player_socket player_id m = lookup player_id m.players

unfoldable pub host_socket : String → Manager → Option Socket
host_socket room m = lookup room m.hosts

-- `next((pid for pid, ws in self._players.items() if ws == websocket), None)`
abbrev pub player_at : Socket → Dict Socket → Option String
player_at ws [] = none
player_at ws ((pid, x) ∷ players) = if x == ws then some pid else player_at ws players

-- `exclude_player_id and player_id == exclude_player_id`
abbrev pub is_excluded : Option String → Option String → Bool
is_excluded none at = false
is_excluded (some excluded) none = false
is_excluded (some excluded) (some pid) = not (excluded == "") && pid == excluded

-- The sockets that `_send_to_local_room` writes to.
unfoldable pub recipients : String → Option String → Manager → List Socket
recipients room excluded m =
    select (λ ws. not (is_excluded excluded (player_at ws m.players))) (sockets_of room m.rooms)

unfoldable pub get_local_player_count : String → Manager → ℕ
get_local_player_count room m = length (sockets_of room m.rooms)

-- `close_all` empties all but `_hosts`.
unfoldable pub close_all : Manager → Manager
close_all m = record m { rooms = []; players = []; subscriptions = [] }
