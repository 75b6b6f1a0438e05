-- ===== src/Game/Connections/Refinement.antt =====
-- What the manager promises: who is in which room, and which socket stands for whom. The lists, the
-- rooms that come and go and the subscriptions are its own affair.
use askit_backend.Game.Connections.{
  Manager, Socket, close_all, connect, connect_host, disconnect, disconnect_host, empty, enter_room,
  host_socket, is_in, leave_room, player_socket, recipients, sockets_of,
}
use askit_backend.Game.Connections.Consistency.{
  Call, call, close_everything, connect_player, connect_to_host, disconnect_from_host,
  disconnect_player, run,
}
use askit_backend.Game.Connections.Delivery.{is_in-recipients}
use askit_backend.Game.Connections.Sets.{
  is_in-add, is_in-leave_room, leave_room_cases, sockets_of-enter_room,
}
use askit_backend.Prelude.{
  Bool, List, Option, String, [], ap, arith, eq_iff, false, if◌then◌else◌, nat_eq, none, refl, some,
  string_eq, true, ◌&&◌, ◌==◌, ◌∙◌, ◌∷◌, ◌≡◌,
}
use askit_backend.Prelude.Dict.{lookup, lookup-insert, lookup-remove}

pub record Presence : Type 0 where
  pub here : String → Socket → Bool
  pub player : String → Option Socket
  pub host : String → Option Socket

abbrev pub nobody : Presence
nobody = record { here = λ r x. false; player = λ p. none; host = λ r. none }

abbrev pub enters : Socket → String → Presence → Presence
enters ws room s = record s { here = λ r x. if room == r && ws == x then true else s.here r x }

abbrev pub leaves : Socket → String → Presence → Presence
leaves ws room s = record s { here = λ r x. if room == r && ws == x then false else s.here r x }

abbrev pub becomes : String → Option Socket → (String → Option Socket) → String → Option Socket
becomes k v f j = if k == j then v else f j

-- What a call means for those who are connected.
abbrev pub means : Call → Presence → Presence
means (connect_player ws room pid) s =
    let s' = enters ws room s in record s' { player = becomes pid (some ws) s.player }
means (disconnect_player ws room pid) s =
    let s' = leaves ws room s in record s' { player = becomes pid none s.player }
means (connect_to_host ws room) s =
    let s' = enters ws room s in record s' { host = becomes room (some ws) s.host }
means (disconnect_from_host ws room) s =
    let s' = leaves ws room s in record s' { host = becomes room none s.host }
means close_everything s = record s { here = λ r x. false; player = λ p. none }

abbrev pub means_all : List Call → Presence → Presence
means_all [] s = s
means_all (c ∷ calls) s = means_all calls (means c s)

pub record Refines (m : Manager) (s : Presence) : Type 0 where
  pub here : (r : String) (x : Socket) → is_in x (recipients r none m) ≡ s.here r x
  pub player : (p : String) → player_socket p m ≡ s.player p
  pub host : (r : String) → host_socket r m ≡ s.host r

reached_here :
    (r : String) (x : Socket) (m : Manager)
    → is_in x (recipients r none m) ≡ is_in x (sockets_of r m.rooms)
reached_here r x m = is_in-recipients x r none m

entered :
    (ws : Socket) (room r : String) (x : Socket) (m : Manager)
    → is_in x (sockets_of r (enter_room ws room m).rooms)
      ≡ (if room == r && ws == x then true else is_in x (sockets_of r m.rooms))
entered ws room r x m = ground (
  arith,
  eq_iff room r,
  sockets_of-enter_room ws room m r,
  is_in-add x ws (sockets_of room m.rooms),
)

left :
    (ws : Socket) (room r : String) (x : Socket) (m : Manager)
    → is_in x (sockets_of r (leave_room ws room m).rooms)
      ≡ (if room == r && ws == x then false else is_in x (sockets_of r m.rooms))
left ws room r x m = ground (arith, eq_iff room r, is_in-leave_room ws room m x r)

leave_room_keeps :
    (ws : Socket) (room : String) (m : Manager)
    → ((leave_room ws room m).players ≡ m.players) × ((leave_room ws room m).hosts ≡ m.hosts)
leave_room_keeps ws room m =
    leave_room_cases ws room m (λ m'. (m'.players ≡ m.players) × (m'.hosts ≡ m.hosts))
      (λ e. (refl, refl)) (λ e e'. (refl, refl)) (λ e. (refl, refl))

call-Refines :
    (c : Call) (m : Manager) (s : Presence) → Refines m s → Refines (call c m) (means c s)
unfolding call connect disconnect connect_host disconnect_host close_all player_socket host_socket
call-Refines (connect_player ws room pid) m s h = record {
  here = λ r x.
      reached_here r x _ ∙ entered ws room r x m ∙ (ground (arith, h.here r x, reached_here r x m));
  player = λ p. lookup-insert pid p ws m.players ∙ (ground (arith, h.player p));
  host = h.host;
}
call-Refines (disconnect_player ws room pid) m s h = record {
  here = λ r x.
      reached_here r x _ ∙ left ws room r x m ∙ (ground (arith, h.here r x, reached_here r x m));
  player = λ p. lookup-remove pid p m.players ∙ (ground (arith, h.player p));
  host = λ r. ap (lookup r) (leave_room_keeps ws room m).1 ∙ h.host r;
}
call-Refines (connect_to_host ws room) m s h = record {
  here = λ r x.
      reached_here r x _ ∙ entered ws room r x m ∙ (ground (arith, h.here r x, reached_here r x m));
  player = h.player;
  host = λ r. lookup-insert room r ws m.hosts ∙ (ground (arith, h.host r));
}
call-Refines (disconnect_from_host ws room) m s h = record {
  here = λ r x.
      reached_here r x _ ∙ left ws room r x m ∙ (ground (arith, h.here r x, reached_here r x m));
  player = λ p. ap (lookup p) (leave_room_keeps ws room m).0 ∙ h.player p;
  host = λ r. lookup-remove room r m.hosts ∙ (ground (arith, h.host r));
}
call-Refines close_everything m s h = record {
  here = λ r x. reached_here r x _;
  player = λ p. refl;
  host = h.host;
}

pub run-Refines_from :
    (calls : List Call) (m : Manager) (s : Presence)
    → Refines m s
    → Refines (run calls m) (means_all calls s)
unfolding run
run-Refines_from [] m s h = h
run-Refines_from (c ∷ calls) m s h =
    run-Refines_from calls (call c m) (means c s) (call-Refines c m s h)

-- After any sequence of calls on a new manager, a message to a room goes to those who are in it by
-- the meaning of the calls, and one to a player or a host to the socket that stands for it.
pub run-Refines : (calls : List Call) → Refines (run calls empty) (means_all calls nobody)
unfolding player_socket host_socket
run-Refines calls =
    run-Refines_from calls empty nobody
      (record { here = λ r x. reached_here r x empty; player = λ p. refl; host = λ r. refl })
