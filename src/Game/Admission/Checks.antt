-- ===== src/Game/Admission/Checks.antt =====
-- Whom the admission checks of the WebSocket endpoints let in.
use askit_backend.External.{Redis, Texts, get-set_same, word, ws_token}
use askit_backend.Game.Admission.{
  admit, admit_host, admit_host_of, admit_player, admit_subject, admit_to, admit_token, admit_user,
  create_ws_token, find_user, is_foreign_origin, verify_ws_token,
}
use askit_backend.Game.Play.{State}
use askit_backend.Game.World.{Room, get_room}
use askit_backend.Models.{GamePlayer, User, Uuid}
use askit_backend.Prelude.{
  Bool-cases, List, Option, String, ap, arith, false, find?, find?-some, inl, inr, nat_eq, none,
  refl, some, string_eq, sym, true, ◌==◌, ◌↔◌, ◌≡◌, ◌⊎◌,
}
use askit_backend.Prelude.Listed.{IsListed, any-IsListed}

-- A connection with no origin, an empty one, or one of the list.
abbrev pub IsServed : List String → Option String → Type 0
IsServed allowed none = Unit
IsServed allowed (some origin) = (origin ≡ "") ⊎ IsListed origin allowed

pub is_foreign_origin-IsServed :
    (allowed : List String) (origin : Option String)
    → (is_foreign_origin allowed origin ≡ false) ↔ IsServed allowed origin
unfolding is_foreign_origin
is_foreign_origin-IsServed allowed none = (λ _. tt, λ _. refl)
is_foreign_origin-IsServed allowed (some origin) =
    let among = any-IsListed origin allowed in
    (
      λ h. elim (Bool-cases (origin == "")) [
        | inl e ↦ inl ((string_eq.beq_iff origin "").0 e)
        | inr e ↦ inr (among.0 (ground (arith, h, e)))
      ],
      λ h. elim h [
        | inl e ↦ ground (arith, (string_eq.beq_iff origin "").1 e)
        | inr there ↦ ground (arith, among.1 there)
      ],
    )

module _ ⦃redis : Redis⦄ ⦃texts : Texts⦄ where
  -- The player that a room admits is the first one with the id of the token.
  admit_to_room :
      (o : Option Room) (player_id : String) {p : GamePlayer}
      → admit_to o player_id ≡ admit p
      → (room : Room) × (o ≡ some room)
        × (find? (λ (q : GamePlayer). texts.str q.player_id == player_id) room.players ≡ some p)
  admit_to_room none player_id h = absurd (ground arith)
  admit_to_room (some room) player_id h = (room, refl, ground arith)

  verified :
      (o : Option String) (room_code : String) (w : State) {p : GamePlayer}
      → admit_token room_code o w ≡ admit p
      → (pid : String) × (o ≡ some pid) × (admit_to (get_room room_code w.db) pid ≡ admit p)
  verified none room_code w h = absurd (ground arith)
  verified (some pid) room_code w h = (pid, refl, h)

module _ ⦃redis : Redis⦄ ⦃texts : Texts⦄ where
  host_of :
      (o : Option Room) (user : User) {u : User}
      → admit_host_of o user ≡ admit u
      → (user ≡ u) × (room : Room) × (o ≡ some room) × (room.session.host_id ≡ u.id)
  host_of none user h = absurd (ground arith)
  host_of (some room) user h = (ground arith, room, refl, ground arith)

  active_host :
      (o : Option User) (room_code : String) (w : State) {u : User}
      → admit_user room_code o w ≡ admit u
      → (o ≡ some u)
        × (u.is_active ≡ true)
        × (room : Room) × (get_room room_code w.db ≡ some room)
        × (room.session.host_id ≡ u.id)
  active_host none room_code w h = absurd (ground arith)
  active_host (some user) room_code w {u} h =
      let (same, room, found, owner) =
        host_of (get_room room_code w.db) user {u = u} (ground arith) in
      (ap some same, ground arith, room, found, owner)

  known_host :
      (o : Option Uuid) (room_code : String) (w : State) {u : User}
      → admit_subject room_code o w ≡ admit u
      → (o ≡ some u.id)
        × (u.is_active ≡ true)
        × (room : Room) × (get_room room_code w.db ≡ some room)
        × (room.session.host_id ≡ u.id)
  known_host none room_code w h = absurd (ground arith)
  known_host (some id) room_code w {u} h =
      let (known, active, room, found, owner) =
        active_host (find_user id w.db) room_code w {u = u} h in
      (
        ap some (sym ((nat_eq.beq_iff _ _).0 (find?-some _ w.db.users known))),
        active,
        room,
        found,
        owner,
      )

  -- A player's socket is admitted only with no origin, an empty one, or one that is served, with a
  -- token that stands for the admitted player, and only to a room that has this player.
  pub admit_player_only :
      (allowed : List String) (origin token : Option String) (room_code : String) (w : State)
      {p : GamePlayer}
      → admit_player allowed origin token room_code w ≡ admit p
      → (t : String) × (room : Room) × IsServed allowed origin
        × (token ≡ some t)
        × (verify_ws_token t w ≡ some (texts.str p.player_id))
        × (get_room room_code w.db ≡ some room)
        × (find? (λ (q : GamePlayer). texts.str q.player_id == texts.str p.player_id) room.players
            ≡ some p)
  unfolding admit_player
  admit_player_only allowed origin none room_code w h = absurd (ground arith)
  admit_player_only allowed origin (some t) room_code w {p} h =
      let (pid, ok_token, admitted) =
        verified (verify_ws_token t w) room_code w {p = p} (ground arith) in
      let (room, found, known) = admit_to_room (get_room room_code w.db) pid admitted in
      let same = (string_eq.beq_iff _ _).0 (find?-some _ room.players known) in
      (
        t,
        room,
        (is_foreign_origin-IsServed allowed origin).0 (ground arith),
        refl,
        rw same ok_token,
        found,
        rw same known,
      )

  -- A host's socket is admitted only with no origin, an empty one, or one that is served, for an active
  -- user whose token verifies and who is the host of the room.
  pub admit_host_only :
      (verify : String → Option Uuid) (allowed : List String) (origin token : Option String)
      (room_code : String) (w : State) {u : User}
      → admit_host verify allowed origin token room_code w ≡ admit u
      → (t : String) × (room : Room) × IsServed allowed origin
        × (token ≡ some t)
        × (verify t ≡ some u.id)
        × (u.is_active ≡ true)
        × (get_room room_code w.db ≡ some room)
        × (room.session.host_id ≡ u.id)
  unfolding admit_host
  admit_host_only verify allowed origin none room_code w h = absurd (ground arith)
  admit_host_only verify allowed origin (some t) room_code w {u} h =
      let (id_is, active, room, found, owner) =
        known_host (verify t) room_code w {u = u} (ground arith) in
      (
        t,
        room,
        (is_foreign_origin-IsServed allowed origin).0 (ground arith),
        refl,
        id_is,
        active,
        found,
        owner,
      )

  -- A player that connects to its room under the token that it has just been given, with no origin,
  -- an empty one, or one that is served, is admitted.
  pub admit_player-create_ws_token :
      (allowed : List String) (origin : Option String) (token room_code : String) (w : State)
      {room : Room} {p : GamePlayer}
      → IsServed allowed origin
      → (token == "") ≡ false
      → get_room room_code w.db ≡ some room
      → find? (λ (q : GamePlayer). texts.str q.player_id == texts.str p.player_id) room.players
        ≡ some p
      → admit_player allowed origin
          (some token)
          room_code
          (create_ws_token token (texts.str p.player_id) w)
        ≡ admit p
  unfolding admit_player create_ws_token verify_ws_token
  admit_player-create_ws_token allowed origin token room_code w {p = p} served named found known =
      let near = (is_foreign_origin-IsServed allowed origin).1 served in
      let kept = get-set_same (ws_token token) (word (texts.str p.player_id)) 14400 w.redis in
      ground (arith, kept, near)
