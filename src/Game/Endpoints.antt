-- ===== src/Game/Endpoints.antt =====
-- The endpoints of app/game/router.py that read a room and join it. The rate limits are left out.
use askit_backend.Auth.Sessions.{in_db}
use askit_backend.Exec.{Exec, Result, err, modify, ok, pure, room_not_found, ◌>>=◌, ◌>>◌}
use askit_backend.External.{Redis, Texts, str_beq}
use askit_backend.Game.Admission.{admit, admit_player, create_ws_token}
use askit_backend.Game.Admission.Checks.{IsServed, admit_player-create_ws_token}
use askit_backend.Game.Messages.{PlayerInfo}
use askit_backend.Game.Play.{State}
use askit_backend.Game.Rooms.{RoomResponse, add_player, join_room, response_of}
use askit_backend.Game.Rooms.Joining.{join_room_found}
use askit_backend.Game.World.{Room, find_session, get_room, load_quiz, players_of, room_of}
use askit_backend.Models.{Db, GamePlayer, GameSession, User, Uuid}
use askit_backend.Prelude.{
  List, Option, Option-cases, String, [], any, ap, arith, beq_refl, false, find?, inl, inr, length,
  nat_eq, none, refl, select, some, string_eq, subst, sym, true, ◌++◌, ◌==◌, ◌∙◌, ◌∷◌, ◌≡◌,
}

module _ ⦃texts : Texts⦄ where
  unfoldable pub read_room : String → Db → Result RoomResponse
  read_room room_code db = elim (get_room room_code db) [
    | none ↦ err room_not_found
    | some room ↦ ok (response_of (length room.players) room.session)
  ]

  abbrev pub info_of : GamePlayer → PlayerInfo
  info_of p = record {
    player_id = texts.str p.player_id;
    nickname = p.nickname;
    score = p.score;
    is_connected = true;
  }

  module _ ⦃redis : Redis⦄ where
    -- `token` is the cookie `ws_token` that the response sets.
    unfoldable pub join_endpoint :
        String → Uuid → String → String → Option User → Exec State PlayerInfo
    join_endpoint token player_id room_code nickname user = do
      joined ← in_db (join_room player_id room_code nickname user)
      modify (create_ws_token token (texts.str joined.1.player_id))
      pure (info_of joined.1)

    -- What the endpoint does after its call of the service.
    abbrev after_join :
        String → State → Result (GameSession × GamePlayer) × Db → Result PlayerInfo × State
    after_join token w (ok (s, p), db) =
        (ok (info_of p), create_ws_token token (texts.str p.player_id) (record w { db = db }))
    after_join token w (err e, db) = (err e, record w { db = db })

    join_endpoint-after_join :
        (token : String) (player_id : Uuid) (room_code nickname : String) (user : Option User)
        (w : State)
        → join_endpoint token player_id room_code nickname user w
          ≡ after_join token w (join_room player_id room_code nickname user w.db)
    unfolding join_endpoint
    join_endpoint-after_join token player_id room_code nickname user w =
        by_outcome (join_room player_id room_code nickname user w.db)
      where
        by_outcome :
            (out : Result (GameSession × GamePlayer) × Db)
            → (elim out.0 [
              | ok joined ↦ (
                ok (info_of joined.1),
                create_ws_token token (texts.str joined.1.player_id) (record w { db = out.1 }),
              )
              | err e ↦ (err e, record w { db = out.1 })
            ])
              ≡ after_join token w out
        by_outcome (ok joined, db) = refl
        by_outcome (err e, db) = refl

  -- A player with a fresh id is found in the room by this id.
  found_again :
      (p : GamePlayer) (players : List GamePlayer)
      → any (λ (q : GamePlayer). q.player_id == p.player_id) players ≡ false
      → find?
          (λ (q : GamePlayer). texts.str q.player_id == texts.str p.player_id)
          (select (λ (q : GamePlayer). q.session_id == p.session_id) (players ++ p ∷ []))
        ≡ some p
  found_again p [] h = rw (beq_refl p.session_id, beq_refl (texts.str p.player_id)) refl
  found_again p (q ∷ players) h =
      ground (arith, h, str_beq q.player_id p.player_id, found_again p players)

  get_room-add_player :
      (room_code : String) (p : GamePlayer) (db : Db) {room : Room}
      → get_room room_code db ≡ some room
      → get_room room_code (add_player p db)
        ≡ some (record room { players = players_of room.session.session_id (add_player p db) })
  unfolding get_room load_quiz
  get_room-add_player room_code p db {room} h =
      elim (Option-cases (find_session (texts.upper room_code) db)) [
        | inl missing ↦ absurd (ground (arith, h, missing))
        | inr (s, found) ↦
            let whole : room ≡ room_of db s = ground (arith, h, found) in rw (found, whole) refl
      ]

  module _ ⦃redis : Redis⦄ where
    joined_room :
        (player_id : Uuid) (room_code nickname : String) (user : Option User) (db : Db)
        {s : GameSession} {p : GamePlayer} {db' : Db}
        → join_room player_id room_code nickname user db ≡ (ok (s, p), db')
        → any (λ (q : GamePlayer). q.player_id == player_id) db.players ≡ false
        → (room : Room) × (get_room room_code db' ≡ some room)
          × (find? (λ (q : GamePlayer). texts.str q.player_id == texts.str p.player_id) room.players
              ≡ some p)
    joined_room player_id room_code nickname user db {s} {p} {db'} h new =
        let (room, quiz, found, same, _, _, _, _, fresh, built, wrote) =
          join_room_found player_id room_code nickname user db h in
        let own : p.player_id ≡ player_id = ap (λ (q : GamePlayer). q.player_id) built in
        let here : p.session_id ≡ room.session.session_id =
          ap (λ (q : GamePlayer). q.session_id) built
          ∙ ap (λ (t : GameSession). t.session_id) (sym same) in
        (
          record room { players = players_of room.session.session_id (add_player p db) },
          ap (get_room room_code) wrote ∙ get_room-add_player room_code p db found,
          subst
              (λ i.
                find? (λ (q : GamePlayer). texts.str q.player_id == texts.str p.player_id)
                  (players_of i (add_player p db))
                ≡ some p)
              here
              (found_again p db.players (
                subst (λ i. any (λ (q : GamePlayer). q.player_id == i) db.players ≡ false) (sym own)
                  new)),
        )

    -- A player who joins over HTTP, with a fresh id, is admitted to the room's WebSocket with the
    -- token that the response sets, where the connection has no origin, an empty one, or one that is
    -- served.
    pub admit_player-join_endpoint :
        (allowed : List String) (origin : Option String) (token : String) (player_id : Uuid)
        (room_code nickname : String) (user : Option User) (w : State) {info : PlayerInfo}
        {w' : State}
        → join_endpoint token player_id room_code nickname user w ≡ (ok info, w')
        → IsServed allowed origin
        → any (λ (q : GamePlayer). q.player_id == player_id) w.db.players ≡ false
        → (token == "") ≡ false
        → (p : GamePlayer) × (info ≡ info_of p)
          × (p.player_id ≡ player_id)
          × (admit_player allowed origin (some token) room_code w' ≡ admit p)
    admit_player-join_endpoint allowed origin token player_id room_code nickname user w {info} {w'}
          h served new named =
        let out = join_room player_id room_code nickname user w.db in
        admitted out.0 out.1 refl
          (sym (join_endpoint-after_join token player_id room_code nickname user w) ∙ h)
      where
        admitted :
            (r : Result (GameSession × GamePlayer)) (db' : Db)
            → join_room player_id room_code nickname user w.db ≡ (r, db')
            → after_join token w (r, db') ≡ (ok info, w')
            → (p : GamePlayer) × (info ≡ info_of p)
              × (p.player_id ≡ player_id)
              × (admit_player allowed origin (some token) room_code w' ≡ admit p)
        admitted (err e) db' joined done = absurd (ground (arith, done))
        admitted (ok (s, p)) db' joined done =
            let (room, found, known) =
              joined_room player_id room_code nickname user w.db joined new in
            let (_, _, _, _, _, _, _, _, _, built, _) =
              join_room_found player_id room_code nickname user w.db joined in
            let state : create_ws_token token (texts.str p.player_id) (record w { db = db' }) ≡ w' =
              ap (λ o. o.1) done in
            (
              p,
              ground (arith, done),
              ap (λ (q : GamePlayer). q.player_id) built,
              subst (λ v. admit_player allowed origin (some token) room_code v ≡ admit p) state
                  (admit_player-create_ws_token allowed origin token room_code
                    (record w { db = db' }) {room = room} {p = p} served named found known),
            )
