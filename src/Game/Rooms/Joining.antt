-- ===== src/Game/Rooms/Joining.antt =====
-- Who may join a room, and what holds of the players of every room.
use askit_backend.Exec.{Error, Result, Result-cases, err, ok}
use askit_backend.External.{Texts}
use askit_backend.Game.Rooms.{add_player, hosts, is_full, join_room, new_player, same_nickname}
use askit_backend.Game.World.{Room, get_room}
use askit_backend.Game.World.Loading.{get_room-of_session}
use askit_backend.Models.{Db, GamePlayer, GameSession, Quiz, User, Uuid, status_eq, waiting}
use askit_backend.Prelude.{
  All, All-append, Bool, Bool-cases, List, Option, String, [], any, ap, arith, false, inl, inr,
  length, nat_eq, none, refl, select, some, string_eq, true, ℕ, ◌&&◌, ◌++◌, ◌<◌, ◌==◌, ◌↔◌, ◌∷◌,
  ◌≡◌, ◌≢◌, ◌⊎◌,
}
use askit_backend.Prelude.Int.{pos}

module _ ⦃texts : Texts⦄ where
  -- Two players of one session whose nicknames differ in letter case at most.
  abbrev pub clash : GamePlayer → GamePlayer → Bool
  clash p q = p.session_id == q.session_id && texts.lower p.nickname == texts.lower q.nickname

  abbrev pub NamesDistinct : List GamePlayer → Type 0
  NamesDistinct [] = Unit
  NamesDistinct (p ∷ players) =
      All (λ (q : GamePlayer). clash p q ≡ false) players × NamesDistinct players

  NamesDistinct-append :
      (players : List GamePlayer) (p : GamePlayer)
      → NamesDistinct players
      → All (λ (q : GamePlayer). clash q p ≡ false) players
      → NamesDistinct (players ++ p ∷ [])
  NamesDistinct-append [] p h a = (tt, tt)
  NamesDistinct-append (q ∷ players) p h a =
      (All-append _ players (p ∷ []) h.0 (a.0, tt), NamesDistinct-append players p h.1 a.1)

  -- The check over the room's players covers every player of the session.
  no_clash :
      (p : GamePlayer) (players : List GamePlayer)
      → any
          (same_nickname p.nickname)
          (select (λ (q : GamePlayer). q.session_id == p.session_id) players)
        ≡ false
      → All (λ (q : GamePlayer). clash q p ≡ false) players
  no_clash p [] h = tt
  no_clash p (q ∷ players) h = (ground arith, no_clash p players (ground arith))

  abbrev pub IsHost : Option User → GameSession → Type 0
  IsHost none s = ⊥
  IsHost (some u) s = s.host_id ≡ u.id

  -- No limit, 0, or a limit above the number of players.
  abbrev pub HasPlace : Option ℕ → ℕ → Type 0
  HasPlace none n = Unit
  HasPlace (some m) n = (m ≡ 0) ⊎ (n < m)

  hosts-IsHost : (user : Option User) (s : GameSession) → (hosts user s ≡ false) ↔ (¬ IsHost user s)
  hosts-IsHost none s = (λ _ h. h, λ _. refl)
  hosts-IsHost (some u) s = (λ h e. ground (arith, h, e), λ h. ground (arith, h))

  is_full-HasPlace : (m : Option ℕ) (n : ℕ) → (is_full m n ≡ false) ↔ HasPlace m n
  is_full-HasPlace none n = (λ _. tt, λ _. refl)
  is_full-HasPlace (some m) n = (λ h. ground (arith, h), λ h. ground (arith, h))

  beq-false : (a b : String) → ((a == b) ≡ false) ↔ (a ≢ b)
  beq-false a b = (
    λ h e. absurd (ground (arith, h, (string_eq.beq_iff a b).1 e)),
    λ h. elim (Bool-cases (a == b)) [
      | inl e ↦ absurd (h ((string_eq.beq_iff a b).0 e))
      | inr e ↦ e
    ],
  )

  nickname_free :
      (nickname : String) (players : List GamePlayer)
      → (any (same_nickname nickname) players ≡ false)
        ↔ All (λ (q : GamePlayer). texts.lower q.nickname ≢ texts.lower nickname) players
  nickname_free nickname [] = (λ _. tt, λ _. refl)
  nickname_free nickname (q ∷ players) =
      let rest = nickname_free nickname players in
      (
        λ h. (
          (beq-false (texts.lower q.nickname) (texts.lower nickname)).0 (ground (arith, h)),
          rest.0 (ground (arith, h)),
        ),
        λ h.
            ground (
              arith,
              (beq-false (texts.lower q.nickname) (texts.lower nickname)).1 h.0,
              rest.1 h.1,
            ),
      )

  -- What a successful join has found and done.
  module _ (player_id : Uuid) (room_code nickname : String) (user : Option User) (db : Db) where
    -- A join that raises leaves the tables as they were.
    pub join_room_refused :
        {e : Error} {db' : Db}
        → join_room player_id room_code nickname user db ≡ (err e, db')
        → db' ≡ db
    unfolding join_room
    join_room_refused h = ground arith

    -- What the checks have come to, and what was written.
    pub join_room_found :
        {s : GameSession} {p : GamePlayer} {db' : Db}
        → join_room player_id room_code nickname user db ≡ (ok (s, p), db')
        → (room : Room) × (quiz : Quiz) × (get_room room_code db ≡ some room)
          × (room.session ≡ s)
          × (s.status ≡ waiting)
          × (hosts user s ≡ false)
          × (room.quiz ≡ some quiz)
          × (is_full quiz.max_participants (length room.players) ≡ false)
          × (any (same_nickname nickname) room.players ≡ false)
          × (p ≡ new_player player_id s nickname user)
          × (db' ≡ add_player p db)
    unfolding join_room
    join_room_found h = ground arith

    -- What a room must be for a user to join it under a nickname.
    abbrev pub IsOpen : GameSession → Room → Quiz → Type 0
    IsOpen s room quiz =
        (get_room room_code db ≡ some room)
        × (room.session ≡ s)
        × (s.status ≡ waiting)
        × (¬ IsHost user s)
        × (room.quiz ≡ some quiz)
        × HasPlace quiz.max_participants (length room.players)
        × All (λ (q : GamePlayer). texts.lower q.nickname ≢ texts.lower nickname) room.players

    -- A join succeeds exactly where the room waits, with its quiz, is not hosted by the user, has a
    -- place left, and no player of it has the nickname in whatever letter case. It then adds one
    -- player, connected and with no points, and changes nothing else.
    pub join_room_admits :
        (s : GameSession) (p : GamePlayer) (db' : Db)
        → (join_room player_id room_code nickname user db ≡ (ok (s, p), db')) ↔ (
            (room : Room) × (quiz : Quiz) × IsOpen s room quiz
            × (p ≡ record {
              player_id = player_id;
              session_id = s.session_id;
              nickname = nickname;
              user_id = elim user [ none ↦ none | some u ↦ some u.id ];
              score = pos 0;
              is_connected = true;
            })
            × (db' ≡ record db { players = db.players ++ p ∷ [] }))
    unfolding join_room
    join_room_admits s p db' = (
      λ h.
          let (room, quiz, found, same, waits, strange, has_quiz, place, fresh, built, wrote) =
            join_room_found h in
          (
            room,
            quiz,
            (
              found,
              same,
              waits,
              (hosts-IsHost user s).0 strange,
              has_quiz,
              (is_full-HasPlace quiz.max_participants (length room.players)).0 place,
              (nickname_free nickname room.players).0 fresh,
            ),
            built,
            wrote,
          ),
      λ (room, quiz, (found, same, waits, strange, has_quiz, place, fresh), built, wrote).
          let strange' = (hosts-IsHost user s).1 strange in
          let place' = (is_full-HasPlace quiz.max_participants (length room.players)).1 place in
          let fresh' = (nickname_free nickname room.players).1 fresh in
          ground (arith, found, same, waits, strange', has_quiz, place', fresh', built, wrote),
    )

  add_player-NamesDistinct :
      (player_id : Uuid) (room_code nickname : String) (user : Option User) (db : Db) {room : Room}
      → get_room room_code db ≡ some room
      → any (same_nickname nickname) room.players ≡ false
      → NamesDistinct db.players
      → NamesDistinct (db.players ++ new_player player_id room.session nickname user ∷ [])
  add_player-NamesDistinct player_id room_code nickname user db {room} found fresh h =
      NamesDistinct-append db.players _ h (
        no_clash (new_player player_id room.session nickname user) db.players
          (rw (get_room-of_session room_code db found).1 at fresh))

  -- Joining keeps the nicknames of every session distinct up to letter case.
  pub join_room-NamesDistinct :
      (player_id : Uuid) (room_code nickname : String) (user : Option User) (db : Db)
      → NamesDistinct db.players
      → NamesDistinct (join_room player_id room_code nickname user db).1.players
  join_room-NamesDistinct player_id room_code nickname user db h =
      let (r, db') = join_room player_id room_code nickname user db in
      elim (Result-cases r) [
        | inr (e, he) ↦
            rw
              (join_room_refused player_id room_code nickname user db
                (ap (λ (x : Result (GameSession × GamePlayer)). (x, db')) he))
              h
        | inl ((s, p), he) ↦
            let (room, quiz, found, same, _, _, _, _, fresh, built, wrote) =
              join_room_found player_id room_code nickname user db
                (ap (λ (x : Result (GameSession × GamePlayer)). (x, db')) he) in
            rw (wrote, built, ← same)
              (add_player-NamesDistinct player_id room_code nickname user db found fresh h)
      ]
