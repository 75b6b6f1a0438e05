-- ===== src/Game/Handlers/Progress.antt =====
-- How far a game has come, and what each service method of the handlers does to the session.
use askit_backend.External.{Texts}
use askit_backend.Game.Play.{mark_finished, mark_question, mark_started, set_status}
use askit_backend.Game.World.{Room, get_room, update_session}
use askit_backend.Game.World.Loading.{KeepsKeys, get_room-update_session}
use askit_backend.Models.{
  Db, GameSession, GameSessionStatus, Time, finished, question, revealing, starting, status_eq,
  waiting,
}
use askit_backend.Prelude.{
  Bool, Bool-cases, String, arith, false, inl, inr, nat_eq, refl, some, string_eq, true, ℕ, ◌+◌,
  ◌==◌, ◌≡◌, ◌≤◌, ◌⊎◌,
}

-- The turns of a game in order: waiting, the countdown, then each question and its reveal.
abbrev pub turn : GameSessionStatus → ℕ → ℕ
turn waiting i = 0
turn starting i = 1
turn question i = i + i
turn revealing i = i + i + 1
turn finished i = 0

abbrev pub is_finished : GameSessionStatus → Bool
is_finished s = s == finished

-- A finished game stays finished, and another goes to the same or a later turn, or finishes.
abbrev pub Follows : GameSession → GameSession → Type 0
Follows s t =
    (is_finished t.status ≡ true)
    ⊎ ((is_finished s.status ≡ false)
        × (turn s.status s.current_question_index ≤ turn t.status t.current_question_index))

pub Follows-refl : (s : GameSession) → Follows s s
Follows-refl s = elim (Bool-cases (is_finished s.status)) [
  | inl e ↦ inl e
  | inr e ↦ inr (e, omega arith)
]

pub Follows-trans : (r s t : GameSession) → Follows r s → Follows s t → Follows r t
Follows-trans r s t (inl a) (inl b) = inl b
Follows-trans r s t (inl a) (inr b) = absurd (ground arith)
Follows-trans r s t (inr a) (inl b) = inl b
Follows-trans r s t (inr a) (inr b) = inr (a.0, omega arith)

module _ ⦃texts : Texts⦄ where
  -- The room is still found, and its game has not gone back.
  abbrev pub Advances : String → Room → Db → Type 0
  Advances room_code room db =
      (room' : Room) × (get_room room_code db ≡ some room') × Follows room.session room'.session

  pub Advances-trans :
      (room_code : String) (room : Room) (db db' : Db)
      → Advances room_code room db
      → ((room' : Room) → get_room room_code db ≡ some room' → Advances room_code room' db')
      → Advances room_code room db'
  Advances-trans room_code room db db' (r, found, f) step =
      let (r', found', f') = step r found in
      (r', found', Follows-trans room.session r.session r'.session f f')

  pub Advances-same :
      (room_code : String) (room : Room) (db db' : Db)
      → get_room room_code db ≡ some room
      → db' ≡ db
      → Advances room_code room db'
  Advances-same room_code room db db' found same = (room, rw same found, Follows-refl room.session)

  pub Advances-write :
      (room_code : String) (room : Room) (db : Db) (f : GameSession → GameSession)
      → get_room room_code db ≡ some room
      → KeepsKeys f
      → Follows room.session (f room.session)
      → Advances room_code room (update_session room.session.session_id f db)
  Advances-write room_code room db f found keeps follows = (
    record room { session = f room.session },
    get_room-update_session room_code db f keeps found,
    follows,
  )

  -- The writes of the code.
  pub Advances-finish :
      (room_code : String) (room : Room) (db : Db) (now : Time)
      → get_room room_code db ≡ some room
      → Advances room_code room (update_session room.session.session_id (mark_finished now) db)
  Advances-finish room_code room db now found =
      Advances-write room_code room db (mark_finished now) found
        (record { session_id = λ s. refl; room_code = λ s. refl; quiz_id = λ s. refl }) (inl refl)

  pub Advances-reveal :
      (room_code : String) (room : Room) (db : Db)
      → get_room room_code db ≡ some room
      → room.session.status ≡ question
      → Advances room_code room (update_session room.session.session_id (set_status revealing) db)
  Advances-reveal room_code room db found running =
      Advances-write room_code room db (set_status revealing) found
        (record { session_id = λ s. refl; room_code = λ s. refl; quiz_id = λ s. refl })
        (ground arith)

  pub Advances-start :
      (room_code : String) (room : Room) (db : Db) (now : Time)
      → get_room room_code db ≡ some room
      → room.session.status ≡ waiting
      → Advances room_code room (update_session room.session.session_id (mark_started now) db)
  Advances-start room_code room db now found open_ =
      Advances-write room_code room db (mark_started now) found
        (record { session_id = λ s. refl; room_code = λ s. refl; quiz_id = λ s. refl })
        (ground arith)

  pub Advances-ask :
      (room_code : String) (room : Room) (db : Db) (i : ℕ)
      → get_room room_code db ≡ some room
      → is_finished room.session.status ≡ false
      → turn room.session.status room.session.current_question_index ≤ i + i
      → Advances room_code room (update_session room.session.session_id (mark_question i) db)
  Advances-ask room_code room db i found running order =
      Advances-write room_code room db (mark_question i) found
        (record { session_id = λ s. refl; room_code = λ s. refl; quiz_id = λ s. refl })
        (inr (running, order))
