-- ===== src/Game/World/Loading.antt =====
-- What `get_room` has loaded.
use askit_backend.External.{Texts}
use askit_backend.Game.World.{Room, find_session, get_room, load_quiz, players_of, update_session}
use askit_backend.Models.{Db, GameSession, Uuid}
use askit_backend.Prelude.{
  Bool-cases, List, String, [], ap, arith, find?, inl, inr, nat_beq_iff, nat_eq, refl, some,
  some-injective, string_eq, update, ◌==◌, ◌∙◌, ◌∷◌, ◌≡◌,
}

module _ ⦃texts : Texts⦄ where
  pub get_room-of_session :
      (room_code : String) (db : Db) {room : Room}
      → get_room room_code db ≡ some room
      → (find_session (texts.upper room_code) db ≡ some room.session)
        × (room.players ≡ players_of room.session.session_id db)
        × (room.quiz ≡ load_quiz room.session.quiz_id db)
  unfolding get_room
  get_room-of_session room_code db h = ground arith

-- A write that leaves the columns alone by which a session is found and loaded.
pub record KeepsKeys (f : GameSession → GameSession) : Type 0 where
  pub session_id : (s : GameSession) → (f s).session_id ≡ s.session_id
  pub room_code : (s : GameSession) → (f s).room_code ≡ s.room_code
  pub quiz_id : (s : GameSession) → (f s).quiz_id ≡ s.quiz_id

module _ (f : GameSession → GameSession) (keeps : KeepsKeys f) where
  find_session-update :
      (code : String) (id : Uuid) (sessions : List GameSession) {s : GameSession}
      → find? (λ (t : GameSession). t.room_code == code) sessions ≡ some s
      → s.session_id ≡ id
      → find?
          (λ (t : GameSession). t.room_code == code)
          (update (λ (t : GameSession). t.session_id == id) f sessions)
        ≡ some (f s)
  find_session-update code id [] h e = absurd (ground arith)
  find_session-update code id (t ∷ sessions) {s} h e = elim (Bool-cases (t.room_code == code)) [
    | inl here ↦
        let same : t ≡ s = some-injective _ _ (rw here at h) in
        simp
          (
            (nat_beq_iff t.session_id id).1 (ap (λ (x : GameSession). x.session_id) same ∙ e),
            keeps.room_code t,
            here,
          )
          (ap (λ x. some (f x)) same)
    | inr there ↦
        let rest = find_session-update code id sessions (rw there at h) e in
        elim (Bool-cases (t.session_id == id)) [
          | inl y ↦ rw y (rw keeps.room_code (rw there rest))
          | inr n ↦ rw n (rw there rest)
        ]
  ]

module _ ⦃texts : Texts⦄ where
  -- The room that is found after a write of its own session.
  pub get_room-update_session :
      (room_code : String) (db : Db) (f : GameSession → GameSession) {room : Room}
      → KeepsKeys f
      → get_room room_code db ≡ some room
      → get_room room_code (update_session room.session.session_id f db)
        ≡ some (record room { session = f room.session })
  unfolding get_room load_quiz
  get_room-update_session room_code db f {room} keeps h =
      let (found, loaded, quiz) = get_room-of_session room_code db h in
      rw (find_session-update f keeps (texts.upper room_code) _ db.sessions found refl)
        (ground (arith, keeps.session_id room.session, keeps.quiz_id room.session))
