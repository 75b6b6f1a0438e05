-- ===== src/Game/Rooms/Creation.antt =====
-- Room creation: ownership, publication, and the retries on a taken code.
use askit_backend.Exec.{Result-cases, err, integrity_error, ok}
use askit_backend.External.{Texts}
use askit_backend.Game.Rooms.{
  CreateRoomRequest, RoomResponse, code_taken, create_room, create_session, find_quiz, new_session,
  response_of, room_code_attempts,
}
use askit_backend.Models.{Db, GameSession, Quiz, Time, Uuid, published, waiting}
use askit_backend.Prelude.{
  Bool-cases, Option-cases, String, [], arith, false, inl, inr, refl, some, suc, true, zero, ℕ,
  ◌++◌, ◌<◌, ◌↔◌, ◌∷◌, ◌≡◌,
}

module _ (generate : ℕ → String) (row : String → GameSession) (db : Db) where
  create_session_fails :
      (attempts : ℕ)
      → create_session generate row attempts db ≡ (err integrity_error, db)
      → (i : ℕ) → i < attempts
      → code_taken (generate i) db ≡ true
  unfolding create_session
  create_session_fails zero h i lt = elim lt [ ]
  create_session_fails (suc n) h i lt = elim (Bool-cases (code_taken (generate n) db)) [
    | inl taken ↦ ground (arith, create_session_fails n (rw taken at h) i)
    | inr free ↦ absurd (ground arith)
  ]

  create_session_exhausts :
      (attempts : ℕ)
      → ((i : ℕ) → i < attempts → code_taken (generate i) db ≡ true)
      → create_session generate row attempts db ≡ (err integrity_error, db)
  unfolding create_session
  create_session_exhausts zero h = refl
  create_session_exhausts (suc n) h =
      rw (h n (omega arith)) (create_session_exhausts n (λ i lt. h i (omega arith)))

  -- Creation gives up exactly when every generated code is taken, and then changes nothing.
  pub create_session_fails_iff :
      (attempts : ℕ)
      → (create_session generate row attempts db ≡ (err integrity_error, db))
        ↔ ((i : ℕ) → i < attempts → code_taken (generate i) db ≡ true)
  create_session_fails_iff attempts =
      (create_session_fails attempts, create_session_exhausts attempts)

  -- Creation otherwise adds one row, whose code was free.
  pub create_session_adds :
      (attempts : ℕ) {s : GameSession} {db' : Db}
      → create_session generate row attempts db ≡ (ok s, db')
      → (i : ℕ) × (i < attempts)
        × (s ≡ row (generate i))
        × (code_taken (generate i) db ≡ false)
        × (db' ≡ record db { sessions = db.sessions ++ s ∷ [] })
  unfolding create_session
  create_session_adds zero h = absurd (ground arith)
  create_session_adds (suc n) h = elim (Bool-cases (code_taken (generate n) db)) [
    | inl taken ↦
        let (i, lt, is_row, free, added) = create_session_adds n (rw taken at h) in
        (i, omega arith, is_row, free, added)
    | inr free ↦ (n, omega arith, ground arith, free, ground arith)
  ]

module _ ⦃texts : Texts⦄ (generate : ℕ → String) (session_id : Uuid) (now : Time) (user_id : Uuid)
    (request : CreateRoomRequest) (db : Db) where
  create_room_parts :
      {response : RoomResponse} {db' : Db}
      → create_room generate session_id now user_id request db ≡ (ok response, db')
      → (quiz : Quiz) × (s : GameSession) × (find_quiz request.quiz_id db ≡ some quiz)
        × (quiz.creator_id ≡ user_id)
        × (quiz.status ≡ published)
        × (create_session generate
              (new_session request user_id session_id now)
              room_code_attempts
              db
            ≡ (ok s, db'))
        × (response ≡ response_of 0 s)
  unfolding create_room
  create_room_parts h = elim (Option-cases (find_quiz request.quiz_id db)) [
    | inl missing ↦ absurd (ground arith)
    | inr (quiz, found) ↦
        elim (Result-cases
          (create_session generate (new_session request user_id session_id now) room_code_attempts
            db).0) [
              | inl (s, e) ↦
                  (quiz, s, found, ground arith, ground arith, ground arith, ground arith)
              | inr (x, e) ↦ absurd (ground arith)
            ]
  ]

  -- A room is created only for a published quiz of the user, under one of the five codes generated
  -- that no session had. It waits for players, and all else stays as it was.
  pub create_room_opens :
      {response : RoomResponse} {db' : Db}
      → create_room generate session_id now user_id request db ≡ (ok response, db')
      → (quiz : Quiz) × (i : ℕ) × (find_quiz request.quiz_id db ≡ some quiz)
        × (quiz.creator_id ≡ user_id)
        × (quiz.status ≡ published)
        × (i < room_code_attempts)
        × (code_taken (generate i) db ≡ false)
        × (response.room_code ≡ generate i)
        × (response.status ≡ waiting)
        × (db' ≡ record db {
          sessions = db.sessions ++ new_session request user_id session_id now (generate i) ∷ [];
        })
  create_room_opens h =
      let (quiz, s, found, owner, status, made, response_is) = create_room_parts h in
      let (i, lt, is_row, free, added) =
        create_session_adds generate (new_session request user_id session_id now) db
          room_code_attempts made in
      (
        quiz,
        i,
        found,
        owner,
        status,
        lt,
        free,
        cc (response_is, is_row),
        cc (response_is, is_row),
        rw is_row at added,
      )
