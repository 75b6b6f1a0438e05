-- ===== src/Game/Handlers/Effects.antt =====
-- What the parts of the handlers write to the tables.
use askit_backend.External.{Floats, Redis, Texts}
use askit_backend.Game.Board.{build_game_finished, clear_ranking_state, get_leaderboard}
use askit_backend.Game.Handlers.{Ambient, end_game, show_question}
use askit_backend.Game.Handlers.Progress.{
  Advances, Advances-ask, Advances-finish, Advances-same, is_finished, turn,
}
use askit_backend.Game.Play.{
  State, advance_to_question, mark_finished, mark_question, write_session,
}
use askit_backend.Game.RoomState.{question_ended_of}
use askit_backend.Game.World.{Room, get_room, update_session}
use askit_backend.Models.{GameSession, QuizAnswer, QuizQuestion, Time}
use askit_backend.Prelude.{
  List, Option, String, arith, false, inl, inr, none, refl, some, ℕ, ◌+◌, ◌≡◌, ◌≤◌, ◌⊎◌,
}

module _ ⦃redis : Redis⦄ ⦃texts : Texts⦄ where
  pub get_leaderboard-db : (code : String) (w : State) → (get_leaderboard code w).1.db ≡ w.db
  unfolding get_leaderboard
  get_leaderboard-db code w = ground arith

  pub question_ended_of-db :
      (shuffle : String → List QuizAnswer → List QuizAnswer) (code : String) (s : GameSession)
      (q : QuizQuestion) (w : State)
      → (question_ended_of shuffle code s q w).1.db ≡ w.db
  unfolding question_ended_of
  question_ended_of-db shuffle code s q w = ground (arith, get_leaderboard-db code w)

  -- The three effects that `advance_to_question` can have on the tables.
  advance_to_question-db :
      (now : Time) (code : String) (i : ℕ) (w : State) {room : Room}
      → get_room code w.db ≡ some room
      → ((advance_to_question now code i w).1.db ≡ w.db)
        ⊎ ((advance_to_question now code i w).1.db
            ≡ update_session room.session.session_id (mark_finished now) w.db)
        ⊎ ((advance_to_question now code i w).1.db
            ≡ update_session room.session.session_id (mark_question i) w.db)
  unfolding advance_to_question
  advance_to_question-db now code i w found = ground arith

  pub advance_to_question-Advances :
      (now : Time) (code : String) (i : ℕ) (w : State) (room : Room)
      → get_room code w.db ≡ some room
      → is_finished room.session.status ≡ false
      → turn room.session.status room.session.current_question_index ≤ i + i
      → Advances code room (advance_to_question now code i w).1.db
  advance_to_question-Advances now code i w room found running order =
      elim (advance_to_question-db now code i w found) [
        | inl same ↦ Advances-same code room w.db _ found same
        | inr (inl e) ↦ rw e (Advances-finish code room w.db now found)
        | inr (inr e) ↦ rw e (Advances-ask code room w.db i found running order)
      ]

module _ ⦃redis : Redis⦄ ⦃texts : Texts⦄ ⦃floats : Floats⦄ where
  pub build_game_finished-db :
      (now : Time) (code : String) (w : State) → (build_game_finished now code w).1.db ≡ w.db
  unfolding build_game_finished
  build_game_finished-db now code w = ground (arith, get_leaderboard-db code w)

  module _ (ambient : Ambient) (code : String) (room : Room) where
    -- Ending a game marks its session finished, whether or not the results can be built.
    pub end_game-db :
        (w : State)
        → get_room code w.db ≡ some room
        → (end_game ambient code w).1.db
          ≡ update_session room.session.session_id (mark_finished ambient.now) w.db
    unfolding end_game clear_ranking_state
    end_game-db w found = ground (
      arith,
      build_game_finished-db ambient.now code
          (write_session room.session.session_id (mark_finished ambient.now) w),
    )

    pub end_game-Advances :
        (w : State)
        → get_room code w.db ≡ some room
        → Advances code room (end_game ambient code w).1.db
    end_game-Advances w found =
        rw (end_game-db w found) (Advances-finish code room w.db ambient.now found)

    pub show_question-Advances :
        (i total : ℕ) (q : Option QuizQuestion) (w : State)
        → get_room code w.db ≡ some room
        → Advances code room (show_question ambient code i total q w).1.db
    unfolding show_question
    show_question-Advances i total none w found = end_game-Advances w found
    show_question-Advances i total (some q) w found = Advances-same code room w.db w.db found refl
