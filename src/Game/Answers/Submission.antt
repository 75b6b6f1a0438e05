-- ===== src/Game/Answers/Submission.antt =====
-- `submit_answer` as a whole: when an answer is accepted, what it then does, and what a refusal
-- leaves.
use askit_backend.Exec.{Error, Result-cases, err, ok}
use askit_backend.External.{Floats, Redis, Texts, answered}
use askit_backend.Game.Answers.{commit_answer, has_answered, record_answer, submit_answer}
use askit_backend.Game.Answers.Check.{Checked, check_answer, correct_ids, same_set, time_taken}
use askit_backend.Game.Answers.Commit.{IsSound, commit_answer-IsSound}
use askit_backend.Game.Answers.Recording.{
  IsRecorded, record_answer-IsRecorded, record_answer-db, sismember-mark, written,
}
use askit_backend.Game.Answers.Selection.{SameIds, same_set-SameIds}
use askit_backend.Game.Messages.{WsAnswerResult}
use askit_backend.Game.Play.{State}
use askit_backend.Game.Play.Current.{get_current_question}
use askit_backend.Game.Score.{calculate_score}
use askit_backend.Game.World.{Room, get_room}
use askit_backend.Http.{named}
use askit_backend.Models.{
  Db, GamePlayer, GamePlayerAnswer, QuizQuestion, Time, Uuid, question, status_eq,
}
use askit_backend.Prelude.{
  List, String, [], any, any-append, ap, arith, false, inl, inr, nat_eq, some, string_eq, sym, true,
  ◌++◌, ◌==◌, ◌↔◌, ◌∙◌, ◌∷◌, ◌≡◌, ◌≢◌,
}
use askit_backend.Quizzes.Authoring.{asks}

module _ ⦃redis : Redis⦄ ⦃texts : Texts⦄ ⦃floats : Floats⦄ where
  -- What must hold for an answer to pass the checks, and what they find out.
  module _ (w : State) (now : Time) (room_code player_id question_id : String)
      (answer_ids : List String) where
    abbrev pub IsAdmitted : Checked → Type 0
    IsAdmitted c =
        (room : Room) × (q : QuizQuestion) × (get_room room_code w.db ≡ some room)
        × (room.session.status ≡ question)
        × (c.answered_key ≡ answered room_code room.session.current_question_index)
        × (redis.sismember w.redis c.answered_key player_id ≡ false)
        × (get_current_question w room_code ≡ ok (some q))
        × (texts.parse_uuid question_id ≡ some q.question_id)
        × (c.row.question_id ≡ q.question_id)
        × (texts.parse_uuid player_id ≡ some c.row.player_id)
        × ((c.row.is_correct ≡ true) ↔ SameIds answer_ids (correct_ids q.answers))
        × (c.row.time_taken_ms ≡ time_taken w now room_code q)
        × (calculate_score c.row.time_taken_ms q.time_limit c.row.is_correct
            ≡ ok c.row.points_earned)

    check_answer_found :
        {c : Checked}
        → check_answer w now room_code player_id question_id answer_ids ≡ ok c
        → (room : Room) × (q : QuizQuestion) × (get_room room_code w.db ≡ some room)
          × (room.session.status ≡ question)
          × (c.answered_key ≡ answered room_code room.session.current_question_index)
          × (redis.sismember w.redis c.answered_key player_id ≡ false)
          × (get_current_question w room_code ≡ ok (some q))
          × (texts.parse_uuid question_id ≡ some q.question_id)
          × (c.row.question_id ≡ q.question_id)
          × (texts.parse_uuid player_id ≡ some c.row.player_id)
          × (c.row.is_correct ≡ same_set answer_ids (correct_ids q.answers))
          × (c.row.time_taken_ms ≡ time_taken w now room_code q)
          × (calculate_score c.row.time_taken_ms q.time_limit c.row.is_correct
              ≡ ok c.row.points_earned)
    unfolding check_answer
    check_answer_found h = ground arith

    pub check_answer-IsAdmitted :
        {c : Checked}
        → check_answer w now room_code player_id question_id answer_ids ≡ ok c
        → IsAdmitted c
    check_answer-IsAdmitted {c} h =
        let (
          room, q, found, asks, key, unmarked, current, named, same, player, judged, took, scored,
        ) =
          check_answer_found h in
        let ids = same_set-SameIds answer_ids (correct_ids q.answers) in
        let correct : (c.row.is_correct ≡ true) ↔ SameIds answer_ids (correct_ids q.answers) =
          (λ e. ids.0 (sym judged ∙ e), λ e. judged ∙ ids.1 e) in
        (room, q, found, asks, key, unmarked, current, named, same, player, correct, took, scored)

    submit_answer-of_ok :
        {c : Checked}
        → check_answer w now room_code player_id question_id answer_ids ≡ ok c
        → submit_answer now room_code player_id question_id answer_ids w
          ≡ record_answer player_id c w
    unfolding submit_answer
    submit_answer-of_ok e = ground arith

    submit_answer-of_err :
        {x : Error}
        → check_answer w now room_code player_id question_id answer_ids ≡ err x
        → submit_answer now room_code player_id question_id answer_ids w ≡ (err x, w)
    unfolding submit_answer
    submit_answer-of_err e = ground arith

    -- A submission that raises leaves the database, Redis and the messages as they were.
    pub submit_answer_refused :
        {e : Error} {w' : State}
        → submit_answer now room_code player_id question_id answer_ids w ≡ (err e, w')
        → w' ≡ w
    unfolding submit_answer record_answer commit_answer
    submit_answer_refused h = ground arith

    -- A submission that is accepted was checked: the room runs the question that was asked for, the
    -- player, who has a row, is not marked as having answered, and the answer is judged correct
    -- exactly where its ids are the correct ones. It then has written one answer, added its points to
    -- the score of the player, changed no other row, and marked the player.
    pub submit_answer_accepted :
        {result : WsAnswerResult} {w' : State}
        → submit_answer now room_code player_id question_id answer_ids w ≡ (ok result, w')
        → (c : Checked) × IsAdmitted c
          × (has_answered c.row.player_id c.row.question_id w.db ≡ false)
          × (any (λ (p : GamePlayer). p.player_id == c.row.player_id) w.db.players ≡ true)
          × (w'.db ≡ written c w.db)
          × (redis.sismember w'.redis c.answered_key player_id ≡ true)
          × (result.is_correct ≡ c.row.is_correct)
          × (result.points_earned ≡ c.row.points_earned)
    submit_answer_accepted {result} {w'} h =
        elim (Result-cases (check_answer w now room_code player_id question_id answer_ids)) [
          | inl (c, e) ↦
              let r : IsRecorded w player_id c result w' =
                record_answer-IsRecorded w player_id c (sym (submit_answer-of_ok e) ∙ h) in
              (
                c,
                check_answer-IsAdmitted e,
                r.0,
                r.1,
                r.2,
                rw r.3 (sismember-mark c.answered_key player_id w.redis),
                r.4,
                r.5,
              )
          | inr (x, e) ↦ absurd (ground (arith, submit_answer-of_err e))
        ]

    -- Every submission keeps the scores equal to the points earned, and the answers one for each
    -- player and question.
    pub submit_answer-IsSound :
        IsSound w.db → IsSound (submit_answer now room_code player_id question_id answer_ids w).1.db
    submit_answer-IsSound s =
        elim (Result-cases (check_answer w now room_code player_id question_id answer_ids)) [
          | inl (c, e) ↦
              rw (submit_answer-of_ok e)
                (rw (record_answer-db w player_id c) (commit_answer-IsSound c.row w.db s))
          | inr (x, e) ↦ rw (submit_answer-of_err e) s
        ]

  has_answered-append :
      (row : GamePlayerAnswer) (rows : List GamePlayerAnswer) (db : Db)
      → db.answers ≡ rows ++ row ∷ []
      → has_answered row.player_id row.question_id db ≡ true
  has_answered-append row rows db e = rw e (rw any-append (ground arith))

  answered_twice :
      {p p' q q' : Uuid} (db : Db)
      → p' ≡ p
      → q' ≡ q
      → has_answered p q db ≡ true
      → has_answered p' q' db ≡ false
      → ⊥
  answered_twice db ep eq yes_ no_ = ground arith

  -- After an accepted answer no second one of the same player to the same question is accepted on
  -- the tables that it left, in whatever spelling its ids come, at whatever time, and whatever
  -- Redis has kept.
  pub submit_answer_once :
      (w : State) (now : Time) (room_code player_id question_id : String) (answer_ids : List String)
      {result : WsAnswerResult} {w' : State}
      → submit_answer now room_code player_id question_id answer_ids w ≡ (ok result, w')
      → (store : redis.Store) (later : Time) (room' player_id' question_id' : String)
        (answer_ids' : List String)
      → texts.parse_uuid player_id' ≡ texts.parse_uuid player_id
      → texts.parse_uuid question_id' ≡ texts.parse_uuid question_id
      → (again : WsAnswerResult)
      → (submit_answer later room' player_id' question_id' answer_ids'
          (record w' { redis = store })).0
        ≢ ok again
  submit_answer_once w now room_code player_id question_id answer_ids {w' = w'} h store later room'
        player_id' question_id' answer_ids' ep eq again h' =
      let first = submit_answer_accepted w now room_code player_id question_id answer_ids h in
      let w'' : State = record w' { redis = store } in
      let second =
        submit_answer_accepted w'' later room' player_id' question_id' answer_ids' {result = again}
          {w' = (submit_answer later room' player_id' question_id' answer_ids' w'').1}
          (ap (λ r. (r, (submit_answer later room' player_id' question_id' answer_ids' w'').1))
            h') in
      answered_twice {p = first.0.row.player_id} {p' = second.0.row.player_id}
        {q = first.0.row.question_id} {q' = second.0.row.question_id} w'.db
        (cc (ep, first.1.9, second.1.9)) (cc (eq, first.1.7, first.1.8, second.1.7, second.1.8))
        (has_answered-append first.0.row w.db.answers w'.db (ap (λ (t : Db). t.answers) first.4))
        second.2
