-- ===== src/Examples/Quizzes.antt =====
-- The theorems on quizzes, their statistics and their forms at the scene.
use askit_backend.Examples.Scene.{ada, bob, host, lobby, room_session}
use askit_backend.Exec.{Error, err}
use askit_backend.External.Memory.{
  memory, plain_hashes, plain_jwt, plain_texts, strict_fields, two_secrets, whole_floats,
}
use askit_backend.Models.{Db, User, private}
use askit_backend.Prelude.{List, String, [], false, none, refl, true, ◌∷◌, ◌≡◌}
use askit_backend.Prelude.Int.{pos}
use askit_backend.Quizzes.Authoring.{Fresh, create_quiz}
use askit_backend.Quizzes.Calls.{call, call-others, creates, deletes, others}
use askit_backend.Quizzes.Forms.{QuizCreate}
use askit_backend.Quizzes.Links.{IsLinked}
use askit_backend.Quizzes.Links.Calls.{call-IsLinked}
use askit_backend.Quizzes.Stats.{Played, get_quiz_stats}
use askit_backend.Quizzes.Stats.Groups.{get_quiz_stats_refused}

abbrev form : QuizCreate
form = record {
  title = "Sums";
  description = none;
  tags = "maths" ∷ [];
  settings = record {
    default_time_per_question = 30000;
    visibility = private;
    max_participants = 5;
  };
  questions =
      record {
        text = "2 + 2?";
        time_limit = 5000;
        allow_multiple_answers = false;
        answers = record { text = "4"; is_correct = true } ∷ [];
      }
      ∷ [];
}

abbrev fresh : Fresh
fresh = record { quiz_id = 12; question_ids = λ i. i; answer_ids = λ i j. j; now = 5 }

abbrev filled : Db
filled = (create_quiz fresh host form lobby).1

abbrev shelf : Db
shelf = (create_quiz fresh host form (record lobby { quizzes = [] })).1

abbrev guest : User
guest = record host { id = 2; username = "guest"; email = "guest@example.org" }

call-others_example :
    others guest (call guest (creates fresh form) lobby).quizzes ≡ others guest lobby.quizzes
call-others_example = call-others guest (creates fresh form) lobby (refl, tt)

call-IsLinked_example : IsLinked (call host (deletes 11) lobby)
call-IsLinked_example =
    call-IsLinked host (deletes 11) lobby (refl, tt) ((refl, tt), tt, (refl, (refl, tt)), tt)

get_quiz_stats_refused_example : (e : Error) × (get_quiz_stats lobby 11 host ≡ err e)
get_quiz_stats_refused_example = get_quiz_stats_refused lobby 11 host

abbrev played : List Played
played = (room_session, ada ∷ record bob { score = pos 7 } ∷ []) ∷ []

abbrev sent_tags : List String
sent_tags = "sums" ∷ "" ∷ "sums" ∷ []

abbrev kept_tags : List String
kept_tags = "sums" ∷ []
