-- ===== src/Examples/Requests.antt =====
-- The theorems on whole requests at the scene.
use mathlib.Core.List.Perm
use mathlib.Core.List.{reverse, reverse_perm}
use askit_backend.Auth.{create_access_token, decode, get_current_user}
use askit_backend.Auth.Sessions.{Request}
use askit_backend.Auth.Sessions.Accounts.{
  Keeps, UserCall, logs_in, registers, serve_all, serve_all-Keeps,
}
use askit_backend.Examples.Scene.{host, lobby, str, waiting_room}
use askit_backend.Exec.{Result, err, not_authenticated, ok}
use askit_backend.External.Memory.{
  memory, plain_hashes, plain_jwt, plain_texts, strict_fields, two_secrets, whole_floats,
}
use askit_backend.Game.World.{load_quiz}
use askit_backend.Models.{Db, Quiz, QuizQuestion, private, published}
use askit_backend.Prelude.{All, List, [], false, inl, map, none, refl, some, true, ◌∷◌, ◌≡◌}
use askit_backend.Prelude.Sorting.{sort_by}
use askit_backend.Quizzes.Authoring.{Fresh, build_questions, create_quiz}
use askit_backend.Quizzes.Endpoints.{
  Caller, delete_quiz_at, import_quiz_endpoint, patch_status, route,
}
use askit_backend.Quizzes.Endpoints.Access.{route_refused}
use askit_backend.Quizzes.Endpoints.Importable.{IsImportable}
use askit_backend.Quizzes.Endpoints.Imports.{import_quiz-export_quiz}
use askit_backend.Quizzes.Endpoints.Stored.{route-IsImportable}
use askit_backend.Quizzes.Forms.{QuizCreate, QuizOut}
use askit_backend.Quizzes.Reread.{Pairwise, RereadQuestion, RereadQuiz, SameForm}
use askit_backend.Quizzes.Validation.{
  validate_description, validate_question, validate_settings, validate_tags, validate_title,
}
use askit_backend.Quizzes.Views.{export_quiz}

abbrev early : Request
early = record { now = 10; access_jti = "a"; refresh_jti = "b" }

abbrev late : Request
late = record { now = 20; access_jti = "c"; refresh_jti = "d" }

abbrev sign_up : List UserCall
sign_up =
    registers early 2 3 "new" "new@example.org" "secret"
    ∷ logs_in late "new@example.org" "secret"
    ∷ []

serve_all-Keeps_example : Keeps lobby (serve_all sign_up waiting_room).db
serve_all-Keeps_example = serve_all-Keeps sign_up waiting_room (refl, tt)

-- One quiz, of the host, as a form and as it is stored.
abbrev sums_form : QuizCreate
sums_form = record {
  title = "Sums";
  description = none;
  tags = "maths" ∷ "easy" ∷ [];
  settings = record {
    default_time_per_question = 30000;
    visibility = private;
    max_participants = 5;
  };
  questions =
      record {
        text = "2 + 2?";
        time_limit = 5000;
        allow_multiple_answers = false;
        answers =
            record { text = "4"; is_correct = true }
            ∷ record { text = "5"; is_correct = false }
            ∷ [];
      }
      ∷ [];
}

abbrev drawn : Fresh
drawn = record { quiz_id = 12; question_ids = λ i. i; answer_ids = λ i j. j; now = 5 }

abbrev next_drawn : Fresh
next_drawn = record { quiz_id = 13; question_ids = λ i. i; answer_ids = λ i j. j; now = 6 }

abbrev stored : Db
stored = (create_quiz drawn host sums_form (record lobby { quizzes = [] })).1

abbrev by_host : Caller plain_jwt.Token
by_host = record { now = 30; cookie = some (create_access_token 10 "a" (str 1) 0) }

abbrev by_nobody : Caller plain_jwt.Token
by_nobody = record { now = 30; cookie = none }

host_let_in : get_current_user by_host.now by_host.cookie stored ≡ ok host
unfolding create_quiz build_questions get_current_user decode
host_let_in = refl

stored-fits : All IsImportable stored.quizzes
unfolding create_quiz build_questions validate_title validate_description validate_tags
    validate_settings validate_question
stored-fits = ((sums_form.settings, refl, refl, refl, refl, refl, (refl, tt)), tt)

-- The tags and the answers in the opposite order.
abbrev turned_question : QuizQuestion → QuizQuestion
turned_question q = record q { answers = reverse q.answers }

abbrev turned : Quiz → Quiz
turned q = record q { tags = reverse q.tags; questions = map turned_question q.questions }

turned_questions-RereadQuestion :
    (questions : List QuizQuestion)
    → Pairwise RereadQuestion questions (map turned_question questions)
turned_questions-RereadQuestion [] = tt
turned_questions-RereadQuestion (q ∷ questions) =
    ((refl, Perm.symm (reverse_perm q.answers)), turned_questions-RereadQuestion questions)

turned-RereadQuiz : (quizzes : List Quiz) → Pairwise RereadQuiz quizzes (map turned quizzes)
turned-RereadQuiz [] = tt
turned-RereadQuiz (q ∷ quizzes) = (
  (refl, Perm.symm (reverse_perm q.tags), turned_questions-RereadQuestion q.questions),
  turned-RereadQuiz quizzes,
)

abbrev imported : Result QuizOut × Db
imported = import_quiz_endpoint next_drawn by_host sums_form stored

abbrev reread : Db
reread = record imported.1 { quizzes = map turned imported.1.quizzes }

import_quiz-export_quiz_example :
    (out : QuizOut) × (form : QuizCreate) × (imported.0 ≡ ok out)
    × (export_quiz reread 13 host ≡ ok form)
    × SameForm sums_form form
unfolding create_quiz build_questions export_quiz load_quiz sort_by
import_quiz-export_quiz_example =
    import_quiz-export_quiz next_drawn by_host 12 host host stored {form = sums_form}
      (map turned imported.1.quizzes) stored-fits (((refl, tt), (refl, tt), inl refl), tt) refl
      host_let_in refl (turned-RereadQuiz imported.1.quizzes)

route-IsImportable_example :
    All IsImportable (route (patch_status 9 by_host 12 published) stored).1.quizzes
unfolding create_quiz build_questions
route-IsImportable_example =
    route-IsImportable (patch_status 9 by_host 12 published) stored (refl, tt) stored-fits

route_refused_example : route (delete_quiz_at by_nobody 11) lobby ≡ (err not_authenticated, lobby)
unfolding get_current_user
route_refused_example = route_refused (delete_quiz_at by_nobody 11) lobby refl
