-- ===== src/Quizzes/Endpoints.antt =====
-- The endpoints of app/quiz/router.py. The user is looked up before the body of a request is validated.
pub mod Access
pub mod Importable
pub mod Changes
pub mod Stored
pub mod Imports
use askit_backend.Auth.{get_current_user}
use askit_backend.Exec.{Exec, Result, lift, ok, or_raise, pure, quiz_not_found, ◌>>=◌, ◌>>◌}
use askit_backend.External.{Fields, Floats, Texts}
use askit_backend.External.Tokens.{Jwt, Secrets}
use askit_backend.Models.{Db, QuizStatus, Time, User, Uuid}
use askit_backend.Prelude.{Bool, List, Option, String, length, some, ℕ}
use askit_backend.Quizzes.{set_quiz_status, toggle_favorite}
use askit_backend.Quizzes.Authoring.{Fresh, create_quiz, delete_quiz, update_quiz}
use askit_backend.Quizzes.Forms.{QuizCreate, QuizOut, QuizStatsOut, QuizUpdate}
use askit_backend.Quizzes.Stats.{get_bulk_quiz_stats, get_quiz_stats}
use askit_backend.Quizzes.Validation.Bodies.{validate_create, validate_update}
use askit_backend.Quizzes.Views.{export_quiz, get_quiz, list_favorites, list_quizzes, respond}
use askit_backend.Reading.{require}

pub record QuizListOut : Type 0 where
  pub items : List QuizOut
  pub total : ℕ

pub record FavoriteActionResponse : Type 0 where
  pub quiz_id : String
  pub is_favorited : Bool

-- `QuizListOut(items=quizzes, total=len(quizzes))`
abbrev pub list_out : List QuizOut → QuizListOut
list_out quizzes = record { items = quizzes; total = length quizzes }

-- What a request brings beside its body: its time and the access token of its cookies.
pub record Caller (Token : Type 0) : Type 0 where
  pub now : Time
  pub cookie : Option Token

module _ ⦃jwt : Jwt⦄ ⦃secrets : Secrets⦄ ⦃texts : Texts⦄ where
  -- `Depends(get_current_user)`
  abbrev pub current_user : Caller jwt.Token → Exec Db User
  current_user caller db = (get_current_user caller.now caller.cookie db, db)

  -- A response that is built from what is stored now.
  abbrev reads : {A : Type 0} → (Db → Result A) → Exec Db A
  reads f db = (f db, db)

  unfoldable pub create_quiz_endpoint : Fresh → Caller jwt.Token → QuizCreate → Exec Db QuizOut
  create_quiz_endpoint fresh caller body = do
    user ← current_user caller
    form ← lift (validate_create body)
    create_quiz fresh user form
    reads (respond fresh.quiz_id)

  unfoldable pub import_quiz_endpoint : Fresh → Caller jwt.Token → QuizCreate → Exec Db QuizOut
  import_quiz_endpoint fresh caller body = do
    user ← current_user caller
    form ← lift (validate_create body)
    create_quiz fresh user form
    reads (respond fresh.quiz_id)

  unfoldable pub list_quizzes_endpoint : Caller jwt.Token → Exec Db QuizListOut
  list_quizzes_endpoint caller = do
    user ← current_user caller
    quizzes ← reads (λ db. list_quizzes db user)
    pure (list_out quizzes)

  unfoldable pub get_quiz_endpoint : Caller jwt.Token → Uuid → Exec Db QuizOut
  get_quiz_endpoint caller quiz_id = do
    user ← current_user caller
    reads (λ db. require (get_quiz db quiz_id (some user)) quiz_not_found)

  unfoldable pub update_quiz_endpoint :
      Fresh → Caller jwt.Token → Uuid → QuizUpdate → Exec Db QuizOut
  update_quiz_endpoint fresh caller quiz_id body = do
    user ← current_user caller
    form ← lift (validate_update body)
    update_quiz fresh quiz_id user form
    reads (respond quiz_id)

  unfoldable pub delete_quiz_endpoint : Caller jwt.Token → Uuid → Exec Db (Unit {0})
  delete_quiz_endpoint caller quiz_id = do user ← current_user caller; delete_quiz quiz_id user

  unfoldable pub set_quiz_status_endpoint :
      Time → Caller jwt.Token → Uuid → QuizStatus → Exec Db QuizOut
  set_quiz_status_endpoint now caller quiz_id status = do
    user ← current_user caller
    set_quiz_status now quiz_id status user
    reads (respond quiz_id)

  unfoldable pub list_favorites_endpoint : Caller jwt.Token → Exec Db QuizListOut
  list_favorites_endpoint caller = do
    user ← current_user caller
    quizzes ← reads (λ db. list_favorites db user)
    pure (list_out quizzes)

  abbrev favorite_response : Uuid → Bool → FavoriteActionResponse
  favorite_response quiz_id is_favorited = record {
    quiz_id = texts.str quiz_id;
    is_favorited = is_favorited;
  }

  unfoldable pub toggle_favorite_endpoint : Caller jwt.Token → Uuid → Exec Db FavoriteActionResponse
  toggle_favorite_endpoint caller quiz_id = do
    user ← current_user caller
    result ← (λ db. let (r, db') = toggle_favorite quiz_id user db in (ok r, db'))
    is_favorited ← or_raise result quiz_not_found
    pure (favorite_response quiz_id is_favorited)

  unfoldable pub export_quiz_endpoint : Caller jwt.Token → Uuid → Exec Db QuizCreate
  export_quiz_endpoint caller quiz_id = do
    user ← current_user caller
    reads (λ db. export_quiz db quiz_id user)

  module _ ⦃floats : Floats⦄ ⦃fields : Fields⦄ where
    unfoldable pub get_quiz_stats_endpoint : Caller jwt.Token → Uuid → Exec Db QuizStatsOut
    get_quiz_stats_endpoint caller quiz_id = do
      user ← current_user caller
      reads (λ db. get_quiz_stats db quiz_id user)

    unfoldable pub get_bulk_quiz_stats_endpoint :
        Caller jwt.Token → List Uuid → Exec Db (List QuizStatsOut)
    get_bulk_quiz_stats_endpoint caller quiz_ids = do
      user ← current_user caller
      reads (λ db. get_bulk_quiz_stats db quiz_ids user)

-- The requests that the router serves, each with what it carries.
pub data QuizRequest (Token : Type 0) : Type 0 where
  post_quiz import_quiz : Fresh → Caller Token → QuizCreate → QuizRequest Token
  patch_quiz : Fresh → Caller Token → Uuid → QuizUpdate → QuizRequest Token
  patch_status : Time → Caller Token → Uuid → QuizStatus → QuizRequest Token
  delete_quiz_at toggle_at get_quiz_at export_at stats_at : Caller Token → Uuid → QuizRequest Token
  get_list get_favorites : Caller Token → QuizRequest Token
  post_stats : Caller Token → List Uuid → QuizRequest Token

pub data Reply : Type 0 where
  quiz_out : QuizOut → Reply
  quiz_list : QuizListOut → Reply
  favorite_action : FavoriteActionResponse → Reply
  quiz_export : QuizCreate → Reply
  quiz_stats : QuizStatsOut → Reply
  bulk_stats : List QuizStatsOut → Reply
  no_content : Unit {0} → Reply

abbrev replies : {A : Type 0} → (A → Reply) → Exec Db A → Exec Db Reply
replies f m = do a ← m; pure (f a)

module _ ⦃jwt : Jwt⦄ ⦃secrets : Secrets⦄ ⦃texts : Texts⦄ ⦃floats : Floats⦄ ⦃fields : Fields⦄ where
  unfoldable pub route : QuizRequest jwt.Token → Exec Db Reply
  route (post_quiz fresh caller body) = replies quiz_out (create_quiz_endpoint fresh caller body)
  route (import_quiz fresh caller body) = replies quiz_out (import_quiz_endpoint fresh caller body)
  route (patch_quiz fresh caller quiz_id body) =
      replies quiz_out (update_quiz_endpoint fresh caller quiz_id body)
  route (patch_status now caller quiz_id status) =
      replies quiz_out (set_quiz_status_endpoint now caller quiz_id status)
  route (delete_quiz_at caller quiz_id) = replies no_content (delete_quiz_endpoint caller quiz_id)
  route (toggle_at caller quiz_id) =
      replies favorite_action (toggle_favorite_endpoint caller quiz_id)
  route (get_quiz_at caller quiz_id) = replies quiz_out (get_quiz_endpoint caller quiz_id)
  route (export_at caller quiz_id) = replies quiz_export (export_quiz_endpoint caller quiz_id)
  route (stats_at caller quiz_id) = replies quiz_stats (get_quiz_stats_endpoint caller quiz_id)
  route (get_list caller) = replies quiz_list (list_quizzes_endpoint caller)
  route (get_favorites caller) = replies quiz_list (list_favorites_endpoint caller)
  route (post_stats caller quiz_ids) =
      replies bulk_stats (get_bulk_quiz_stats_endpoint caller quiz_ids)
