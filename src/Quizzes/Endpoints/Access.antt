-- ===== src/Quizzes/Endpoints/Access.antt =====
-- Who the endpoints serve.
use askit_backend.Auth.{get_current_user}
use askit_backend.Exec.{Error, err}
use askit_backend.External.{Fields, Floats, Texts}
use askit_backend.External.Tokens.{Jwt, Secrets}
use askit_backend.Models.{Db, Uuid}
use askit_backend.Prelude.{List, arith, ◌≡◌}
use askit_backend.Quizzes.Endpoints.{
  Caller, QuizRequest, create_quiz_endpoint, delete_quiz_at, delete_quiz_endpoint, export_at,
  export_quiz_endpoint, get_bulk_quiz_stats_endpoint, get_favorites, get_list, get_quiz_at,
  get_quiz_endpoint, get_quiz_stats_endpoint, import_quiz, import_quiz_endpoint,
  list_favorites_endpoint, list_quizzes_endpoint, patch_quiz, patch_status, post_quiz, post_stats,
  route, set_quiz_status_endpoint, stats_at, toggle_at, toggle_favorite_endpoint,
  update_quiz_endpoint,
}

abbrev pub caller_of : {Token : Type 0} → QuizRequest Token → Caller Token
caller_of (post_quiz fresh caller body) = caller
caller_of (import_quiz fresh caller body) = caller
caller_of (patch_quiz fresh caller quiz_id body) = caller
caller_of (patch_status now caller quiz_id status) = caller
caller_of (delete_quiz_at caller quiz_id) = caller
caller_of (toggle_at caller quiz_id) = caller
caller_of (get_quiz_at caller quiz_id) = caller
caller_of (export_at caller quiz_id) = caller
caller_of (stats_at caller quiz_id) = caller
caller_of (get_list caller) = caller
caller_of (get_favorites caller) = caller
caller_of (post_stats caller quiz_ids) = caller

module _ ⦃jwt : Jwt⦄ ⦃secrets : Secrets⦄ ⦃texts : Texts⦄ ⦃floats : Floats⦄ ⦃fields : Fields⦄ where
  -- Whoever is not let in as a user has no request of the quiz router served: each raises what the
  -- look-up of the user raises, and the tables stay as they are.
  pub route_refused :
      (r : QuizRequest jwt.Token) (db : Db) {e : Error}
      → get_current_user (caller_of r).now (caller_of r).cookie db ≡ err e
      → route r db ≡ (err e, db)
  unfolding route create_quiz_endpoint import_quiz_endpoint list_quizzes_endpoint get_quiz_endpoint
      update_quiz_endpoint delete_quiz_endpoint set_quiz_status_endpoint list_favorites_endpoint
      toggle_favorite_endpoint export_quiz_endpoint get_quiz_stats_endpoint
      get_bulk_quiz_stats_endpoint
  route_refused r db h = ground (arith, h)

  -- Requests that only read.
  pub get_quiz_at_reads :
      (db : Db) (caller : Caller jwt.Token) (quiz_id : Uuid)
      → (route (get_quiz_at caller quiz_id) db).1 ≡ db
  unfolding route get_quiz_endpoint
  get_quiz_at_reads db caller quiz_id = ground arith

  pub export_at_reads :
      (db : Db) (caller : Caller jwt.Token) (quiz_id : Uuid)
      → (route (export_at caller quiz_id) db).1 ≡ db
  unfolding route export_quiz_endpoint
  export_at_reads db caller quiz_id = ground arith

  pub stats_at_reads :
      (db : Db) (caller : Caller jwt.Token) (quiz_id : Uuid)
      → (route (stats_at caller quiz_id) db).1 ≡ db
  unfolding route get_quiz_stats_endpoint
  stats_at_reads db caller quiz_id = ground arith

  pub get_list_reads : (db : Db) (caller : Caller jwt.Token) → (route (get_list caller) db).1 ≡ db
  unfolding route list_quizzes_endpoint
  get_list_reads db caller = ground arith

  pub get_favorites_reads :
      (db : Db) (caller : Caller jwt.Token) → (route (get_favorites caller) db).1 ≡ db
  unfolding route list_favorites_endpoint
  get_favorites_reads db caller = ground arith

  pub post_stats_reads :
      (db : Db) (caller : Caller jwt.Token) (quiz_ids : List Uuid)
      → (route (post_stats caller quiz_ids) db).1 ≡ db
  unfolding route get_bulk_quiz_stats_endpoint
  post_stats_reads db caller quiz_ids = ground arith
