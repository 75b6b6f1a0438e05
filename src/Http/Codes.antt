-- ===== src/Http/Codes.antt =====
-- The codes by which clients tell errors apart.
use askit_backend.Exec.{
  Error, account_locked, already_answered, game_already_started, host_cannot_join,
  invalid_credentials, invalid_password, invalid_quiz_data, invalid_token, invalid_username,
  nickname_already_taken, not_authenticated, not_host, question_not_active, quiz_access_denied,
  quiz_not_found, quiz_not_playable, quiz_published, refresh_token_missing, registration_failed,
  room_full, room_not_found, token_expired, token_revoked, user_inactive, username_already_exists,
}
use askit_backend.Http.{app_exception}
use askit_backend.Models.{status_eq}
use askit_backend.Prelude.{
  Bool, List, Option, String, [], false, find?, nat_eq, none, some, string_eq, ◌==◌, ◌∷◌,
}

-- The exception that a code stands for.
abbrev classes : List Error
classes =
    room_not_found ∷ room_full ∷ game_already_started ∷ not_host ∷ nickname_already_taken
    ∷ question_not_active ∷ host_cannot_join ∷ already_answered ∷ quiz_not_found
    ∷ quiz_access_denied ∷ invalid_quiz_data ∷ quiz_published ∷ quiz_not_playable
    ∷ invalid_credentials ∷ token_expired ∷ invalid_token ∷ token_revoked ∷ not_authenticated
    ∷ refresh_token_missing ∷ user_inactive ∷ invalid_username ∷ invalid_password
    ∷ username_already_exists ∷ registration_failed ∷ account_locked ∷ []

abbrev has_code : String → Error → Bool
has_code error_code e = elim (app_exception e) [
  | none ↦ false
  | some exc ↦ exc.error_code == error_code
]

of_code : String → Option Error
of_code error_code = find? (has_code error_code) classes
