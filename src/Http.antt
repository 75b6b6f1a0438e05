-- ===== src/Http.antt =====
-- What the service answers when code raises: the classes of app/core/exceptions.py,
-- app/game/exceptions.py, app/quiz/exceptions.py and app/auth/exceptions.py with their codes, and the
-- handlers of app/core/exception_handlers.py that app/main.py registers. Log lines are left out, and
-- so are the messages of the application's exceptions.
pub mod Codes
pub mod Headers
use askit_backend.Exec.{
  Error, account_locked, already_answered, game_already_started, host_cannot_join,
  invalid_credentials, invalid_password, invalid_quiz_data, invalid_token, invalid_username,
  nickname_already_taken, not_authenticated, not_host, question_not_active, quiz_access_denied,
  quiz_not_found, quiz_not_playable, quiz_published, refresh_token_missing, registration_failed,
  room_full, room_not_found, token_expired, token_revoked, user_inactive, username_already_exists,
}
use askit_backend.Models.{status_eq}
use askit_backend.Prelude.{
  Bool, List, Option, String, [], false, if◌then◌else◌, is_empty, map, nat_eq, none, not, select,
  some, string_eq, ℕ, ◌==◌, ◌∷◌,
}

-- `AppException` with the arguments of its subclasses. None of them passes details.
pub record AppException : Type 0 where
  pub error_code : String
  pub status_code : ℕ

abbrev authentication_error : String → Option AppException
authentication_error error_code = some (record { error_code = error_code; status_code = 401 })

abbrev conflict : String → Option AppException
conflict error_code = some (record { error_code = error_code; status_code = 409 })

abbrev forbidden : String → Option AppException
forbidden error_code = some (record { error_code = error_code; status_code = 403 })

abbrev not_found : String → Option AppException
not_found error_code = some (record { error_code = error_code; status_code = 404 })

abbrev unprocessable : String → Option AppException
unprocessable error_code = some (record { error_code = error_code; status_code = 422 })

abbrev too_many : String → Option AppException
too_many error_code = some (record { error_code = error_code; status_code = 429 })

-- app/game/exceptions.py
abbrev pub game_exception : Error → Option AppException
game_exception room_not_found = not_found "ROOM_NOT_FOUND"
game_exception room_full = conflict "ROOM_FULL"
game_exception game_already_started = conflict "GAME_ALREADY_STARTED"
game_exception not_host = forbidden "NOT_HOST"
game_exception nickname_already_taken = conflict "NICKNAME_ALREADY_TAKEN"
game_exception question_not_active = conflict "QUESTION_NOT_ACTIVE"
game_exception host_cannot_join = forbidden "HOST_CANNOT_JOIN"
game_exception already_answered = conflict "ALREADY_ANSWERED"
game_exception _ = none

-- app/quiz/exceptions.py
abbrev pub quiz_exception : Error → Option AppException
quiz_exception quiz_not_found = not_found "QUIZ_NOT_FOUND"
quiz_exception quiz_access_denied = forbidden "QUIZ_ACCESS_DENIED"
quiz_exception invalid_quiz_data = unprocessable "INVALID_QUIZ_DATA"
quiz_exception quiz_published = conflict "QUIZ_PUBLISHED"
quiz_exception quiz_not_playable = conflict "QUIZ_NOT_PLAYABLE"
quiz_exception _ = none

-- app/auth/exceptions.py
abbrev pub auth_exception : Error → Option AppException
auth_exception invalid_credentials = authentication_error "INVALID_CREDENTIALS"
auth_exception token_expired = authentication_error "TOKEN_EXPIRED"
auth_exception invalid_token = authentication_error "INVALID_TOKEN"
auth_exception token_revoked = authentication_error "TOKEN_REVOKED"
auth_exception not_authenticated = authentication_error "NOT_AUTHENTICATED"
auth_exception refresh_token_missing = authentication_error "REFRESH_TOKEN_MISSING"
auth_exception user_inactive = forbidden "USER_INACTIVE"
auth_exception invalid_username = unprocessable "INVALID_USERNAME"
auth_exception invalid_password = unprocessable "INVALID_PASSWORD"
auth_exception username_already_exists = conflict "USERNAME_ALREADY_EXISTS"
auth_exception registration_failed = conflict "REGISTRATION_FAILED"
auth_exception account_locked = too_many "ACCOUNT_LOCKED"
auth_exception _ = none

abbrev or_else : Option AppException → Option AppException → Option AppException
or_else none other = other
or_else (some exc) other = some exc

-- `none` for the exceptions of Python and of libraries.
unfoldable pub app_exception : Error → Option AppException
app_exception e = or_else (game_exception e) (or_else (quiz_exception e) (auth_exception e))

abbrev pub append : String → String → String
append String.[] t = t
append (String.◌∷◌ c s) t = String.◌∷◌ c (append s t)

-- `sep.join(texts)`
abbrev pub join : String → List String → String
join sep [] = ""
join sep (t ∷ []) = t
join sep (t ∷ u ∷ texts) = append t (append sep (join sep (u ∷ texts)))

-- An entry of `errors()`: the parts of its location as texts, and its message.
pub record FieldError : Type 0 where
  pub loc : List String
  pub msg : String

-- The location as it is shown, where `skips` says which parts are left out.
abbrev pub field_of : (String → Bool) → FieldError → String
field_of skips entry = join "." (select (λ l. not (skips l)) entry.loc)

abbrev pub named : (String → Bool) → FieldError → String
named skips entry = if is_empty (field_of skips entry) then entry.msg else field_of skips entry

unfoldable pub message_of : (String → Bool) → List FieldError → String
message_of skips (entry ∷ []) =
    if is_empty (field_of skips entry)
    then entry.msg
    else append (field_of skips entry) (append ": " entry.msg)
message_of skips errors = append "Invalid fields: " (join ", " (map (named skips) errors))

-- The parts of a `JSONResponse` that tell answers apart. Only validation builds its message.
pub record JsonResponse : Type 0 where
  pub status : ℕ
  pub error_code : String
  pub message : Option String

abbrev pub app_exception_handler : AppException → JsonResponse
app_exception_handler exc = record {
  status = exc.status_code;
  error_code = exc.error_code;
  message = none;
}

abbrev pub validation_exception_handler : List FieldError → JsonResponse
validation_exception_handler errors = record {
  status = 422;
  error_code = "VALIDATION_ERROR";
  message = some (message_of (λ l. l == "body") errors);
}

abbrev pub pydantic_validation_exception_handler : List FieldError → JsonResponse
pydantic_validation_exception_handler errors = record {
  status = 422;
  error_code = "VALIDATION_ERROR";
  message = some (message_of (λ l. false) errors);
}

abbrev pub rate_limit_exceeded_handler : JsonResponse
rate_limit_exceeded_handler = record { status = 429; error_code = "RATE_LIMITED"; message = none }

abbrev pub generic_exception_handler : JsonResponse
generic_exception_handler = record {
  status = 500;
  error_code = "INTERNAL_SERVER_ERROR";
  message = none;
}

-- The classes that a handler is registered for, each with what its handler reads.
pub data Raised : Type 0 where
  rate_limit_exceeded : Raised
  application : AppException → Raised
  request_validation validation : List FieldError → Raised
  other : Raised

-- The handler of the most specific class that is registered.
unfoldable pub answer_to : Raised → JsonResponse
answer_to rate_limit_exceeded = rate_limit_exceeded_handler
answer_to (application exc) = app_exception_handler exc
answer_to (request_validation errors) = validation_exception_handler errors
answer_to (validation errors) = pydantic_validation_exception_handler errors
answer_to other = generic_exception_handler
