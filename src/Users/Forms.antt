-- ===== src/Users/Forms.antt =====
-- The bodies of requests on an account, app/user/schemas.py.
-- Reads only.
use askit_backend.Exec.{Result, ok}
use askit_backend.Prelude.{Option, String, none, some}
use askit_backend.Reading.{◌>>=◌}
use askit_backend.Users.Validators.{Digits, validate_password, validate_username}

-- `UserCreate`, with an address that pydantic has accepted.
pub record UserCreate : Type 0 where
  pub username : String
  pub email : String
  pub password : String

-- `username_valid` of `UserUpdate`
abbrev pub username_valid : Option String → Result (Option String)
username_valid none = ok none
username_valid (some v) = do username ← validate_username v; ok (some username)

module _ ⦃digits : Digits⦄ where
  -- The validators of `UserCreate` in the order of its fields.
  unfoldable pub validate_user_create : UserCreate → Result UserCreate
  validate_user_create form = do
    username ← validate_username form.username
    password ← validate_password form.password
    ok (record form { username = username; password = password })
