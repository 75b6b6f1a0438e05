-- ===== src/Auth/Profile.antt =====
-- The endpoints of app/user/router.py that show and change the profile.
use askit_backend.Auth.{get_current_user}
use askit_backend.Auth.Sessions.{in_db}
use askit_backend.Exec.{Exec, gets, lift, pure, ◌>>=◌}
use askit_backend.External.{Redis, Texts}
use askit_backend.External.Tokens.{Jwt, Secrets}
use askit_backend.Game.Play.{State}
use askit_backend.Models.{Time}
use askit_backend.Prelude.{Option, String}
use askit_backend.Users.{UserOut, update_profile, user_to_response}
use askit_backend.Users.Forms.{username_valid}

module _ ⦃redis : Redis⦄ ⦃jwt : Jwt⦄ ⦃secrets : Secrets⦄ ⦃texts : Texts⦄ where
  unfoldable pub get_user_profile : Time → Option jwt.Token → Exec State UserOut
  get_user_profile now cookie = do
    db ← gets (λ w. w.db)
    user ← lift (get_current_user now cookie db)
    pure (user_to_response user)

  -- The user is looked up before the body is validated.
  unfoldable pub update_profile_of : Time → Option jwt.Token → Option String → Exec State UserOut
  update_profile_of now cookie data_username = do
    db ← gets (λ w. w.db)
    user ← lift (get_current_user now cookie db)
    username ← lift (username_valid data_username)
    in_db (update_profile user username)
