-- ===== src/Auth/Sessions.antt =====
-- The endpoints of app/auth/router.py with `AuthService.login` and the counters and denylist of
-- app/core/security.py, and those of app/user/router.py that issue cookies. The rate limits are left
-- out. Time goes by for the entries of Redis only where Rotation says so.
pub mod Lockout
pub mod Rotation
pub mod Revocation
pub mod Entry
pub mod Writes
pub mod Accounts
use askit_backend.Auth.{
  JwtPayload, create_access_token, create_refresh_token, get_current_user, refresh_token_lifetime,
  verify_refresh_token,
}
use askit_backend.Exec.{
  Exec, Result, account_locked, err, gets, invalid_credentials, lift, modify, ok, or_raise, pure,
  raise, raise_if, refresh_token_missing, registration_failed, token_revoked, user_inactive,
  value_error, ◌>>=◌, ◌>>◌,
}
use askit_backend.External.{Key, Redis, Texts, Value, blacklist, counter, login_attempts, word}
use askit_backend.External.Tokens.{Hashes, Jwt, Secrets}
use askit_backend.Game.Play.{State}
use askit_backend.Game.World.{World}
use askit_backend.Models.{Db, Time, User, Uuid}
use askit_backend.Prelude.{
  Bool, Option, String, false, if◌then◌else◌, is_some, leb, nat_eq, none, not, some, string_eq, suc,
  ℕ, ◌&&◌, ◌==◌,
}
use askit_backend.Reading.{require}
use askit_backend.Users.{
  UserOut, change_password, create_user, deactivate_account, get_user_by_email, get_user_by_id,
  update_last_login, user_to_response,
}

abbrev pub max_login_attempts : ℕ
max_login_attempts = 10

abbrev pub login_lockout_ttl : ℕ
login_lockout_ttl = 900

-- The time of a request, and the claims that make its two tokens unique.
pub record Request : Type 0 where
  pub now : Time
  pub access_jti : String
  pub refresh_jti : String

-- A session's work on the database within a request.
abbrev pub in_db : {S A : Type 0} → Exec Db A → Exec (World S) A
in_db m w = let (r, db) = m w.db in (r, record w { db = db })

abbrev pub login_attempts_key : ⦃texts : Texts⦄ → String → Key
login_attempts_key ⦃texts⦄ email = login_attempts (texts.lower (texts.strip email))

-- `int(val) if val else 0`, which reads what `INCR` reads.
abbrev pub as_count : Option Value → Result ℕ
as_count v = elim (counter v) [ none ↦ err value_error | some n ↦ ok n ]

module _ ⦃redis : Redis⦄ where
  -- A write to Redis.
  abbrev pub in_redis : (redis.Store → redis.Store) → Exec State (Unit {0})
  in_redis f = modify (λ w. record w { redis = f w.redis })

  module _ ⦃texts : Texts⦄ where
    abbrev pub get_login_attempts : String → Exec State ℕ
    get_login_attempts email w = (as_count (redis.get w.redis (login_attempts_key email)), w)

    -- The number that `INCR` returns is the one it leaves.
    abbrev pub record_failed_login : String → Exec State (Unit {0})
    record_failed_login email = do
      in_redis (redis.incr (login_attempts_key email))
      n ← get_login_attempts email
      if n == 1
          then in_redis (redis.expire (login_attempts_key email) login_lockout_ttl)
          else pure tt

    abbrev pub reset_login_attempts : String → Exec State (Unit {0})
    reset_login_attempts email = in_redis (redis.delete (login_attempts_key email))

  module _ ⦃jwt : Jwt⦄ where
    abbrev pub blacklist_key : jwt.Token → Key
    blacklist_key token = blacklist (jwt.hash_token token)

    abbrev pub blacklist_refresh_token : jwt.Token → ℕ → Exec State (Unit {0})
    blacklist_refresh_token token ttl = in_redis (redis.set (blacklist_key token) (word "1") ttl)

    abbrev pub is_refresh_token_blacklisted : jwt.Token → State → Bool
    is_refresh_token_blacklisted token w = is_some (redis.get w.redis (blacklist_key token))

    -- The cookies of a response: a value to set for each, or both to delete.
    pub data Cookies : Type 0 where
      set_auth_cookies : jwt.Token → jwt.Token → Cookies
      delete_cookies : Cookies

    unfoldable pub logout : Option jwt.Token → Exec State Cookies
    logout none = pure delete_cookies
    logout (some refresh_token) = do
      blacklist_refresh_token refresh_token refresh_token_lifetime
      pure delete_cookies

    module _ ⦃secrets : Secrets⦄ ⦃texts : Texts⦄ where
      -- A fresh pair for the user at a version.
      abbrev pub issue : Request → Uuid → ℕ → Cookies
      issue request user_id version =
          set_auth_cookies
            (create_access_token request.now request.access_jti (texts.str user_id) version)
            (create_refresh_token request.now request.refresh_jti (texts.str user_id) version)

      abbrev is_current : JwtPayload → User → Bool
      is_current p user = user.is_active && p.ver == user.token_version

      -- `UUID(payload["sub"])` may raise a `ValueError`.
      unfoldable pub refresh : Request → Option jwt.Token → Exec State Cookies
      refresh request cookie = do
        refresh_token ← lift (require cookie refresh_token_missing)
        revoked ← gets (is_refresh_token_blacklisted refresh_token)
        raise_if revoked token_revoked
        p ← lift (verify_refresh_token request.now refresh_token)
        user_id ← lift (require (texts.parse_uuid p.sub) value_error)
        db ← gets (λ w. w.db)
        user ← lift (require (get_user_by_id db user_id) token_revoked)
        raise_if (not user.is_active) token_revoked
        raise_if (not (p.ver == user.token_version)) token_revoked
        blacklist_refresh_token refresh_token refresh_token_lifetime
        pure (issue request user.id user.token_version)

      unfoldable pub deactivate : Request → Option jwt.Token → Exec State Cookies
      deactivate request cookie = do
        db ← gets (λ w. w.db)
        user ← lift (get_current_user request.now cookie db)
        in_db (deactivate_account user)
        pure delete_cookies

      module _ ⦃hashes : Hashes⦄ where
        abbrev pub verified : String → Option User → Bool
        verified password none = false
        verified password (some user) = hashes.verify password user.password_hash

        -- `AuthService.login`
        abbrev pub auth_login : Request → String → String → Exec Db (User × Cookies)
        auth_login request email password = do
          db ← gets (λ db. db)
          raise_if (not (verified password (get_user_by_email db email))) invalid_credentials
          user ← or_raise (get_user_by_email db email) invalid_credentials
          raise_if (not user.is_active) user_inactive
          update_last_login request.now user
          pure (user, issue request user.id user.token_version)

        -- `except InvalidCredentialsError`: the failure is counted and raised again.
        abbrev pub count_failure : {A : Type 0} → String → Exec State A → Exec State A
        count_failure email m w =
            let (r, w') = m w in
            elim r [
              | ok a ↦ (ok a, w')
              | err invalid_credentials ↦
                  (record_failed_login email >> raise invalid_credentials) w'
              | err e ↦ (err e, w')
            ]

        unfoldable pub login : Request → String → String → Exec State (UserOut × Cookies)
        login request email password = do
          attempts ← get_login_attempts email
          raise_if (leb max_login_attempts attempts) account_locked
          signed_in ← count_failure email (in_db (auth_login request email password))
          reset_login_attempts email
          pure (user_to_response signed_in.0, signed_in.1)

        unfoldable pub register :
            Request → Uuid → ℕ → String → String → String → Exec State (UserOut × Cookies)
        register request user_id salt username email password = do
          db ← gets (λ w. w.db)
          raise_if (is_some (get_user_by_email db email)) registration_failed
          user ← in_db (create_user user_id salt request.now username email password)
          pure (user_to_response user, issue request user.id user.token_version)

        -- The endpoint reads the version from the user that the service has changed.
        unfoldable pub change_password_of :
            Request → Option jwt.Token → ℕ → String → String → Exec State Cookies
        change_password_of request cookie salt current_password next_password = do
          db ← gets (λ w. w.db)
          user ← lift (get_current_user request.now cookie db)
          in_db (change_password salt user current_password next_password)
          pure (issue request user.id (suc user.token_version))
