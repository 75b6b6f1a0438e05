-- ===== src/Auth.antt =====
-- Tokens and the users that they stand for: `JWTService` of app/auth/services/jwt_service.py and
-- app/auth/dependencies.py.
-- Reads only.
pub mod Checks
pub mod Profile
pub mod Sessions
pub mod AutoRefresh
use askit_backend.Exec.{
  Error, Result, err, invalid_token, key_error, not_authenticated, ok, token_expired, token_revoked,
  user_inactive, value_error,
}
use askit_backend.External.{Texts}
use askit_backend.External.Tokens.{Jwt, RawClaims, Secrets, decoded, expired, not_valid}
use askit_backend.Models.{Db, Time, User}
use askit_backend.Prelude.{
  Option, String, if◌then◌else◌, is_empty, nat_eq, none, not, some, string_eq, ℕ, ◌*◌, ◌+◌, ◌==◌,
}
use askit_backend.Reading.{fail_if, require, ◌>>=◌, ◌>>◌}
use askit_backend.Users.{get_user_by_id}

pub record JwtPayload : Type 0 where
  pub sub : String
  pub type : String
  pub ver : ℕ
  pub jti : String
  pub iat : ℕ
  pub exp : ℕ

abbrev pub access_token_lifetime : ℕ
access_token_lifetime = 3600

abbrev pub refresh_token_lifetime : ℕ
refresh_token_lifetime = 604800

-- `raw.get("ver", 0)`
abbrev pub or_zero : Option ℕ → ℕ
or_zero none = 0
or_zero (some n) = n

abbrev pub or_blank : Option String → String
or_blank none = ""
or_blank (some text) = text

module _ ⦃jwt : Jwt⦄ ⦃secrets : Secrets⦄ where
  abbrev pub create_token : Time → String → String → String → String → ℕ → ℕ → jwt.Token
  create_token now jti subject token_type key expires_in version =
      jwt.encode
        (record {
          sub = subject;
          type = token_type;
          ver = version;
          jti = jti;
          iat = now;
          exp = now + expires_in * 1000000;
        })
        key

  abbrev pub create_access_token : Time → String → String → ℕ → jwt.Token
  create_access_token now jti user_id version =
      create_token now jti user_id "access" secrets.access_secret access_token_lifetime version

  abbrev pub create_refresh_token : Time → String → String → ℕ → jwt.Token
  create_refresh_token now jti user_id version =
      create_token now jti user_id "refresh" secrets.refresh_secret refresh_token_lifetime version

  -- The claims that it reads by `[…]` raise a `KeyError` where they are missing.
  abbrev pub read_claims : String → RawClaims → Result JwtPayload
  read_claims expected_type raw = do
    fail_if (not (or_blank raw.type == expected_type)) invalid_token
    sub ← require raw.sub key_error
    type ← require raw.type key_error
    iat ← require raw.iat key_error
    exp ← require raw.exp key_error
    ok (record {
      sub = sub;
      type = type;
      ver = or_zero raw.ver;
      jti = or_blank raw.jti;
      iat = iat;
      exp = exp;
    })

  unfoldable pub decode : Time → jwt.Token → String → String → Result JwtPayload
  decode now token key expected_type = elim (jwt.decode now token key) [
    | expired ↦ err token_expired
    | not_valid ↦ err invalid_token
    | decoded raw ↦ read_claims expected_type raw
  ]

  abbrev pub verify_access_token : Time → jwt.Token → Result JwtPayload
  verify_access_token now token = decode now token secrets.access_secret "access"

  abbrev pub verify_refresh_token : Time → jwt.Token → Result JwtPayload
  verify_refresh_token now token = decode now token secrets.refresh_secret "refresh"

  module _ ⦃texts : Texts⦄ where
    -- The `access_token` cookie, where an empty one is none.
    unfoldable pub get_current_user : Time → Option jwt.Token → Db → Result User
    get_current_user now cookie db = do
      token ← require cookie not_authenticated
      payload ← verify_access_token now token
      fail_if (is_empty payload.sub) not_authenticated
      user_id ← require (texts.parse_uuid payload.sub) not_authenticated
      user ← require (get_user_by_id db user_id) not_authenticated
      fail_if (not (payload.ver == user.token_version)) token_revoked
      fail_if (not user.is_active) user_inactive
      ok user

    abbrev optional_user : Db → JwtPayload → Result (Option User)
    optional_user db payload =
        if is_empty payload.sub then ok none else elim (texts.parse_uuid payload.sub) [
          | none ↦ ok none
          | some user_id ↦ elim (get_user_by_id db user_id) [
            | none ↦ ok none
            | some user ↦
                if not user.is_active
                then ok none
                else if not (payload.ver == user.token_version)
                then ok none
                else ok (some user)
          ]
        ]

    -- `except (TokenExpiredError, InvalidTokenError, ValueError)`
    abbrev none_if_refused : Error → Result (Option User)
    none_if_refused token_expired = ok none
    none_if_refused invalid_token = ok none
    none_if_refused value_error = ok none
    none_if_refused e = err e

    unfoldable pub get_optional_current_user : Time → Option jwt.Token → Db → Result (Option User)
    get_optional_current_user now none db = ok none
    get_optional_current_user now (some token) db = elim (verify_access_token now token) [
      | ok payload ↦ optional_user db payload
      | err e ↦ none_if_refused e
    ]
