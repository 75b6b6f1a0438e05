-- ===== src/Auth/AutoRefresh.antt =====
-- `AutoRefreshMiddleware` of app/core/middleware.py.
use askit_backend.Auth.{
  JwtPayload, access_token_lifetime, create_access_token, get_current_user, verify_access_token,
  verify_refresh_token,
}
use askit_backend.Auth.Checks.{LetIn, decode-create_token, get_current_user_done}
use askit_backend.Auth.Sessions.{is_refresh_token_blacklisted}
use askit_backend.Exec.{Error, Result, Result-cases, err, invalid_token, ok, token_expired}
use askit_backend.External.{Redis, Texts}
use askit_backend.External.Tokens.{Jwt, Secrets}
use askit_backend.Game.Play.{State}
use askit_backend.Models.{Db, Time, User}
use askit_backend.Prelude.{
  Option, String, ap, arith, false, if◌then◌else◌, inl, inr, none, refl, some, sym, true, ◌∙◌, ◌≡◌,
}
use askit_backend.Users.Accounts.{get_user_by_id_own}

-- The `access_token` cookie that a request goes on with, and the one that its response sets.
pub record Forwarded (Token : Type 0) : Type 0 where
  pub access_token : Option Token
  pub new_access_token : Option Token

module _ ⦃redis : Redis⦄ ⦃jwt : Jwt⦄ ⦃secrets : Secrets⦄ where
  abbrev unchanged : Option jwt.Token → Forwarded jwt.Token
  unchanged access = record { access_token = access; new_access_token = none }

  abbrev renewed : jwt.Token → Forwarded jwt.Token
  renewed token = record { access_token = some token; new_access_token = some token }

  -- Every exception of the attempt is caught, and the request goes on as it was.
  abbrev try_refresh :
      Time → String → Option jwt.Token → Option jwt.Token → State → Forwarded jwt.Token
  try_refresh now jti access none w = unchanged access
  try_refresh now jti access (some refresh_token) w =
      if is_refresh_token_blacklisted refresh_token w
      then unchanged access
      else elim (verify_refresh_token now refresh_token) [
        | ok p ↦ renewed (create_access_token now jti p.sub p.ver)
        | err e ↦ unchanged access
      ]

  abbrev after_failure :
      Time
      → String
      → Option jwt.Token
      → Option jwt.Token
      → State
      → Error
      → Result (Forwarded jwt.Token)
  after_failure now jti access refresh_token w token_expired =
      ok (try_refresh now jti access refresh_token w)
  after_failure now jti access refresh_token w invalid_token = ok (unchanged access)
  after_failure now jti access refresh_token w e = err e

  unfoldable pub auto_refresh :
      Time → String → Option jwt.Token → Option jwt.Token → State → Result (Forwarded jwt.Token)
  auto_refresh now jti none refresh_token w = ok (unchanged none)
  auto_refresh now jti (some token) refresh_token w = elim (verify_access_token now token) [
    | ok p ↦ ok (unchanged (some token))
    | err e ↦ after_failure now jti (some token) refresh_token w e
  ]

  -- Where a new access token is made, the old one has expired, and the refresh token is on no
  -- denylist and has not expired.
  pub auto_refresh_done :
      (now : Time) (jti : String) (access refresh_token : Option jwt.Token) (w : State)
      {token : jwt.Token} {cookie : Option jwt.Token}
      → auto_refresh now jti access refresh_token w
        ≡ ok (record { access_token = cookie; new_access_token = some token })
      → (old renewal : jwt.Token) × (p : JwtPayload) × (access ≡ some old)
        × (refresh_token ≡ some renewal)
        × (verify_access_token now old ≡ err token_expired)
        × (is_refresh_token_blacklisted renewal w ≡ false)
        × (verify_refresh_token now renewal ≡ ok p)
        × (cookie ≡ some token)
        × (token ≡ create_access_token now jti p.sub p.ver)
  unfolding auto_refresh
  auto_refresh_done now jti none refresh_token w h = absurd (ground (arith, h))
  auto_refresh_done now jti (some old) none w h = absurd (ground (arith, h))
  auto_refresh_done now jti (some old) (some renewal) w h =
      elim (Result-cases (verify_refresh_token now renewal)) [
        | inr (e, failed) ↦ absurd (ground (arith, h, failed))
        | inl (p, e) ↦ (
          old,
          renewal,
          p,
          refl,
          refl,
          ground (arith, h, e),
          ground (arith, h, e),
          e,
          ground (arith, h, e),
          ground (arith, h, e),
        )
      ]

  module _ ⦃texts : Texts⦄ where
    same_user :
        (now : Time) (jti : String) (p : JwtPayload) {token : jwt.Token} {db : Db} {user : User}
        → token ≡ create_access_token now jti p.sub p.ver
        → LetIn now token db user
        → (texts.parse_uuid p.sub ≡ some user.id) × (p.ver ≡ user.token_version)
    same_user now jti p {token} {db} {user} made seen =
        let read =
          decode-create_token now now jti p.sub "access" secrets.access_secret access_token_lifetime
            p.ver (omega arith) in
        let read' = sym (ap (verify_access_token now) made) ∙ seen.verified in
        let own = get_user_by_id_own db seen.user_id seen.found in
        let sub : p.sub ≡ seen.claims.sub = ground (arith, read, read') in
        (
          ap texts.parse_uuid sub ∙ seen.parsed ∙ ap some (sym own),
          ground (arith, read, read', seen.current),
        )

    -- Whoever a request is let in as by an access token that was renewed holds a refresh token that
    -- names this user at the user's present version and is on no denylist, and is active.
    pub auto_refresh-get_current_user :
        (now : Time) (jti : String) (access refresh_token : Option jwt.Token) (w : State)
        {token : jwt.Token} {cookie : Option jwt.Token} {user : User}
        → auto_refresh now jti access refresh_token w
          ≡ ok (record { access_token = cookie; new_access_token = some token })
        → get_current_user now cookie w.db ≡ ok user
        → (renewal : jwt.Token) × (p : JwtPayload) × (refresh_token ≡ some renewal)
          × (verify_refresh_token now renewal ≡ ok p)
          × (is_refresh_token_blacklisted renewal w ≡ false)
          × (texts.parse_uuid p.sub ≡ some user.id)
          × (p.ver ≡ user.token_version)
          × (user.is_active ≡ true)
    auto_refresh-get_current_user now jti access refresh_token w {token} {cookie} {user} h k =
        let (old, renewal, p, _, given, _, unspent, read, forwarded, made) =
          auto_refresh_done now jti access refresh_token w h in
        let seen : LetIn now token w.db user =
          get_current_user_done now token w.db
            (ap (λ c. get_current_user now c w.db) (sym forwarded) ∙ k) in
        let (named, current) = same_user now jti p made seen in
        (renewal, p, given, read, unspent, named, current, seen.active)
