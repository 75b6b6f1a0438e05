-- ===== src/Auth/Sessions/Revocation.antt =====
-- Tokens that stop working when a user changes the password or is deactivated.
use askit_backend.Auth.{
  JwtPayload, access_token_lifetime, create_access_token, get_current_user, verify_refresh_token,
}
use askit_backend.Auth.Checks.{
  get_current_user-create_access_token, get_current_user_done, is_expired,
}
use askit_backend.Auth.Sessions.{
  Cookies, Request, change_password_of, deactivate, is_refresh_token_blacklisted, issue, refresh,
  set_auth_cookies,
}
use askit_backend.Exec.{err, ok, token_revoked}
use askit_backend.External.{Redis, Texts}
use askit_backend.External.Tokens.{Hashes, Jwt, Secrets}
use askit_backend.Game.Play.{State}
use askit_backend.Models.{Db, Time, User}
use askit_backend.Prelude.{
  Bool-cases, Option, String, ap, arith, false, inl, inr, nat_eq, refl, some, string_eq, suc, true,
  ℕ, ◌&&◌, ◌==◌, ◌∙◌, ◌≡◌, ◌≤◌,
}
use askit_backend.Users.{
  change_password, deactivate_account, deactivated, get_user_by_id, with_password, write_user,
}
use askit_backend.Users.Accounts.{get_user_by_id-write_user, get_user_by_id_own}

module _ ⦃jwt : Jwt⦄ ⦃secrets : Secrets⦄ ⦃texts : Texts⦄ where
  -- Whoever was let in by a token is refused once the version has gone up.
  stale :
      (now : Time) (token : jwt.Token) (db : Db) (f : User → User) {user : User}
      → get_current_user now (some token) db ≡ ok user
      → (f user).id ≡ user.id
      → (f user).token_version ≡ suc user.token_version
      → get_current_user now (some token) (write_user user.id f db) ≡ err token_revoked
  unfolding get_current_user
  stale now token db f {user} h keep up =
      let seen = get_current_user_done now token db h in
      let there = get_user_by_id-write_user db seen.user_id f seen.found keep in
      let old : (seen.claims.ver == (f user).token_version) ≡ false =
        ground (arith, seen.current, up) in
      ground (arith, seen.verified, seen.named, seen.parsed, there, old)

  current_found :
      (now : Time) (token : jwt.Token) (db : Db) {user : User}
      → get_current_user now (some token) db ≡ ok user
      → (get_user_by_id db user.id ≡ some user) × (user.is_active ≡ true)
  current_found now token db {user} h =
      let seen = get_current_user_done now token db h in
      (
        ap (get_user_by_id db) (get_user_by_id_own db seen.user_id seen.found) ∙ seen.found,
        seen.active,
      )

  -- A token at the user's version lets an active user in.
  pub issued_works :
      (created now : Time) (jti : String) (user : User) (db : Db) {token : jwt.Token}
      → token ≡ create_access_token created jti (texts.str user.id) user.token_version
      → created ≤ now
      → is_expired created access_token_lifetime now ≡ false
      → get_user_by_id db user.id ≡ some user
      → user.is_active ≡ true
      → get_current_user now (some token) db ≡ ok user
  issued_works created now jti user db made le alive found active =
      ap (λ t. get_current_user now (some t) db) made
      ∙ get_current_user-create_access_token created now jti user.id user.token_version db le
      ∙ (ground (arith, alive, found, active))

module _ ⦃redis : Redis⦄ ⦃jwt : Jwt⦄ ⦃secrets : Secrets⦄ ⦃texts : Texts⦄ where
  deactivate_done :
      (request : Request) (cookie : Option jwt.Token) (w : State) {cookies : Cookies} {w' : State}
      {user : User}
      → get_current_user request.now cookie w.db ≡ ok user
      → deactivate request cookie w ≡ (ok cookies, w')
      → w'.db ≡ write_user user.id (deactivated user) w.db
  unfolding deactivate deactivate_account
  deactivate_done request cookie w e h = ground (arith, h, e)

  module _ ⦃hashes : Hashes⦄ where
    change_password_of_done :
        (request : Request) (cookie : Option jwt.Token) (salt : ℕ)
        (current_password next_password : String) (w : State) {cookies : Cookies} {w' : State}
        {user : User}
        → get_current_user request.now cookie w.db ≡ ok user
        → change_password_of request cookie salt current_password next_password w ≡ (ok cookies, w')
        → (hashes.verify current_password user.password_hash ≡ true)
          × (w'.db ≡ write_user user.id (with_password user next_password salt) w.db)
          × (cookies ≡ issue request user.id (suc user.token_version))
    unfolding change_password_of change_password
    change_password_of_done request cookie salt current_password next_password w e h =
        (ground (arith, h, e), ground (arith, h, e), ground (arith, h, e))

  -- Refresh tokens for a user who is inactive, or whose version is another.
  refresh_stale :
      (request : Request) (token : jwt.Token) (w : State) (p : JwtPayload) (user : User)
      → verify_refresh_token request.now token ≡ ok p
      → texts.parse_uuid p.sub ≡ some user.id
      → get_user_by_id w.db user.id ≡ some user
      → (user.is_active && p.ver == user.token_version) ≡ false
      → refresh request (some token) w ≡ (err token_revoked, w)
  unfolding refresh
  refresh_stale request token w p user read parsed found differ =
      elim (Bool-cases (is_refresh_token_blacklisted token w)) [
        | inl spent ↦ ground (arith, spent)
        | inr unspent ↦ elim (Bool-cases user.is_active) [
          | inr inactive ↦ ground (arith, unspent, read, parsed, found, inactive)
          | inl active ↦
              let old : (p.ver == user.token_version) ≡ false = ground (arith, differ, active) in
              ground (arith, unspent, read, parsed, found, active, old)
        ]
      ]

  -- After a user deactivates the account, each token that let this user in is refused, and so is each
  -- refresh token for the user.
  pub deactivate_revokes :
      (request : Request) (cookie : Option jwt.Token) (w : State) {cookies : Cookies} {w' : State}
      {user : User} (now : Time) (token : jwt.Token) (later : Request) (renewal : jwt.Token)
      (p : JwtPayload)
      → get_current_user request.now cookie w.db ≡ ok user
      → deactivate request cookie w ≡ (ok cookies, w')
      → get_current_user now (some token) w.db ≡ ok user
      → verify_refresh_token later.now renewal ≡ ok p
      → texts.parse_uuid p.sub ≡ some user.id
      → (get_current_user now (some token) w'.db ≡ err token_revoked)
        × (refresh later (some renewal) w' ≡ (err token_revoked, w'))
  deactivate_revokes request cookie w {w' = w'} {user = user} now token later renewal p seen h k
        read parsed =
      let wrote = deactivate_done request cookie w seen h in
      (
        ap (get_current_user now (some token)) wrote
            ∙ stale now token w.db (deactivated user) k refl refl,
        refresh_stale later renewal w' p (deactivated user user) read parsed
            (ap (λ db. get_user_by_id db user.id) wrote
              ∙ get_user_by_id-write_user w.db user.id (deactivated user)
                  (current_found now token w.db k).0 refl)
            refl,
      )

  module _ ⦃hashes : Hashes⦄ where
    -- A user who changes the password knows the old one. Then each token that let this user in is
    -- refused, and so is each refresh token of the user's old version.
    pub change_password_of_revokes :
        (request : Request) (cookie : Option jwt.Token) (salt : ℕ)
        (current_password next_password : String) (w : State) {cookies : Cookies} {w' : State}
        {user : User} (now : Time) (token : jwt.Token) (later : Request) (renewal : jwt.Token)
        (p : JwtPayload)
        → get_current_user request.now cookie w.db ≡ ok user
        → change_password_of request cookie salt current_password next_password w ≡ (ok cookies, w')
        → get_current_user now (some token) w.db ≡ ok user
        → verify_refresh_token later.now renewal ≡ ok p
        → texts.parse_uuid p.sub ≡ some user.id
        → p.ver ≡ user.token_version
        → (hashes.verify current_password user.password_hash ≡ true)
          × (get_current_user now (some token) w'.db ≡ err token_revoked)
          × (refresh later (some renewal) w' ≡ (err token_revoked, w'))
    change_password_of_revokes request cookie salt current_password next_password w {w' = w'}
          {user = user} now token later renewal p seen h k read parsed old =
        let (knows, wrote, issued) =
          change_password_of_done request cookie salt current_password next_password w seen h in
        let f : User → User = with_password user next_password salt in
        (
          knows,
          ap (get_current_user now (some token)) wrote ∙ stale now token w.db f k refl refl,
          refresh_stale later renewal w' p (f user) read parsed
              (ap (λ db. get_user_by_id db user.id) wrote
                ∙ get_user_by_id-write_user w.db user.id f (current_found now token w.db k).0 refl)
              (ground (arith, old)),
        )

    -- The tokens that a change of password issues let the user in until they expire.
    pub change_password_of_issues :
        (request : Request) (token : jwt.Token) (salt : ℕ) (current_password next_password : String)
        (w : State) {access fresh : jwt.Token} {w' : State} {user : User} (now : Time)
        → get_current_user request.now (some token) w.db ≡ ok user
        → change_password_of request (some token) salt current_password next_password w
          ≡ (ok (set_auth_cookies access fresh), w')
        → request.now ≤ now
        → is_expired request.now access_token_lifetime now ≡ false
        → get_current_user now (some access) w'.db ≡ ok (with_password user next_password salt user)
    change_password_of_issues request token salt current_password next_password w {access} {w' = w'}
          {user = user} now seen h le alive =
        let (knows, wrote, issued) =
          change_password_of_done request (some token) salt current_password next_password w seen
            h in
        let f : User → User = with_password user next_password salt in
        let made : access
            ≡ create_access_token request.now request.access_jti (texts.str user.id)
                (suc user.token_version) =
          ground (arith, issued) in
        let (found, active) = current_found request.now token w.db seen in
        issued_works request.now now request.access_jti (f user) w'.db made le alive
          (ap (λ db. get_user_by_id db user.id) wrote
            ∙ get_user_by_id-write_user w.db user.id f found refl)
          active
