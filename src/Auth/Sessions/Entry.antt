-- ===== src/Auth/Sessions/Entry.antt =====
-- How users get in: by a login, and by a registration before it.
use askit_backend.Auth.{access_token_lifetime, create_access_token, get_current_user}
use askit_backend.Auth.Checks.{is_expired}
use askit_backend.Auth.Sessions.{
  Cookies, Request, issue, login, login_attempts_key, max_login_attempts, register,
  set_auth_cookies,
}
use askit_backend.Auth.Sessions.Lockout.{failures, login_done}
use askit_backend.Auth.Sessions.Revocation.{issued_works}
use askit_backend.Exec.{ok}
use askit_backend.External.{Redis, Texts, counter}
use askit_backend.External.Tokens.{Hashes, Jwt, Secrets}
use askit_backend.Game.Answers.Check.{unique}
use askit_backend.Game.Play.{State}
use askit_backend.Models.{Time, User, Uuid}
use askit_backend.Prelude.{
  String, [], ap, arith, beq_refl, false, find?, find?-append, find?-none-any, leb, nat_eq, none,
  refl, some, some-injective, string_eq, subst, sym, true, ℕ, ◌++◌, ◌<◌, ◌==◌, ◌∙◌, ◌∷◌, ◌≡◌, ◌≤◌,
}
use askit_backend.Users.{
  UserOut, create_user, get_user_by_email, get_user_by_id, mark_login, new_user, user_to_response,
  write_user,
}
use askit_backend.Users.Accounts.{UserIdsUnique, get_user_by_email-id, get_user_by_id-write_user}

module _ ⦃redis : Redis⦄ ⦃texts : Texts⦄ ⦃jwt : Jwt⦄ ⦃secrets : Secrets⦄ ⦃hashes : Hashes⦄ where
  -- The access token of a login lets the user of the address in until it expires, where no two users
  -- share an id.
  pub get_current_user-login :
      (request : Request) (email password : String) (w : State) {out : UserOut}
      {access fresh : jwt.Token} {w' : State} {user : User} (now : Time)
      → UserIdsUnique w.db.users
      → get_user_by_email w.db email ≡ some user
      → login request email password w ≡ (ok (out, set_auth_cookies access fresh), w')
      → request.now ≤ now
      → is_expired request.now access_token_lifetime now ≡ false
      → get_current_user now (some access) w'.db ≡ ok (mark_login request.now user)
  get_current_user-login request email password w {access = access} {w' = w'} {user = user} now
        unique known h le alive =
      let (u, found, knows, active, issued, wrote, reset) = login_done request email password w h in
      let same : u ≡ user = some-injective _ _ (sym found ∙ known) in
      let made : access
          ≡ create_access_token request.now request.access_jti (texts.str user.id)
              user.token_version =
        ground (arith, issued, same) in
      let wrote' : w'.db ≡ write_user user.id (mark_login request.now) w.db =
        subst (λ (v : User). w'.db ≡ write_user v.id (mark_login request.now) w.db) same wrote in
      issued_works request.now now request.access_jti (mark_login request.now user) w'.db made le
        alive
        (ap (λ db. get_user_by_id db user.id) wrote'
          ∙ get_user_by_id-write_user w.db user.id (mark_login request.now)
              (get_user_by_email-id w.db email unique known) refl)
        (subst (λ (v : User). v.is_active ≡ true) same active)

  login_right :
      (request : Request) (email password : String) (w : State) (n : ℕ) {user : User}
      → failures email w ≡ some n
      → n < max_login_attempts
      → get_user_by_email w.db email ≡ some user
      → hashes.verify password user.password_hash ≡ true
      → user.is_active ≡ true
      → (login request email password w).0
        ≡ ok (user_to_response user, issue request user.id user.token_version)
  unfolding login
  login_right request email password w n {user} h lt found knows active =
      let below : leb max_login_attempts n ≡ false = ground (arith, lt) in
      ground (arith, h, below, found, knows, active)

  register_done :
      (request : Request) (user_id : Uuid) (salt : ℕ) (username email password : String) (w : State)
      {out : UserOut} {cookies : Cookies} {w' : State}
      → register request user_id salt username email password w ≡ (ok (out, cookies), w')
      → (out ≡ user_to_response (new_user user_id salt request.now username email password))
        × (get_user_by_email w.db email ≡ none)
        × (w'.redis ≡ w.redis)
        × (w'.db.users
            ≡ w.db.users ++ new_user user_id salt request.now username email password ∷ [])
  unfolding register create_user
  register_done request user_id salt username email password w h =
      (ground (arith, h), ground (arith, h), ground (arith, h), ground (arith, h))

  -- Whoever has registered can log in with the same address and password, while fewer than ten
  -- failures are counted for it.
  pub login-register :
      (request later : Request) (user_id : Uuid) (salt : ℕ) (username email password : String)
      (w : State) {out : UserOut} {cookies : Cookies} {w' : State} (n : ℕ)
      → register request user_id salt username email password w ≡ (ok (out, cookies), w')
      → failures email w ≡ some n
      → n < max_login_attempts
      → (login later email password w').0 ≡ ok (out, issue later user_id 0)
  login-register request later user_id salt username email password w {out} {cookies} {w'} n h
        counted lt =
      let (sent_back, absent, kept, wrote) =
        register_done request user_id salt username email password w h in
      let user : User = new_user user_id salt request.now username email password in
      let found : get_user_by_email w'.db email ≡ some user =
        ap (find? (λ (u : User). u.email == email)) wrote
        ∙ find?-append (λ (u : User). u.email == email) w.db.users (user ∷ [])
            (find?-none-any (λ (u : User). u.email == email) w.db.users absent)
        ∙ (rw (beq_refl email) refl) in
      login_right later email password w' n {user = user}
        (ap (λ store. counter (redis.get store (login_attempts_key email))) kept ∙ counted) lt found
        (hashes.verify-hash password salt) refl
      ∙ ap (λ (o : UserOut). ok (o, issue later user_id 0)) (sym sent_back)
