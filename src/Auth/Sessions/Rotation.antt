-- ===== src/Auth/Sessions/Rotation.antt =====
-- Refresh tokens, which work once.
use askit_backend.Auth.{
  JwtPayload, create_refresh_token, refresh_token_lifetime, verify_refresh_token,
}
use askit_backend.Auth.Checks.{decode-create_token, is_expired}
use askit_backend.Auth.Sessions.{
  Cookies, Request, blacklist_key, is_refresh_token_blacklisted, issue, logout, refresh,
}
use askit_backend.Exec.{Result-cases, err, ok, token_expired, token_revoked}
use askit_backend.External.{Redis, Texts, get-set_same, word}
use askit_backend.External.Tokens.{Jwt, Secrets, seconds}
use askit_backend.Game.Play.{State}
use askit_backend.Models.{Time, User}
use askit_backend.Prelude.{
  Bool-cases, Option-cases, String, ap, arith, false, inl, inr, leb, nat_eq, refl, some, string_eq,
  subst, sym, true, ℕ, ◌*◌, ◌+◌, ◌<◌, ◌==◌, ◌∙◌, ◌≡◌, ◌≤◌, ◌⊎◌,
}
use askit_backend.Users.{get_user_by_id}
use askit_backend.Users.Accounts.{get_user_by_id_own}

-- The second of the expiry has come once its time has.
expiry_second :
    (issued now : Time)
    → issued + 604800 * 1000000 ≤ now
    → seconds (issued + 604800 * 1000000) * 1000000 ≤ now
expiry_second issued now h = omega (arith, h)

module _ ⦃redis : Redis⦄ ⦃jwt : Jwt⦄ where
  abbrev pub IsSpent : jwt.Token → State → Type 0
  IsSpent token w = is_refresh_token_blacklisted token w ≡ true

  abbrev pub spend : jwt.Token → State → State
  spend token w = record w {
    redis = redis.set (blacklist_key token) (word "1") refresh_token_lifetime w.redis;
  }

  -- The state when so many seconds have gone by.
  abbrev pub passed : ℕ → State → State
  passed t w = record w { redis = redis.pass t w.redis }

  IsSpent-passed :
      (token : jwt.Token) (w : State) (t : ℕ)
      → t < refresh_token_lifetime
      → IsSpent token (passed t (spend token w))
  IsSpent-passed token w t h =
      rw (redis.get-pass_set t refresh_token_lifetime (blacklist_key token) (word "1") w.redis h)
        refl

  spend_spends : (token : jwt.Token) (w : State) → IsSpent token (spend token w)
  spend_spends token w =
      ground (arith, get-set_same (blacklist_key token) (word "1") refresh_token_lifetime w.redis)

  module _ ⦃secrets : Secrets⦄ ⦃texts : Texts⦄ where
    pub refresh_spent :
        (request : Request) (token : jwt.Token) (w : State)
        → IsSpent token w
        → refresh request (some token) w ≡ (err token_revoked, w)
    unfolding refresh
    refresh_spent request token w h = ground (arith, h)

    -- A token that a user has logged out with no longer refreshes.
    pub refresh-logout :
        (request : Request) (token : jwt.Token) (w : State)
        → refresh request (some token) (logout (some token) w).1
          ≡ (err token_revoked, (logout (some token) w).1)
    unfolding logout
    refresh-logout request token w =
        refresh_spent request token (spend token w) (spend_spends token w)

    pub refresh_done :
        (request : Request) (token : jwt.Token) (w : State) {cookies : Cookies} {w' : State}
        → refresh request (some token) w ≡ (ok cookies, w')
        → (p : JwtPayload) × (user : User) × (is_refresh_token_blacklisted token w ≡ false)
          × (verify_refresh_token request.now token ≡ ok p)
          × (texts.parse_uuid p.sub ≡ some user.id)
          × (get_user_by_id w.db user.id ≡ some user)
          × (user.is_active ≡ true)
          × ((p.ver == user.token_version) ≡ true)
          × (cookies ≡ issue request user.id user.token_version)
          × (w' ≡ spend token w)
    unfolding refresh
    refresh_done request token w h = elim (Result-cases (verify_refresh_token request.now token)) [
      | inr (e, failed) ↦ absurd (ground (arith, h, failed))
      | inl (p, e) ↦ elim (Option-cases (texts.parse_uuid p.sub)) [
        | inl failed ↦ absurd (ground (arith, h, e, failed))
        | inr (user_id, e') ↦ elim (Option-cases (get_user_by_id w.db user_id)) [
          | inl missing ↦ absurd (ground (arith, h, e, e', missing))
          | inr (user, found) ↦
              let own = get_user_by_id_own w.db user_id found in
              (
                p,
                user,
                ground (arith, h),
                e,
                e' ∙ ap some (sym own),
                ap (get_user_by_id w.db) own ∙ found,
                ground (arith, h, e, e', found),
                ground (arith, h, e, e', found),
                ground (arith, h, e, e', found),
                ground (arith, h, e, e', found),
              )
        ]
      ]
    ]

    refresh_expired :
        (issued : Time) (jti subject : String) (version : ℕ) (request : Request) (w : State)
        → issued + 604800 * 1000000 ≤ request.now
        → is_refresh_token_blacklisted (create_refresh_token issued jti subject version) w ≡ false
        → refresh request (some (create_refresh_token issued jti subject version)) w
          ≡ (err token_expired, w)
    unfolding refresh
    refresh_expired issued jti subject version request w le unspent =
        let old : is_expired issued refresh_token_lifetime request.now ≡ true =
          ground (arith, expiry_second issued request.now le) in
        let read =
          decode-create_token issued request.now jti subject "refresh" secrets.refresh_secret
            refresh_token_lifetime version (omega (arith, le)) in
        ground (arith, unspent, read, old)

    -- A refresh token of the service works once. Used again, any number of seconds later, it is
    -- refused and nothing changes: as one that is revoked, or, once its lifetime of a week has gone
    -- by and the denylist may have dropped it, as one that is revoked or has expired.
    pub refresh_once :
        (issued : Time) (jti subject : String) (version : ℕ) (request later : Request) (t : ℕ)
        (w : State) {cookies : Cookies} {w' : State}
        → issued ≤ request.now
        → request.now + t * 1000000 ≤ later.now
        → refresh request (some (create_refresh_token issued jti subject version)) w
          ≡ (ok cookies, w')
        → (refresh later (some (create_refresh_token issued jti subject version)) (passed t w')
            ≡ (err token_revoked, passed t w'))
          ⊎ ((604800 ≤ t)
              × (refresh later
                    (some (create_refresh_token issued jti subject version))
                    (passed t w')
                  ≡ (err token_expired, passed t w')))
    refresh_once issued jti subject version request later t w {cookies} {w'} made after h =
        let token = create_refresh_token issued jti subject version in
        let (p, user, unspent, read, parsed, found, active, current, issued', wrote) =
          refresh_done request token w h in
        elim (Bool-cases (is_refresh_token_blacklisted token (passed t w'))) [
          | inl e ↦ inl (refresh_spent later token (passed t w') e)
          | inr e ↦ elim (Bool-cases (leb 604800 t)) [
            | inr soon ↦
                let kept =
                  subst (λ v. IsSpent token (passed t v)) (sym wrote)
                    (IsSpent-passed token w t (ground (arith, soon))) in
                absurd (ground (arith, e, kept))
            | inl long ↦
                let le : 604800 ≤ t = ground (arith, long) in
                inr (
                  le,
                  refresh_expired issued jti subject version later (passed t w')
                      (omega (arith, le, made, after)) e,
                )
          ]
        ]
