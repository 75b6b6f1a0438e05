-- ===== src/Auth/Sessions/Lockout.antt =====
-- Accounts that are locked after failed logins.
use askit_backend.Auth.Sessions.{
  Cookies, Request, auth_login, issue, login, login_attempts_key, login_lockout_ttl,
  max_login_attempts, record_failed_login, verified,
}
use askit_backend.Exec.{account_locked, err, invalid_credentials, ok}
use askit_backend.External.{Key, Redis, Texts, count, counter, key_beq_refl, login_attempts}
use askit_backend.External.Tokens.{Hashes, Jwt, Secrets}
use askit_backend.Game.Play.{State}
use askit_backend.Models.{Db, User}
use askit_backend.Prelude.{
  All, Bool-cases, List, Option, Option-cases, String, [], ap, arith, false, inl, inr, leb, length,
  nat_eq, none, refl, some, string_eq, subst, suc, sym, true, ℕ, ◌+◌, ◌<◌, ◌==◌, ◌∙◌, ◌∷◌, ◌≡◌, ◌≤◌,
  ◌⊎◌,
}
use askit_backend.Users.{UserOut, get_user_by_email, mark_login, write_user}

module _ ⦃redis : Redis⦄ ⦃texts : Texts⦄ ⦃jwt : Jwt⦄ ⦃secrets : Secrets⦄ ⦃hashes : Hashes⦄ where
  pub record Attempt : Type 0 where
    pub request : Request
    pub email : String
    pub password : String

  abbrev try : Attempt → State → State
  try a w = (login a.request a.email a.password w).1

  abbrev pub try_all : List Attempt → State → State
  try_all [] w = w
  try_all (a ∷ attempts) w = try_all attempts (try a w)

  -- The failures that are counted for an address.
  abbrev pub failures : String → State → Option ℕ
  failures email w = counter (redis.get w.redis (login_attempts (texts.lower (texts.strip email))))

  abbrev DoesNotKnow : String → Option User → Type 0
  DoesNotKnow password none = Unit
  DoesNotKnow password (some user) = hashes.verify password user.password_hash ≡ false

  unverified :
      (password : String) (o : Option User) → DoesNotKnow password o → verified password o ≡ false
  unverified password none h = refl
  unverified password (some user) h = h

  -- An attempt under the same address, up to letter case and spaces around it, that does not know the
  -- password of the user who is found.
  abbrev pub IsWrong : String → Db → Attempt → Type 0
  IsWrong email db a =
      (texts.lower (texts.strip a.email) ≡ texts.lower (texts.strip email))
      × DoesNotKnow a.password (get_user_by_email db a.email)

  pub locked :
      (request : Request) (email password : String) (w : State) (n : ℕ)
      → failures email w ≡ some n
      → max_login_attempts ≤ n
      → login request email password w ≡ (err account_locked, w)
  unfolding login
  locked request email password w n h le = ground (arith, h, le)

  incremented :
      (k : Key) (n : ℕ) (s : redis.Store)
      → counter (redis.get s k) ≡ some n
      → (redis.get (redis.incr k s) k ≡ some (count (suc n)))
        × (redis.get (redis.expire k login_lockout_ttl (redis.incr k s)) k ≡ some (count (suc n)))
  incremented k n s h =
      let up : redis.get (redis.incr k s) k ≡ some (count (suc n)) =
        redis.get-incr k k n s h ∙ (rw (key_beq_refl k) refl) in
      (up, redis.get-expire k k 899 (redis.incr k s) ∙ up)

  record_failed_login_lem :
      (email : String) (w : State) (n : ℕ)
      → failures email w ≡ some n
      → ((record_failed_login email w).0 ≡ ok tt)
        × (failures email (record_failed_login email w).1 ≡ some (suc n))
        × ((record_failed_login email w).1.db ≡ w.db)
  record_failed_login_lem email w n h =
      let (up, kept) = incremented (login_attempts_key email) n w.redis h in
      elim (Bool-cases (suc n == 1)) [
        | inl e ↦ ground (arith, up, e, kept)
        | inr e ↦ ground (arith, up, e)
      ]

  auth_login_refused :
      (request : Request) (email password : String) (db : Db)
      → verified password (get_user_by_email db email) ≡ false
      → auth_login request email password db ≡ (err invalid_credentials, db)
  auth_login_refused request email password db h = rw (auth_login, h) refl

  -- A wrong password is counted, up to the limit.
  login_wrong :
      (request : Request) (email password : String) (w : State) (n : ℕ)
      → failures email w ≡ some n
      → n < max_login_attempts
      → verified password (get_user_by_email w.db email) ≡ false
      → login request email password w ≡ (err invalid_credentials, (record_failed_login email w).1)
  unfolding login
  login_wrong request email password w n h lt wrong =
      let below : leb max_login_attempts n ≡ false = ground (arith, lt) in
      ground (
        arith,
        h,
        below,
        auth_login_refused request email password w.db wrong,
        (record_failed_login_lem email w n h).0,
      )

  counted :
      (a : Attempt) (email : String) (w : State) (n : ℕ)
      → IsWrong email w.db a
      → failures email w ≡ some n
      → n < max_login_attempts
      → (failures email (try a w) ≡ some (suc n)) × ((try a w).db ≡ w.db)
  counted a email w n (same, wrong) h lt =
      let h' : failures a.email w ≡ some n = rw same h in
      let (_, up, kept) = record_failed_login_lem a.email w n h' in
      let e =
        login_wrong a.request a.email a.password w n h' lt
          (unverified a.password (get_user_by_email w.db a.email) wrong) in
      (ground (arith, e, up, same), ground (arith, e, kept))

  tried :
      (a : Attempt) (email : String) (w : State) (n : ℕ)
      → IsWrong email w.db a
      → failures email w ≡ some n
      → (m : ℕ) × (failures email (try a w) ≡ some m)
        × ((try a w).db ≡ w.db)
        × ((n < max_login_attempts × (m ≡ suc n)) ⊎ ((max_login_attempts ≤ n) × (m ≡ n)))
  tried a email w n wrong h = elim (Bool-cases (leb max_login_attempts n)) [
    | inr e ↦
        let below : n < max_login_attempts = ground (arith, e) in
        let (up, kept) = counted a email w n wrong h below in (suc n, up, kept, inl (below, refl))
    | inl e ↦
        let full : max_login_attempts ≤ n = ground (arith, e) in
        let same : try a w ≡ w =
          ap (λ out. out.1) (locked a.request a.email a.password w n (rw wrong.0 h) full) in
        (n, ap (failures email) same ∙ h, ap (λ (v : State). v.db) same, inr (full, refl))
  ]

  tried_each :
      (attempts : List Attempt) (email : String) (w : State) (n : ℕ)
      → All (IsWrong email w.db) attempts
      → failures email w ≡ some n
      → max_login_attempts ≤ n + length attempts
      → (m : ℕ) × (failures email (try_all attempts w) ≡ some m) × (max_login_attempts ≤ m)
  tried_each [] email w n wrong h le = (n, h, omega (arith, le))
  tried_each (a ∷ attempts) email w n wrong h le =
      let (m, h', kept, step) = tried a email w n wrong.0 h in
      tried_each attempts email (try a w) m
        (subst (λ db. All (IsWrong email db) attempts) (sym kept) wrong.1) h'
        (elim step [ inl s ↦ omega (arith, s.1, le) | inr s ↦ omega (arith, s.0, s.1, le) ])

  -- After ten attempts with a wrong password, under an address in whatever letter case and
  -- with whatever spaces around it, a login under it is refused with any password, and it changes
  -- nothing; as long as the counter is kept.
  pub login-try_all :
      (attempts : List Attempt) (request : Request) (email password : String) (w : State) (n : ℕ)
      → failures email w ≡ some n
      → All (IsWrong email w.db) attempts
      → max_login_attempts ≤ length attempts
      → login request email password (try_all attempts w) ≡ (err account_locked, try_all attempts w)
  login-try_all attempts request email password w n h wrong le =
      let (m, h', full) = tried_each attempts email w n wrong h (omega (arith, le)) in
      locked request email password (try_all attempts w) m h' full

  -- A login that succeeds knows the password of an active user, and takes back the count of failures.
  pub login_done :
      (request : Request) (email password : String) (w : State) {out : UserOut} {cookies : Cookies}
      {w' : State}
      → login request email password w ≡ (ok (out, cookies), w')
      → (user : User) × (get_user_by_email w.db email ≡ some user)
        × (hashes.verify password user.password_hash ≡ true)
        × (user.is_active ≡ true)
        × (cookies ≡ issue request user.id user.token_version)
        × (w'.db ≡ write_user user.id (mark_login request.now) w.db)
        × (failures email w' ≡ some 0)
  unfolding login
  login_done request email password w h = elim (Option-cases (get_user_by_email w.db email)) [
    | inl missing ↦ absurd (ground (arith, h, missing))
    | inr (user, found) ↦ (
      user,
      found,
      ground (arith, h, found),
      ground (arith, h, found),
      ground (arith, h, found),
      ground (arith, h, found),
      ground (
        arith,
        h,
        found,
        redis.get-delete (login_attempts_key email) (login_attempts_key email) w.redis,
        key_beq_refl (login_attempts_key email),
      ),
    )
  ]
