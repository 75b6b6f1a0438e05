-- ===== src/Auth/Checks.antt =====
-- What the checks of a token come to.
use askit_backend.Auth.{
  JwtPayload, access_token_lifetime, create_access_token, create_token, decode, get_current_user,
  get_optional_current_user, read_claims, verify_access_token,
}
use askit_backend.Exec.{
  Error, Result, Result-cases, err, invalid_token, key_error, not_authenticated, ok, token_expired,
  token_revoked, user_inactive,
}
use askit_backend.External.{Texts}
use askit_backend.External.Tokens.{
  Decoded, Jwt, RawClaims, Secrets, decoded, expired, not_valid, seconds,
}
use askit_backend.Models.{Db, Time, User, Uuid}
use askit_backend.Prelude.{
  Bool, Bool-cases, Option, Option-cases, String, arith, beq_refl, false, if◌then◌else◌, inl, inr,
  is_empty, leb, nat_eq, none, not, refl, some, string_eq, true, ℕ, ◌*◌, ◌+◌, ◌==◌, ◌≡◌, ◌≤◌, ◌⊎◌,
}
use askit_backend.Users.{get_user_by_id}

module _ ⦃jwt : Jwt⦄ ⦃secrets : Secrets⦄ ⦃texts : Texts⦄ where
  -- The payload of a token that the service has created.
  abbrev pub payload_of : String → Time → String → String → ℕ → ℕ → JwtPayload
  payload_of token_type now jti subject version expires_in = record {
    sub = subject;
    type = token_type;
    ver = version;
    jti = jti;
    iat = seconds now;
    exp = seconds (now + expires_in * 1000000);
  }

  -- The second of its expiry has come.
  abbrev pub is_expired : Time → ℕ → Time → Bool
  is_expired created expires_in now = leb (seconds (created + expires_in * 1000000) * 1000000) now

  pub decode-create_token :
      (created now : Time) (jti subject token_type key : String) (expires_in version : ℕ)
      → created ≤ now
      → decode now
          (create_token created jti subject token_type key expires_in version)
          key
          token_type
        ≡ (if is_expired created expires_in now
            then err token_expired
            else ok (payload_of token_type created jti subject version expires_in))
  unfolding decode
  decode-create_token created now jti subject token_type key expires_in version le = ground (
    arith,
    jwt.decode-encode now
        (record {
          sub = subject;
          type = token_type;
          ver = version;
          jti = jti;
          iat = created;
          exp = created + expires_in * 1000000;
        })
        key le,
    beq_refl token_type,
  )

  -- What is left to check once a token is read.
  abbrev pub check_user : ℕ → Option User → Result User
  check_user version none = err not_authenticated
  check_user version (some user) =
      if not (version == user.token_version)
      then err token_revoked
      else if not user.is_active
      then err user_inactive
      else ok user

  -- A token that the service has created stands for its user as long as it has not expired, the
  -- user's version is the one it was created at, and the user is active.
  pub get_current_user-create_access_token :
      (created now : Time) (jti : String) (user_id : Uuid) (version : ℕ) (db : Db)
      → created ≤ now
      → get_current_user now (some (create_access_token created jti (texts.str user_id) version)) db
        ≡ (if is_expired created access_token_lifetime now
            then err token_expired
            else check_user version (get_user_by_id db user_id))
  unfolding get_current_user
  get_current_user-create_access_token created now jti user_id version db le = ground (
    arith,
    decode-create_token created now jti (texts.str user_id) "access" secrets.access_secret
        access_token_lifetime version le,
    texts.parse_uuid-str user_id,
    texts.str-is_empty user_id,
  )

  -- Of a user that a request is let in as.
  pub record LetIn (now : Time) (token : jwt.Token) (db : Db) (user : User) : Type 0 where
    pub claims : JwtPayload
    pub user_id : Uuid
    pub verified : verify_access_token now token ≡ ok claims
    pub named : is_empty claims.sub ≡ false
    pub parsed : texts.parse_uuid claims.sub ≡ some user_id
    pub found : get_user_by_id db user_id ≡ some user
    pub current : (claims.ver == user.token_version) ≡ true
    pub active : user.is_active ≡ true

  pub get_current_user_done :
      (now : Time) (token : jwt.Token) (db : Db) {user : User}
      → get_current_user now (some token) db ≡ ok user
      → LetIn now token db user
  unfolding get_current_user
  get_current_user_done now token db {user} h =
      elim (Result-cases (verify_access_token now token)) [
        | inr (e, failed) ↦ absurd (ground (arith, h, failed))
        | inl (p, e) ↦ elim (Option-cases (texts.parse_uuid p.sub)) [
          | inl failed ↦ absurd (ground (arith, h, e, failed))
          | inr (user_id, e') ↦ record {
            claims = p;
            user_id = user_id;
            verified = e;
            named = ground (arith, h, e, e');
            parsed = e';
            found = ground (arith, h, e, e');
            current = ground (arith, h, e, e');
            active = ground (arith, h, e, e');
          }
        ]
      ]

  read_claims_fails :
      (expected_type : String) (raw : RawClaims) {e : Error}
      → read_claims expected_type raw ≡ err e
      → (e ≡ invalid_token) ⊎ (e ≡ key_error)
  read_claims_fails expected_type raw h = ground (arith, h)

  decoded_fails :
      (d : Decoded) (expected_type : String) {e : Error}
      → elim d [
        | expired ↦ err token_expired
        | not_valid ↦ err invalid_token
        | decoded raw ↦ read_claims expected_type raw
      ]
        ≡ err e
      → (e ≡ token_expired) ⊎ ((e ≡ invalid_token) ⊎ (e ≡ key_error))
  decoded_fails expired expected_type h = inl (ground (arith, h))
  decoded_fails not_valid expected_type h = inr (inl (ground (arith, h)))
  decoded_fails (decoded raw) expected_type h = inr (read_claims_fails expected_type raw h)

  decode_fails :
      (now : Time) (token : jwt.Token) (key expected_type : String) {e : Error}
      → decode now token key expected_type ≡ err e
      → (e ≡ token_expired) ⊎ ((e ≡ invalid_token) ⊎ (e ≡ key_error))
  unfolding decode
  decode_fails now token key expected_type h =
      decoded_fails (jwt.decode now token key) expected_type h

  -- A guest is anyone who is refused, unless the token lacks a claim.
  abbrev pub as_optional : Result User → Result (Option User)
  as_optional (ok user) = ok (some user)
  as_optional (err key_error) = err key_error
  as_optional (err e) = ok none

  -- Where users are optional, it is the same users that are let in, and all others are guests.
  pub get_optional_current_user_lem :
      (now : Time) (cookie : Option jwt.Token) (db : Db)
      → get_optional_current_user now cookie db ≡ as_optional (get_current_user now cookie db)
  unfolding get_current_user get_optional_current_user
  get_optional_current_user_lem now none db = refl
  get_optional_current_user_lem now (some token) db =
      elim (Result-cases (verify_access_token now token)) [
        | inr (e, failed) ↦ elim (decode_fails now token secrets.access_secret "access" failed) [
          | inl is ↦ ground (arith, failed, is)
          | inr (inl is) ↦ ground (arith, failed, is)
          | inr (inr is) ↦ ground (arith, failed, is)
        ]
        | inl (p, e) ↦ elim (Bool-cases (is_empty p.sub)) [
          | inl blank ↦ ground (arith, e, blank)
          | inr named ↦ elim (Option-cases (texts.parse_uuid p.sub)) [
            | inl failed ↦ ground (arith, e, named, failed)
            | inr (user_id, e') ↦ elim (Option-cases (get_user_by_id db user_id)) [
              | inl missing ↦ ground (arith, e, named, e', missing)
              | inr (user, found) ↦ ground (arith, e, named, e', found)
            ]
          ]
        ]
      ]
