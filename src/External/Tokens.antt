-- ===== src/External/Tokens.antt =====
-- PyJWT, passlib and hashlib, as far as the program relies on them.
use askit_backend.Models.{Time}
use askit_backend.Prelude.{
  Bool, Option, String, if◌then◌else◌, leb, some, true, ℕ, ◌*◌, ◌/◌, ◌≡◌, ◌≤◌,
}

-- The claims that the program puts into a token. The times are those of the payload.
pub record Claims : Type 0 where
  pub sub : String
  pub type : String
  pub ver : ℕ
  pub jti : String
  pub iat : Time
  pub exp : Time

-- What a decoded payload holds: each claim may be missing. The times are whole seconds.
pub record RawClaims : Type 0 where
  pub sub : Option String
  pub type : Option String
  pub ver : Option ℕ
  pub jti : Option String
  pub iat : Option ℕ
  pub exp : Option ℕ

pub data Decoded : Type 0 where
  decoded : RawClaims → Decoded
  expired not_valid : Decoded

abbrev pub seconds : Time → ℕ
seconds t = t / 1000000

abbrev pub raw_claims : Claims → RawClaims
raw_claims c = record {
  sub = some c.sub;
  type = some c.type;
  ver = some c.ver;
  jti = some c.jti;
  iat = some (seconds c.iat);
  exp = some (seconds c.exp);
}

-- `encode` takes the claims and the key, `decode` the time, the token and the key. `decode` gives
-- back what was encoded, unless the second of `exp` has come. `hash_token` is SHA-256 in hexadecimal.
-- Of the text of a token the program uses no more than this, and whether it is empty.
pub record Jwt : Type 1 where
  pub Token : Type 0
  pub encode : Claims → String → Token
  pub decode : Time → Token → String → Decoded
  pub hash_token : Token → String
  pub decode-encode :
      (now : Time) (c : Claims) (key : String)
      → c.iat ≤ now
      → decode now (encode c key) key
        ≡ (if leb (seconds c.exp * 1000000) now then expired else decoded (raw_claims c))

-- Argon2, which draws a salt for each hash.
pub record Hashes : Type 0 where
  pub hash : String → ℕ → String
  pub verify : String → String → Bool
  pub verify-hash : (password : String) (salt : ℕ) → verify password (hash password salt) ≡ true

-- The two secrets of the settings.
pub record Secrets : Type 0 where
  pub access_secret : String
  pub refresh_secret : String
