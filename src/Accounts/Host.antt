-- ===== src/Accounts/Host.antt =====
-- What the account services call and do not implement: argon2, PyJWT, pyotp, hashlib, secrets, and
-- Python's case mapping and stripping of text. A draw is a fresh random number.
use matchmaking_backend.Prelude.{ℕ, ◌<◌, ◌≤◌, ◌≡◌, Bool, Option, none, some, String}

-- `TokenType` of app/security/jwt.py.
pub data TokenType : Type 0 where
  access refresh mfa : TokenType

-- The payload that `_create_token` signs.
pub record Claims : Type 0 where
  pub sub : ℕ
  pub type : TokenType
  pub iat : ℕ
  pub exp : ℕ
  pub jti : ℕ

pub record Host : Type 0 where
  pub hash_password : String → String
  pub verify_password : String → String → Bool
  -- `jwt.encode`, and `jwt.decode` at a time, with the key and the algorithm of the settings
  pub jwt_encode : Claims → String
  pub jwt_decode : String → ℕ → Option Claims
  pub sha256 : String → String
  -- `pyotp.TOTP(secret).verify(code, valid_window=1)` at a time
  pub totp_verify : String → String → ℕ → Bool
  pub random_base32 : ℕ → String
  -- four times `secrets.choice`, joined
  pub choice_4 : ℕ → String
  pub token_urlsafe : ℕ → String
  -- `f"{secrets.randbelow(1000000):06d}"`
  pub otp_digits : ℕ → String
  pub lower : String → String
  pub upper : String → String
  pub strip : String → String

-- PyJWT's documented behaviour: what was signed is read back from the time of its
-- `iat` until it expires, and refused before and after.
pub record JwtLaws (h : Host) : Type 0 where
  pub decode-encode :
      (c : Claims) (now : ℕ)
      → c.iat ≤ now
      → now < c.exp
      → h.jwt_decode (h.jwt_encode c) now ≡ some c
  pub decode-immature :
      (c : Claims) (now : ℕ) → now < c.iat → h.jwt_decode (h.jwt_encode c) now ≡ none
  pub decode-expired :
      (c : Claims) (now : ℕ) → c.exp ≤ now → h.jwt_decode (h.jwt_encode c) now ≡ none
