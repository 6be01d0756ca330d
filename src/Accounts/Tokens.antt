-- ===== src/Accounts/Tokens.antt =====
-- app/security/jwt.py, `RefreshTokenRepository` (app/repositories/user_repo.py) and the tokens of
-- `AuthService` (app/services/auth_service.py).
pub mod Issue
pub mod Revocation
use matchmaking_backend.Prelude.{
  ℕ, ◌+◌, ◌*◌, Bool, true, false, ◌&&◌, ◌||◌, not, Option, none, some, String, List, [], add, first,
  exists, update, ◌==◌, ltb, is_none, if◌then◌else◌,
}
use matchmaking_backend.Errors.{Error, Code, Fault}
use matchmaking_backend.Models.{Json, RefreshTokenRecord}
use matchmaking_backend.World.{
  World, Exec, pure, or_raise, raise_if, gets, modify, gen_uuid, audit, days, minutes, ◌>>=◌, ◌>>◌,
}
use matchmaking_backend.Accounts.Host.{Host, Claims, TokenType}

-- `settings` of app/config/settings.py, and `MFA_TOKEN_EXPIRE_MINUTES`.
abbrev pub access_token_expire_minutes : ℕ
access_token_expire_minutes = 15

abbrev pub refresh_token_expire_days : ℕ
refresh_token_expire_days = 30

abbrev pub mfa_token_expire_minutes : ℕ
mfa_token_expire_minutes = 5

abbrev is_type : TokenType → TokenType → Bool
is_type TokenType.access TokenType.access = true
is_type TokenType.refresh TokenType.refresh = true
is_type TokenType.mfa TokenType.mfa = true
is_type _ _ = false

abbrev of_type : TokenType → Option Claims → Option Claims
of_type t none = none
of_type t (some c) = if is_type c.type t then some c else none

-- The pair that is returned to the client.
pub record TokenPair : Type 0 where
  pub access_token : String
  pub refresh_token : String
  pub expires_in : ℕ

-- The clause of `get_active`.
abbrev pub is_active_token : ℕ → RefreshTokenRecord → Bool
is_active_token jti r = r.jti == jti && is_none r.revoked_at

abbrev pub get_active : ℕ → World → Option RefreshTokenRecord
get_active jti w = first (is_active_token jti) w.refresh_tokens

abbrev pub new_record : ℕ → ℕ → ℕ → ℕ → ℕ → RefreshTokenRecord
new_record id user_id jti expires_at now = record {
  id = id;
  user_id = user_id;
  jti = jti;
  expires_at = expires_at;
  revoked_at = none;
  replaced_by_jti = none;
  created_at = now;
}

-- The insertion, with the constraint on `jti`.
unfoldable pub create_record : ℕ → ℕ → ℕ → ℕ → Exec RefreshTokenRecord
create_record user_id jti expires_at now = do
  id ← gen_uuid
  taken ← gets (λ w. exists (λ r. r.jti == jti) w.refresh_tokens)
  raise_if taken (Error.fault Fault.uq_refresh_jti)
  let r = new_record id user_id jti expires_at now
  modify (λ w. record w { refresh_tokens = add r w.refresh_tokens })
  pure r

abbrev pub revoked : ℕ → Option ℕ → RefreshTokenRecord → RefreshTokenRecord
revoked now none r = record r { revoked_at = some now }
revoked now (some jti) r = record r { revoked_at = some now; replaced_by_jti = some jti }

-- `revoke`.
abbrev pub revoke : RefreshTokenRecord → Option ℕ → ℕ → Exec (Unit {0})
revoke record_ replaced_by now = modify λ w. record w {
  refresh_tokens = update (λ r. r.id == record_.id) (revoked now replaced_by) w.refresh_tokens;
}

-- `revoke_all_for_user`.
unfoldable pub revoke_all_for_user : ℕ → ℕ → Exec (Unit {0})
revoke_all_for_user user_id now = modify λ w. record w {
  refresh_tokens =
      update (λ r. r.user_id == user_id && is_none r.revoked_at) (revoked now none)
        w.refresh_tokens;
}

-- The refusal of a record that is missing, of another user, or past its time.
abbrev pub usable : ℕ → ℕ → Option RefreshTokenRecord → Option RefreshTokenRecord
usable user_id now none = none
usable user_id now (some r) =
    if not (r.user_id == user_id) || ltb r.expires_at now then none else some r

-- `if record: revoke, and log`.
abbrev end_session : Option RefreshTokenRecord → ℕ → Exec (Unit {0})
end_session none now = pure tt
end_session (some r) now = do
  revoke r none now
  audit "auth.logout" (some r.user_id) "user" (Json.uuid r.user_id) [] now

module _ (h : Host) where
  -- `_create_token`.
  unfoldable pub create_token : ℕ → TokenType → ℕ → ℕ → ℕ → String
  create_token subject type expires jti now =
      h.jwt_encode
        (record { sub = subject; type = type; iat = now; exp = now + expires; jti = jti })

  -- `decode_token`; `none` stands for a TokenError.
  unfoldable pub decode_token : String → TokenType → ℕ → Option Claims
  decode_token token expected_type now = of_type expected_type (h.jwt_decode token now)

  unfoldable pub create_mfa_token : ℕ → ℕ → Exec String
  create_mfa_token subject now = do
    jti ← gen_uuid
    pure (create_token subject TokenType.mfa (minutes mfa_token_expire_minutes) jti now)

  unfoldable pub create_token_pair : ℕ → ℕ → Exec TokenPair
  create_token_pair user_id now = do
    access_jti ← gen_uuid
    jti ← gen_uuid
    create_record user_id jti (now + days refresh_token_expire_days) now
    pure (record {
      access_token =
          create_token user_id TokenType.access (minutes access_token_expire_minutes) access_jti
            now;
      refresh_token =
          create_token user_id TokenType.refresh (days refresh_token_expire_days) jti now;
      expires_in = access_token_expire_minutes * 60;
    })

  -- The second half of the rotation: the old record is replaced by the new token's.
  unfoldable pub replace : RefreshTokenRecord → TokenPair → ℕ → Exec TokenPair
  replace record_ new_pair now = do
    claims ←
        or_raise (decode_token new_pair.refresh_token TokenType.refresh now)
          (Error.fault Fault.token_error)
    revoke record_ (some claims.jti) now
    pure new_pair

  unfoldable pub refresh : String → ℕ → Exec TokenPair
  refresh refresh_token now = do
    claims ←
        or_raise (decode_token refresh_token TokenType.refresh now)
          (Error.unauthorized Code.invalid_refresh_token)
    found ← gets (get_active claims.jti)
    record_ ← or_raise (usable claims.sub now found) (Error.unauthorized Code.token_revoked)
    new_pair ← create_token_pair claims.sub now
    replace record_ new_pair now

  unfoldable pub logout : String → ℕ → Exec (Unit {0})
  logout refresh_token now = do
    claims ←
        or_raise (decode_token refresh_token TokenType.refresh now)
          (Error.unauthorized Code.invalid_refresh_token)
    found ← gets (get_active claims.jti)
    end_session found now
