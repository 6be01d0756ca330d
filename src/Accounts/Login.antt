-- ===== src/Accounts/Login.antt =====
-- Registration and login: `AuthService` of app/services/auth_service.py, the endpoint
-- `POST /auth/login` of app/api/v1/auth.py, and `get_current_user` of app/api/deps.py.
pub mod Refusal
use matchmaking_backend.Prelude.{
  ℕ, Bool, true, false, ◌&&◌, ◌||◌, not, Option, none, some, String, [], is_none, is_some,
  if◌then◌else◌,
}
use matchmaking_backend.Errors.{Error, Code}
use matchmaking_backend.Enums.{UserRole, is_deleted_status, is_banned_status, is_suspended_status}
use matchmaking_backend.Models.{Json, User}
use matchmaking_backend.World.{
  World, RedisKey, Exec, pure, or_raise, raise_if, gets, gen_uuid, audit, get_user, ◌>>=◌, ◌>>◌,
}
use matchmaking_backend.Accounts.Host.{Host, TokenType}
use matchmaking_backend.Accounts.Cache.{redis_setex}
use matchmaking_backend.Accounts.Users.{truthy, get_by_email_or_phone, create_user, set_user}
use matchmaking_backend.Accounts.Tokens.{
  TokenPair, create_mfa_token, create_token_pair, decode_token,
}
use matchmaking_backend.Accounts.Totp.{is_enabled, verify, password_matches}

abbrev pub verify_ttl_seconds : ℕ
verify_ttl_seconds = 3600

-- `_assert_login_allowed`.
unfoldable pub assert_login_allowed : User → Exec (Unit {0})
assert_login_allowed user = do
  raise_if (is_some user.deleted_at || is_deleted_status user.account_status)
      (Error.unauthorized Code.account_deleted)
  raise_if (user.is_banned || is_banned_status user.account_status)
      (Error.unauthorized Code.account_banned)
  raise_if (is_suspended_status user.account_status) (Error.unauthorized Code.account_suspended)

-- The answer of `POST /auth/login`.
pub data LoginAnswer : Type 0 where
  tokens : TokenPair → LoginAnswer
  mfa_required : String → LoginAnswer

module _ (h : Host) where
  -- `_send_verification`; the mail itself is queued elsewhere.
  abbrev send_verification : Bool → ℕ → Option String → ℕ → Exec (Unit {0})
  send_verification writes user_id none now = pure tt
  send_verification writes user_id (some email) now = do
    draw ← gen_uuid
    redis_setex writes (RedisKey.email_verify (h.token_urlsafe draw)) verify_ttl_seconds
        (Json.uuid user_id) now

  abbrev lower_email : Option String → Option String
  lower_email none = none
  lower_email (some s) = some (h.lower s)

  unfoldable pub register : Bool → Option String → Option String → String → ℕ → Exec User
  register writes email phone_number password now = do
    raise_if (is_none (truthy email) && is_none (truthy phone_number))
        (Error.validation Code.default_code)
    existing ← gets (get_by_email_or_phone email phone_number)
    raise_if (is_some existing) (Error.conflict Code.account_exists)
    user ←
        create_user (lower_email (truthy email)) phone_number (h.hash_password password)
          UserRole.user now
    audit "auth.register" (some user.id) "user" (Json.uuid user.id) [] now
    send_verification writes user.id (truthy user.email) now
    pure user

  -- The user whom the credentials name.
  abbrev pub credentials : Option User → String → Option User
  credentials none password = none
  credentials (some u) password =
      if password_matches h u.password_hash password then some u else none

  unfoldable pub login : Option String → Option String → String → ℕ → Exec (User × Bool)
  login email phone_number password now = do
    found ← gets (get_by_email_or_phone email phone_number)
    user ← or_raise (credentials found password) (Error.unauthorized Code.invalid_credentials)
    assert_login_allowed user
    required ← gets (is_enabled user.id)
    set_user user.id (λ u. record u { last_login_at = some now })
    audit "auth.login" (some user.id) "user" (Json.uuid user.id) [] now
    pure (user, required)

  abbrev pub finish_login : User × Bool → ℕ → Exec LoginAnswer
  finish_login (user, required) now =
      if required
      then (do token ← create_mfa_token h user.id now; pure (LoginAnswer.mfa_required token))
      else (do pair ← create_token_pair h user.id now; pure (LoginAnswer.tokens pair))

  unfoldable pub login_endpoint : Option String → Option String → String → ℕ → Exec LoginAnswer
  login_endpoint email phone_number password now = do
    checked ← login email phone_number password now
    finish_login checked now

  unfoldable pub complete_mfa_login : String → String → ℕ → Exec TokenPair
  complete_mfa_login mfa_token code now = do
    claims ←
        or_raise (decode_token h mfa_token TokenType.mfa now)
          (Error.unauthorized Code.invalid_mfa_token)
    found ← gets (get_user claims.sub)
    user ← or_raise found (Error.unauthorized Code.not_authenticated)
    on ← gets (is_enabled user.id)
    raise_if (not on) (Error.unauthorized Code.mfa_not_enabled)
    good ← verify h user code now
    raise_if (not good) (Error.unauthorized Code.invalid_totp)
    audit "auth.mfa_completed" (some user.id) "user" (Json.uuid user.id) [] now
    create_token_pair h user.id now

  -- `get_current_user`, for the token in the header of the request, if there is one.
  unfoldable pub get_current_user : Option String → ℕ → Exec User
  get_current_user credentials_ now = do
    token ← or_raise credentials_ (Error.unauthorized Code.not_authenticated)
    claims ←
        or_raise (decode_token h token TokenType.access now) (Error.unauthorized Code.invalid_token)
    found ← gets (get_user claims.sub)
    user ← or_raise found (Error.unauthorized Code.not_authenticated)
    raise_if (is_some user.deleted_at || is_deleted_status user.account_status)
        (Error.unauthorized Code.account_deleted)
    raise_if (user.is_banned || is_banned_status user.account_status)
        (Error.unauthorized Code.account_banned)
    pure user
