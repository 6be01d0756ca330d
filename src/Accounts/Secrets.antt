-- ===== src/Accounts/Secrets.antt =====
-- Passwords and the tokens that Redis holds: `AuthService` of app/services/auth_service.py. The
-- messages that carry a token are queued elsewhere. Whether Redis answers the calls that read,
-- write and delete is an argument each.
pub mod SingleUse
use matchmaking_backend.Prelude.{
  ℕ, Bool, true, false, ◌&&◌, ◌||◌, not, Option, none, some, String, [], is_none, is_some,
  if◌then◌else◌, str_eq,
}
use matchmaking_backend.Errors.{Error, Code, Fault}
use matchmaking_backend.Models.{Json, User}
use matchmaking_backend.World.{
  World, RedisKey, Exec, pure, or_raise, raise_if, gets, gen_uuid, audit, get_user, ◌>>=◌, ◌>>◌,
}
use matchmaking_backend.Accounts.Host.{Host}
use matchmaking_backend.Accounts.Cache.{redis_setex, redis_get, redis_delete}
use matchmaking_backend.Accounts.Users.{get_by_email_or_phone, get_by_phone, set_user}
use matchmaking_backend.Accounts.Tokens.{revoke_all_for_user}
use matchmaking_backend.Accounts.Totp.{password_matches}

abbrev pub otp_ttl_seconds : ℕ
otp_ttl_seconds = 600

abbrev pub reset_ttl_seconds : ℕ
reset_ttl_seconds = 1800

-- `UUID(user_id_raw)`.
abbrev pub as_uuid : Json → Option ℕ
as_uuid (Json.uuid n) = some n
as_uuid _ = none

-- `stored != otp`, where nothing or an empty text is refused too.
abbrev pub same_otp : Option Json → String → Bool
same_otp (some (Json.text String.[])) otp = false
same_otp (some (Json.text s)) otp = str_eq s otp
same_otp _ otp = false

module _ (h : Host) where
  abbrev send_reset : Bool → Option User → ℕ → Exec (Unit {0})
  send_reset writes none now = pure tt
  send_reset writes (some user) now = do
    draw ← gen_uuid
    redis_setex writes (RedisKey.reset (h.token_urlsafe draw)) reset_ttl_seconds (Json.uuid user.id)
        now

  unfoldable pub forgot_password : Bool → Option String → Option String → ℕ → Exec (Unit {0})
  forgot_password writes email phone_number now = do
    found ← gets (get_by_email_or_phone email phone_number)
    send_reset writes found now

  unfoldable pub reset_password : Bool → Bool → String → String → ℕ → Exec (Unit {0})
  reset_password reads deletes token new_password now = do
    held ← gets (redis_get reads (RedisKey.reset token) now)
    raw ← or_raise held (Error.unauthorized Code.invalid_reset_token)
    redis_delete deletes (RedisKey.reset token)
    id ← or_raise (as_uuid raw) (Error.fault Fault.bad_uuid)
    found ← gets (get_user id)
    user ← or_raise found (Error.not_found Code.default_code)
    set_user user.id (λ u. record u { password_hash = some (h.hash_password new_password) })
    revoke_all_for_user user.id now
    audit "auth.password_reset" (some user.id) "user" (Json.uuid user.id) [] now

  unfoldable pub change_password : User → String → String → ℕ → Exec (Unit {0})
  change_password user old_password new_password now = do
    raise_if (not (password_matches h user.password_hash old_password))
        (Error.unauthorized Code.invalid_password)
    set_user user.id (λ u. record u { password_hash = some (h.hash_password new_password) })
    audit "auth.password_change" (some user.id) "user" (Json.uuid user.id) [] now

  unfoldable pub send_otp : Bool → String → ℕ → Exec (Unit {0})
  send_otp writes phone_number now = do
    found ← gets (get_by_phone phone_number)
    raise_if (is_none found) (Error.not_found Code.default_code)
    draw ← gen_uuid
    redis_setex writes (RedisKey.otp phone_number) otp_ttl_seconds (Json.text (h.otp_digits draw))
        now

abbrev confirm : Option User → (User → User) → Exec (Unit {0})
confirm none f = pure tt
confirm (some u) f = set_user u.id f

unfoldable pub verify_email : Bool → Bool → String → ℕ → Exec (Unit {0})
verify_email reads deletes token now = do
  held ← gets (redis_get reads (RedisKey.email_verify token) now)
  raw ← or_raise held (Error.unauthorized Code.invalid_token)
  redis_delete deletes (RedisKey.email_verify token)
  id ← or_raise (as_uuid raw) (Error.fault Fault.bad_uuid)
  found ← gets (get_user id)
  confirm found (λ u. record u { email_verified_at = some now })

unfoldable pub verify_otp : Bool → Bool → String → String → ℕ → Exec (Unit {0})
verify_otp reads deletes phone_number otp now = do
  stored ← gets (redis_get reads (RedisKey.otp phone_number) now)
  raise_if (not (same_otp stored otp)) (Error.unauthorized Code.invalid_otp)
  redis_delete deletes (RedisKey.otp phone_number)
  found ← gets (get_by_phone phone_number)
  confirm found (λ u. record u { phone_verified_at = some now })
