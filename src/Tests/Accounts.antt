-- ===== src/Tests/Accounts.antt =====
-- Logins, sessions and the actions of administrators at concrete tables.
use matchmaking_backend.Prelude.{
  ℕ, ◌≡◌, refl, true, Option, some, [], ◌∷◌, is_some, arith, none, add,
}
use matchmaking_backend.Errors.{err, unauthorized, token_revoked, invalid_reset_token, invalid_otp}
use matchmaking_backend.Enums.{UserRole, is_super_admin}
use matchmaking_backend.Models.{Json, User, RecoveryCode, RefreshTokenRecord}
use matchmaking_backend.World.{World, RedisKey, get_user, transaction}
use matchmaking_backend.Accounts.Host.{Host, Claims, TokenType}
use matchmaking_backend.Accounts.Cache.{redis_get, redis_delete}
use matchmaking_backend.Accounts.Users.{get_by_email, create_user, get_by_email_or_phone}
use matchmaking_backend.Accounts.Totp.{is_enabled, consume_recovery_code}
use matchmaking_backend.Accounts.Totp.Recovery.{IsCounted, consume_recovery_code-count_where}
use matchmaking_backend.Accounts.Tokens.{
  TokenPair, decode_token, refresh, revoke_all_for_user, create_token_pair, create_token,
  create_record, replace, usable, get_active,
}
use matchmaking_backend.Accounts.Tokens.Revocation.{refresh_once}
use matchmaking_backend.Accounts.Tokens.Issue.{refresh_claims, create_token_pair-decode_token}
use matchmaking_backend.Accounts.Login.{
  get_current_user, login, login_endpoint, assert_login_allowed,
}
use matchmaking_backend.Accounts.Login.Refusal.{
  IsCurrent, get_current_user-IsCurrent, IsAdmitted, login_endpoint-IsAdmitted,
}
use matchmaking_backend.Accounts.Admin.{find_user, suspend, ban, delete_user, change_role}
use matchmaking_backend.Accounts.Admins.{create_admin, create_or_promote, create_admin_by_lesser}
use matchmaking_backend.Accounts.Admin.Guards.{super_in, change_role_by_lesser}
use matchmaking_backend.Accounts.Admin.Sessions.{
  suspend_ends_sessions, ban_ends_sessions, delete_ends_sessions,
}
use matchmaking_backend.Accounts.Secrets.{reset_password, verify_otp}
use matchmaking_backend.Accounts.Secrets.SingleUse.{reset_password_once, verify_otp_once}
use matchmaking_backend.Tests.Fixtures.{
  empty_world, user_of, plain_host, plain_host-JwtLaws, lenient_host,
}

abbrev ann : User
ann = user_of 1 UserRole.user

abbrev root : User
root = user_of 3 UserRole.super_admin

abbrev admin : User
admin = user_of 4 UserRole.admin

abbrev session_of : ℕ → RefreshTokenRecord
session_of jti = record {
  id = 5;
  user_id = 1;
  jti = jti;
  expires_at = 9000000;
  revoked_at = none;
  replaced_by_jti = none;
  created_at = 0;
}

-- Ann is logged in.
abbrev session_world : World
session_world = record empty_world {
  users = ann ∷ root ∷ admin ∷ [];
  refresh_tokens = session_of 7 ∷ [];
}

abbrev read_back : Claims
read_back = record { sub = 1; type = TokenType.refresh; iat = 0; exp = 9000000; jti = 7 }

abbrev jwt_pair : TokenPair
jwt_pair = record { access_token = "jwt"; refresh_token = "jwt"; expires_in = 900 }

refresh_once_example :
    (refresh lenient_host "jwt" 20 (refresh lenient_host "jwt" 10 session_world).1).0
    ≡ err (unauthorized token_revoked)
unfolding refresh create_token_pair create_record create_token replace decode_token
refresh_once_example =
    refresh_once lenient_host 10 "jwt" 20 session_world {c = read_back} {pair = jwt_pair} (refl, tt)
      refl refl refl

suspend_ends_sessions_example :
    (refresh lenient_host "jwt" 20 (suspend root 1 "spam" none none 10 session_world).1).0
    ≡ err (unauthorized token_revoked)
unfolding decode_token suspend find_user revoke_all_for_user
suspend_ends_sessions_example =
    suspend_ends_sessions root 1 "spam" none 10 session_world lenient_host "jwt" 20 none
      {c = read_back} refl refl refl

ban_ends_sessions_example :
    (refresh lenient_host "jwt" 20 (ban root 1 "spam" none 10 session_world).1).0
    ≡ err (unauthorized token_revoked)
unfolding decode_token ban find_user revoke_all_for_user
ban_ends_sessions_example =
    ban_ends_sessions root 1 "spam" none 10 session_world lenient_host "jwt" 20 {c = read_back} refl
      refl refl

delete_ends_sessions_example :
    (refresh lenient_host "jwt" 20 (delete_user root 1 "spam" none 10 session_world).1).0
    ≡ err (unauthorized token_revoked)
unfolding decode_token delete_user find_user revoke_all_for_user
delete_ends_sessions_example =
    delete_ends_sessions root 1 "spam" none 10 session_world lenient_host "jwt" 20 {c = read_back}
      refl refl refl

abbrev rooted : User
rooted = record (user_of 1000 UserRole.super_admin) {
  phone_number = none;
  email = some "new@example.org";
  password_hash = some "secret";
  created_at = 10;
}

create_admin_by_lesser_example :
    (get_by_email "new@example.org" session_world ≡ none)
    × (is_super_admin rooted.role ≡ true)
    × ((create_admin plain_host admin "new@example.org"
          (some "secret")
          UserRole.super_admin
          10
          session_world).1.users
        ≡ add rooted session_world.users)
unfolding create_admin create_or_promote create_user
create_admin_by_lesser_example =
    create_admin_by_lesser plain_host admin "new@example.org" "secret" 10 session_world {u = rooted}
      refl refl

change_role_by_lesser_example :
    super_in (get_user 1 (change_role admin 1 UserRole.super_admin 10 session_world).1)
    ≡ super_in (get_user 1 session_world)
change_role_by_lesser_example =
    change_role_by_lesser admin 1 1 UserRole.super_admin 10 session_world refl

login_endpoint-IsAdmitted_example :
    IsAdmitted lenient_host "secret" 10 session_world jwt_pair
      (get_by_email_or_phone (some "ann@example.org") none session_world)
unfolding login_endpoint login get_by_email_or_phone assert_login_allowed is_enabled
    create_token_pair create_record create_token
login_endpoint-IsAdmitted_example =
    login_endpoint-IsAdmitted lenient_host "secret" 10 session_world (some "ann@example.org") none
      {pair = jwt_pair} refl

abbrev plain_pair : TokenPair
plain_pair = record {
  access_token = create_token plain_host 1 TokenType.access 900 1000 10;
  refresh_token = create_token plain_host 1 TokenType.refresh 2592000 1001 10;
  expires_in = 900;
}

create_token_pair-decode_token_example :
    (decode_token plain_host plain_pair.refresh_token TokenType.refresh 20
      ≡ some (refresh_claims plain_host 1 10 20 session_world))
    × (decode_token plain_host plain_pair.refresh_token TokenType.access 20 ≡ none)
    × (decode_token plain_host plain_pair.refresh_token TokenType.mfa 20 ≡ none)
    × (is_some (usable 1 20 (get_active 1001 (create_token_pair plain_host 1 10 session_world).1))
        ≡ true)
unfolding create_token_pair create_record
create_token_pair-decode_token_example =
    create_token_pair-decode_token plain_host 1 10 20 session_world {pair = plain_pair}
      plain_host-JwtLaws (omega arith) (omega arith) refl

-- Redis holds a reset token of Ann and a one-time password of her phone.
abbrev holding : RedisKey → Option (Json × ℕ)
holding (RedisKey.reset s) = some (Json.uuid 1, 100)
holding (RedisKey.otp s) = some (Json.text "123456", 100)
holding (RedisKey.email_verify s) = none

abbrev holding_world : World
holding_world = record session_world { redis = holding }

reset_password_once_example :
    (transaction
      (reset_password lenient_host true true "token" "again" 20)
      (transaction (reset_password lenient_host true true "token" "new" 10) holding_world).1).0
    ≡ err (unauthorized invalid_reset_token)
reset_password_once_example =
    reset_password_once lenient_host "token" "new" "again" true true 10 20 holding_world
      (omega arith)

verify_otp_once_example :
    (verify_otp true true "5550100" "123456" 20
      (verify_otp true true "5550100" "123456" 10 holding_world).1).0
    ≡ err (unauthorized invalid_otp)
unfolding verify_otp redis_get redis_delete
verify_otp_once_example =
    verify_otp_once "5550100" "123456" "123456" true true true 10 20 holding_world refl

abbrev recovery : RecoveryCode
recovery = record {
  id = 8;
  user_id = 1;
  code_hash = "MYT-ABCD-ABCD";
  used_at = none;
  created_at = 0;
}

abbrev recovery_world : World
recovery_world = record session_world { recovery_codes = recovery ∷ [] }

consume_recovery_code-count_where_example :
    IsCounted 1 "MYT-ABCD-ABCD" recovery_world
      (consume_recovery_code plain_host 1 "MYT-ABCD-ABCD" 10 recovery_world)
consume_recovery_code-count_where_example =
    consume_recovery_code-count_where plain_host 1 "MYT-ABCD-ABCD" 10 recovery_world

-- A host whose every token is read as an access token of user 1.
abbrev access_host : Host
access_host = record lenient_host {
  jwt_decode =
      λ token now. some (record { sub = 1; type = TokenType.access; iat = 0; exp = 900; jti = 7 });
}

get_current_user-IsCurrent_example :
    IsCurrent access_host (some "jwt") 10 session_world ann
    × ((get_current_user access_host (some "jwt") 10 session_world).1 ≡ session_world)
unfolding get_current_user decode_token
get_current_user-IsCurrent_example =
    get_current_user-IsCurrent access_host (some "jwt") 10 session_world {u = ann} refl
