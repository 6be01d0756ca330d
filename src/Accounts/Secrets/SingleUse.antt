-- ===== src/Accounts/Secrets/SingleUse.antt =====
-- The second use of the secrets that app/services/auth_service.py keeps in Redis.
use matchmaking_backend.Prelude.{
  Bool, true, false, ℕ, ◌≤◌, ◌≡◌, refl, Option, none, some, String, arith, eq_iff,
}
use matchmaking_backend.Errors.{ok, err, unauthorized, invalid_reset_token, invalid_otp}
use matchmaking_backend.Models.{Json}
use matchmaking_backend.World.{World, RedisKey, transaction}
use matchmaking_backend.Accounts.Host.{Host}
use matchmaking_backend.Accounts.Cache.{redis_get, redis_delete}
use matchmaking_backend.Accounts.Tokens.{revoke_all_for_user}
use matchmaking_backend.Accounts.Secrets.{reset_password, verify_otp}

-- What is expired stays so.
stays_expired :
    (k : RedisKey) (now later : ℕ) (w : World)
    → now ≤ later
    → redis_get true k now w ≡ none
    → redis_get true k later w ≡ none
unfolding redis_get
stays_expired k now later w le e = ground arith

reset_refused :
    (h : Host) (reads deletes : Bool) (token password : String) (now : ℕ) (w : World)
    → redis_get true (RedisKey.reset token) now w ≡ none
    → transaction (reset_password h reads deletes token password now) w
      ≡ (err (unauthorized invalid_reset_token), w)
unfolding reset_password redis_get
reset_refused h true deletes token password now w e = ground arith
reset_refused h false deletes token password now w e = ground arith

-- A token that was held is deleted, whatever follows.
reset_deletes :
    (h : Host) (token password : String) (now later : ℕ) (w : World) {raw : Json}
    → redis_get true (RedisKey.reset token) now w ≡ some raw
    → redis_get true
        (RedisKey.reset token)
        later
        (transaction (reset_password h true true token password now) w).1
      ≡ none
unfolding reset_password redis_delete redis_get revoke_all_for_user
reset_deletes h token password now later w e = ground (arith, eq_iff token token)

reset_after :
    (h : Host) (token password : String) (now later : ℕ) (w : World) (o : Option Json)
    → now ≤ later
    → redis_get true (RedisKey.reset token) now w ≡ o
    → redis_get true
        (RedisKey.reset token)
        later
        (transaction (reset_password h true true token password now) w).1
      ≡ none
reset_after h token password now later w none le e =
    rw (reset_refused h true true token password now w e)
      (stays_expired (RedisKey.reset token) now later w le e)
reset_after h token password now later w (some raw) le e =
    reset_deletes h token password now later w {raw = raw} e

-- After a request with a reset token during which Redis answered the read and the delete, whether
-- it returned or raised and was rolled back, the next one with the same token, at no earlier time
-- and whether or not Redis answers, is answered by INVALID_RESET_TOKEN.
pub reset_password_once :
    (h : Host) (token password again : String) (reads deletes : Bool) (now later : ℕ) (w : World)
    → now ≤ later
    → (transaction
        (reset_password h reads deletes token again later)
        (transaction (reset_password h true true token password now) w).1).0
      ≡ err (unauthorized invalid_reset_token)
reset_password_once h token password again reads deletes now later w le =
    let gone =
      reset_after h token password now later w (redis_get true (RedisKey.reset token) now w) le
        refl in
    let w' = (transaction (reset_password h true true token password now) w).1 in
    rw (reset_refused h reads deletes token again later w' gone) refl

-- After a verification of a phone number that returned and whose delete Redis answered, the next
-- one for the same number, with whatever code, whenever, and whether or not Redis answers, is
-- answered by INVALID_OTP.
pub verify_otp_once :
    (phone code again : String) (reads next_reads deletes : Bool) (now later : ℕ) (w : World)
    → (verify_otp reads true phone code now w).0 ≡ ok tt
    → (verify_otp next_reads deletes phone again later (verify_otp reads true phone code now w).1).0
      ≡ err (unauthorized invalid_otp)
unfolding verify_otp redis_get redis_delete
verify_otp_once phone code again false next_reads deletes now later w e = ground arith
verify_otp_once phone code again true false deletes now later w e = ground arith
verify_otp_once phone code again true true deletes now later w e =
    ground (arith, eq_iff phone phone)
