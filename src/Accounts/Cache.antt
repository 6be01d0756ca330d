-- ===== src/Accounts/Cache.antt =====
-- The helpers on Redis of app/services/auth_service.py. A call tells by a first
-- argument whether Redis answers it; where it does not the source logs that and goes on.
use matchmaking_backend.Prelude.{
  ℕ, ◌+◌, Bool, false, Option, none, some, leb, if◌then◌else◌, str_eq,
}
use matchmaking_backend.Models.{Json}
use matchmaking_backend.World.{World, RedisKey, Exec, pure, modify}

abbrev pub same_key : RedisKey → RedisKey → Bool
same_key (RedisKey.reset s) (RedisKey.reset t) = str_eq s t
same_key (RedisKey.email_verify s) (RedisKey.email_verify t) = str_eq s t
same_key (RedisKey.otp s) (RedisKey.otp t) = str_eq s t
same_key _ _ = false

abbrev pub put :
    RedisKey → Option (Json × ℕ) → (RedisKey → Option (Json × ℕ)) → RedisKey → Option (Json × ℕ)
put k v store j = if same_key k j then v else store j

-- `_redis_setex`.
unfoldable pub redis_setex : Bool → RedisKey → ℕ → Json → ℕ → Exec (Unit {0})
redis_setex answers k seconds value now =
    if answers
    then modify (λ w. record w { redis = put k (some (value, now + seconds)) w.redis })
    else pure tt

abbrev unexpired : ℕ → Option (Json × ℕ) → Option Json
unexpired now none = none
unexpired now (some (value, expires_at)) = if leb expires_at now then none else some value

-- `_redis_get`.
unfoldable pub redis_get : Bool → RedisKey → ℕ → World → Option Json
redis_get answers k now w = if answers then unexpired now (w.redis k) else none

-- `_redis_delete`.
unfoldable pub redis_delete : Bool → RedisKey → Exec (Unit {0})
redis_delete answers k =
    if answers then modify (λ w. record w { redis = put k none w.redis }) else pure tt
