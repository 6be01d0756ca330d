-- ===== src/Config/Limits.antt =====
-- The request limits of app/security/rate_limit.py.
use Prim.Native.Char.{code}
use Prim.Native.String.{[], ◌∷◌}
use matchmaking_backend.Prelude.{
  ℕ, zero, suc, ◌+◌, ◌-◌, ◌*◌, ◌%◌, ◌==◌, Bool, true, false, ◌&&◌, not, Option, none, some, String,
  leb, if◌then◌else◌, str_eq,
}
use matchmaking_backend.Errors.{Error, Code, Fault, Result, ok, err}
use matchmaking_backend.World.{World, Exec, pure, raise, raise_if}
pub mod Counters
pub mod Bounded

pub record RateLimit : Type 0 where
  pub limit : ℕ
  pub window_seconds : ℕ

-- `int(text)` of a text of digits; none where it raises.
abbrev digits : ℕ → String → Option ℕ
digits n [] = some n
digits n (c ∷ s) =
    let rest = digits (n * 10 + (code c - 48)) s in
    if leb 48 (code c) && leb (code c) 57 then rest else none

abbrev to_int : String → Option ℕ
to_int [] = none
to_int (c ∷ s) = digits 0 (c ∷ s)

-- `spec.partition("/")`: what stands before the first slash, and what stands behind it.
abbrev partition : String → String × String
partition [] = ([], [])
partition (c ∷ s) =
    let (before, behind) = partition s in if code c == 47 then ([], s) else (c ∷ before, behind)

-- `window[:-1]` and `window[-1]`.
abbrev split_last : String → Option (String × ℕ)
split_last [] = none
split_last (c ∷ []) = some ([], code c)
split_last (c ∷ d ∷ s) = elim (split_last (d ∷ s)) [ none ↦ none | some p ↦ some (c ∷ p.0, p.1) ]

-- `{"m": 60, "h": 3600, "d": 86400}[...]`.
abbrev unit_seconds : ℕ → Option ℕ
unit_seconds n =
    if n == 109
    then some 60
    else if n == 104
    then some 3600
    else if n == 100
    then some 86400
    else none

abbrev rate_of : Option ℕ → Option ℕ → Option ℕ → Option RateLimit
rate_of (some limit) (some n) (some unit) =
    some (record { limit = limit; window_seconds = n * unit })
rate_of _ _ _ = none

abbrev with_window : Option ℕ → Option (String × ℕ) → Option RateLimit
with_window limit none = none
with_window limit (some (number, unit)) = rate_of limit (to_int number) (unit_seconds unit)

-- `parse_limit`; none where it raises.
unfoldable pub parse_limit : String → Option RateLimit
parse_limit spec =
    let (count, window) = partition spec in with_window (to_int count) (split_last window)

-- `LOGIN_RATE_LIMIT` and `OTP_RATE_LIMIT` of the settings.
module _ (login_limit otp_limit : String) where
  -- `LIMIT_PATTERNS.get(bucket, "100/15m")`.
  abbrev pattern_of : String → String
  pattern_of bucket =
      if str_eq bucket "login"
      then login_limit
      else if str_eq bucket "otp"
      then otp_limit
      else "100/15m"

  unfoldable pub rate_limit : String → Option RateLimit
  rate_limit bucket = parse_limit (pattern_of bucket)

abbrev pub window_start : ℕ → ℕ → ℕ
window_start window now = now - now % window

-- The count that Redis holds, none after it expired.
abbrev pub live_count : ℕ → Option (ℕ × ℕ) → Option (ℕ × ℕ)
live_count now none = none
live_count now (some (n, expires_at)) = if leb expires_at now then none else some (n, expires_at)

-- `redis.incr`, and `redis.expire` for the first request.
abbrev pub counted : ℕ → ℕ → Option (ℕ × ℕ) → ℕ × ℕ
counted now window none = (1, now + window)
counted now window (some (n, expires_at)) = (suc n, expires_at)

abbrev pub set_count :
    String
    → String
    → ℕ
    → ℕ × ℕ
    → (String → String → ℕ → Option (ℕ × ℕ))
    → String
    → String
    → ℕ
    → Option (ℕ × ℕ)
set_count bucket key start c counters b k s =
    if str_eq bucket b && str_eq key k && start == s then some c else counters b k s

-- `check_rate_limit` behind `parse_limit`; where Redis does not answer, the request passes.
unfoldable pub check_rate : Bool → RateLimit → String → String → ℕ → Exec (Unit {0})
check_rate false rl key bucket now w = (ok tt, w)
check_rate true rl key bucket now w =
    let start = window_start rl.window_seconds now in
    let c = counted now rl.window_seconds (live_count now (w.counters bucket key start)) in
    raise_if (not (leb c.0 rl.limit)) (Error.too_many Code.rate_limit_exceeded)
      (record w { counters = set_count bucket key start c w.counters })

abbrev pub check_parsed : Bool → Option RateLimit → String → String → ℕ → Exec (Unit {0})
check_parsed up none key bucket now = raise (Error.fault Fault.bad_rate)
check_parsed up (some rl) key bucket now =
    if rl.window_seconds == 0
    then raise (Error.fault Fault.bad_rate)
    else check_rate up rl key bucket now

-- `check_rate_limit`; `enabled` is `RATE_LIMIT_ENABLED`.
unfoldable pub check_rate_limit :
    String → String → Bool → Bool → String → String → ℕ → Exec (Unit {0})
check_rate_limit login_limit otp_limit false up key bucket now = pure tt
check_rate_limit login_limit otp_limit true up key bucket now =
    check_parsed up (rate_limit login_limit otp_limit bucket) key bucket now
