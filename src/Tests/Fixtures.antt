-- ===== src/Tests/Fixtures.antt =====
-- The concrete tables, users and services of the tests.
use Prim.Native.Char.{code}
use matchmaking_backend.Prelude.{
  ℕ, zero, suc, ◌+◌, ◌<◌, ◌≤◌, ◌≡◌, refl, ap, ◌∙◌, Bool, true, false, Option, none, some, String,
  [], arith, ltb, ◌==◌, if◌then◌else◌, str_eq,
}
use matchmaking_backend.Enums.{AccountStatus, UserRole}
use matchmaking_backend.Models.{User}
use matchmaking_backend.World.{World}
use matchmaking_backend.Accounts.Host.{Host, JwtLaws, Claims, TokenType}
use matchmaking_backend.Billing.Gateway.{Gateway, mock_gateway}

abbrev pub empty_world : World
empty_world = record {
  users = [];
  refresh_tokens = [];
  role_permissions = [];
  totp_secrets = [];
  recovery_codes = [];
  audit_logs = [];
  reports = [];
  swipes = [];
  matches = [];
  blocks = [];
  shares = [];
  conversations = [];
  participants = [];
  messages = [];
  notifications = [];
  plans = [];
  subscriptions = [];
  payments = [];
  verifications = [];
  profiles = [];
  privacy_settings = [];
  photos = [];
  preferences = [];
  preferred = [];
  user_interests = [];
  configs = [];
  campaigns = [];
  redis = λ k. none;
  feeds = λ k. none;
  config_cache = none;
  counters = λ _ _ _. none;
  uuid4 = λ n. n + 1000;
  drawn = 0;
}

abbrev pub user_of : ℕ → UserRole → User
user_of id role = record {
  id = id;
  phone_number = some "5550100";
  email = some "ann@example.org";
  password_hash = some "secret";
  phone_verified_at = none;
  email_verified_at = none;
  account_status = AccountStatus.active;
  role = role;
  is_banned = false;
  banned_at = none;
  suspended_at = none;
  suspended_until = none;
  suspended_reason = none;
  suspended_by = none;
  last_login_at = none;
  last_active_at = none;
  created_at = 0;
  deleted_at = none;
}

-- A token writes each of the five numbers as a run of one letter, closed by another.
abbrev run_of : ℕ → String → String
run_of zero rest = String.◌∷◌ "b" rest
run_of (suc n) rest = String.◌∷◌ "a" (run_of n rest)

abbrev more : Bool → String → ℕ × String → ℕ × String
more true s (n, rest) = (suc n, rest)
more false s _ = (0, s)

abbrev read_run : String → ℕ × String
read_run String.[] = (0, String.[])
read_run (String.◌∷◌ c s) = let later = read_run s in more (code c == 97) s later

read_run-run_of : (n : ℕ) (rest : String) → read_run (run_of n rest) ≡ (n, rest)
read_run-run_of zero rest = refl
read_run-run_of (suc n) rest = rw (read_run-run_of n rest) refl

abbrev number_of : TokenType → ℕ
number_of TokenType.access = 0
number_of TokenType.refresh = 1
number_of TokenType.mfa = 2

abbrev type_of : ℕ → TokenType
type_of zero = TokenType.access
type_of (suc zero) = TokenType.refresh
type_of (suc (suc n)) = TokenType.mfa

type_of-number_of : (t : TokenType) → type_of (number_of t) ≡ t
type_of-number_of TokenType.access = refl
type_of-number_of TokenType.refresh = refl
type_of-number_of TokenType.mfa = refl

abbrev write_claims : Claims → String
write_claims c =
    run_of c.sub (run_of (number_of c.type) (run_of c.iat (run_of c.exp (run_of c.jti String.[]))))

abbrev read_claims : String → Claims
read_claims s =
    let (sub, s1) = read_run s in
    let (type, s2) = read_run s1 in
    let (iat, s3) = read_run s2 in
    let (exp, s4) = read_run s3 in
    let (jti, s5) = read_run s4 in
    record { sub = sub; type = type_of type; iat = iat; exp = exp; jti = jti }

read_claims-write_claims : (c : Claims) → read_claims (write_claims c) ≡ c
read_claims-write_claims c =
    let s4 = run_of c.jti String.[] in
    let s3 = run_of c.exp s4 in
    let s2 = run_of c.iat s3 in
    let s1 = run_of (number_of c.type) s2 in
    rw (read_run-run_of c.sub s1) (
      rw (read_run-run_of (number_of c.type) s2) (
        rw (read_run-run_of c.iat s3) (
          rw (read_run-run_of c.exp s4)
            (rw (read_run-run_of c.jti String.[]) (rw (type_of-number_of c.type) refl)))))

-- The claims, from the time of issue until they expire.
abbrev current : ℕ → Claims → Option Claims
current now c = if ltb now c.iat then none else if ltb now c.exp then some c else none

abbrev pub plain_host : Host
plain_host = record {
  hash_password = λ s. s;
  verify_password = λ hash password. str_eq hash password;
  jwt_encode = write_claims;
  jwt_decode = λ token now. current now (read_claims token);
  sha256 = λ s. s;
  totp_verify = λ secret code now. str_eq secret code;
  random_base32 = λ n. "K";
  choice_4 = λ n. "ABCD";
  token_urlsafe = λ n. "token";
  otp_digits = λ n. "000000";
  lower = λ s. s;
  upper = λ s. s;
  strip = λ s. s;
}

pub plain_host-JwtLaws : JwtLaws plain_host
plain_host-JwtLaws = record {
  decode-encode =
      λ c now le lt. ap (current now) (read_claims-write_claims c) ∙ unexpired c now le lt;
  decode-immature = λ c now lt. ap (current now) (read_claims-write_claims c) ∙ immature c now lt;
  decode-expired = λ c now le. ap (current now) (read_claims-write_claims c) ∙ expired c now le;
}
  where
    unexpired : (c : Claims) (now : ℕ) → c.iat ≤ now → now < c.exp → current now c ≡ some c
    unexpired c now le lt = ground arith

    immature : (c : Claims) (now : ℕ) → now < c.iat → current now c ≡ none
    immature c now lt = ground arith

    expired : (c : Claims) (now : ℕ) → c.exp ≤ now → current now c ≡ none
    expired c now le = ground arith

-- A host whose every token is read as the refresh token with number 7 of user 1.
abbrev pub lenient_host : Host
lenient_host = record plain_host {
  jwt_encode = λ c. "jwt";
  jwt_decode = λ token now.
      some (record { sub = 1; type = TokenType.refresh; iat = 0; exp = 9000000; jti = 7 });
}

abbrev pub mock : Gateway
mock =
    mock_gateway (λ m. "https://checkout.mock.test/1") (λ m. "mock_1") (λ s. s) (λ s. none)
      (λ n. "1999.00")
