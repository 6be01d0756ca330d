-- ===== src/Accounts/Login/Refusal.antt =====
-- Whom `login` of app/services/auth_service.py and of app/api/v1/auth.py refuses.
use matchmaking_backend.Prelude.{
  ℕ, ◌+◌, ◌≡◌, refl, Bool, true, false, not, ◌||◌, Option, none, some, String, arith, is_some,
  first_sound, ==_sound, ◌==◌,
}
use matchmaking_backend.Errors.{Result, ok, err}
use matchmaking_backend.Enums.{is_deleted_status, is_banned_status, is_suspended_status}
use matchmaking_backend.Models.{User}
use matchmaking_backend.World.{World, get_user}
use matchmaking_backend.Accounts.Host.{Claims, TokenType}
use matchmaking_backend.Accounts.Host.{Host}
use matchmaking_backend.Accounts.Users.{get_by_email_or_phone}
use matchmaking_backend.Accounts.Totp.{password_matches, is_enabled}
use matchmaking_backend.Accounts.Tokens.{
  TokenPair, decode_token, create_mfa_token, create_token, create_token_pair, create_record,
}
use matchmaking_backend.Accounts.Login.{
  LoginAnswer, assert_login_allowed, login, login_endpoint, finish_login, get_current_user,
}

-- The tests of `_assert_login_allowed` on a user.
abbrev pub may_login : User → Bool
may_login u = not (
    is_some u.deleted_at
    || is_deleted_status u.account_status
    || (u.is_banned || is_banned_status u.account_status)
    || is_suspended_status u.account_status)

allowed : (u : User) (w : World) → (assert_login_allowed u w).0 ≡ ok tt → may_login u ≡ true
unfolding assert_login_allowed
allowed u w e = ground arith

allowed_keeps : (u : User) (w : World) → (assert_login_allowed u w).1 ≡ w
unfolding assert_login_allowed
allowed_keeps u w = ground arith

-- The claims of the two tokens of a user: 15 minutes of access and 30 days of refreshing.
abbrev access_of : ℕ → ℕ → ℕ → Claims
access_of u jti now = record {
  sub = u;
  type = TokenType.access;
  iat = now;
  exp = now + 900;
  jti = jti;
}

abbrev refresh_of : ℕ → ℕ → ℕ → Claims
refresh_of u jti now = record {
  sub = u;
  type = TokenType.refresh;
  iat = now;
  exp = now + 2592000;
  jti = jti;
}

-- A pair of tokens that are both signed for the user, by numbers drawn after the log entry's.
abbrev pub IsPairOf : Host → ℕ → ℕ → World → TokenPair → Type 0
IsPairOf h u now w pair =
    (pair.access_token ≡ h.jwt_encode (access_of u (w.uuid4 (w.drawn + 1)) now))
    × (pair.refresh_token ≡ h.jwt_encode (refresh_of u (w.uuid4 (w.drawn + 2)) now))

-- A user was found who has the password, may log in, and has no second factor, and the tokens are
-- his.
abbrev pub IsAdmitted : Host → String → ℕ → World → TokenPair → Option User → Type 0
IsAdmitted h password now w pair none = ⊥
IsAdmitted h password now w pair (some u) =
    IsPairOf h u.id now w pair
    × (password_matches h u.password_hash password ≡ true)
    × (may_login u ≡ true)
    × (is_enabled u.id w ≡ false)

module _ (h : Host) (password : String) (now : ℕ) (w : World) where
  login_cases :
      (email phone : Option String) (o : Option User) {u : User} {on : Bool} {pair : TokenPair}
      → get_by_email_or_phone email phone w ≡ o
      → (login h email phone password now w).0 ≡ ok (u, on)
      → (finish_login h (u, on) now (login h email phone password now w).1).0
        ≡ ok (LoginAnswer.tokens pair)
      → IsAdmitted h password now w pair o
  unfolding login create_token_pair create_record create_token create_mfa_token
  login_cases email phone none f e done = ground arith
  login_cases email phone (some u) f e done = ground (arith, allowed u w, allowed_keeps u w)

  endpoint_cases :
      (email phone : Option String) (r : Result (User × Bool)) {pair : TokenPair}
      → (login h email phone password now w).0 ≡ r
      → (login_endpoint h email phone password now w).0 ≡ ok (LoginAnswer.tokens pair)
      → IsAdmitted h password now w pair (get_by_email_or_phone email phone w)
  unfolding login_endpoint
  endpoint_cases email phone (err x) f e = ground arith
  endpoint_cases email phone (ok (u, on)) {pair} f e =
      login_cases email phone (get_by_email_or_phone email phone w) {u = u} {on = on} {pair = pair}
        refl f (ground arith)

  -- The login endpoint gives tokens only to the user whom the e-mail or phone number names, with
  -- his password, while he is neither deleted, nor banned, nor suspended, and has no second factor;
  -- both are signed for his id and from now on, an access token for 15 minutes and a refresh token
  -- for 30 days, with two numbers drawn for them.
  pub login_endpoint-IsAdmitted :
      (email phone : Option String) {pair : TokenPair}
      → (login_endpoint h email phone password now w).0 ≡ ok (LoginAnswer.tokens pair)
      → IsAdmitted h password now w pair (get_by_email_or_phone email phone w)
  login_endpoint-IsAdmitted email phone {pair} e =
      endpoint_cases email phone (login h email phone password now w).0 {pair = pair} refl e

abbrev map_sub : Option Claims → Option ℕ
map_sub none = none
map_sub (some c) = some c.sub

-- A user whom the access token names and who is neither deleted nor banned.
abbrev pub IsCurrent : Host → Option String → ℕ → World → User → Type 0
IsCurrent h none now w u = ⊥
IsCurrent h (some token) now w u =
    (map_sub (decode_token h token TokenType.access now) ≡ some u.id)
    × (get_user u.id w ≡ some u)
    × ((is_some u.deleted_at || is_deleted_status u.account_status) ≡ false)
    × ((u.is_banned || is_banned_status u.account_status) ≡ false)

no_token :
    (h : Host) (now : ℕ) (w : World) {u : User} → (get_current_user h none now w).0 ≡ ok u → ⊥
unfolding get_current_user
no_token h now w e = ground arith

user_found :
    (h : Host) (token : String) (now : ℕ) (w : World) (c : Claims) (o : Option User) {u : User}
    → decode_token h token TokenType.access now ≡ some c
    → get_user c.sub w ≡ o
    → (get_current_user h (some token) now w).0 ≡ ok u
    → IsCurrent h (some token) now w u × ((get_current_user h (some token) now w).1 ≡ w)
unfolding get_current_user
user_found h token now w c none d f e = ground arith
user_found h token now w c (some x) d f e =
    ground (arith, ==_sound x.id c.sub (first_sound (λ (y : User). y.id == c.sub) w.users x f))

decoded_user :
    (h : Host) (token : String) (now : ℕ) (w : World) (o : Option Claims) {u : User}
    → decode_token h token TokenType.access now ≡ o
    → (get_current_user h (some token) now w).0 ≡ ok u
    → IsCurrent h (some token) now w u × ((get_current_user h (some token) now w).1 ≡ w)
unfolding get_current_user
decoded_user h token now w none d e = ground arith
decoded_user h token now w (some c) {u} d e =
    user_found h token now w c (get_user c.sub w) {u = u} d refl e

-- A request acts for a user only with an access token that decodes to his id, while he is neither
-- deleted nor banned, and finding him changes nothing.
pub get_current_user-IsCurrent :
    (h : Host) (token : Option String) (now : ℕ) (w : World) {u : User}
    → (get_current_user h token now w).0 ≡ ok u
    → IsCurrent h token now w u × ((get_current_user h token now w).1 ≡ w)
get_current_user-IsCurrent h none now w {u} e = absurd (no_token h now w {u = u} e)
get_current_user-IsCurrent h (some token) now w {u} e =
    decoded_user h token now w (decode_token h token TokenType.access now) {u = u} refl e
