-- ===== src/Accounts/Tokens/Revocation.antt =====
-- Rotation and revocation of refresh tokens (app/services/auth_service.py).
use matchmaking_backend.Prelude.{
  ℕ, ◌+◌, ◌≡◌, ◌≢◌, refl, ap, true, false, ◌&&◌, Option, none, some, List, [], ◌∷◌, arith, first,
  exists, exists-add, first-exists, first-add, add, update, ◌==◌, is_none, String,
}
use matchmaking_backend.Errors.{Result, ok, err, unauthorized, fault, token_revoked, token_error}
use matchmaking_backend.Models.{RefreshTokenRecord}
use matchmaking_backend.World.{World, days}
use matchmaking_backend.Accounts.Host.{Host, Claims, TokenType}
use matchmaking_backend.Accounts.Tokens.{
  TokenPair, is_active_token, get_active, new_record, create_record, revoked, usable,
  revoke_all_for_user, decode_token, create_token_pair, replace, refresh, refresh_token_expire_days,
}

-- No two records have one jti, as the unique constraint says.
abbrev pub UniqueJti : List RefreshTokenRecord → Type 0
UniqueJti [] = Unit {0}
UniqueJti (r ∷ rs) = (exists (λ (s : RefreshTokenRecord). s.jti == r.jti) rs ≡ false) × UniqueJti rs

-- After the user's records are revoked, none that is active is the user's.
no_active_of_user :
    (u jti now : ℕ) (rs : List RefreshTokenRecord) {r : RefreshTokenRecord}
    → first
        (is_active_token jti)
        (update (λ s. s.user_id == u && is_none s.revoked_at) (revoked now none) rs)
      ≡ some r
    → (r.user_id == u) ≡ false
no_active_of_user u jti now [] e = cc
no_active_of_user u jti now (x ∷ xs) {r} e = ground (arith, no_active_of_user u jti now xs {r = r})

usable-none :
    (u now : ℕ) (o : Option RefreshTokenRecord)
    → ((r : RefreshTokenRecord) → o ≡ some r → (r.user_id == u) ≡ false)
    → usable u now o ≡ none
usable-none u now none f = refl
usable-none u now (some r) f = rw (f r refl)

pub refresh_refused :
    (h : Host) (token : String) (now : ℕ) (w : World) {c : Claims}
    → decode_token h token TokenType.refresh now ≡ some c
    → usable c.sub now (get_active c.jti w) ≡ none
    → refresh h token now w ≡ (err (unauthorized token_revoked), w)
unfolding refresh
refresh_refused h token now w d e = ground arith

-- Once the user's records are revoked, as some action leaves them, none of his tokens is accepted.
pub refresh_where_revoked :
    (h : Host) (u now later : ℕ) (w w' : World) (token : String) {c : Claims}
    → decode_token h token TokenType.refresh later ≡ some c
    → c.sub ≡ u
    → w'.refresh_tokens
      ≡ update (λ r. r.user_id == u && is_none r.revoked_at) (revoked now none) w.refresh_tokens
    → (refresh h token later w').0 ≡ err (unauthorized token_revoked)
refresh_where_revoked h u now later w w' token {c} d s gone =
    let unusable = usable-none u later _ λ r e. no_active_of_user u c.jti now w.refresh_tokens e in
    rw (refresh_refused h token later w' d (rw gone (rw s unusable)))

-- A refresh token of the user that decodes is answered by TOKEN_REVOKED right after all his tokens
-- are revoked.
pub refresh_after_revoke_all :
    (h : Host) (u now later : ℕ) (w : World) (token : String) {c : Claims}
    → decode_token h token TokenType.refresh later ≡ some c
    → c.sub ≡ u
    → (refresh h token later (revoke_all_for_user u now w).1).0 ≡ err (unauthorized token_revoked)
unfolding revoke_all_for_user
refresh_after_revoke_all h u now later w token {c} d s =
    refresh_where_revoked h u now later w (revoke_all_for_user u now w).1 token {c = c} d s refl

absent_after_revoke :
    (k : ℕ) (by : Option ℕ) (jti now : ℕ) (rs : List RefreshTokenRecord)
    → exists (λ (s : RefreshTokenRecord). s.jti == jti) rs ≡ false
    → first (is_active_token jti) (update (λ s. s.id == k) (revoked now by) rs) ≡ none
absent_after_revoke k by jti now [] e = refl
absent_after_revoke k by jti now (x ∷ xs) e = ground (arith, absent_after_revoke k by jti now xs)

-- Ending a record of the only row with its jti leaves none active.
none_active_after_revoke :
    (k : ℕ) (by : Option ℕ) (jti now : ℕ) (rs : List RefreshTokenRecord) {r : RefreshTokenRecord}
    → UniqueJti rs
    → first (is_active_token jti) rs ≡ some r
    → r.id ≡ k
    → first (is_active_token jti) (update (λ s. s.id == k) (revoked now by) rs) ≡ none
none_active_after_revoke k by jti now [] u e i = refl
none_active_after_revoke k by jti now (x ∷ xs) {r} u e i = ground (
  arith,
  none_active_after_revoke k by jti now xs {r = r} u.1,
  absent_after_revoke k by jti now xs,
)

UniqueJti-add :
    (r : RefreshTokenRecord) (rs : List RefreshTokenRecord)
    → UniqueJti rs
    → exists (λ (s : RefreshTokenRecord). s.jti == r.jti) rs ≡ false
    → UniqueJti (add r rs)
UniqueJti-add r [] u e = (refl, tt)
UniqueJti-add r (x ∷ xs) u e =
    ground
      (arith, UniqueJti-add r xs u.1, exists-add (λ (s : RefreshTokenRecord). s.jti == x.jti) r xs)

active_exists :
    (jti : ℕ) (rs : List RefreshTokenRecord) {r : RefreshTokenRecord}
    → first (is_active_token jti) rs ≡ some r
    → exists (is_active_token jti) rs ≡ true
active_exists jti rs e = ground (arith, first-exists (is_active_token jti) rs)

-- The tokens after `create_token_pair` and `replace`, and what is answered.
module _ (h : Host) (now : ℕ) where
  replace_revokes :
      (r : RefreshTokenRecord) (pair : TokenPair) (jti : ℕ) (w : World) (o : Option Claims)
      → decode_token h pair.refresh_token TokenType.refresh now ≡ o
      → UniqueJti w.refresh_tokens
      → get_active jti w ≡ some r
      → (replace h r pair now w).0 ≢ err (fault token_error)
      → get_active jti (replace h r pair now w).1 ≡ none
  unfolding replace
  replace_revokes r pair jti w none d unique a e = ground arith
  replace_revokes r pair jti w (some c) d unique a e =
      ground (arith, none_active_after_revoke r.id (some c.jti) jti now w.refresh_tokens unique a)

  replace_ok :
      (r : RefreshTokenRecord) (pair : TokenPair) (w : World) {q : TokenPair}
      → (replace h r pair now w).0 ≡ ok q
      → (replace h r pair now w).0 ≢ err (fault token_error)
  replace_ok r pair w e = cc

  create_token_pair_keeps :
      (u jti : ℕ) (w : World) {r : RefreshTokenRecord}
      → UniqueJti w.refresh_tokens
      → get_active jti w ≡ some r
      → UniqueJti (create_token_pair h u now w).1.refresh_tokens
        × (get_active jti (create_token_pair h u now w).1 ≡ some r)
  unfolding create_token_pair create_record
  create_token_pair_keeps u jti w unique a =
      let n =
        new_record (w.uuid4 (w.drawn + 1 + 1)) u (w.uuid4 (w.drawn + 1))
          (now + days refresh_token_expire_days) now in
      ground (
        arith,
        first-add (is_active_token jti) n w.refresh_tokens,
        active_exists jti w.refresh_tokens a,
        UniqueJti-add n w.refresh_tokens unique,
      )

  usable-some :
      (u : ℕ) (o : Option RefreshTokenRecord) {r : RefreshTokenRecord}
      → usable u now o ≡ some r
      → o ≡ some r
  usable-some u none e = ground arith
  usable-some u (some x) e = ground arith

  refresh_found :
      (token : String) (w : World) (c : Claims) (r : RefreshTokenRecord) (made : Result TokenPair)
      {pair : TokenPair}
      → UniqueJti w.refresh_tokens
      → decode_token h token TokenType.refresh now ≡ some c
      → get_active c.jti w ≡ some r
      → (create_token_pair h c.sub now w).0 ≡ made
      → (refresh h token now w).0 ≡ ok pair
      → get_active c.jti (refresh h token now w).1 ≡ none
  unfolding refresh
  refresh_found token w c r (err x) unique d a m e = ground arith
  refresh_found token w c r (ok p) {pair} unique d a m e =
      let w' = (create_token_pair h c.sub now w).1 in
      let kept = create_token_pair_keeps c.sub c.jti w {r = r} unique a in
      ground (
        arith,
        replace_revokes r p c.jti w' (decode_token h p.refresh_token TokenType.refresh now) refl
            kept.0 kept.1,
        replace_ok r p w' {q = pair},
      )

  refresh_missing :
      (token : String) (w : World) (c : Claims) {pair : TokenPair}
      → decode_token h token TokenType.refresh now ≡ some c
      → get_active c.jti w ≡ none
      → (refresh h token now w).0 ≢ ok pair
  unfolding refresh
  refresh_missing token w c d a = ground arith

  refresh_revokes :
      (token : String) (w : World) (c : Claims) (o : Option RefreshTokenRecord) {pair : TokenPair}
      → get_active c.jti w ≡ o
      → UniqueJti w.refresh_tokens
      → decode_token h token TokenType.refresh now ≡ some c
      → (refresh h token now w).0 ≡ ok pair
      → get_active c.jti (refresh h token now w).1 ≡ none
  refresh_revokes token w c none {pair} a unique d e =
      absurd (refresh_missing token w c {pair = pair} d a e)
  refresh_revokes token w c (some r) a unique d e =
      refresh_found token w c r ((create_token_pair h c.sub now w).0) unique d a refl e

  -- While no two records have one jti, a refresh that returned makes its refresh token useless:
  -- presented next, while it decodes to the same claims, it is answered by TOKEN_REVOKED.
  pub refresh_once :
      (token : String) (later : ℕ) (w : World) {c : Claims} {pair : TokenPair}
      → UniqueJti w.refresh_tokens
      → decode_token h token TokenType.refresh now ≡ some c
      → decode_token h token TokenType.refresh later ≡ some c
      → (refresh h token now w).0 ≡ ok pair
      → (refresh h token later (refresh h token now w).1).0 ≡ err (unauthorized token_revoked)
  refresh_once token later w {c} {pair} unique d d' e =
      let gone = refresh_revokes token w c (get_active c.jti w) {pair = pair} refl unique d e in
      rw (refresh_refused h token later (refresh h token now w).1 d' (ap (usable c.sub later) gone))
