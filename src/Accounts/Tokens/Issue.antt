-- ===== src/Accounts/Tokens/Issue.antt =====
-- What a pair of `create_token_pair` (app/services/auth_service.py) is read back as.
use matchmaking_backend.Prelude.{
  ℕ, ◌+◌, ◌<◌, ◌≤◌, ◌≡◌, refl, true, false, none, some, arith, is_some, first-add, exists, ◌==◌,
  ==_refl, List, [], ◌∷◌,
}
use matchmaking_backend.Errors.{ok}
use matchmaking_backend.Models.{RefreshTokenRecord}
use matchmaking_backend.World.{World, days}
use matchmaking_backend.Accounts.Host.{Host, JwtLaws, Claims, TokenType}
use matchmaking_backend.Accounts.Tokens.{
  TokenPair, is_active_token, get_active, new_record, create_record, usable, create_token,
  decode_token, create_token_pair, refresh_token_expire_days,
}

-- A `jti` that no record has is of no active record.
no_active :
    (jti : ℕ) (rs : List RefreshTokenRecord)
    → exists (λ (r : RefreshTokenRecord). r.jti == jti) rs ≡ false
    → exists (is_active_token jti) rs ≡ false
no_active jti [] e = refl
no_active jti (x ∷ xs) e = ground (arith, no_active jti xs)

module _ (h : Host) (u now later : ℕ) (w : World) where
  abbrev pub refresh_claims : Claims
  refresh_claims = record {
    sub = u;
    type = TokenType.refresh;
    iat = now;
    exp = now + days refresh_token_expire_days;
    jti = w.uuid4 (w.drawn + 1);
  }

  issued_usable :
      {pair : TokenPair}
      → later < now + days refresh_token_expire_days
      → (create_token_pair h u now w).0 ≡ ok pair
      → (pair.refresh_token ≡ h.jwt_encode refresh_claims)
        × (is_some
              (usable u later (get_active (w.uuid4 (w.drawn + 1)) (create_token_pair h u now w).1))
            ≡ true)
  unfolding create_token_pair create_record create_token
  issued_usable lt e =
      let jti = w.uuid4 (w.drawn + 1) in
      let n =
        new_record (w.uuid4 (w.drawn + 1 + 1)) u jti (now + days refresh_token_expire_days) now in
      ground (
        arith,
        ==_refl u,
        ==_refl jti,
        no_active jti w.refresh_tokens,
        first-add (is_active_token jti) n w.refresh_tokens,
      )

  -- With a JWT library that keeps its laws, the refresh token of an issued pair is read back as the
  -- user's from its issue until its 30 days are over and its record is accepted, and it never
  -- passes for an access or MFA token.
  pub create_token_pair-decode_token :
      {pair : TokenPair}
      → JwtLaws h
      → now ≤ later
      → later < now + days refresh_token_expire_days
      → (create_token_pair h u now w).0 ≡ ok pair
      → (decode_token h pair.refresh_token TokenType.refresh later ≡ some refresh_claims)
        × (decode_token h pair.refresh_token TokenType.access later ≡ none)
        × (decode_token h pair.refresh_token TokenType.mfa later ≡ none)
        × (is_some (usable u later (get_active refresh_claims.jti (create_token_pair h u now w).1))
            ≡ true)
  unfolding decode_token
  create_token_pair-decode_token {pair} laws le lt e =
      let (same, good) = issued_usable {pair = pair} lt e in
      let back = laws.decode-encode refresh_claims later le lt in
      (rw same (rw back refl), rw same (rw back refl), rw same (rw back refl), good)
