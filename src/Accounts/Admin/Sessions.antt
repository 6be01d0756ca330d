-- ===== src/Accounts/Admin/Sessions.antt =====
-- The sessions of a user under `suspend`, `ban` and `delete_user` of app/services/admin_user_service.py.
use matchmaking_backend.Prelude.{
  ℕ, ◌≡◌, refl, ◌&&◌, Option, none, some, String, arith, first_sound, update, is_none, ◌==◌,
}
use matchmaking_backend.Errors.{ok, err, unauthorized, token_revoked}
use matchmaking_backend.Models.{User}
use matchmaking_backend.World.{World, get_user}
use matchmaking_backend.Accounts.Host.{Host, Claims, TokenType}
use matchmaking_backend.Accounts.Tokens.{revoked, decode_token, refresh, revoke_all_for_user}
use matchmaking_backend.Accounts.Tokens.Revocation.{refresh_where_revoked}
use matchmaking_backend.Accounts.Admin.{find_user, suspend, ban, delete_user}

-- The tokens of a user are revoked in the second world.
abbrev HasRevoked : ℕ → ℕ → World → World → Type 0
HasRevoked id now w w' =
    w'.refresh_tokens
    ≡ update (λ r. r.user_id == id && is_none r.revoked_at) (revoked now none) w.refresh_tokens

module _ (admin : User) (id : ℕ) (reason : String) (notes : Option String) (now : ℕ)
    (w : World) where
  suspended :
      (duration : Option ℕ) (o : Option User)
      → get_user id w ≡ o
      → (suspend admin id reason duration notes now w).0 ≡ ok tt
      → HasRevoked id now w (suspend admin id reason duration notes now w).1
  unfolding suspend find_user revoke_all_for_user
  suspended duration none f h = ground arith
  suspended duration (some u) f h =
      ground (arith, first_sound (λ (x : User). x.id == id) w.users u f)

  banned :
      (o : Option User)
      → get_user id w ≡ o
      → (ban admin id reason notes now w).0 ≡ ok tt
      → HasRevoked id now w (ban admin id reason notes now w).1
  unfolding ban find_user revoke_all_for_user
  banned none f h = ground arith
  banned (some u) f h = ground (arith, first_sound (λ (x : User). x.id == id) w.users u f)

  deleted :
      (o : Option User)
      → get_user id w ≡ o
      → (delete_user admin id reason notes now w).0 ≡ ok tt
      → HasRevoked id now w (delete_user admin id reason notes now w).1
  unfolding delete_user find_user revoke_all_for_user
  deleted none f h = ground arith
  deleted (some u) f h = ground (arith, first_sound (λ (x : User). x.id == id) w.users u f)

  module _ (host : Host) (token : String) (later : ℕ) where
    -- A refresh token of the user that decodes is answered by TOKEN_REVOKED right after a
    -- suspension that returned.
    pub suspend_ends_sessions :
        (duration : Option ℕ) {c : Claims}
        → decode_token host token TokenType.refresh later ≡ some c
        → c.sub ≡ id
        → (suspend admin id reason duration notes now w).0 ≡ ok tt
        → (refresh host token later (suspend admin id reason duration notes now w).1).0
          ≡ err (unauthorized token_revoked)
    suspend_ends_sessions duration {c} d s h =
        let gone = suspended duration (get_user id w) refl h in
        refresh_where_revoked host id now later w _ token {c = c} d s gone

    -- A refresh token of the user that decodes is answered by TOKEN_REVOKED right after a ban that
    -- returned.
    pub ban_ends_sessions :
        {c : Claims}
        → decode_token host token TokenType.refresh later ≡ some c
        → c.sub ≡ id
        → (ban admin id reason notes now w).0 ≡ ok tt
        → (refresh host token later (ban admin id reason notes now w).1).0
          ≡ err (unauthorized token_revoked)
    ban_ends_sessions {c} d s h =
        let gone = banned (get_user id w) refl h in
        refresh_where_revoked host id now later w _ token {c = c} d s gone

    -- A refresh token of the user that decodes is answered by TOKEN_REVOKED right after a deletion
    -- that returned.
    pub delete_ends_sessions :
        {c : Claims}
        → decode_token host token TokenType.refresh later ≡ some c
        → c.sub ≡ id
        → (delete_user admin id reason notes now w).0 ≡ ok tt
        → (refresh host token later (delete_user admin id reason notes now w).1).0
          ≡ err (unauthorized token_revoked)
    delete_ends_sessions {c} d s h =
        let gone = deleted (get_user id w) refl h in
        refresh_where_revoked host id now later w _ token {c = c} d s gone
