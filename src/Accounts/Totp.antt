-- ===== src/Accounts/Totp.antt =====
-- `TotpService` of app/services/totp_service.py.
pub mod Recovery
use Prim.Native.String.{◌++◌ as str_append}
use matchmaking_backend.Prelude.{
  ℕ, zero, suc, Bool, true, false, ◌&&◌, not, Option, none, some, String, List, [], ◌∷◌, add, first,
  update, delete, ◌==◌, is_none, if◌then◌else◌, str_eq,
}
use matchmaking_backend.Errors.{Error, Code}
use matchmaking_backend.Models.{Json, User, UserTotpSecret, RecoveryCode}
use matchmaking_backend.World.{
  World, Exec, pure, or_raise, raise_if, gets, modify, gen_uuid, audit, ◌>>=◌, ◌>>◌,
}
use matchmaking_backend.Accounts.Host.{Host}

abbrev pub recovery_code_count : ℕ
recovery_code_count = 8

-- `_get_secret`.
abbrev pub get_secret : ℕ → World → Option UserTotpSecret
get_secret user_id w = first (λ s. s.user_id == user_id) w.totp_secrets

abbrev enabled : Option UserTotpSecret → Bool
enabled none = false
enabled (some s) = s.is_enabled

unfoldable pub is_enabled : ℕ → World → Bool
is_enabled user_id w = enabled (get_secret user_id w)

abbrev pub set_secret : ℕ → (UserTotpSecret → UserTotpSecret) → Exec (Unit {0})
set_secret id f =
    modify (λ w. record w { totp_secrets = update (λ s. s.id == id) f w.totp_secrets })

-- `setup`: a secret of the user is overwritten, or a new one added; neither is enabled.
unfoldable pub put_secret : ℕ → String → Option UserTotpSecret → Exec (Unit {0})
put_secret user_id secret (some s) =
    set_secret s.id (λ r. record r { secret = secret; is_enabled = false })
put_secret user_id secret none = do
  id ← gen_uuid
  modify (λ w. record w {
    totp_secrets =
        add
          (record {
            id = id;
            user_id = user_id;
            secret = secret;
            is_enabled = false;
            last_used_at = none;
          })
          w.totp_secrets;
  })

-- The clause of the query for a code that is not used yet.
abbrev pub is_unused : ℕ → String → RecoveryCode → Bool
is_unused user_id code_hash r =
    r.user_id == user_id && str_eq r.code_hash code_hash && is_none r.used_at

module _ (h : Host) where
  -- `_hash_code`.
  abbrev pub hash_code : String → String
  hash_code code = h.sha256 code

  -- `_generate_recovery_codes`: one code, from two draws.
  unfoldable pub recovery_code : ℕ → ℕ → String
  recovery_code m n = str_append "MYT-" (str_append (h.choice_4 m) (str_append "-" (h.choice_4 n)))

  -- The loop that draws the codes and stores their hashes.
  unfoldable pub add_codes : ℕ → ℕ → ℕ → Exec (List String)
  add_codes zero user_id now = pure []
  add_codes (suc n) user_id now = do
    a ← gen_uuid
    b ← gen_uuid
    id ← gen_uuid
    let code = recovery_code a b
    modify (λ w. record w {
      recovery_codes =
          add
            (record {
              id = id;
              user_id = user_id;
              code_hash = hash_code (h.upper code);
              used_at = none;
              created_at = now;
            })
            w.recovery_codes;
    })
    codes ← add_codes n user_id now
    pure (code ∷ codes)

  -- `_replace_recovery_codes`.
  unfoldable pub replace_recovery_codes : ℕ → ℕ → Exec (List String)
  replace_recovery_codes user_id now = do
    modify (λ w. record w { recovery_codes = delete (λ r. r.user_id == user_id) w.recovery_codes })
    add_codes recovery_code_count user_id now

  unfoldable pub setup : User → ℕ → Exec (String × List String)
  setup user now = do
    existing ← gets (get_secret user.id)
    draw ← gen_uuid
    put_secret user.id (h.random_base32 draw) existing
    codes ← replace_recovery_codes user.id now
    audit "totp.setup" (some user.id) "user" (Json.uuid user.id) [] now
    pure (h.random_base32 draw, codes)

  -- `_verify_code`.
  abbrev pub verify_code : String → String → ℕ → Bool
  verify_code secret code now = h.totp_verify secret (h.strip code) now

  unfoldable pub enable : User → String → ℕ → Exec (Unit {0})
  enable user code now = do
    found ← gets (get_secret user.id)
    s ← or_raise found (Error.validation Code.totp_not_setup)
    raise_if (not (verify_code s.secret code now)) (Error.unauthorized Code.invalid_totp)
    set_secret s.id (λ r. record r { is_enabled = true; last_used_at = some now })
    audit "totp.enabled" (some user.id) "user" (Json.uuid user.id) [] now

  abbrev pub password_matches : Option String → String → Bool
  password_matches none password = false
  password_matches (some String.[]) password = false
  password_matches (some hash) password = h.verify_password password hash

  abbrev switch_off : User → Option UserTotpSecret → ℕ → Exec (Unit {0})
  switch_off user none now = pure tt
  switch_off user (some s) now = do
    set_secret s.id (λ r. record r { is_enabled = false })
    audit "totp.disabled" (some user.id) "user" (Json.uuid user.id) [] now

  unfoldable pub disable : User → String → ℕ → Exec (Unit {0})
  disable user password now = do
    raise_if (not (password_matches user.password_hash password))
        (Error.unauthorized Code.invalid_password)
    found ← gets (get_secret user.id)
    switch_off user found now

  abbrev reset_secret : Option UserTotpSecret → Exec (Unit {0})
  reset_secret none = pure tt
  reset_secret (some s) = set_secret s.id (λ r. record r { is_enabled = false })

  unfoldable pub admin_reset : User → ℕ → ℕ → Exec (Unit {0})
  admin_reset admin user_id now = do
    found ← gets (get_secret user_id)
    reset_secret found
    replace_recovery_codes user_id now
    audit "admin.totp_reset" (some admin.id) "user" (Json.uuid user_id) [] now

  abbrev use_code : Option RecoveryCode → ℕ → Exec Bool
  use_code none now = pure false
  use_code (some r) now = do
    modify (λ w. record w {
      recovery_codes =
          update (λ c. c.id == r.id) (λ c. record c { used_at = some now }) w.recovery_codes;
    })
    pure true

  -- `_consume_recovery_code`.
  unfoldable pub consume_recovery_code : ℕ → String → ℕ → Exec Bool
  consume_recovery_code user_id code now = do
    found ←
        gets (λ w. first (is_unused user_id (hash_code (h.upper (h.strip code)))) w.recovery_codes)
    use_code found now

  abbrev verify_with : User → String → ℕ → Option UserTotpSecret → Exec Bool
  verify_with user code now none = pure false
  verify_with user code now (some s) =
      if not s.is_enabled
      then pure false
      else if verify_code s.secret code now
      then (do set_secret s.id (λ r. record r { last_used_at = some now }); pure true)
      else consume_recovery_code user.id code now

  unfoldable pub verify : User → String → ℕ → Exec Bool
  verify user code now = do found ← gets (get_secret user.id); verify_with user code now found
