-- ===== src/Accounts/Totp/Recovery.antt =====
-- `_consume_recovery_code` of app/services/totp_service.py.
use matchmaking_backend.Prelude.{
  ℕ, ◌<◌, ◌≤◌, ◌≡◌, refl, Bool, true, false, Option, none, some, String, List, [], ◌∷◌, arith,
  first, update, count_where, ◌==◌, ==_refl,
}
use matchmaking_backend.Errors.{Result, ok, err}
use matchmaking_backend.Models.{RecoveryCode}
use matchmaking_backend.World.{World}
use matchmaking_backend.Accounts.Host.{Host}
use matchmaking_backend.Accounts.Totp.{is_unused, hash_code, consume_recovery_code}

abbrev used : ℕ → ℕ → List RecoveryCode → List RecoveryCode
used k now rs = update (λ c. c.id == k) (λ c. record c { used_at = some now }) rs

used-le :
    (u k now : ℕ) (hash : String) (rs : List RecoveryCode)
    → count_where (is_unused u hash) (used k now rs) ≤ count_where (is_unused u hash) rs
used-le u k now hash [] = omega arith
used-le u k now hash (r ∷ rs) = ground (arith, used-le u k now hash rs)

used-lt :
    (u now : ℕ) (hash : String) (rs : List RecoveryCode) {r : RecoveryCode}
    → first (is_unused u hash) rs ≡ some r
    → count_where (is_unused u hash) (used r.id now rs) < count_where (is_unused u hash) rs
used-lt u now hash [] e = ground arith
used-lt u now hash (x ∷ xs) {r} e =
    ground (arith, used-lt u now hash xs {r = r}, used-le u r.id now hash xs, ==_refl r.id)

none_unused :
    (u : ℕ) (hash : String) (rs : List RecoveryCode)
    → first (is_unused u hash) rs ≡ none
    → count_where (is_unused u hash) rs ≡ 0
none_unused u hash [] e = refl
none_unused u hash (x ∷ xs) e = ground (arith, none_unused u hash xs)

-- The unused codes of a user with a hash, before and after a code was tried.
abbrev pub IsCounted : ℕ → String → World → Result Bool × World → Type 0
IsCounted u hash w (ok true, w') =
    count_where (is_unused u hash) w'.recovery_codes
    < count_where (is_unused u hash) w.recovery_codes
IsCounted u hash w (ok false, w') = (count_where (is_unused u hash) w.recovery_codes ≡ 0) × (w' ≡ w)
IsCounted u hash w (err e, w') = ⊥

module _ (h : Host) (u : ℕ) (code : String) (now : ℕ) (w : World) where
  abbrev pub hash_of : String
  hash_of = hash_code h (h.upper (h.strip code))

  consume_cases :
      (o : Option RecoveryCode)
      → first (is_unused u hash_of) w.recovery_codes ≡ o
      → IsCounted u hash_of w (consume_recovery_code h u code now w)
  unfolding consume_recovery_code
  consume_cases none e = rw e (none_unused u hash_of w.recovery_codes e, refl)
  consume_cases (some r) e = rw e (used-lt u now hash_of w.recovery_codes {r = r} e)

  -- A recovery code that is accepted is used up: the user then has fewer unused codes of its hash
  -- than before; where it is not accepted he had none, and nothing changes.
  pub consume_recovery_code-count_where :
      IsCounted u hash_of w (consume_recovery_code h u code now w)
  consume_recovery_code-count_where =
      consume_cases (first (is_unused u hash_of) w.recovery_codes) refl
