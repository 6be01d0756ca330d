-- ===== src/Accounts/Users.antt =====
-- The lookups of `UserRepository` (app/repositories/user_repo.py) and the creation of a user.
use matchmaking_backend.Prelude.{
  ℕ, Bool, false, ◌&&◌, ◌||◌, Option, none, some, String, List, add, first, exists, update, ◌==◌,
  is_none, str_eq,
}
use matchmaking_backend.Errors.{Error, Fault}
use matchmaking_backend.Enums.{AccountStatus, UserRole}
use matchmaking_backend.Models.{User}
use matchmaking_backend.World.{World, Exec, pure, raise_if, gets, modify, gen_uuid, ◌>>=◌, ◌>>◌}

-- A text that is given and not empty.
abbrev pub truthy : Option String → Option String
truthy none = none
truthy (some String.[]) = none
truthy (some s) = some s

-- A column equals a value.
abbrev pub is_text : Option String → String → Bool
is_text none s = false
is_text (some t) s = str_eq t s

abbrev pub has_email : String → User → Bool
has_email email u = is_text u.email email && is_none u.deleted_at

abbrev pub has_phone : String → User → Bool
has_phone phone u = is_text u.phone_number phone && is_none u.deleted_at

abbrev pub get_by_email : String → World → Option User
get_by_email email w = first (has_email email) w.users

abbrev pub get_by_phone : String → World → Option User
get_by_phone phone w = first (has_phone phone) w.users

abbrev find_by : Option String → Option String → World → Option User
find_by (some email) (some phone) w =
    first (λ u. (is_text u.email email || is_text u.phone_number phone) && is_none u.deleted_at)
      w.users
find_by (some email) none w = get_by_email email w
find_by none (some phone) w = get_by_phone phone w
find_by none none w = none

unfoldable pub get_by_email_or_phone : Option String → Option String → World → Option User
get_by_email_or_phone email phone w = find_by (truthy email) (truthy phone) w

-- The unique constraints of `users.email` and `users.phone_number`; a NULL clashes with nothing.
abbrev pub clashes : (User → Option String) → Option String → List User → Bool
clashes column none us = false
clashes column (some s) us = exists (λ u. is_text (column u) s) us

abbrev pub new_user : ℕ → Option String → Option String → String → UserRole → ℕ → User
new_user id email phone password_hash role now = record {
  id = id;
  phone_number = phone;
  email = email;
  password_hash = some password_hash;
  phone_verified_at = none;
  email_verified_at = none;
  account_status = AccountStatus.active;
  role = role;
  is_banned = false;
  banned_at = none;
  suspended_at = none;
  suspended_until = none;
  suspended_reason = none;
  suspended_by = none;
  last_login_at = none;
  last_active_at = none;
  created_at = now;
  deleted_at = none;
}

unfoldable pub create_user : Option String → Option String → String → UserRole → ℕ → Exec User
create_user email phone password_hash role now = do
  id ← gen_uuid
  phone_taken ← gets (λ w. clashes (λ u. u.phone_number) phone w.users)
  raise_if phone_taken (Error.fault Fault.uq_user_phone)
  email_taken ← gets (λ w. clashes (λ u. u.email) email w.users)
  raise_if email_taken (Error.fault Fault.uq_user_email)
  let u = new_user id email phone password_hash role now
  modify (λ w. record w { users = add u w.users })
  pure u

-- Assignments to the attributes of one user.
abbrev pub set_user : ℕ → (User → User) → Exec (Unit {0})
set_user id f = modify (λ w. record w { users = update (λ u. u.id == id) f w.users })
