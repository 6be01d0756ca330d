-- ===== src/Accounts/Admin.antt =====
-- The actions of `AdminUserService` (app/services/admin_user_service.py) on a user.
pub mod Guards
pub mod Sessions
use matchmaking_backend.Prelude.{
  ℕ, ◌+◌, Bool, true, false, ◌&&◌, ◌||◌, not, Option, none, some, String, List, [], ◌∷◌, ◌==◌,
  if◌then◌else◌,
}
use matchmaking_backend.Errors.{Error, Code}
use matchmaking_backend.Enums.{
  AccountStatus, UserRole, is_admin_role, is_super_admin, is_deleted_status, role_value,
}
use matchmaking_backend.Models.{or_null, Json, JsonDict, User}
use matchmaking_backend.World.{
  World, Exec, pure, or_raise, raise_if, gets, audit, get_user, minutes, ◌>>=◌, ◌>>◌,
}
use matchmaking_backend.Accounts.Host.{Host}
use matchmaking_backend.Accounts.Users.{set_user}
use matchmaking_backend.Accounts.Tokens.{revoke_all_for_user}
use matchmaking_backend.Accounts.Totp.{admin_reset}

abbrev or_null_number : Option ℕ → Json
or_null_number none = Json.null
or_null_number (some n) = Json.number n

-- `AdminUserService.get_user`.
unfoldable pub find_user : ℕ → Exec User
find_user user_id = do
  found ← gets (get_user user_id)
  or_raise found (Error.not_found Code.user_not_found)

-- `now + timedelta(minutes=...) if duration_minutes else None`.
abbrev pub until : Option ℕ → ℕ → Option ℕ
until none now = none
until (some n) now = if n == 0 then none else some (now + minutes n)

abbrev pub as_suspended : User → String → Option ℕ → ℕ → User → User
as_suspended admin reason duration_minutes now u = record u {
  account_status = AccountStatus.suspended;
  suspended_at = some now;
  suspended_until = until duration_minutes now;
  suspended_reason = some reason;
  suspended_by = some admin.id;
}

unfoldable pub suspend : User → ℕ → String → Option ℕ → Option String → ℕ → Exec (Unit {0})
suspend admin user_id reason duration_minutes notes now = do
  user ← find_user user_id
  raise_if (is_admin_role user.role && not (admin.id == user.id))
      (Error.forbidden Code.forbidden_code)
  raise_if (is_deleted_status user.account_status) (Error.validation Code.account_deleted)
  set_user user.id (as_suspended admin reason duration_minutes now)
  revoke_all_for_user user.id now
  audit "admin.suspend" (some admin.id) "user" (Json.uuid user.id)
      (("reason", Json.text reason)
        ∷ ("duration_minutes", or_null_number duration_minutes)
        ∷ ("notes", or_null notes)
        ∷ [])
      now

abbrev pub as_banned : ℕ → User → User
as_banned now u = record u {
  is_banned = true;
  banned_at = some now;
  account_status = AccountStatus.banned;
}

unfoldable pub ban : User → ℕ → String → Option String → ℕ → Exec (Unit {0})
ban admin user_id reason notes now = do
  user ← find_user user_id
  raise_if (is_admin_role user.role && not (admin.id == user.id))
      (Error.forbidden Code.forbidden_code)
  set_user user.id (as_banned now)
  revoke_all_for_user user.id now
  audit "admin.ban" (some admin.id) "user" (Json.uuid user.id)
      (("reason", Json.text reason) ∷ ("notes", or_null notes) ∷ []) now

abbrev pub as_unbanned : User → User
as_unbanned u = record u {
  is_banned = false;
  banned_at = none;
  account_status = AccountStatus.active;
}

unfoldable pub unban : User → ℕ → ℕ → Exec (Unit {0})
unban admin user_id now = do
  user ← find_user user_id
  set_user user.id as_unbanned
  audit "admin.unban" (some admin.id) "user" (Json.uuid user.id) [] now

abbrev pub as_deleted : ℕ → User → User
as_deleted now u = record u { deleted_at = some now; account_status = AccountStatus.deleted }

unfoldable pub delete_user : User → ℕ → String → Option String → ℕ → Exec (Unit {0})
delete_user admin user_id reason notes now = do
  user ← find_user user_id
  raise_if (is_admin_role user.role) (Error.forbidden Code.forbidden_code)
  set_user user.id (as_deleted now)
  revoke_all_for_user user.id now
  audit "admin.delete_user" (some admin.id) "user" (Json.uuid user.id)
      (("reason", Json.text reason) ∷ ("notes", or_null notes) ∷ []) now

abbrev pub as_restored : User → User
as_restored u = record u { deleted_at = none; account_status = AccountStatus.active }

unfoldable pub restore : User → ℕ → ℕ → Exec (Unit {0})
restore admin user_id now = do
  user ← find_user user_id
  set_user user.id as_restored
  audit "admin.restore_user" (some admin.id) "user" (Json.uuid user.id) [] now

-- The argument `kind`, which is the text "email", "phone" or another.
pub data VerifyKind : Type 0 where
  email phone other : VerifyKind

abbrev pub as_verified : VerifyKind → ℕ → User → User
as_verified VerifyKind.email now u = record u { email_verified_at = some now }
as_verified VerifyKind.phone now u = record u { phone_verified_at = some now }
as_verified VerifyKind.other now u = u

abbrev kind_value : VerifyKind → String
kind_value VerifyKind.email = "email"
kind_value VerifyKind.phone = "phone"
kind_value VerifyKind.other = "other"

abbrev is_other : VerifyKind → Bool
is_other VerifyKind.other = true
is_other _ = false

unfoldable pub verify_user : User → ℕ → VerifyKind → ℕ → Exec (Unit {0})
verify_user admin user_id kind now = do
  user ← find_user user_id
  raise_if (is_other kind) (Error.validation Code.invalid_verify_kind)
  set_user user.id (as_verified kind now)
  audit "admin.verify" (some admin.id) "user" (Json.uuid user.id)
      (("kind", Json.text (kind_value kind)) ∷ []) now

unfoldable pub change_role : User → ℕ → UserRole → ℕ → Exec (Unit {0})
change_role admin user_id new_role now = do
  user ← find_user user_id
  raise_if (user.id == admin.id && is_super_admin user.role && not (is_super_admin new_role))
      (Error.forbidden Code.forbidden_code)
  raise_if (is_super_admin user.role && not (is_super_admin admin.role))
      (Error.forbidden Code.forbidden_code)
  raise_if (is_super_admin new_role && not (is_super_admin admin.role))
      (Error.forbidden Code.forbidden_code)
  set_user user.id (λ u. record u { role = new_role })
  audit "admin.role_change" (some admin.id) "user" (Json.uuid user.id)
      (("old_role", Json.text (role_value user.role))
        ∷ ("new_role", Json.text (role_value new_role))
        ∷ [])
      now

unfoldable pub revoke_sessions : User → ℕ → ℕ → Exec (Unit {0})
revoke_sessions admin user_id now = do
  user ← find_user user_id
  revoke_all_for_user user.id now
  audit "admin.revoke_sessions" (some admin.id) "user" (Json.uuid user.id) [] now

unfoldable pub reset_2fa : Host → User → ℕ → ℕ → Exec (Unit {0})
reset_2fa h admin user_id now = do user ← find_user user_id; admin_reset h admin user.id now
