-- ===== src/Accounts/Admins.antt =====
-- The endpoints on administrators of app/api/v1/admin_admin_users.py, each with the commit of its
-- request.
use matchmaking_backend.Prelude.{
  ℕ, ◌==◌, ◌≡◌, ◌&&◌, Bool, true, false, not, Option, none, some, String, [], ◌∷◌, add, arith,
}
use matchmaking_backend.Errors.{Error, Code, ok}
use matchmaking_backend.Enums.{AccountStatus, UserRole, is_super_admin, role_value}
use matchmaking_backend.Models.{or_null, Json, User}
use matchmaking_backend.World.{World, Exec, pure, or_raise, raise_if, gets, audit, ◌>>=◌, ◌>>◌}
use matchmaking_backend.Accounts.Host.{Host}
use matchmaking_backend.Accounts.Users.{truthy, get_by_email, create_user, set_user}
use matchmaking_backend.Accounts.Tokens.{revoke_all_for_user}
use matchmaking_backend.Accounts.Admin.{find_user, change_role}

module _ (h : Host) where
  -- `create_admin` behind the lookup of the e-mail. The schema of the payload admits every role but
  -- USER.
  unfoldable pub create_or_promote :
      User → String → Option String → UserRole → ℕ → Option User → Exec User
  create_or_promote admin email password role now none = do
    given ← or_raise (truthy password) (Error.validation Code.password_required)
    create_user (some (h.lower email)) none (h.hash_password given) role now
  create_or_promote admin email password role now (some user) = do
    raise_if (is_super_admin user.role && not (is_super_admin admin.role))
        (Error.forbidden Code.forbidden_code)
    raise_if (is_super_admin role && not (is_super_admin admin.role))
        (Error.forbidden Code.forbidden_code)
    set_user user.id (λ u. record u { role = role })
    pure (record user { role = role })

  unfoldable pub create_admin : User → String → Option String → UserRole → ℕ → Exec User
  create_admin admin email password role now = do
    found ← gets (get_by_email email)
    user ← create_or_promote admin email password role now found
    audit "admin.admin_created" (some admin.id) "user" (Json.uuid user.id)
        (("email", Json.text email) ∷ ("role", Json.text (role_value role)) ∷ []) now
    pure user

-- `new_role not in ADMIN_ROLE_NAMES`, for a role.
abbrev is_admin_name : UserRole → Bool
is_admin_name UserRole.user = false
is_admin_name _ = true

-- The role of the payload, where its text is one.
unfoldable pub change_admin_role : User → ℕ → Option UserRole → ℕ → Exec (Unit {0})
change_admin_role admin user_id new_role now = do
  role ← or_raise new_role (Error.validation Code.invalid_role)
  raise_if (not (is_admin_name role)) (Error.validation Code.invalid_role)
  change_role admin user_id role now

-- `payload.get("reason", "Admin account disabled")`.
abbrev reason_or : Option String → String
reason_or none = "Admin account disabled"
reason_or (some s) = s

unfoldable pub disable_admin : User → ℕ → Option String → ℕ → Exec (Unit {0})
disable_admin admin user_id reason now = do
  target ← find_user user_id
  raise_if (target.id == admin.id) (Error.forbidden Code.forbidden_code)
  raise_if (is_super_admin target.role && not (is_super_admin admin.role))
      (Error.forbidden Code.forbidden_code)
  set_user target.id (λ u. record u {
    account_status = AccountStatus.suspended;
    suspended_reason = some (reason_or reason);
    suspended_by = some admin.id;
  })
  revoke_all_for_user target.id now
  audit "admin.admin_disabled" (some admin.id) "user" (Json.uuid user_id)
      (("reason", or_null reason) ∷ []) now

unfoldable pub enable_admin : User → ℕ → ℕ → Exec (Unit {0})
enable_admin admin user_id now = do
  target ← find_user user_id
  set_user target.id
      (λ u. record u { account_status = AccountStatus.active; suspended_until = none })
  audit "admin.admin_enabled" (some admin.id) "user" (Json.uuid user_id) [] now

-- Where create_admin, asked for a SUPER_ADMIN by one who is none, returns, no account had the
-- e-mail, and the table has one row more: the answered user, who is a SUPER_ADMIN.
pub create_admin_by_lesser :
    (h : Host) (admin : User) (email password : String) (now : ℕ) (w : World) {u : User}
    → is_super_admin admin.role ≡ false
    → (create_admin h admin email (some password) UserRole.super_admin now w).0 ≡ ok u
    → (get_by_email email w ≡ none)
      × (is_super_admin u.role ≡ true)
      × ((create_admin h admin email (some password) UserRole.super_admin now w).1.users
          ≡ add u w.users)
unfolding create_admin create_or_promote create_user
create_admin_by_lesser h admin email password now w lesser e = ground arith
