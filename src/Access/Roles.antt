-- ===== src/Access/Roles.antt =====
-- `PermissionService` of app/services/permission_service.py.
pub mod Grants
pub mod SuperAdmin
use matchmaking_backend.Prelude.{
  ℕ, Bool, not, String, List, [], ◌∷◌, ◌++◌, ◌==◌, some, map, select, delete, if◌then◌else◌,
  contains, contains_all, sorted_set,
}
use matchmaking_backend.Errors.{Error, Code}
use matchmaking_backend.Enums.{UserRole, role_index, role_value, is_super_admin}
use matchmaking_backend.Models.{Json, User, RolePermission}
use matchmaking_backend.World.{World, Exec, pure, raise_if, modify, gen_uuid, audit, ◌>>=◌, ◌>>◌}
use matchmaking_backend.Access.Permissions.{all_permissions, permissions_for_role_default}

abbrev pub is_row_of : UserRole → RolePermission → Bool
is_row_of role r = role_index r.role == role_index role

abbrev pub stored_permissions : UserRole → World → List String
stored_permissions role w = map (λ r. r.permission) (select (is_row_of role) w.role_permissions)

-- `if rows: return set(rows)`, else the default.
abbrev pub or_default : UserRole → List String → List String
or_default role [] = permissions_for_role_default role
or_default role (p ∷ ps) = p ∷ ps

unfoldable pub permissions_for_role : UserRole → World → List String
permissions_for_role role w = or_default role (stored_permissions role w)

unfoldable pub has_permission : User → String → World → Bool
has_permission user permission w = contains permission (permissions_for_role user.role w)

-- The loop that adds a row for each permission.
unfoldable pub add_rows : UserRole → List String → Exec (Unit {0})
add_rows role [] = pure tt
add_rows role (p ∷ ps) = do
  id ← gen_uuid
  modify (λ w. record w {
    role_permissions = w.role_permissions ++ record { id = id; role = role; permission = p } ∷ [];
  })
  add_rows role ps

-- What is stored: SUPER_ADMIN cannot be stripped of anything.
abbrev pub granted : UserRole → List String → List String
granted role permissions = sorted_set (if is_super_admin role then all_permissions else permissions)

unfoldable pub set_permissions_for_role : User → UserRole → List String → ℕ → Exec (List String)
set_permissions_for_role actor role permissions now = do
  raise_if (not (contains_all permissions all_permissions))
      (Error.validation Code.invalid_permission)
  modify λ w. record w { role_permissions = delete (is_row_of role) w.role_permissions }
  add_rows role (granted role permissions)
  audit "admin.role_permissions_update" (some actor.id) "role_permission"
      (Json.text (role_value role)) (("permissions", Json.texts (granted role permissions)) ∷ [])
      now
  pure (granted role permissions)
