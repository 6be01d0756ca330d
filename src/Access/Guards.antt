-- ===== src/Access/Guards.antt =====
-- The guards of app/api/deps.py, behind `get_current_user`.
use matchmaking_backend.Prelude.{
  Bool, not, String, List, [], ◌∷◌, ◌||◌, false, ◌==◌, contains_all, contains_any,
}
use matchmaking_backend.Errors.{Error, Code}
use matchmaking_backend.Enums.{UserRole, role_index}
use matchmaking_backend.Models.{User}
use matchmaking_backend.World.{Exec, pure, raise_if, gets, ◌>>=◌, ◌>>◌}
use matchmaking_backend.Access.Roles.{permissions_for_role}

abbrev has_role : UserRole → List UserRole → Bool
has_role role [] = false
has_role role (r ∷ rs) = role_index role == role_index r || has_role role rs

unfoldable pub require_role : List UserRole → User → Exec User
require_role roles user = do
  raise_if (not (has_role user.role roles)) (Error.forbidden Code.forbidden_code)
  pure user

unfoldable pub require_permission : List String → User → Exec User
require_permission permissions user = do
  allowed ← gets (permissions_for_role user.role)
  raise_if (not (contains_all permissions allowed)) (Error.forbidden Code.forbidden_code)
  pure user

unfoldable pub require_any_permission : List String → User → Exec User
require_any_permission permissions user = do
  allowed ← gets (permissions_for_role user.role)
  raise_if (not (contains_any permissions allowed)) (Error.forbidden Code.forbidden_code)
  pure user
